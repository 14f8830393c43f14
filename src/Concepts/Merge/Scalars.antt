-- ===== src/Concepts/Merge/Scalars.antt =====
-- `mergeProjections` of internal/concepts/merge.go: each scalar that a fragment projects can be read
-- from the result.
use tspack.Base.{
  ◌≡◌, ◌∙◌, sym, ap, subst, true, false, inl, inr, Bool-cases, Option, none, some, List, [], ◌∷◌,
  String, Map, Memᴰ, lookup, put, lookup-put, str_eq, eq_iff, arith,
}
use Prim.Native.String.{◌++◌ as append}
use tspack.Concepts.Fragment.{Projections, Fragment, MergedConceptIr}
use tspack.Concepts.Merge.{Outcome, merged, Owners, Priority, owner_key}
use tspack.Concepts.Merge.Unnamed.{
  or_no_fields, scalar_conflict, unless_conflict, add_fields, merge_projections,
}
use tspack.Concepts.Merge.Whole.{MergeState, add, add_all, merge, priorities, empty_ir}
use tspack.Concepts.Merge.Adding.{add-Adding}
use tspack.Concepts.Merge.Lists.{on_merged, merged_inj}

-- The scalar at a key of an object.
abbrev pub scalar_at : Projections → String → String → Option String
scalar_at objects object key = lookup key (or_no_fields (lookup object objects))

module _ (priority : Priority) (concept object : String) where
  -- Where the loop goes on, the key holds the value or nothing.
  passed :
      {T : Type 0} (owners : Owners) (path value : String) (o : Option String) (next : Outcome T)
      (t : T)
      → unless_conflict priority concept (scalar_conflict priority concept owners path value o) next
        ≡ merged t
      → (next ≡ merged t) × ((v : String) → o ≡ some v → v ≡ value)
  passed owners path value none next t h = (h, λ v e. cc)
  passed owners path value (some existing) next t h = elim (Bool-cases (str_eq existing value)) [
    | inl same ↦ (ground arith, λ v e. ground (arith, eq_iff existing value))
    | inr other ↦ ground arith
  ]

  add_fields-kept :
      (values fields : Map String) (owners : Owners) (p : Map String × Owners)
      → add_fields priority concept object values fields owners ≡ merged p
      → (k v : String) → lookup k fields ≡ some v
      → lookup k p.0 ≡ some v
  unfolding add_fields
  add_fields-kept [] fields owners p h k v e =
      subst (λ (q : Map String × Owners). lookup k q.0 ≡ some v) (merged_inj h) e
  add_fields-kept ((key, value) ∷ rest) fields owners p h k v e =
      let path = append "projections." (append object (append "." key)) in
      let next = put (owner_key path) concept owners in
      let (h', same) =
        passed owners path value (lookup key fields)
          (add_fields priority concept object rest (put key value fields) next) p h in
      add_fields-kept rest (put key value fields) next p h' k v (elim (Bool-cases (str_eq key k)) [
        | inl at ↦
            let named : key ≡ k = (eq_iff key k).0 at in
            let equal = same v (subst (λ x. lookup x fields ≡ some v) (sym named) e) in
            ground (arith, lookup-put key k value fields)
        | inr other ↦ ground (arith, lookup-put key k value fields)
      ])

  add_fields-Mem :
      (values fields : Map String) (owners : Owners) (p : Map String × Owners)
      → add_fields priority concept object values fields owners ≡ merged p
      → (k v : String) → Memᴰ (k, v) values
      → lookup k p.0 ≡ some v
  unfolding add_fields
  add_fields-Mem [] fields owners p h k v m = elim m [ ]
  add_fields-Mem ((key, value) ∷ rest) fields owners p h k v m =
      let path = append "projections." (append object (append "." key)) in
      let next = put (owner_key path) concept owners in
      let (h', same) =
        passed owners path value (lookup key fields)
          (add_fields priority concept object rest (put key value fields) next) p h in
      elim m [
        | Memᴰ.head e ↦ add_fields-kept rest (put key value fields) next p h' k v (
            let named : k ≡ key = ap (λ (q : String × String). q.0) e in
            let valued : v ≡ value = ap (λ (q : String × String). q.1) e in
            ground (arith, lookup-put key k value fields, eq_iff key k))
        | Memᴰ.tail m' ↦ add_fields-Mem rest (put key value fields) next p h' k v m'
      ]

module _ (priority : Priority) (concept : String) where
  put-scalar :
      (o object k v : String) (objects : Projections) (fields : Map String)
      → (str_eq object o ≡ true → lookup k fields ≡ some v)
      → (str_eq object o ≡ false → scalar_at objects o k ≡ some v)
      → scalar_at (put object fields objects) o k ≡ some v
  put-scalar o object k v objects fields here there = elim (Bool-cases (str_eq object o)) [
    | inl at ↦
        let found : lookup o (put object fields objects) ≡ some fields =
          ground (arith, lookup-put object o fields objects) in
        ap (λ f. lookup k (or_no_fields f)) found ∙ here at
    | inr other ↦
        let same : lookup o (put object fields objects) ≡ lookup o objects =
          ground (arith, lookup-put object o fields objects) in
        ap (λ f. lookup k (or_no_fields f)) same ∙ there other
  ]

  merge_projections-kept :
      (values objects : Projections) (owners : Owners) (p : Projections × Owners)
      → merge_projections priority concept values objects owners ≡ merged p
      → (o k v : String) → scalar_at objects o k ≡ some v
      → scalar_at p.0 o k ≡ some v
  unfolding merge_projections
  merge_projections-kept [] objects owners p h o k v e =
      subst (λ (q : Projections × Owners). scalar_at q.0 o k ≡ some v) (merged_inj h) e
  merge_projections-kept ((object, fields) ∷ rest) objects owners p h o k v e =
      on_merged
        (add_fields priority concept object fields (or_no_fields (lookup object objects)) owners)
        (λ q. merge_projections priority concept rest (put object q.0 objects) q.1) h
        (λ q added h'. merge_projections-kept rest (put object q.0 objects) q.1 p h' o k v (
          put-scalar o object k v objects q.0
            (λ at.
              add_fields-kept priority concept object fields (or_no_fields (lookup object objects))
                owners q added k v
                (subst (λ x. scalar_at objects x k ≡ some v) (sym ((eq_iff object o).0 at)) e))
            (λ other. e)))

  merge_projections-Mem :
      (values objects : Projections) (owners : Owners) (p : Projections × Owners)
      → merge_projections priority concept values objects owners ≡ merged p
      → (o k v : String) (fields : Map String) → Memᴰ (o, fields) values
      → Memᴰ (k, v) fields
      → scalar_at p.0 o k ≡ some v
  unfolding merge_projections
  merge_projections-Mem [] objects owners p h o k v fields m n = elim m [ ]
  merge_projections-Mem ((object, first) ∷ rest) objects owners p h o k v fields m n =
      on_merged
        (add_fields priority concept object first (or_no_fields (lookup object objects)) owners)
        (λ q. merge_projections priority concept rest (put object q.0 objects) q.1) h
        (λ q added h'. elim m [
          | Memᴰ.tail m' ↦
              merge_projections-Mem rest (put object q.0 objects) q.1 p h' o k v fields m' n
          | Memᴰ.head e ↦
              let named : o ≡ object = ap (λ (q : String × Map String). q.0) e in
              let at : fields ≡ first = ap (λ (q : String × Map String). q.1) e in
              merge_projections-kept rest (put object q.0 objects) q.1 p h' o k v (
                put-scalar o object k v objects q.0
                  (λ here.
                    add_fields-Mem priority concept object first
                      (or_no_fields (lookup object objects)) owners q added k v
                      (subst (Memᴰ (k, v)) at n))
                  (λ other. ground (arith, eq_iff object o, named)))
        ])

add_all-kept :
    (priority : Priority) (fs : List Fragment) (m next : MergeState)
    → add_all priority fs m ≡ merged next
    → (o k v : String) → scalar_at m.ir.projections o k ≡ some v
    → scalar_at next.ir.projections o k ≡ some v
unfolding add_all
add_all-kept priority [] m next h o k v e =
    subst (λ (n : MergeState). scalar_at n.ir.projections o k ≡ some v) (merged_inj h) e
add_all-kept priority (f ∷ fs) m next h o k v e =
    on_merged (add priority f m) (add_all priority fs) h (λ middle added h'.
      let a = add-Adding priority f m middle added in
      add_all-kept priority fs middle next h' o k v (
        merge_projections-kept priority f.name f.projections m.ir.projections a.owners_10
          (middle.ir.projections, a.owners_11) a.at_projections o k v e))

add_all-scalar :
    (priority : Priority) (fs : List Fragment) (m next : MergeState)
    → add_all priority fs m ≡ merged next
    → (f : Fragment) (o k v : String) (fields : Map String) → Memᴰ f fs
    → Memᴰ (o, fields) f.projections
    → Memᴰ (k, v) fields
    → scalar_at next.ir.projections o k ≡ some v
unfolding add_all
add_all-scalar priority [] m next h f o k v fields mf mo mk = elim mf [ ]
add_all-scalar priority (g ∷ fs) m next h f o k v fields mf mo mk =
    on_merged (add priority g m) (add_all priority fs) h (λ middle added h'. elim mf [
      | Memᴰ.tail mf' ↦ add_all-scalar priority fs middle next h' f o k v fields mf' mo mk
      | Memᴰ.head e ↦
          let a = add-Adding priority g m middle added in
          add_all-kept priority fs middle next h' o k v (
            merge_projections-Mem priority g.name g.projections m.ir.projections a.owners_10
              (middle.ir.projections, a.owners_11) a.at_projections o k v fields
              (subst (λ (f : Fragment). Memᴰ (o, fields) f.projections) e mo) mk)
    ])

-- What `Merge` returns without a conflict has each scalar that a fragment projects, at its object
-- and key.
pub merge-scalar_at :
    (fs : List Fragment) (ir : MergedConceptIr) (f : Fragment) (o k v : String)
    (fields : Map String)
    → merge fs ≡ merged ir
    → Memᴰ f fs
    → Memᴰ (o, fields) f.projections
    → Memᴰ (k, v) fields
    → scalar_at ir.projections o k ≡ some v
unfolding merge
merge-scalar_at fs ir f o k v fields h mf mo mk =
    on_merged (add_all (priorities 0 fs []) fs (record { ir = empty_ir fs; owners = [] }))
      (λ (m : MergeState). merged m.ir) h
      (λ m e h'.
        subst (λ (ir : MergedConceptIr). scalar_at ir.projections o k ≡ some v) (merged_inj h')
          (add_all-scalar (priorities 0 fs []) fs (record { ir = empty_ir fs; owners = [] }) m e f o
            k v fields mf mo mk))
