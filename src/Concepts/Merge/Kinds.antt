-- ===== src/Concepts/Merge/Kinds.antt =====
-- `crossKindDependencyConflict` of internal/concepts/merge.go: what `m.owners` records, and that no
-- package gets two kinds.
use tspack.Base.{
  ◌≡◌, ◌≢◌, ◌∙◌, refl, sym, subst, Bool, inl, inr, Option, none, some, Bool-cases, List, [], ◌∷◌,
  String, Memᴰ, lookup, put, lookup-put, str_eq, eq_iff, arith,
}
use tspack.Concepts.Fragment.{Conflict}
use tspack.Concepts.Merge.{
  merged, Owners, Priority, Found, absent, equal, different, find_same, place_found, add_unique,
  add_uniques, kind_key, kind_conflict, or_else_conflict, cross_kinds,
}
use tspack.Concepts.Merge.Lists.{on_merged, merged_inj}

abbrev pub IsOwned : String → Owners → Type 0
IsOwned key owners = (owner : String) × (lookup key owners ≡ some owner)

-- No owner is forgotten.
abbrev pub Grows : Owners → Owners → Type 0
Grows before after = (key : String) → IsOwned key before → IsOwned key after

pub Grows-put : (key owner : String) (owners : Owners) → Grows owners (put key owner owners)
Grows-put key owner owners k (o, e) = elim (Bool-cases (str_eq key k)) [
  | inl same ↦ (owner, ground (arith, lookup-put key k owner owners))
  | inr other ↦ (o, ground (arith, lookup-put key k owner owners))
]

put-IsOwned : (key owner : String) (owners : Owners) → IsOwned key (put key owner owners)
put-IsOwned key owner owners =
    (owner, ground (arith, lookup-put key key owner owners, eq_iff key key))

module _ {T : Type 0} (key : T → String) (same : T → T → Bool) (priority : Priority)
    (prefix concept : String) where
  place_found-Grows :
      (value : T) (target : List T) (owners : Owners) (found : Found) (p : List T × Owners)
      → place_found key same priority prefix concept value target owners found ≡ merged p
      → Grows owners p.1
  place_found-Grows value target owners absent p h =
      subst (λ (q : List T × Owners). Grows owners q.1) (merged_inj h) (Grows-put _ concept owners)
  place_found-Grows value target owners equal p h =
      subst (λ (q : List T × Owners). Grows owners q.1) (merged_inj h) (λ k o. o)
  place_found-Grows value target owners different p h = cc

  pub add_uniques-Grows :
      (values target : List T) (owners : Owners) (p : List T × Owners)
      → add_uniques key same priority prefix concept values target owners ≡ merged p
      → Grows owners p.1
  unfolding add_uniques add_unique
  add_uniques-Grows [] target owners p h =
      subst (λ (q : List T × Owners). Grows owners q.1) (merged_inj h) (λ k o. o)
  add_uniques-Grows (value ∷ values) target owners p h =
      on_merged (add_unique key same priority prefix concept value target owners)
        (λ q. add_uniques key same priority prefix concept values q.0 q.1) h
        (λ q e h'. λ k o.
          add_uniques-Grows values q.0 q.1 p h' k
            (place_found-Grows value target owners (find_same key same target value) q e k o))

-- What the check of the kinds of a package has found.
pub record Cleared (name kind : String) (owners after : Owners) (kinds : List String) : Type 0 where
  pub grown : Grows owners after
  pub recorded : IsOwned (kind_key kind name) after
  pub free :
      (other : String)
      → Memᴰ other kinds
      → other ≢ kind
      → lookup (kind_key other name) owners ≡ none

pub cross_kinds-Cleared :
    (priority : Priority) (name kind concept : String) (owners after : Owners) (kinds : List String)
    → cross_kinds priority name kind concept owners kinds ≡ merged after
    → Cleared name kind owners after kinds
unfolding cross_kinds
cross_kinds-Cleared priority name kind concept owners after [] h = record {
  grown = subst (Grows owners) (merged_inj h) (Grows-put (kind_key kind name) concept owners);
  recorded =
      subst (IsOwned (kind_key kind name)) (merged_inj h)
        (put-IsOwned (kind_key kind name) concept owners);
  free = λ other m d. elim m [ ];
}
cross_kinds-Cleared priority name kind concept owners after (first ∷ rest) h =
    let (quiet, h') =
      split (kind_conflict priority name kind concept first (lookup (kind_key first name) owners))
        h in
    let c = cross_kinds-Cleared priority name kind concept owners after rest h' in
    record {
      grown = c.grown;
      recorded = c.recorded;
      free = λ other m d. elim m [
        | Memᴰ.head e ↦ unowned first other e d (lookup (kind_key first name) owners) refl quiet
        | Memᴰ.tail m' ↦ c.free other m' d
      ];
    }
  where
    split :
        (o : Option Conflict)
        → or_else_conflict o (cross_kinds priority name kind concept owners rest) ≡ merged after
        → (o ≡ none) × (cross_kinds priority name kind concept owners rest ≡ merged after)
    split none h = (refl, h)
    split (some c) h = cc

    unowned :
        (first other : String)
        → other ≡ first
        → other ≢ kind
        → (o : Option String) → lookup (kind_key first name) owners ≡ o
        → kind_conflict priority name kind concept first o ≡ none
        → lookup (kind_key other name) owners ≡ none
    unowned first other e d none at quiet =
        subst (λ k. lookup (kind_key k name) owners ≡ none) (sym e) at
    unowned first other e d (some owner) at quiet = elim (Bool-cases (str_eq first kind)) [
      | inl same ↦ elim (d (e ∙ (eq_iff first kind).0 same)) [ ]
      | inr differs ↦ ground arith
    ]
