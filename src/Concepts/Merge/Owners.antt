-- ===== src/Concepts/Merge/Owners.antt =====
-- The loops of merge.go over projections and slots forget no owner.
use tspack.Base.{
  ◌≡◌, subst, inl, inr, Option, none, some, Bool-cases, List, [], ◌∷◌, ◌++◌, String, Map, lookup,
  put, arith,
}
use Prim.Native.String.{◌++◌ as append}
use tspack.Concepts.Fragment.{SlotContribution, Projections, Conflict}
use tspack.Concepts.Equality.{slot_eq}
use tspack.Concepts.Merge.{
  Outcome, merged, Owners, Priority, Found, absent, equal, different, find_same, owner_key,
}
use tspack.Concepts.Merge.Unnamed.{
  add_fields, scalar_conflict, unless_conflict, or_no_fields, merge_projections, merge_slots,
  place_slot, is_append, slot_name,
}
use tspack.Concepts.Merge.Lists.{on_merged, merged_inj}
use tspack.Concepts.Merge.Kinds.{Grows, Grows-put}

module _ (priority : Priority) (concept : String) where
  add_fields-Grows :
      (object : String) (values fields : Map String) (owners : Owners) (p : Map String × Owners)
      → add_fields priority concept object values fields owners ≡ merged p
      → Grows owners p.1
  unfolding add_fields
  add_fields-Grows object [] fields owners p h =
      subst (λ (q : Map String × Owners). Grows owners q.1) (merged_inj h) (λ k o. o)
  add_fields-Grows object ((key, value) ∷ rest) fields owners p h =
      let path = append "projections." (append object (append "." key)) in
      λ k o.
        add_fields-Grows object rest (put key value fields) (put (owner_key path) concept owners) p
          (passed (scalar_conflict priority concept owners path value (lookup key fields)) h) k
          (Grows-put (owner_key path) concept owners k o)
    where
      passed :
          {next : Outcome (Map String × Owners)} (o : Option Conflict)
          → unless_conflict priority concept o next ≡ merged p
          → next ≡ merged p
      passed none h = h
      passed (some c) h = cc

  pub merge_projections-Grows :
      (values objects : Projections) (owners : Owners) (p : Projections × Owners)
      → merge_projections priority concept values objects owners ≡ merged p
      → Grows owners p.1
  unfolding merge_projections
  merge_projections-Grows [] objects owners p h =
      subst (λ (q : Projections × Owners). Grows owners q.1) (merged_inj h) (λ k o. o)
  merge_projections-Grows ((object, fields) ∷ rest) objects owners p h =
      on_merged
        (add_fields priority concept object fields (or_no_fields (lookup object objects)) owners)
        (λ q. merge_projections priority concept rest (put object q.0 objects) q.1) h
        (λ q e h'. λ k o.
          merge_projections-Grows rest (put object q.0 objects) q.1 p h' k
            (add_fields-Grows object fields (or_no_fields (lookup object objects)) owners q e k o))

  pub merge_slots-Grows :
      (values slots : List SlotContribution) (owners : Owners) (p : List SlotContribution × Owners)
      → merge_slots priority concept values slots owners ≡ merged p
      → Grows owners p.1
  unfolding merge_slots
  merge_slots-Grows [] slots owners p h =
      subst (λ (q : List SlotContribution × Owners). Grows owners q.1) (merged_inj h) (λ k o. o)
  merge_slots-Grows (slot ∷ rest) slots owners p h = elim (Bool-cases (is_append slot.mode)) [
    | inl appended ↦ merge_slots-Grows rest (slots ++ slot ∷ []) owners p (ground arith)
    | inr single ↦
        placed (λ slots owners h. merge_slots-Grows rest slots owners p h)
          (find_same (slot_name priority concept) slot_eq slots slot) (ground arith)
  ]
    where
      placed :
          ((slots : List SlotContribution) (owners : Owners)
            → merge_slots priority concept rest slots owners ≡ merged p
            → Grows owners p.1)
          → (found : Found)
          → place_slot priority concept slot slots owners found (merge_slots priority concept rest)
            ≡ merged p
          → Grows owners p.1
      placed later absent h = λ k o.
          later (slots ++ slot ∷ []) (put (owner_key (append "slots." slot.name)) concept owners) h
            k (Grows-put (owner_key (append "slots." slot.name)) concept owners k o)
      placed later equal h =
          subst (λ (q : List SlotContribution × Owners). Grows owners q.1) (merged_inj h) (λ k o. o)
      placed later different h = cc
