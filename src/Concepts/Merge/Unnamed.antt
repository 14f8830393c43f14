-- ===== src/Concepts/Merge/Unnamed.antt =====
-- The parts of `mergeState.add` in internal/concepts/merge.go that are no named contributions of a
-- slice: concepts, pointers, projections and slots.
use Prim.Native.String.{◌++◌ as append}
use tspack.Base.{
  Bool, true, false, ◌||◌, Option, none, some, List, [], ◌∷◌, ◌++◌, String, Map, str_eq, lookup,
  put, any, if◌then◌else◌,
}
use tspack.Concepts.Fragment.{Projections, SlotMode, SlotContribution, Reason, Conflict}
use tspack.Concepts.Equality.{slot_eq}
use tspack.Concepts.Merge.{
  Outcome, conflicting, merged, ◌>>=◌, Owners, Priority, owner_key, conflict, Found, absent, equal,
  different, find_same,
}

-- `addConcepts`: the set `seen` holds the concepts that are there.
unfoldable pub add_concepts : List String → List String → List String
add_concepts concepts [] = concepts
add_concepts concepts (value ∷ values) =
    add_concepts
      (if str_eq value "" || any (λ c. str_eq c value) concepts
        then concepts
        else concepts ++ value ∷ [])
      values

abbrev pub is_append : SlotMode → Bool
is_append SlotMode.append_ordered = true
is_append _ = false

abbrev pub or_no_fields : Option (Map String) → Map String
or_no_fields none = []
or_no_fields (some fields) = fields

module _ (priority : Priority) (concept : String) where
  -- The pointers `Workspace`, `Package` and `Pack`.
  unfoldable pub add_one :
      {T : Type 0}
      → (T → T → Bool)
      → String
      → Reason
      → Option T
      → Option T
      → Owners
      → Outcome (Option T)
  add_one same path reason none existing owners = merged existing
  add_one same path reason (some value) none owners = merged (some value)
  add_one same path reason (some value) (some existing) owners =
      if same existing value
      then merged (some value)
      else conflicting (conflict priority owners path concept reason)

  abbrev pub scalar_conflict : Owners → String → String → Option String → Option Conflict
  scalar_conflict owners path value none = none
  scalar_conflict owners path value (some existing) =
      if str_eq existing value
      then none
      else some (conflict priority owners path concept (Reason.scalar_differs existing value))

  abbrev pub unless_conflict : {A : Type 0} → Option Conflict → Outcome A → Outcome A
  unless_conflict none next = next
  unless_conflict (some c) next = conflicting c

  -- The inner loop of `mergeProjections`, over the fields of one object.
  unfoldable pub add_fields :
      String → Map String → Map String → Owners → Outcome (Map String × Owners)
  add_fields object [] fields owners = merged (fields, owners)
  add_fields object ((key, value) ∷ rest) fields owners =
      let path = append "projections." (append object (append "." key)) in
      let next =
        add_fields object rest (put key value fields) (put (owner_key path) concept owners) in
      unless_conflict (scalar_conflict owners path value (lookup key fields)) next

  unfoldable pub merge_projections :
      Projections → Projections → Owners → Outcome (Projections × Owners)
  unfolding add_fields
  merge_projections [] objects owners = merged (objects, owners)
  merge_projections ((object, fields) ∷ rest) objects owners =
      add_fields object fields (or_no_fields (lookup object objects)) owners
      >>= (λ p. merge_projections rest (put object p.0 objects) p.1)

  abbrev pub slot_name : SlotContribution → String
  slot_name slot = slot.name

  -- What the loop does with a slot: an equal one ends `mergeSlots` with no error.
  abbrev pub place_slot :
      SlotContribution
      → List SlotContribution
      → Owners
      → Found
      → (List SlotContribution → Owners → Outcome (List SlotContribution × Owners))
      → Outcome (List SlotContribution × Owners)
  place_slot slot slots owners absent next =
      next (slots ++ slot ∷ []) (put (owner_key (append "slots." slot.name)) concept owners)
  place_slot slot slots owners equal next = merged (slots, owners)
  place_slot slot slots owners different next =
      conflicting
        (conflict priority owners (append "slots." slot.name) concept Reason.slot_ownership_differs)

  unfoldable pub merge_slots :
      List SlotContribution
      → List SlotContribution
      → Owners
      → Outcome (List SlotContribution × Owners)
  unfolding find_same
  merge_slots [] slots owners = merged (slots, owners)
  merge_slots (slot ∷ rest) slots owners =
      let appended = merge_slots rest (slots ++ slot ∷ []) owners in
      if is_append slot.mode
      then appended
      else place_slot slot slots owners (find_same slot_name slot_eq slots slot) (merge_slots rest)
