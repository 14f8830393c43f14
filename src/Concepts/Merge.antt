-- ===== src/Concepts/Merge.antt =====
-- `Merge` of internal/concepts/merge.go. A loop that writes to a slice and to `m.owners` takes and
-- returns the pair of them. A loop over a map goes over its entries in the order of the list.
pub mod Unnamed
pub mod Whole
pub mod Unions
pub mod Lists
pub mod Adding
pub mod Parts
pub mod Scalars
pub mod Laws
pub mod Kinds
pub mod Owners
pub mod Records
pub mod Triples
pub mod Apart
use Prim.Native.String.{◌++◌ as append}
use tspack.Base.{
  ℕ, suc, ◌+◌, ◌-◌, Bool, true, false, not, ◌&&◌, Option, none, some, List, [], ◌∷◌, ◌++◌, String,
  Map, str_eq, lookup, put, length, ltb, any, if◌then◌else◌, ◌≡◌, refl,
}
use tspack.Concepts.Fragment.{
  VariableContribution, WorkspaceContribution, PackageContribution, PackContribution,
  TargetContribution, DependencyContribution, RunTargetContribution, EnvContribution,
  ServiceContribution, PolicyContribution, FileContribution, ManifestContributions, Projections,
  SlotMode, SlotContribution, Fragment, MergedConceptIr, Reason, Conflict,
}
use tspack.Concepts.Equality.{
  variable_eq, workspace_eq, package_eq, pack_eq, target_eq, run_target_eq, env_eq, service_eq,
  policy_eq, file_eq, slot_eq,
}
use tspack.Concepts.Declarations.{dependency_declarations}

-- What is merged, or the conflict that is returned.
pub data Outcome {ℓ} (A : Type ℓ) : Type ℓ where
  conflicting : Conflict → Outcome A
  merged : A → Outcome A

infixl 10 ◌>>=◌
abbrev pub ◌>>=◌ {ℓ κ} : {A : Type ℓ} {B : Type κ} → Outcome A → (A → Outcome B) → Outcome B
conflicting c >>= next = conflicting c
merged a >>= next = next a

abbrev pub Owners : Type 0
Owners = Map String

abbrev pub Priority : Type 0
Priority = Map ℕ

-- `m.owners[path]` and `m.priority[concept]`, with the zero value on a missing key.
abbrev or_nobody : Option String → String
or_nobody none = ""
or_nobody (some owner) = owner

abbrev or_first : Option ℕ → ℕ
or_first none = 0
or_first (some n) = n

unfoldable pub priority_of : Priority → String → ℕ
priority_of priority concept = or_first (lookup concept priority)

unfoldable pub make_conflict : Priority → String → String → String → Reason → Conflict
unfolding priority_of
make_conflict priority path concept_a concept_b reason =
    let swapped = ltb (priority_of priority concept_b) (priority_of priority concept_a) in
    record {
      path = path;
      concept_a = concept_a;
      concept_b = concept_b;
      reason = reason;
      higher_priority_concept = if swapped then concept_b else concept_a;
      lower_priority_concept = if swapped then concept_a else concept_b;
    }

abbrev pub owner_key : String → String
owner_key path = append "owner." path

unfoldable pub conflict : Priority → Owners → String → String → Reason → Conflict
unfolding make_conflict
conflict priority owners path concept reason =
    make_conflict priority path (or_nobody (lookup (owner_key path) owners)) concept reason

-- What the loop over the existing contributions finds.
pub data Found : Type 0 where
  absent equal different : Found

module _ {T : Type 0} (key : T → String) (same : T → T → Bool) where
  unfoldable pub find_same : List T → T → Found
  find_same [] value = absent
  find_same (existing ∷ rest) value =
      if str_eq (key existing) (key value)
      then (if same existing value then equal else different)
      else find_same rest value

  module _ (priority : Priority) (prefix concept : String) where
    abbrev pub place_found : T → List T → Owners → Found → Outcome (List T × Owners)
    place_found value target owners absent =
        merged (target ++ value ∷ [], put (owner_key (append prefix (key value))) concept owners)
    place_found value target owners equal = merged (target, owners)
    place_found value target owners different =
        conflicting (
          conflict priority owners (append prefix (key value)) concept
            Reason.different_contribution)

    -- `addUnique`.
    unfoldable pub add_unique : T → List T → Owners → Outcome (List T × Owners)
    unfolding find_same
    add_unique value target owners = place_found value target owners (find_same target value)

    -- The loop over the contributions of one kind.
    unfoldable pub add_uniques : List T → List T → Owners → Outcome (List T × Owners)
    unfolding add_unique
    add_uniques [] target owners = merged (target, owners)
    add_uniques (value ∷ values) target owners =
        add_unique value target owners >>= (λ p. add_uniques values p.0 p.1)

abbrev pub kind_key : String → String → String
kind_key kind name = append "depkind." (append kind (append "." name))

abbrev pub dependency_kinds : List String
dependency_kinds = "dependency" ∷ "tool" ∷ "peer" ∷ []

abbrev pub kind_conflict :
    Priority → String → String → String → String → Option String → Option Conflict
kind_conflict priority name kind concept other none = none
kind_conflict priority name kind concept other (some owner) =
    if not (str_eq other kind)
    then some (
        make_conflict priority (append "manifest.dependencies." name) owner concept
          (Reason.declared_as other kind))
    else none

abbrev pub or_else_conflict : Option Conflict → Outcome Owners → Outcome Owners
or_else_conflict none next = next
or_else_conflict (some c) next = conflicting c

-- `crossKindDependencyConflict`, and its loop over the kinds.
unfoldable pub cross_kinds :
    Priority → String → String → String → Owners → List String → Outcome Owners
unfolding make_conflict
cross_kinds priority name kind concept owners [] = merged (put (kind_key kind name) concept owners)
cross_kinds priority name kind concept owners (other ∷ rest) =
    let next = cross_kinds priority name kind concept owners rest in
    or_else_conflict
      (kind_conflict priority name kind concept other (lookup (kind_key other name) owners)) next

unfoldable pub cross_kind_dependency_conflict :
    Priority → String → String → String → Owners → Outcome Owners
unfolding cross_kinds
cross_kind_dependency_conflict priority name kind concept owners =
    cross_kinds priority name kind concept owners dependency_kinds

abbrev pub same_dependency : DependencyContribution → DependencyContribution → Bool
same_dependency a b = str_eq a.range b.range && str_eq a.source b.source

abbrev pub dependency_name : DependencyContribution → String
dependency_name d = d.name

module _ (priority : Priority) (path concept kind : String) where
  abbrev pub declared : DependencyContribution → DependencyContribution
  declared value = record value {
    declared_by = concept;
    declaration_order = length priority - priority_of priority concept;
  }

  abbrev pub place_dependency :
      DependencyContribution
      → List DependencyContribution
      → Owners
      → Found
      → Outcome (List DependencyContribution × Owners)
  place_dependency value target owners absent = merged (
    target ++ declared value ∷ [],
    put (owner_key (append path (append "." value.name))) concept owners,
  )
  place_dependency value target owners equal = merged (target, owners)
  place_dependency value target owners different = conflicting (
      conflict priority owners (append path (append "." value.name)) concept
        Reason.different_contribution)

  -- The body of the loop of `addDeps`.
  unfoldable pub add_dependency :
      DependencyContribution
      → List DependencyContribution
      → Owners
      → Outcome (List DependencyContribution × Owners)
  unfolding cross_kind_dependency_conflict find_same
  add_dependency value target owners = do
    owners' ← cross_kind_dependency_conflict priority value.name kind concept owners
    place_dependency value target owners' (find_same dependency_name same_dependency target value)

  unfoldable pub add_deps :
      List DependencyContribution
      → List DependencyContribution
      → Owners
      → Outcome (List DependencyContribution × Owners)
  unfolding add_dependency
  add_deps [] target owners = merged (target, owners)
  add_deps (value ∷ values) target owners =
      add_dependency value target owners >>= (λ p. add_deps values p.0 p.1)
