-- ===== src/Concepts/Equality.antt =====
-- `reflect.DeepEqual` on the types of internal/concepts/types.go, as merge.go uses it.
use tspack.Base.{
  Bool, true, false, ◌&&◌, Option, none, some, List, [], ◌∷◌, String, Map, str_eq, bool_eq, ◌==◌,
  length, lookup, ◌≡◌, arith, eq_iff,
}
use tspack.Concepts.Fragment.{
  VariableContribution, WorkspaceContribution, PackageContribution, PackContribution,
  TargetContribution, RunTargetContribution, EnvContribution, ServiceContribution,
  PolicyContribution, FileContribution, SlotMode, SlotContribution,
}

abbrev strings_eq : List String → List String → Bool
strings_eq [] [] = true
strings_eq (x ∷ xs) (y ∷ ys) = str_eq x y && strings_eq xs ys
strings_eq _ _ = false

-- A nil slice is equal to no other.
abbrev slices_eq : Option (List String) → Option (List String) → Bool
slices_eq none none = true
slices_eq (some xs) (some ys) = strings_eq xs ys
slices_eq _ _ = false

abbrev pub variable_eq : VariableContribution → VariableContribution → Bool
variable_eq a b =
    str_eq a.name b.name
    && str_eq a.description b.description
    && str_eq a.default b.default
    && slices_eq a.allowed b.allowed
    && str_eq a.source b.source

abbrev pub workspace_eq : WorkspaceContribution → WorkspaceContribution → Bool
workspace_eq a b = str_eq a.name b.name

abbrev pub package_eq : PackageContribution → PackageContribution → Bool
package_eq a b = str_eq a.name b.name && str_eq a.kind b.kind

abbrev pub pack_eq : PackContribution → PackContribution → Bool
pack_eq a b = str_eq a.format b.format && str_eq a.artifact b.artifact

abbrev pub target_eq : TargetContribution → TargetContribution → Bool
target_eq a b =
    str_eq a.name b.name
    && str_eq a.export b.export
    && str_eq a.entry b.entry
    && str_eq a.runtime b.runtime
    && str_eq a.types b.types

abbrev pub run_target_eq : RunTargetContribution → RunTargetContribution → Bool
run_target_eq a b = str_eq a.name b.name && str_eq a.command b.command && str_eq a.cwd b.cwd

abbrev pub env_eq : EnvContribution → EnvContribution → Bool
env_eq a b =
    str_eq a.name b.name
    && str_eq a.default b.default
    && str_eq a.description b.description
    && bool_eq a.required b.required
    && bool_eq a.secret b.secret

abbrev pub service_eq : ServiceContribution → ServiceContribution → Bool
service_eq a b =
    str_eq a.name b.name
    && str_eq a.protocol b.protocol
    && str_eq a.endpoint b.endpoint
    && bool_eq a.optional b.optional

abbrev pub policy_eq : PolicyContribution → PolicyContribution → Bool
policy_eq a b = str_eq a.subject b.subject && str_eq a.action b.action && str_eq a.range b.range

abbrev pub file_eq : FileContribution → FileContribution → Bool
file_eq a b = str_eq a.path b.path && str_eq a.content b.content && bool_eq a.rendered b.rendered

abbrev mode_eq : SlotMode → SlotMode → Bool
mode_eq SlotMode.single_owner SlotMode.single_owner = true
mode_eq SlotMode.append_ordered SlotMode.append_ordered = true
mode_eq SlotMode.map_by_key SlotMode.map_by_key = true
mode_eq _ _ = false

abbrev has_value : Option String → String → Bool
has_value none value = false
has_value (some other) value = str_eq other value

abbrev entries_in : Map String → Map String → Bool
entries_in [] entries = true
entries_in ((key, value) ∷ rest) entries =
    has_value (lookup key entries) value && entries_in rest entries

abbrev maps_eq : Option (Map String) → Option (Map String) → Bool
maps_eq none none = true
maps_eq (some a) (some b) = length a == length b && entries_in a b
maps_eq _ _ = false

abbrev pub slot_eq : SlotContribution → SlotContribution → Bool
slot_eq a b =
    str_eq a.name b.name
    && mode_eq a.mode b.mode
    && str_eq a.owner b.owner
    && slices_eq a.values b.values
    && maps_eq a.entries b.entries

bool_eq_sound : (a b : Bool) → bool_eq a b ≡ true → a ≡ b
bool_eq_sound true b h = ground arith
bool_eq_sound false true h = ground arith
bool_eq_sound false false h = ground arith

strings_eq_sound : (xs ys : List String) → strings_eq xs ys ≡ true → xs ≡ ys
strings_eq_sound [] [] h = ground arith
strings_eq_sound (x ∷ xs) [] h = ground arith
strings_eq_sound [] (y ∷ ys) h = ground arith
strings_eq_sound (x ∷ xs) (y ∷ ys) h = ground (arith, eq_iff x y, strings_eq_sound xs ys)

slices_eq_sound : (a b : Option (List String)) → slices_eq a b ≡ true → a ≡ b
slices_eq_sound none none h = ground arith
slices_eq_sound none (some ys) h = ground arith
slices_eq_sound (some xs) none h = ground arith
slices_eq_sound (some xs) (some ys) h = ground (arith, strings_eq_sound xs ys)

pub variable_eq_sound : (a b : VariableContribution) → variable_eq a b ≡ true → a ≡ b
variable_eq_sound a b h = grind (
  arith,
  eq_iff a.name b.name,
  eq_iff a.description b.description,
  eq_iff a.default b.default,
  slices_eq_sound a.allowed b.allowed,
  eq_iff a.source b.source,
)

pub target_eq_sound : (a b : TargetContribution) → target_eq a b ≡ true → a ≡ b
target_eq_sound a b h = grind (
  arith,
  eq_iff a.name b.name,
  eq_iff a.export b.export,
  eq_iff a.entry b.entry,
  eq_iff a.runtime b.runtime,
  eq_iff a.types b.types,
)

pub run_target_eq_sound : (a b : RunTargetContribution) → run_target_eq a b ≡ true → a ≡ b
run_target_eq_sound a b h =
    grind (arith, eq_iff a.name b.name, eq_iff a.command b.command, eq_iff a.cwd b.cwd)

pub env_eq_sound : (a b : EnvContribution) → env_eq a b ≡ true → a ≡ b
env_eq_sound a b h = grind (
  arith,
  eq_iff a.name b.name,
  eq_iff a.default b.default,
  eq_iff a.description b.description,
  bool_eq_sound a.required b.required,
  bool_eq_sound a.secret b.secret,
)

pub service_eq_sound : (a b : ServiceContribution) → service_eq a b ≡ true → a ≡ b
service_eq_sound a b h = grind (
  arith,
  eq_iff a.name b.name,
  eq_iff a.protocol b.protocol,
  eq_iff a.endpoint b.endpoint,
  bool_eq_sound a.optional b.optional,
)

pub policy_eq_sound : (a b : PolicyContribution) → policy_eq a b ≡ true → a ≡ b
policy_eq_sound a b h =
    grind (arith, eq_iff a.subject b.subject, eq_iff a.action b.action, eq_iff a.range b.range)

pub file_eq_sound : (a b : FileContribution) → file_eq a b ≡ true → a ≡ b
file_eq_sound a b h =
    grind
      (arith, eq_iff a.path b.path, eq_iff a.content b.content, bool_eq_sound a.rendered b.rendered)
