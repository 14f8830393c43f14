-- ===== src/Concepts/Resolve.antt =====
-- internal/concepts/resolve.go, and the registry of registry.go.
pub mod Checks
pub mod Stack
use tspack.Base.{
  is_among, Bool, true, false, not, ◌&&◌, Option, none, some, List, [], ◌∷◌, ◌++◌, map, String, Map,
  str_eq, lookup, put, any, length, ltb, if◌then◌else◌,
}
use tspack.Base.Text.{sort_strings}
use tspack.Concepts.Fragment.{Fragment, Conflict, Reason}

-- `NewRegistry`, `Lookup` and `BuiltinNames`.
unfoldable pub register_all : Map Fragment → List Fragment → Map Fragment
register_all registry [] = registry
register_all registry (fragment ∷ rest) = register_all (put fragment.name fragment registry) rest

unfoldable pub new_registry : List Fragment → Map Fragment
unfolding register_all
new_registry fragments = register_all [] fragments

unfoldable pub builtin_names : Map Fragment → List String
builtin_names registry = sort_strings (map (λ (p : String × Fragment). p.0) registry)

-- `DiagnosticError` by its kinds, and the declared conflict.
pub data ResolveError : Type 0 where
  unknown : String → ResolveError
  incompatible_kind : String → String → ResolveError
  missing_expected : String → String → ResolveError
  expects_any_of : String → List String → ResolveError
  declared_conflict : Conflict → ResolveError

pub data Resolution {ℓ} (A : Type ℓ) : Type ℓ where
  failed : ResolveError → Resolution A
  resolved : A → Resolution A

pub record Listed : Type 0 where
  pub listed : List String
  pub fragments : List Fragment

abbrev pub list_fragment : String → Fragment → Listed → Listed
list_fragment name fragment s =
    if is_among name s.listed
    then s
    else record { listed = name ∷ s.listed; fragments = s.fragments ++ fragment ∷ [] }

abbrev pub list_found :
    String → Option Fragment → Listed → (Listed → Resolution Listed) → Resolution Listed
list_found name none s next = failed (unknown name)
list_found name (some fragment) s next = next (list_fragment name fragment s)

-- The loop over the requested names.
unfoldable pub list_all : (String → Option Fragment) → List String → Listed → Resolution Listed
list_all find [] s = resolved s
list_all find (name ∷ rest) s = list_found name (find name) s (list_all find rest)

unfoldable pub missing_of : Fragment → List String → List String → Option ResolveError
missing_of fragment listed [] = none
missing_of fragment listed (expected ∷ rest) =
    if not (is_among expected listed)
    then some (missing_expected fragment.name expected)
    else missing_of fragment listed rest

unfoldable pub any_listed : List String → List String → Bool
any_listed [] listed = false
any_listed (name ∷ rest) listed = if is_among name listed then true else any_listed rest listed

unfoldable pub unmet_of : Fragment → List String → List (List String) → Option ResolveError
unfolding any_listed
unmet_of fragment listed [] = none
unmet_of fragment listed (group ∷ rest) =
    if not (any_listed group listed)
    then some (expects_any_of fragment.name group)
    else unmet_of fragment listed rest

unfoldable pub conflict_of : Fragment → List String → List String → Option ResolveError
conflict_of fragment listed [] = none
conflict_of fragment listed (other ∷ rest) =
    if is_among other listed
    then some (
        declared_conflict (record {
          path = "concepts";
          concept_a = fragment.name;
          concept_b = other;
          reason = Reason.declared_conflict;
          higher_priority_concept = "";
          lower_priority_concept = "";
        }))
    else conflict_of fragment listed rest

abbrev pub is_incompatible : Fragment → String → Bool
is_incompatible fragment kind =
    ltb 0 (length fragment.compatible_kinds)
    && not (str_eq kind "")
    && not (is_among kind fragment.compatible_kinds)

abbrev pub or_next : Option ResolveError → Option ResolveError → Option ResolveError
or_next none next = next
or_next (some e) next = some e

-- The body of the loop over the fragments.
unfoldable pub failure_of : String → List String → Fragment → Option ResolveError
unfolding missing_of unmet_of conflict_of
failure_of kind listed fragment =
    if is_incompatible fragment kind
    then some (incompatible_kind fragment.name kind)
    else or_next (missing_of fragment listed fragment.requires) (
        or_next (unmet_of fragment listed fragment.requires_any_of)
          (conflict_of fragment listed fragment.conflicts))

unfoldable pub first_failure : String → List String → List Fragment → Option ResolveError
unfolding failure_of
first_failure kind listed [] = none
first_failure kind listed (fragment ∷ rest) =
    or_next (failure_of kind listed fragment) (first_failure kind listed rest)

abbrev pub unless_failure : List Fragment → Option ResolveError → Resolution (List Fragment)
unless_failure fragments none = resolved fragments
unless_failure fragments (some e) = failed e

abbrev pub check_listed : String → Resolution Listed → Resolution (List Fragment)
check_listed kind (failed e) = failed e
check_listed kind (resolved s) =
    unless_failure s.fragments (first_failure kind s.listed s.fragments)

abbrev pub nothing_listed : Listed
nothing_listed = record { listed = []; fragments = [] }

-- `ResolveWithRegistry`, where `find` is the lookup of the registry.
unfoldable pub resolve_with_registry :
    (String → Option Fragment) → List String → String → Resolution (List Fragment)
unfolding list_all first_failure
resolve_with_registry find requested kind =
    check_listed kind (list_all find requested nothing_listed)
