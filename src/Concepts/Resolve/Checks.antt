-- ===== src/Concepts/Resolve/Checks.antt =====
-- When the checks of `ResolveWithRegistry` find no failure.
use tspack.Base.{
  is_among, ◌≡◌, ◌↔◌, refl, Bool, true, not, ◌&&◌, Option, none, some, List, [], ◌∷◌, String, any,
  all, arith,
}
use tspack.Concepts.Fragment.{Fragment}
use tspack.Concepts.Resolve.{
  ResolveError, missing_of, any_listed, unmet_of, conflict_of, is_incompatible, or_next, failure_of,
  first_failure,
}

-- A fragment may stand on the stack of the names that are requested.
-- `at` tells which names are on it.
unfoldable pub fits_among : (String → Bool) → String → Fragment → Bool
fits_among at kind fragment =
    not (is_incompatible fragment kind)
    && (all at fragment.requires
        && (all (any at) fragment.requires_any_of && all (λ c. not (at c)) fragment.conflicts))

abbrev pub fits : List String → String → Fragment → Bool
fits requested = fits_among (λ r. is_among r requested)

missing_of-none :
    (f : Fragment) (listed names : List String)
    → (missing_of f listed names ≡ none) ↔ (all (λ r. is_among r listed) names ≡ true)
unfolding missing_of
missing_of-none f listed [] = (λ h. refl, λ h. refl)
missing_of-none f listed (name ∷ rest) =
    let (to, from) = missing_of-none f listed rest in
    (λ h. ground (arith, to), λ h. ground (arith, from))

any_listed-any :
    (names listed : List String) → any_listed names listed ≡ any (λ r. is_among r listed) names
unfolding any_listed
any_listed-any [] listed = refl
any_listed-any (name ∷ rest) listed = ground (arith, any_listed-any rest listed)

unmet_of-none :
    (f : Fragment) (listed : List String) (groups : List (List String))
    → (unmet_of f listed groups ≡ none)
      ↔ (all (λ group. any (λ r. is_among r listed) group) groups ≡ true)
unfolding unmet_of
unmet_of-none f listed [] = (λ h. refl, λ h. refl)
unmet_of-none f listed (group ∷ rest) =
    let (to, from) = unmet_of-none f listed rest in
    let e = any_listed-any group listed in
    (λ h. ground (arith, to, e), λ h. ground (arith, from, e))

conflict_of-none :
    (f : Fragment) (listed names : List String)
    → (conflict_of f listed names ≡ none) ↔ (all (λ c. not (is_among c listed)) names ≡ true)
unfolding conflict_of
conflict_of-none f listed [] = (λ h. refl, λ h. refl)
conflict_of-none f listed (name ∷ rest) =
    let (to, from) = conflict_of-none f listed rest in
    (λ h. ground (arith, to), λ h. ground (arith, from))

or_next-none : (a b : Option ResolveError) → (or_next a b ≡ none) ↔ ((a ≡ none) × (b ≡ none))
or_next-none none b = (λ h. (refl, h), λ h. h.1)
or_next-none (some e) b = (λ h. ground arith, λ h. h.0)

failure_of-fits :
    (kind : String) (listed : List String) (f : Fragment)
    → (failure_of kind listed f ≡ none) ↔ (fits listed kind f ≡ true)
unfolding failure_of fits_among
failure_of-fits kind listed f =
    let (a, a') = missing_of-none f listed f.requires in
    let (b, b') = unmet_of-none f listed f.requires_any_of in
    let (c, c') = conflict_of-none f listed f.conflicts in
    let inner = or_next (unmet_of f listed f.requires_any_of) (conflict_of f listed f.conflicts) in
    let (d, d') = or_next-none (missing_of f listed f.requires) inner in
    let (e, e') =
      or_next-none (unmet_of f listed f.requires_any_of) (conflict_of f listed f.conflicts) in
    (λ h. ground (arith, a, b, c, d, e), λ h. ground (arith, a', b', c', d', e'))

pub first_failure-fits :
    (kind : String) (listed : List String) (fs : List Fragment)
    → (first_failure kind listed fs ≡ none) ↔ (all (fits listed kind) fs ≡ true)
unfolding first_failure
first_failure-fits kind listed [] = (λ h. refl, λ h. refl)
first_failure-fits kind listed (f ∷ rest) =
    let (a, a') = failure_of-fits kind listed f in
    let (b, b') = first_failure-fits kind listed rest in
    let (c, c') = or_next-none (failure_of kind listed f) (first_failure kind listed rest) in
    (λ h. let (p, q) = c h in ground (arith, a p, b q), λ h. ground (arith, a', b', c'))
