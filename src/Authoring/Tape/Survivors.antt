-- ===== src/Authoring/Tape/Survivors.antt =====
-- Which declarations are effective after `Build` of internal/authoring/tape.go.
use mathlib.Core.List.{append_assoc, append-nil}
use tspack.Base.{
  ◌≡◌, ◌∙◌, refl, ap, sym, Bool, not, List, [], ◌∷◌, ◌++◌, map, String, str_eq, eq_iff, keep, any,
  arith, if◌then◌else◌,
}
use tspack.Authoring.Declaration.{DependencyDeclaration, effective_dependency, declaration_slot_key}
use tspack.Authoring.Tape.{Tape, place, blank, place_all, effective_entries, ordered, build}
use tspack.Authoring.Tape.Shadowing.{others, Tracks, effective-place, place-Tracks, blank-Tracks}

abbrev pub has_slot : String → List DependencyDeclaration → Bool
has_slot slot = any (λ d. str_eq (declaration_slot_key d) slot)

-- The declarations that no later one of the same slot follows.
unfoldable pub survivors : List DependencyDeclaration → List DependencyDeclaration
survivors [] = []
survivors (d ∷ ds) = if has_slot (declaration_slot_key d) ds then survivors ds else d ∷ survivors ds

-- Those that no declaration of a list replaces.
abbrev spared : List DependencyDeclaration → List DependencyDeclaration → List DependencyDeclaration
spared ds = keep (λ d. not (has_slot (declaration_slot_key d) ds))

spared-others :
    (d : DependencyDeclaration) (ds before : List DependencyDeclaration)
    → spared ds (others (declaration_slot_key d) before ++ d ∷ [])
      ≡ spared (d ∷ ds) before ++ (if has_slot (declaration_slot_key d) ds then [] else d ∷ [])
spared-others d ds [] = ground arith
spared-others d ds (x ∷ before) = ground (
  arith,
  spared-others d ds before,
  eq_iff (declaration_slot_key d) (declaration_slot_key x),
  eq_iff (declaration_slot_key x) (declaration_slot_key d),
)

spared-nil : (ds : List DependencyDeclaration) → spared [] ds ≡ ds
spared-nil [] = refl
spared-nil (d ∷ ds) = ap (λ l. d ∷ l) (spared-nil ds)

effective-place_all :
    (t : Tape) (ds : List DependencyDeclaration)
    → Tracks t
    → effective_entries (place_all t ds).entries
      ≡ spared ds (effective_entries t.entries) ++ survivors ds
unfolding place_all survivors
effective-place_all t [] h = sym (append-nil _ ∙ spared-nil (effective_entries t.entries))
effective-place_all t (d ∷ ds) h =
    effective-place_all (place t d) ds (place-Tracks t d h)
    ∙ ap (λ l. spared ds l ++ survivors ds) (effective-place t d h)
    ∙ ap (λ l. l ++ survivors ds) (spared-others d ds (effective_entries t.entries))
    ∙ append_assoc (spared (d ∷ ds) (effective_entries t.entries)) _ (survivors ds)
    ∙ ground arith

-- The effective dependencies of a tape are those of the ordered declarations that no later
-- declaration of the same slot follows, in their order.
pub effective-build :
    (declarations : List DependencyDeclaration)
    → (build declarations).effective ≡ map effective_dependency (survivors (ordered declarations))
unfolding build effective_entries
effective-build declarations =
    ap (map effective_dependency) (effective-place_all blank (ordered declarations) blank-Tracks)
