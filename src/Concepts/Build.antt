-- ===== src/Concepts/Build.antt =====
-- `BuildConceptIR` of internal/concepts/merge.go: a stack of concepts is resolved and merged.
use tspack.Base.{◌≡◌, refl, subst, Option, some, List, String, Memᴰ}
use tspack.Concepts.Fragment.{Fragment, MergedConceptIr}
use tspack.Concepts.Resolve.{Resolution, failed, resolved, resolve_with_registry}
use tspack.Concepts.Resolve.Stack.{resolve_with_registry-Mem}
use tspack.Concepts.Merge.{Outcome, merged}
use tspack.Concepts.Merge.Whole.{merge}
use tspack.Concepts.Merge.Parts.{Part, Element, view, contributed, merged_part}
use tspack.Concepts.Merge.Laws.{merge-contributed}

abbrev pub merge_resolved : Resolution (List Fragment) → Resolution (Outcome MergedConceptIr)
merge_resolved (failed e) = failed e
merge_resolved (resolved fs) = resolved (merge fs)

unfoldable pub build_concept_ir :
    (String → Option Fragment) → List String → String → Resolution (Outcome MergedConceptIr)
build_concept_ir find concepts kind = merge_resolved (resolve_with_registry find concepts kind)

resolved_inj : {A : Type 0} {a b : A} → resolved a ≡ resolved b → a ≡ b
resolved_inj h = cc

merge_resolved-merged :
    (o : Resolution (List Fragment)) (ir : MergedConceptIr)
    → merge_resolved o ≡ resolved (merged ir)
    → (fs : List Fragment) × (o ≡ resolved fs) × (merge fs ≡ merged ir)
merge_resolved-merged (failed e) ir h = cc
merge_resolved-merged (resolved fs) ir h = (fs, refl, resolved_inj h)

-- Where `BuildConceptIR` succeeds, its result has all that the fragment of a listed concept
-- contributes to a part.
pub build_concept_ir-contributed :
    (find : String → Option Fragment) (concepts : List String) (kind x : String)
    (ir : MergedConceptIr) (f : Fragment) (p : Part) (a : Element p)
    → build_concept_ir find concepts kind ≡ resolved (merged ir)
    → Memᴰ x concepts
    → find x ≡ some f
    → Memᴰ a (contributed p f)
    → (b : Element p) × Memᴰ b (merged_part p ir) × (view p b ≡ view p a)
unfolding build_concept_ir
build_concept_ir-contributed find concepts kind x ir f p a h m found n =
    let (fs, e, e') = merge_resolved-merged (resolve_with_registry find concepts kind) ir h in
    let (g, e'', at) = resolve_with_registry-Mem find concepts kind x fs e m in
    let same : g ≡ f = cc in merge-contributed fs ir p f a e' (subst (λ g. Memᴰ g fs) same at) n
