-- ===== src/Concepts/Merge/Apart.antt =====
-- `Merge` of internal/concepts/merge.go gives no package two of the kinds dependency, tool and peer.
use tspack.Base.{
  any, all, not, all_intro, ◌≡◌, refl, sym, subst, Bool, true, inl, inr, Bool-cases, List, [], ◌∷◌,
  String, Memᴰ, arith, str_eq, eq_iff,
}
use tspack.Concepts.Fragment.{
  DependencyContribution, VariableContribution, TargetContribution, RunTargetContribution,
  EnvContribution, ServiceContribution, PolicyContribution, FileContribution, Fragment,
  MergedConceptIr,
}
use tspack.Concepts.Equality.{
  variable_eq, target_eq, run_target_eq, env_eq, service_eq, policy_eq, file_eq,
}
use tspack.Concepts.Merge.{merged, Priority}
use tspack.Concepts.Merge.Whole.{MergeState, add, add_all, merge, priorities, empty_ir}
use tspack.Concepts.Merge.Adding.{Adding, add-Adding}
use tspack.Concepts.Merge.Kinds.{Grows}
use tspack.Concepts.Fragment.{ManifestContributions}
use tspack.Concepts.Merge.Lists.{on_merged, merged_inj}
use tspack.Concepts.Merge.Kinds.{add_uniques-Grows}
use tspack.Concepts.Merge.Owners.{merge_projections-Grows, merge_slots-Grows}
use tspack.Concepts.Merge.Records.{IsApart, add_deps-Keeps}
use tspack.Concepts.Merge.Triples.{Kinds, Kinds-Grows, Kinds-dependency, Kinds-tool, Kinds-peer}

abbrev StateKinds : MergeState → Type 0
StateKinds m = Kinds m.ir.manifest.dependencies m.ir.manifest.tools m.ir.manifest.peers m.owners

-- The owners behind the loops that follow the peers.
Adding-Grows :
    (priority : Priority) (f : Fragment) (m next : MergeState) (a : Adding priority f m next)
    → Grows a.owners_3 next.owners
Adding-Grows priority f m next a k o0 =
    let o1 =
      add_uniques-Grows (λ (t : TargetContribution). t.name) target_eq priority "manifest.targets."
        f.name f.manifest.targets m.ir.manifest.targets a.owners_3
        (next.ir.manifest.targets, a.owners_4) a.at_targets k o0 in
    let o2 =
      add_uniques-Grows (λ (t : RunTargetContribution). t.name) run_target_eq priority
        "manifest.runTargets." f.name f.manifest.run_targets m.ir.manifest.run_targets a.owners_4
        (next.ir.manifest.run_targets, a.owners_5) a.at_run_targets k o1 in
    let o3 =
      add_uniques-Grows (λ (e : EnvContribution). e.name) env_eq priority "manifest.env." f.name
        f.manifest.env m.ir.manifest.env a.owners_5 (next.ir.manifest.env, a.owners_6) a.at_env k
        o2 in
    let o4 =
      add_uniques-Grows (λ (s : ServiceContribution). s.name) service_eq priority
        "manifest.services." f.name f.manifest.services m.ir.manifest.services a.owners_6
        (next.ir.manifest.services, a.owners_7) a.at_services k o3 in
    let o5 =
      add_uniques-Grows (λ (p : PolicyContribution). p.subject) policy_eq priority
        "manifest.updatePolicy." f.name f.manifest.update_policy m.ir.manifest.update_policy
        a.owners_7 (next.ir.manifest.update_policy, a.owners_8) a.at_update_policy k o4 in
    let o6 =
      add_uniques-Grows (λ (p : PolicyContribution). p.subject) policy_eq priority
        "manifest.securityPolicy." f.name f.manifest.security_policy m.ir.manifest.security_policy
        a.owners_8 (next.ir.manifest.security_policy, a.owners_9) a.at_security_policy k o5 in
    let o7 =
      add_uniques-Grows (λ (f : FileContribution). f.path) file_eq priority "files." f.name f.files
        m.ir.files a.owners_9 (next.ir.files, a.owners_10) a.at_files k o6 in
    let o8 =
      merge_projections-Grows priority f.name f.projections m.ir.projections a.owners_10
        (next.ir.projections, a.owners_11) a.at_projections k o7 in
    merge_slots-Grows priority f.name f.slots m.ir.slots a.owners_11 (next.ir.slots, next.owners)
      a.at_slots k o8

add-Kinds :
    (priority : Priority) (f : Fragment) (m next : MergeState)
    → add priority f m ≡ merged next
    → StateKinds m
    → StateKinds next
add-Kinds priority f m next h kinds =
    let a = add-Adding priority f m next h in
    let old : ManifestContributions = m.ir.manifest in
    let new : ManifestContributions = next.ir.manifest in
    let k0 =
      Kinds-Grows old.dependencies old.tools old.peers m.owners a.owners_0
        (add_uniques-Grows (λ (v : VariableContribution). v.name) variable_eq priority "variables."
          f.name f.variables m.ir.variables m.owners (next.ir.variables, a.owners_0) a.at_variables)
        kinds in
    let k1 =
      Kinds-dependency old.dependencies old.tools old.peers new.dependencies a.owners_0 a.owners_1
        (add_deps-Keeps priority "manifest.dependencies" f.name "dependency" f.manifest.dependencies
          old.dependencies a.owners_0 (new.dependencies, a.owners_1) a.at_dependencies)
        k0 in
    let k2 =
      Kinds-tool new.dependencies old.tools old.peers new.tools a.owners_1 a.owners_2
        (add_deps-Keeps priority "manifest.tools" f.name "tool" f.manifest.tools old.tools
          a.owners_1 (new.tools, a.owners_2) a.at_tools)
        k1 in
    let k3 =
      Kinds-peer new.dependencies new.tools old.peers new.peers a.owners_2 a.owners_3
        (add_deps-Keeps priority "manifest.peers" f.name "peer" f.manifest.peers old.peers
          a.owners_2 (new.peers, a.owners_3) a.at_peers)
        k2 in
    Kinds-Grows new.dependencies new.tools new.peers a.owners_3 next.owners
      (Adding-Grows priority f m next a) k3

add_all-Kinds :
    (priority : Priority) (fs : List Fragment) (m next : MergeState)
    → add_all priority fs m ≡ merged next
    → StateKinds m
    → StateKinds next
unfolding add_all
add_all-Kinds priority [] m next h k = subst StateKinds (merged_inj h) k
add_all-Kinds priority (f ∷ fs) m next h k =
    on_merged (add priority f m) (add_all priority fs) h
      (λ middle e h'. add_all-Kinds priority fs middle next h' (add-Kinds priority f m middle e k))

-- No package of the one list is in the other.
abbrev pub are_apart : List DependencyContribution → List DependencyContribution → Bool
are_apart ds es = all (λ d. not (any (λ e. str_eq e.name d.name) es)) ds

any-named :
    (name : String) (es : List DependencyContribution)
    → any (λ e. str_eq e.name name) es ≡ true
    → (e : DependencyContribution) × Memᴰ e es × (name ≡ e.name)
any-named name [] h = cc
any-named name (e ∷ es) h = elim (Bool-cases (str_eq e.name name)) [
  | inl same ↦ (e, Memᴰ.head refl, sym ((eq_iff e.name name).0 same))
  | inr other ↦ let (e', m, same) = any-named name es (ground arith) in (e', Memᴰ.tail m, same)
]

are_apart-IsApart : (ds es : List DependencyContribution) → IsApart ds es → are_apart ds es ≡ true
are_apart-IsApart ds es a =
    all_intro (λ d. not (any (λ e. str_eq e.name d.name) es)) ds
      (λ d m. elim (Bool-cases (any (λ e. str_eq e.name d.name) es)) [
        | inl at ↦ let (e, n, same) = any-named d.name es at in elim (a d e m n same) [ ]
        | inr free ↦ ground arith
      ])

-- In what `Merge` returns without a conflict, no package is both a dependency and a tool, a
-- dependency and a peer, or a tool and a peer.
pub merge-are_apart :
    (fs : List Fragment) (ir : MergedConceptIr)
    → merge fs ≡ merged ir
    → (are_apart ir.manifest.dependencies ir.manifest.tools ≡ true)
      × ((are_apart ir.manifest.dependencies ir.manifest.peers ≡ true)
          × (are_apart ir.manifest.tools ir.manifest.peers ≡ true))
unfolding merge empty_ir
merge-are_apart fs ir h =
    on_merged (add_all (priorities 0 fs []) fs (record { ir = empty_ir fs; owners = [] }))
      (λ (m : MergeState). merged m.ir) h
      (λ m e h'.
        let k =
          subst
            (λ (ir : MergedConceptIr).
              Kinds ir.manifest.dependencies ir.manifest.tools ir.manifest.peers m.owners)
            (merged_inj h')
            (add_all-Kinds (priorities 0 fs []) fs (record { ir = empty_ir fs; owners = [] }) m e
              start) in
        (
          are_apart-IsApart ir.manifest.dependencies ir.manifest.tools k.dt,
          (
            are_apart-IsApart ir.manifest.dependencies ir.manifest.peers k.dp,
            are_apart-IsApart ir.manifest.tools ir.manifest.peers k.tp,
          ),
        ))
  where
    start : Kinds [] [] [] []
    start = record {
      dependency = λ d m. elim m [ ];
      tool = λ d m. elim m [ ];
      peer = λ d m. elim m [ ];
      dt = λ d e m n. elim m [ ];
      dp = λ d e m n. elim m [ ];
      tp = λ d e m n. elim m [ ];
    }
