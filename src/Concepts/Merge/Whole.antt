-- ===== src/Concepts/Merge/Whole.antt =====
-- `Merge` of internal/concepts/merge.go as a whole: `mergeState.add`, and the loop over the fragments.
use tspack.Base.{ℕ, ◌+◌, none, List, [], ◌∷◌, ◌++◌, put}
use tspack.Concepts.Fragment.{
  VariableContribution, TargetContribution, RunTargetContribution, EnvContribution,
  ServiceContribution, PolicyContribution, FileContribution, ManifestContributions, Fragment,
  MergedConceptIr, Reason,
}
use tspack.Concepts.Equality.{
  variable_eq, workspace_eq, package_eq, pack_eq, target_eq, run_target_eq, env_eq, service_eq,
  policy_eq, file_eq,
}
use tspack.Concepts.Declarations.{dependency_declarations}
use tspack.Concepts.Merge.{Outcome, merged, ◌>>=◌, Owners, Priority, add_uniques, add_deps}
use tspack.Concepts.Merge.Unnamed.{add_concepts, add_one, merge_projections, merge_slots}

pub record MergeState : Type 0 where
  pub ir : MergedConceptIr
  pub owners : Owners

-- `add`.
unfoldable pub add : Priority → Fragment → MergeState → Outcome MergeState
unfolding add_concepts add_uniques add_deps add_one merge_projections merge_slots
add priority fragment m =
    let name = fragment.name in
    let new : ManifestContributions = fragment.manifest in
    let ir : MergedConceptIr = m.ir in
    let old : ManifestContributions = ir.manifest in
    do
      variables ←
          add_uniques (λ (v : VariableContribution). v.name) variable_eq priority "variables." name
            fragment.variables ir.variables m.owners
      dependencies ←
          add_deps priority "manifest.dependencies" name "dependency" new.dependencies
            old.dependencies variables.1
      tools ← add_deps priority "manifest.tools" name "tool" new.tools old.tools dependencies.1
      peers ← add_deps priority "manifest.peers" name "peer" new.peers old.peers tools.1
      targets ←
          add_uniques (λ (t : TargetContribution). t.name) target_eq priority "manifest.targets."
            name new.targets old.targets peers.1
      run_targets ←
          add_uniques (λ (t : RunTargetContribution). t.name) run_target_eq priority
            "manifest.runTargets." name new.run_targets old.run_targets targets.1
      env ←
          add_uniques (λ (e : EnvContribution). e.name) env_eq priority "manifest.env." name new.env
            old.env run_targets.1
      services ←
          add_uniques (λ (s : ServiceContribution). s.name) service_eq priority "manifest.services."
            name new.services old.services env.1
      update_policy ←
          add_uniques (λ (p : PolicyContribution). p.subject) policy_eq priority
            "manifest.updatePolicy." name new.update_policy old.update_policy services.1
      security_policy ←
          add_uniques (λ (p : PolicyContribution). p.subject) policy_eq priority
            "manifest.securityPolicy." name new.security_policy old.security_policy update_policy.1
      files ←
          add_uniques (λ (f : FileContribution). f.path) file_eq priority "files." name
            fragment.files ir.files security_policy.1
      projections ← merge_projections priority name fragment.projections ir.projections files.1
      slots ← merge_slots priority name fragment.slots ir.slots projections.1
      workspace ←
          add_one priority name workspace_eq "manifest.workspace" Reason.different_workspace
            new.workspace old.workspace slots.1
      pkg ←
          add_one priority name package_eq "manifest.package" Reason.different_package new.pkg
            old.pkg slots.1
      pack ←
          add_one priority name pack_eq "manifest.pack" Reason.different_pack new.pack old.pack
            slots.1
      merged (record {
        ir = record {
          concepts = add_concepts ir.concepts (name ∷ fragment.provides ++ new.concepts);
          variables = variables.0;
          manifest = record {
            workspace = workspace;
            pkg = pkg;
            dependencies = dependencies.0;
            tools = tools.0;
            peers = peers.0;
            targets = targets.0;
            run_targets = run_targets.0;
            env = env.0;
            services = services.0;
            update_policy = update_policy.0;
            security_policy = security_policy.0;
            pack = pack;
            concepts = old.concepts;
          };
          dependency_authoring = ir.dependency_authoring;
          files = files.0;
          projections = projections.0;
          slots = slots.0;
          warnings = ir.warnings ++ fragment.warnings;
        };
        owners = slots.1;
      })

-- The loop that fills `merger.priority`.
unfoldable pub priorities : ℕ → List Fragment → Priority → Priority
priorities index [] priority = priority
priorities index (fragment ∷ rest) priority =
    priorities (index + 1) rest (put fragment.name index priority)

unfoldable pub add_all : Priority → List Fragment → MergeState → Outcome MergeState
unfolding add
add_all priority [] m = merged m
add_all priority (fragment ∷ rest) m = add priority fragment m >>= add_all priority rest

abbrev no_manifest : ManifestContributions
no_manifest = record {
  workspace = none;
  pkg = none;
  dependencies = [];
  tools = [];
  peers = [];
  targets = [];
  run_targets = [];
  env = [];
  services = [];
  update_policy = [];
  security_policy = [];
  pack = none;
  concepts = [];
}

unfoldable pub empty_ir : List Fragment → MergedConceptIr
unfolding dependency_declarations
empty_ir fragments = record {
  concepts = [];
  variables = [];
  manifest = no_manifest;
  dependency_authoring = dependency_declarations fragments;
  files = [];
  projections = [];
  slots = [];
  warnings = [];
}

unfoldable pub merge : List Fragment → Outcome MergedConceptIr
unfolding priorities add_all empty_ir
merge fragments =
    add_all (priorities 0 fragments []) fragments (record { ir = empty_ir fragments; owners = [] })
    >>= (λ m. merged m.ir)
