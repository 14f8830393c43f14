-- ===== src/Concepts/Merge/Parts.antt =====
-- `Merge` of internal/concepts/merge.go: each part of the merged fragments is the union of what the
-- fragments contribute to it.
use tspack.Base.{◌≡◌, refl, subst, List, [], ◌∷◌, ◌++◌, String}
use tspack.Concepts.Fragment.{
  VariableContribution, TargetContribution, DependencyContribution, RunTargetContribution,
  EnvContribution, ServiceContribution, PolicyContribution, FileContribution, Fragment,
  MergedConceptIr,
}
use tspack.Concepts.Equality.{
  variable_eq, target_eq, run_target_eq, env_eq, service_eq, policy_eq, file_eq, variable_eq_sound,
  target_eq_sound, run_target_eq_sound, env_eq_sound, service_eq_sound, policy_eq_sound,
  file_eq_sound,
}
use tspack.Concepts.Merge.{merged, Priority}
use tspack.Concepts.Merge.Whole.{MergeState, add, add_all, merge, priorities, empty_ir}
use tspack.Concepts.Merge.Unions.{Union, Union-refl, Union-append}
use tspack.Concepts.Merge.Adding.{Adding, add-Adding}
use tspack.Concepts.Merge.Lists.{
  merged_inj, on_merged, add_uniques-Union, add_deps-Union, dependency_view,
}

-- The parts that hold named contributions.
pub data Part : Type 0 where
  variables dependencies tools peers targets run_targets : Part
  env services update_policy security_policy files : Part

abbrev pub Element : Part → Type 0
Element variables = VariableContribution
Element dependencies = DependencyContribution
Element tools = DependencyContribution
Element peers = DependencyContribution
Element targets = TargetContribution
Element run_targets = RunTargetContribution
Element env = EnvContribution
Element services = ServiceContribution
Element update_policy = PolicyContribution
Element security_policy = PolicyContribution
Element files = FileContribution

-- What of an element a fragment says itself: not who declared a dependency.
abbrev pub View : Part → Type 0
View variables = VariableContribution
View dependencies = String × String × String
View tools = String × String × String
View peers = String × String × String
View targets = TargetContribution
View run_targets = RunTargetContribution
View env = EnvContribution
View services = ServiceContribution
View update_policy = PolicyContribution
View security_policy = PolicyContribution
View files = FileContribution

abbrev pub view : (p : Part) → Element p → View p
view variables a = a
view dependencies a = dependency_view a
view tools a = dependency_view a
view peers a = dependency_view a
view targets a = a
view run_targets a = a
view env a = a
view services a = a
view update_policy a = a
view security_policy a = a
view files a = a

abbrev pub key : (p : Part) → Element p → String
key variables a = a.name
key dependencies a = a.name
key tools a = a.name
key peers a = a.name
key targets a = a.name
key run_targets a = a.name
key env a = a.name
key services a = a.name
key update_policy a = a.subject
key security_policy a = a.subject
key files a = a.path

abbrev pub contributed : (p : Part) → Fragment → List (Element p)
contributed variables f = f.variables
contributed dependencies f = f.manifest.dependencies
contributed tools f = f.manifest.tools
contributed peers f = f.manifest.peers
contributed targets f = f.manifest.targets
contributed run_targets f = f.manifest.run_targets
contributed env f = f.manifest.env
contributed services f = f.manifest.services
contributed update_policy f = f.manifest.update_policy
contributed security_policy f = f.manifest.security_policy
contributed files f = f.files

abbrev pub merged_part : (p : Part) → MergedConceptIr → List (Element p)
merged_part variables ir = ir.variables
merged_part dependencies ir = ir.manifest.dependencies
merged_part tools ir = ir.manifest.tools
merged_part peers ir = ir.manifest.peers
merged_part targets ir = ir.manifest.targets
merged_part run_targets ir = ir.manifest.run_targets
merged_part env ir = ir.manifest.env
merged_part services ir = ir.manifest.services
merged_part update_policy ir = ir.manifest.update_policy
merged_part security_policy ir = ir.manifest.security_policy
merged_part files ir = ir.files

-- The union that one fragment makes of a part.
add-Union :
    (priority : Priority) (f : Fragment) (m next : MergeState) (p : Part)
    → add priority f m ≡ merged next
    → Union (key p) (view p) (merged_part p m.ir) (contributed p f) (merged_part p next.ir)
add-Union priority f m next p h = part_union p (add-Adding priority f m next h)
  where
    part_union :
        (p : Part)
        → Adding priority f m next
        → Union (key p) (view p) (merged_part p m.ir) (contributed p f) (merged_part p next.ir)
    part_union variables a =
        add_uniques-Union (key variables) variable_eq variable_eq_sound priority "variables." f.name
          f.variables m.ir.variables m.owners (next.ir.variables, a.owners_0) a.at_variables
    part_union dependencies a =
        add_deps-Union priority "manifest.dependencies" f.name "dependency" f.manifest.dependencies
          m.ir.manifest.dependencies a.owners_0 (next.ir.manifest.dependencies, a.owners_1)
          a.at_dependencies
    part_union tools a =
        add_deps-Union priority "manifest.tools" f.name "tool" f.manifest.tools m.ir.manifest.tools
          a.owners_1 (next.ir.manifest.tools, a.owners_2) a.at_tools
    part_union peers a =
        add_deps-Union priority "manifest.peers" f.name "peer" f.manifest.peers m.ir.manifest.peers
          a.owners_2 (next.ir.manifest.peers, a.owners_3) a.at_peers
    part_union targets a =
        add_uniques-Union (key targets) target_eq target_eq_sound priority "manifest.targets."
          f.name f.manifest.targets m.ir.manifest.targets a.owners_3
          (next.ir.manifest.targets, a.owners_4) a.at_targets
    part_union run_targets a =
        add_uniques-Union (key run_targets) run_target_eq run_target_eq_sound priority
          "manifest.runTargets." f.name f.manifest.run_targets m.ir.manifest.run_targets a.owners_4
          (next.ir.manifest.run_targets, a.owners_5) a.at_run_targets
    part_union env a =
        add_uniques-Union (key env) env_eq env_eq_sound priority "manifest.env." f.name
          f.manifest.env m.ir.manifest.env a.owners_5 (next.ir.manifest.env, a.owners_6) a.at_env
    part_union services a =
        add_uniques-Union (key services) service_eq service_eq_sound priority "manifest.services."
          f.name f.manifest.services m.ir.manifest.services a.owners_6
          (next.ir.manifest.services, a.owners_7) a.at_services
    part_union update_policy a =
        add_uniques-Union (key update_policy) policy_eq policy_eq_sound priority
          "manifest.updatePolicy." f.name f.manifest.update_policy m.ir.manifest.update_policy
          a.owners_7 (next.ir.manifest.update_policy, a.owners_8) a.at_update_policy
    part_union security_policy a =
        add_uniques-Union (key security_policy) policy_eq policy_eq_sound priority
          "manifest.securityPolicy." f.name f.manifest.security_policy m.ir.manifest.security_policy
          a.owners_8 (next.ir.manifest.security_policy, a.owners_9) a.at_security_policy
    part_union files a =
        add_uniques-Union (key files) file_eq file_eq_sound priority "files." f.name f.files
          m.ir.files a.owners_9 (next.ir.files, a.owners_10) a.at_files

-- All that the fragments contribute to a part.
abbrev pub contributions : (p : Part) → List Fragment → List (Element p)
contributions p [] = []
contributions p (f ∷ fs) = contributed p f ++ contributions p fs

add_all-Union :
    (priority : Priority) (fs : List Fragment) (m next : MergeState) (p : Part)
    → add_all priority fs m ≡ merged next
    → Union (key p) (view p) (merged_part p m.ir) (contributions p fs) (merged_part p next.ir)
unfolding add_all
add_all-Union priority [] m next p h =
    subst (λ (n : MergeState). Union (key p) (view p) (merged_part p m.ir) [] (merged_part p n.ir))
      (merged_inj h) (Union-refl (key p) (view p) (merged_part p m.ir))
add_all-Union priority (f ∷ fs) m next p h =
    on_merged (add priority f m) (add_all priority fs) h (λ middle e h'.
      Union-append (key p) (view p) (merged_part p m.ir) (contributed p f) (merged_part p middle.ir)
        (contributions p fs) (merged_part p next.ir) (add-Union priority f m middle p e)
        (add_all-Union priority fs middle next p h'))

-- Where fragments are merged, each part of the result is the union of what they contribute to it.
pub merge-Union :
    (fs : List Fragment) (ir : MergedConceptIr) (p : Part)
    → merge fs ≡ merged ir
    → Union (key p) (view p) [] (contributions p fs) (merged_part p ir)
unfolding merge empty_ir
merge-Union fs ir p h =
    on_merged (add_all (priorities 0 fs []) fs (record { ir = empty_ir fs; owners = [] }))
      (λ (m : MergeState). merged m.ir) h
      (λ m e h'.
        subst (λ ir. Union (key p) (view p) [] (contributions p fs) (merged_part p ir))
          (merged_inj h')
          (subst (λ old. Union (key p) (view p) old (contributions p fs) (merged_part p m.ir))
            (empty_part p)
            (add_all-Union (priorities 0 fs []) fs (record { ir = empty_ir fs; owners = [] }) m p
              e)))
  where
    empty_part : (p : Part) → merged_part p (empty_ir fs) ≡ []
    empty_part variables = refl
    empty_part dependencies = refl
    empty_part tools = refl
    empty_part peers = refl
    empty_part targets = refl
    empty_part run_targets = refl
    empty_part env = refl
    empty_part services = refl
    empty_part update_policy = refl
    empty_part security_policy = refl
    empty_part files = refl
