-- ===== src/Concepts/Merge/Adding.antt =====
-- The loops of `add` in internal/concepts/merge.go, where it succeeds.
use tspack.Base.{◌≡◌, subst}
use tspack.Concepts.Fragment.{
  VariableContribution, TargetContribution, RunTargetContribution, EnvContribution,
  ServiceContribution, PolicyContribution, FileContribution, Fragment, Reason,
}
use tspack.Concepts.Equality.{
  variable_eq, workspace_eq, package_eq, pack_eq, target_eq, run_target_eq, env_eq, service_eq,
  policy_eq, file_eq,
}
use tspack.Concepts.Merge.{merged, Owners, Priority, add_uniques, add_deps}
use tspack.Concepts.Merge.Whole.{MergeState, add}
use tspack.Concepts.Merge.Unnamed.{add_one, merge_projections, merge_slots}
use tspack.Concepts.Merge.Lists.{on_merged, merged_inj}

-- The results of the loops, in their order: `owners_n` are the owners behind the loop.
pub record Adding (priority : Priority) (f : Fragment) (m next : MergeState) : Type 0 where
  pub owners_0 : Owners
  pub owners_1 : Owners
  pub owners_2 : Owners
  pub owners_3 : Owners
  pub owners_4 : Owners
  pub owners_5 : Owners
  pub owners_6 : Owners
  pub owners_7 : Owners
  pub owners_8 : Owners
  pub owners_9 : Owners
  pub owners_10 : Owners
  pub owners_11 : Owners
  pub at_variables :
      add_uniques
        (λ (v : VariableContribution). v.name)
        variable_eq
        priority
        "variables."
        f.name
        f.variables
        m.ir.variables
        m.owners
      ≡ merged (next.ir.variables, owners_0)
  pub at_dependencies :
      add_deps priority "manifest.dependencies" f.name "dependency" f.manifest.dependencies
        m.ir.manifest.dependencies owners_0
      ≡ merged (next.ir.manifest.dependencies, owners_1)
  pub at_tools :
      add_deps priority "manifest.tools" f.name "tool" f.manifest.tools m.ir.manifest.tools owners_1
      ≡ merged (next.ir.manifest.tools, owners_2)
  pub at_peers :
      add_deps priority "manifest.peers" f.name "peer" f.manifest.peers m.ir.manifest.peers owners_2
      ≡ merged (next.ir.manifest.peers, owners_3)
  pub at_targets :
      add_uniques
        (λ (t : TargetContribution). t.name)
        target_eq
        priority
        "manifest.targets."
        f.name
        f.manifest.targets
        m.ir.manifest.targets
        owners_3
      ≡ merged (next.ir.manifest.targets, owners_4)
  pub at_run_targets :
      add_uniques
        (λ (t : RunTargetContribution). t.name)
        run_target_eq
        priority
        "manifest.runTargets."
        f.name
        f.manifest.run_targets
        m.ir.manifest.run_targets
        owners_4
      ≡ merged (next.ir.manifest.run_targets, owners_5)
  pub at_env :
      add_uniques
        (λ (e : EnvContribution). e.name)
        env_eq
        priority
        "manifest.env."
        f.name
        f.manifest.env
        m.ir.manifest.env
        owners_5
      ≡ merged (next.ir.manifest.env, owners_6)
  pub at_services :
      add_uniques
        (λ (s : ServiceContribution). s.name)
        service_eq
        priority
        "manifest.services."
        f.name
        f.manifest.services
        m.ir.manifest.services
        owners_6
      ≡ merged (next.ir.manifest.services, owners_7)
  pub at_update_policy :
      add_uniques
        (λ (p : PolicyContribution). p.subject)
        policy_eq
        priority
        "manifest.updatePolicy."
        f.name
        f.manifest.update_policy
        m.ir.manifest.update_policy
        owners_7
      ≡ merged (next.ir.manifest.update_policy, owners_8)
  pub at_security_policy :
      add_uniques
        (λ (p : PolicyContribution). p.subject)
        policy_eq
        priority
        "manifest.securityPolicy."
        f.name
        f.manifest.security_policy
        m.ir.manifest.security_policy
        owners_8
      ≡ merged (next.ir.manifest.security_policy, owners_9)
  pub at_files :
      add_uniques
        (λ (f : FileContribution). f.path)
        file_eq
        priority
        "files."
        f.name
        f.files
        m.ir.files
        owners_9
      ≡ merged (next.ir.files, owners_10)
  pub at_projections :
      merge_projections priority f.name f.projections m.ir.projections owners_10
      ≡ merged (next.ir.projections, owners_11)
  pub at_slots :
      merge_slots priority f.name f.slots m.ir.slots owners_11 ≡ merged (next.ir.slots, next.owners)

pub add-Adding :
    (priority : Priority) (f : Fragment) (m next : MergeState)
    → add priority f m ≡ merged next
    → Adding priority f m next
unfolding add
add-Adding priority f m next h0 = on_merged _ _ h0 (λ vs e0 h1. on_merged _ _ h1 (λ ds e1 h2.
    on_merged _ _ h2 (λ ts e2 h3. on_merged _ _ h3 (λ ps e3 h4. on_merged _ _ h4 (λ gs e4 h5.
      on_merged _ _ h5 (λ rs e5 h6. on_merged _ _ h6 (λ es e6 h7. on_merged _ _ h7 (λ ss e7 h8.
        on_merged _ _ h8 (λ us e8 h9. on_merged _ _ h9 (λ cs e9 h10.
          on_merged _ _ h10 (λ fs e10 h11. on_merged _ _ h11 (λ os e11 h12.
            on_merged _ _ h12 (λ ls e12 h13.
              on_merged
                (add_one priority f.name workspace_eq "manifest.workspace"
                  Reason.different_workspace f.manifest.workspace m.ir.manifest.workspace ls.1)
                _ h13
                (λ w e13 h14.
                  on_merged
                    (add_one priority f.name package_eq "manifest.package" Reason.different_package
                      f.manifest.pkg m.ir.manifest.pkg ls.1)
                    _ h14
                    (λ k e14 h15.
                      on_merged
                        (add_one priority f.name pack_eq "manifest.pack" Reason.different_pack
                          f.manifest.pack m.ir.manifest.pack ls.1)
                        _ h15
                        (λ q e15 h16. subst (Adding priority f m) (merged_inj h16) (record {
                          owners_0 = vs.1;
                          owners_1 = ds.1;
                          owners_2 = ts.1;
                          owners_3 = ps.1;
                          owners_4 = gs.1;
                          owners_5 = rs.1;
                          owners_6 = es.1;
                          owners_7 = ss.1;
                          owners_8 = us.1;
                          owners_9 = cs.1;
                          owners_10 = fs.1;
                          owners_11 = os.1;
                          at_variables = e0;
                          at_dependencies = e1;
                          at_tools = e2;
                          at_peers = e3;
                          at_targets = e4;
                          at_run_targets = e5;
                          at_env = e6;
                          at_services = e7;
                          at_update_policy = e8;
                          at_security_policy = e9;
                          at_files = e10;
                          at_projections = e11;
                          at_slots = e12;
                        })))))))))))))))))
