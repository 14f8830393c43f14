-- ===== src/Workflow/Settle/Rule.antt =====
-- The induction rule of the loops of `settleControl`: what every node step keeps holds at the end.
use mathlib.Core.List.{Memᴰ}
use tspack.Base.{
  ℕ, zero, suc, ◌≡◌, refl, subst, Bool, true, false, Option, none, some, List, [], ◌∷◌, arith, ◌⊎◌,
  inl, inr,
}
use tspack.Workflow.Flow.{Flow, FlowNode, Snapshot, Result, ok, err, >>=-eq-ok}
use tspack.Base.Text.{sort_strings}
use tspack.Workflow.Settle.{
  Progress, settle_node, settle_pass, again, settle_loop, settled, settle_fuel, settle_control,
}

pub again-cases :
    (next : Snapshot → Option (Result Snapshot)) (r : Result Progress) (t : Snapshot)
    → again next r ≡ some (ok t)
    → ((s : Snapshot) × (r ≡ ok (s, true)) × (next s ≡ some (ok t))) ⊎ (r ≡ ok (t, false))
again-cases next (err e) t h = cc
again-cases next (ok (s, true)) t h = inl (s, refl, h)
again-cases next (ok (s, false)) t h = inr (ground arith)

-- `settle_control` returns what the loop returns, with the active list sorted.
pub settle_control-eq-ok :
    (flow : Flow) (s t : Snapshot)
    → settle_control flow s ≡ ok t
    → (u : Snapshot) × (settle_loop (settle_fuel flow) flow s ≡ some (ok u))
      × (t ≡ record u { active = sort_strings u.active })
unfolding settle_control
settle_control-eq-ok flow s t h = go (settle_loop (settle_fuel flow) flow s) h refl
  where
    go :
        (r : Option (Result Snapshot))
        → settled r ≡ ok t
        → settle_loop (settle_fuel flow) flow s ≡ r
        → (u : Snapshot) × (settle_loop (settle_fuel flow) flow s ≡ some (ok u))
          × (t ≡ record u { active = sort_strings u.active })
    go none h e = cc
    go (some (err x)) h e = cc
    go (some (ok u)) h e = (u, e, ground arith)

module _ {ℓ} (flow : Flow) (P : Snapshot → Type ℓ)
    (keep : (node : FlowNode)
      → Memᴰ node flow.nodes
      → (s t : Snapshot) (p q : Bool) → settle_node flow node (s, p) ≡ ok (t, q)
      → P s
      → P t) where
  pub settle_pass_rule :
      (nodes : List FlowNode) (s t : Snapshot) (p q : Bool)
      → ((node : FlowNode) → Memᴰ node nodes → Memᴰ node flow.nodes)
      → settle_pass flow nodes (s, p) ≡ ok (t, q)
      → P s
      → P t
  unfolding settle_pass
  settle_pass_rule [] s t p q mem h x = subst P (ground arith) x
  settle_pass_rule (node ∷ nodes) s t p q mem h x =
      let ((u, r), first, rest) = >>=-eq-ok (settle_node flow node (s, p)) _ h in
      settle_pass_rule nodes u t r q (λ n m. mem n (Memᴰ.tail m)) rest
        (keep node (mem node (Memᴰ.head refl)) s u p r first x)

  pub settle_loop_rule :
      (fuel : ℕ) (s t : Snapshot) → settle_loop fuel flow s ≡ some (ok t) → P s → P t
  unfolding settle_loop
  settle_loop_rule zero s t h x = cc
  settle_loop_rule (suc fuel) s t h x =
      elim (again-cases (settle_loop fuel flow) (settle_pass flow flow.nodes (s, false)) t h) [
        | inl (u, pass, rest) ↦
            settle_loop_rule fuel u t rest
              (settle_pass_rule flow.nodes s u false true (λ n m. m) pass x)
        | inr pass ↦ settle_pass_rule flow.nodes s t false false (λ n m. m) pass x
      ]
