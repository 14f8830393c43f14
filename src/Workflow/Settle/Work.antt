-- ===== src/Workflow/Settle/Work.antt =====
-- A measure of what `settleControl` of internal/workflow/machine.go has left to do.
use tspack.Base.{
  ℕ, suc, ◌+◌, ◌*◌, ◌≤◌, ◌<◌, ◌≡◌, refl, subst, sym, ◌∙◌, Bool, true, false, not, Memᴰ, arith, ◌⊎◌,
  inl, inr, count, count_mono, count-lt, count-le-length, length, eq_refl,
}
use tspack.Workflow.Flow.{Flow, FlowNode, Snapshot, ok}
use tspack.Workflow.Snapshot.{is_waiting, is_succeeded, state_at}
use tspack.Workflow.Snapshot.States.{Frozen, Frozen-trans}
use tspack.Workflow.Settle.{
  wake, wake_ready, is_woken, is_ready, completed, run_ready, run_control, settle_node, settle_fuel,
}
use tspack.Workflow.Settle.States.{
  completed-state_at, completed-Frozen, run_control-Frozen, wake-state_at, wake-Frozen,
  wake_ready-cases, run_ready-cases,
}

-- The nodes that have not succeeded, and the nodes that wait.
abbrev is_unfinished : Snapshot → FlowNode → Bool
is_unfinished s node = not (is_succeeded (state_at s node.identity))

abbrev is_asleep : Snapshot → FlowNode → Bool
is_asleep s node = is_waiting (state_at s node.identity)

module _ (flow : Flow) where
  pub todo : Snapshot → ℕ
  todo s = count (is_unfinished s) flow.nodes

  pub asleep : Snapshot → ℕ
  asleep s = count (is_asleep s) flow.nodes

  -- Every run of a node lowers `todo`; every wake keeps it and lowers `asleep`.
  abbrev pub work : Snapshot → ℕ
  work s = todo s * suc (length flow.nodes) + asleep s

  todo-Frozen : (s t : Snapshot) → Frozen s t → todo t ≤ todo s
  unfolding todo
  todo-Frozen s t f =
      count_mono (is_unfinished t) (is_unfinished s) flow.nodes
        (λ node h. ground (arith, f node.identity))

  todo-lt :
      (s t : Snapshot) (node : FlowNode)
      → Memᴰ node flow.nodes
      → Frozen s t
      → is_unfinished s node ≡ true
      → is_unfinished t node ≡ false
      → todo t < todo s
  unfolding todo
  todo-lt s t node m f before after =
      count-lt (is_unfinished t) (is_unfinished s) flow.nodes node
        (λ x h. ground (arith, f x.identity)) m after before

  pub asleep-le : (s : Snapshot) → asleep s ≤ length flow.nodes
  unfolding asleep
  asleep-le s = count-le-length (is_asleep s) flow.nodes

  todo-le : (s : Snapshot) → todo s ≤ length flow.nodes
  unfolding todo
  todo-le s = count-le-length (is_unfinished s) flow.nodes

  work-lt_of_todo : (s t : Snapshot) → todo t < todo s → work t < work s
  work-lt_of_todo s t h = grind (arith, asleep-le t)

  asleep-wake :
      (node : FlowNode) (s : Snapshot)
      → Memᴰ node flow.nodes
      → is_woken node s ≡ true
      → asleep (wake node s) < asleep s
  unfolding asleep
  asleep-wake node s m woken =
      count-lt (is_asleep (wake node s)) (is_asleep s) flow.nodes node
        (λ x h. ground (arith, wake-state_at node s x.identity)) m
        (ground (arith, wake-state_at node s node.identity, eq_refl node.identity)) (ground arith)

  wake-work :
      (node : FlowNode) (s : Snapshot)
      → Memᴰ node flow.nodes
      → is_woken node s ≡ true
      → work (wake node s) < work s
  wake-work node s m woken =
      grind
        (arith, asleep-wake node s m woken, todo-Frozen s (wake node s) (wake-Frozen node s woken))

  run-work :
      (node : FlowNode) (s t : Snapshot)
      → Memᴰ node flow.nodes
      → is_ready node s ≡ true
      → run_control flow node node.kind (completed node s) ≡ ok t
      → work t < work s
  run-work node s t m ready run =
      let ran = run_control-Frozen flow node node.kind (completed node s) t run in
      let begun = completed-Frozen node s (ground arith) in
      work-lt_of_todo s t (
        todo-lt s t node m (Frozen-trans s (completed node s) t begun ran) (ground arith) (
          ground (
            arith,
            ran node.identity,
            completed-state_at node s node.identity,
            eq_refl node.identity,
          )))

  -- A node step does less work than there was, or finds nothing to do and changes nothing.
  pub settle_node-work :
      (node : FlowNode) (s t : Snapshot) (p q : Bool)
      → Memᴰ node flow.nodes
      → settle_node flow node (s, p) ≡ ok (t, q)
      → ((q ≡ true) × (work t < work s))
        ⊎ ((t ≡ s) × (q ≡ p) × (is_woken node s ≡ false) × (is_ready node s ≡ false))
  unfolding settle_node
  settle_node-work node s t p q m h =
      go (wake_ready node (s, p)).0 (wake_ready node (s, p)).1 refl h
    where
      go :
          (u : Snapshot) (r : Bool)
          → wake_ready node (s, p) ≡ (u, r)
          → run_ready flow node (u, r) ≡ ok (t, q)
          → ((q ≡ true) × (work t < work s))
            ⊎ ((t ≡ s) × (q ≡ p) × (is_woken node s ≡ false) × (is_ready node s ≡ false))
      go u r e k = elim (wake_ready-cases node s u p r e) [
        | inl (us, rp, drowsy) ↦ elim (run_ready-cases flow node u t r q k) [
          | inl (tu, qr, idle) ↦
              inr (tu ∙ us, qr ∙ rp, drowsy, subst (λ v. is_ready node v ≡ false) us idle)
          | inr (qt, ready, run) ↦
              inl (qt, subst (λ v. work t < work v) us (run-work node u t m ready run))
        ]
        | inr (rt, woken, us) ↦
            let woke : work u < work s =
              subst (λ v. work v < work s) (sym us) (wake-work node s m woken) in
            elim (run_ready-cases flow node u t r q k) [
              | inl (tu, qr, _) ↦ inl (qr ∙ rt, subst (λ v. work v < work s) (sym tu) woke)
              | inr (qt, ready, run) ↦
                  let ran = run-work node u t m ready run in inl (qt, omega arith)
            ]
      ]

  -- The fuel of `settle_control` exceeds the work there can be.
  pub work-bound : (s : Snapshot) → work s < settle_fuel flow
  unfolding settle_fuel
  work-bound s = grind (arith, asleep-le s, todo-le s)
