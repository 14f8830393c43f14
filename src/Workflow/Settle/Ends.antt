-- ===== src/Workflow/Settle/Ends.antt =====
-- The loop of `settleControl` in internal/workflow/machine.go ends, and where it ends no control
-- node is left to run.
use mathlib.Core.Bool.{false≢true}
use tspack.Base.{
  ℕ, zero, suc, ◌<◌, ◌≡◌, refl, subst, sym, ◌∙◌, Bool, true, false, Option, some, List, String, [],
  ◌∷◌, Memᴰ, arith, ◌⊎◌, inl, inr,
}
use tspack.Workflow.Flow.{Flow, FlowNode, Snapshot, Result, ok, err, >>=-eq-ok}
use tspack.Base.Text.{sort_strings, insert}
use tspack.Workflow.Snapshot.{node_at, contains_identity}
use tspack.Workflow.Snapshot.States.{dependencies_complete-nodes}
use tspack.Workflow.Settle.{
  Progress, is_woken, is_ready, settle_node, settle_pass, again, settle_loop, settle_fuel,
  settle_control,
}
use tspack.Workflow.Settle.Rule.{again-cases, settle_control-eq-ok}
use tspack.Workflow.Settle.Work.{work, settle_node-work, work-bound}

-- At each node of a list: it does not wait with its dependencies complete, and it is not an
-- active control node.
abbrev pub IsQuiet : List FlowNode → Snapshot → Type 0
IsQuiet nodes s =
    (node : FlowNode) → Memᴰ node nodes → (is_woken node s ≡ false) × (is_ready node s ≡ false)

IsQuiet-cons :
    (node : FlowNode) (nodes : List FlowNode) (s : Snapshot)
    → is_woken node s ≡ false
    → is_ready node s ≡ false
    → IsQuiet nodes s
    → IsQuiet (node ∷ nodes) s
IsQuiet-cons node nodes s woken ready rest x (Memᴰ.head e) =
    subst (λ n. (is_woken n s ≡ false) × (is_ready n s ≡ false)) (sym e) (woken, ready)
IsQuiet-cons node nodes s woken ready rest x (Memᴰ.tail m) = rest x m

module _ (flow : Flow) where
  -- So does a pass.
  settle_pass-work :
      (nodes : List FlowNode) (s t : Snapshot) (p q : Bool)
      → ((node : FlowNode) → Memᴰ node nodes → Memᴰ node flow.nodes)
      → settle_pass flow nodes (s, p) ≡ ok (t, q)
      → ((q ≡ true) × (work flow t < work flow s)) ⊎ ((t ≡ s) × (q ≡ p) × IsQuiet nodes s)
  unfolding settle_pass
  settle_pass-work [] s t p q mem h = inr (ground arith, ground arith, λ node m. elim m [ ])
  settle_pass-work (node ∷ nodes) s t p q mem h =
      let ((u, r), first, rest) = >>=-eq-ok (settle_node flow node (s, p)) _ h in
      let later = settle_pass-work nodes u t r q (λ n m. mem n (Memᴰ.tail m)) rest in
      elim (settle_node-work flow node s u p r (mem node (Memᴰ.head refl)) first) [
        | inl (rt, less) ↦ elim later [
          | inl (qt, less') ↦ inl (qt, omega arith)
          | inr (tu, qr, _) ↦ inl (qr ∙ rt, subst (λ v. work flow v < work flow s) (sym tu) less)
        ]
        | inr (us, rp, woken, ready) ↦ elim later [
          | inl (qt, less') ↦ inl (qt, subst (λ v. work flow t < work flow v) us less')
          | inr (tu, qr, quiet) ↦ inr (
            tu ∙ us,
            qr ∙ rp,
            IsQuiet-cons node nodes s woken ready (subst (IsQuiet nodes) us quiet),
          )
        ]
      ]

  pass-work :
      (s t : Snapshot) (q : Bool)
      → settle_pass flow flow.nodes (s, false) ≡ ok (t, q)
      → ((q ≡ true) × (work flow t < work flow s)) ⊎ ((t ≡ s) × (q ≡ false) × IsQuiet flow.nodes s)
  pass-work s t q h = settle_pass-work flow.nodes s t false q (λ node m. m) h

  again_ends :
      (s : Snapshot) (next : Snapshot → Option (Result Snapshot)) (pass : Result Progress)
      → settle_pass flow flow.nodes (s, false) ≡ pass
      → ((t : Snapshot) → work flow t < work flow s → (r : Result Snapshot) × (next t ≡ some r))
      → (r : Result Snapshot) × (again next pass ≡ some r)
  again_ends s next (err e) x later = (err e, refl)
  again_ends s next (ok (t, false)) x later = (ok t, refl)
  again_ends s next (ok (t, true)) x later =
      later t (elim (pass-work s t true x) [ inl (_, less) ↦ less | inr (_, no_progress, _) ↦ cc ])

  loop_ends :
      (fuel : ℕ) (s : Snapshot)
      → work flow s < fuel
      → (r : Result Snapshot) × (settle_loop fuel flow s ≡ some r)
  unfolding settle_loop
  loop_ends zero s h = absurd (omega arith)
  loop_ends (suc fuel) s h =
      again_ends s (settle_loop fuel flow) (settle_pass flow flow.nodes (s, false)) refl
        (λ t less. loop_ends fuel t (omega arith))

  -- The loop of `settle_control` ends within its fuel, from every snapshot of every flow.
  pub settle_loop_ends :
      (s : Snapshot) → (r : Result Snapshot) × (settle_loop (settle_fuel flow) flow s ≡ some r)
  settle_loop_ends s = loop_ends (settle_fuel flow) s (work-bound flow s)

  loop-IsQuiet :
      (fuel : ℕ) (s t : Snapshot) → settle_loop fuel flow s ≡ some (ok t) → IsQuiet flow.nodes t
  unfolding settle_loop
  loop-IsQuiet zero s t h = cc
  loop-IsQuiet (suc fuel) s t h =
      elim (again-cases (settle_loop fuel flow) (settle_pass flow flow.nodes (s, false)) t h) [
        | inl (u, _, rest) ↦ loop-IsQuiet fuel u t rest
        | inr pass ↦ elim (pass-work s t false pass) [
          | inl (no_progress, _) ↦ absurd (false≢true no_progress)
          | inr (same, _, quiet) ↦ subst (IsQuiet flow.nodes) (sym same) quiet
        ]
      ]

contains-insert :
    (a i : String) (xs : List String)
    → contains_identity (insert a xs) i ≡ contains_identity (a ∷ xs) i
unfolding insert contains_identity
contains-insert a i [] = refl
contains-insert a i (x ∷ xs) = ground (arith, contains-insert a i xs)

-- Sorting keeps which nodes are active.
pub contains-sort_strings :
    (i : String) (xs : List String) → contains_identity (sort_strings xs) i ≡ contains_identity xs i
unfolding sort_strings contains_identity
contains-sort_strings i [] = refl
contains-sort_strings i (x ∷ xs) =
    ground (arith, contains-insert x i (sort_strings xs), contains-sort_strings i xs)

-- Where `settle_control` returns a snapshot, no node of the flow waits with all its dependencies
-- succeeded, and no control node is both pending and active.
pub settle_control-IsQuiet :
    (flow : Flow) (s t : Snapshot) → settle_control flow s ≡ ok t → IsQuiet flow.nodes t
unfolding node_at
settle_control-IsQuiet flow s t h node m =
    let (u, loop, e) = settle_control-eq-ok flow s t h in
    let (woken, ready) = loop-IsQuiet flow (settle_fuel flow) s u loop node m in
    let sorted : Snapshot = record u { active = sort_strings u.active } in
    rw e (
      rw (dependencies_complete-nodes sorted u refl node.wait_for) woken,
      rw (contains-sort_strings node.identity u.active) ready,
    )

-- Being quiet is a matter of the node states and the active list alone.
pub IsQuiet-same :
    (nodes : List FlowNode) (s t : Snapshot)
    → s.nodes ≡ t.nodes
    → s.active ≡ t.active
    → IsQuiet nodes s
    → IsQuiet nodes t
unfolding node_at
IsQuiet-same nodes s t same_nodes same_active quiet node m =
    ground (arith, dependencies_complete-nodes s t same_nodes node.wait_for, quiet node m)
