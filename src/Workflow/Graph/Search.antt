-- ===== src/Workflow/Graph/Search.antt =====
-- `flowNodeReaches` of internal/workflow/flow.go decides whether a walk leads to the target.
use tspack.Base.{
  Mem-append-cases, Mem-append_left, Mem-append_right, is_among, ℕ, zero, suc, ◌+◌, ◌≤◌, ◌<◌, ◌≡◌,
  ◌∙◌, refl, ap, sym, subst, Bool, true, false, some, List, [], ◌∷◌, ◌++◌, String, Memᴰ, str_eq,
  eq_iff, lookup, length, length-append, arith, Bool-cases, inl, inr, ◌⊎◌,
}
use tspack.Workflow.Flow.{Flow}
use tspack.Workflow.Graph.{
  Adjacency, targets_of, search_loop, unseen_targets, search_from, flow_node_reaches, adjacency_of,
}
use tspack.Workflow.Graph.Walks.{Walk, here, step}

module _ (adjacency : Adjacency) (target : String) where
  search_loop-sound :
      (fuel : ℕ) (seen pending : List String)
      → search_loop fuel adjacency target seen pending ≡ some true
      → (p : String) × Memᴰ p pending × Walk adjacency p target
  unfolding search_loop
  search_loop-sound zero seen pending h = cc
  search_loop-sound (suc fuel) seen [] h = cc
  search_loop-sound (suc fuel) seen (p ∷ pending) h = elim (Bool-cases (str_eq p target)) [
    | inl same ↦
        (p, Memᴰ.head refl, subst (Walk adjacency p) (ground (arith, eq_iff p target)) here)
    | inr other ↦ elim (Bool-cases (is_among p seen)) [
      | inl old ↦
          let (q, at, w) = search_loop-sound fuel seen pending (ground arith) in
          (q, Memᴰ.tail at, w)
      | inr new ↦
          let (q, at, w) =
            search_loop-sound fuel (p ∷ seen) (pending ++ targets_of adjacency p) (ground arith) in
          elim (Mem-append-cases q pending (targets_of adjacency p) at) [
            | inl later ↦ (q, Memᴰ.tail later, w)
            | inr next ↦ (p, Memᴰ.head refl, step next w)
          ]
    ]
  ]

  -- What holds of the seen names at each round.
  Covered : List String → List String → Type 0
  Covered seen pending =
      (s : String)
      → is_among s seen ≡ true
      → (str_eq s target ≡ false)
        × ((w : String)
            → Memᴰ w (targets_of adjacency s)
            → (is_among w seen ≡ true) ⊎ Memᴰ w pending)

  Covered-end :
      (seen : List String) {u t : String}
      → Covered seen []
      → Walk adjacency u t
      → t ≡ target
      → is_among u seen ≡ true
      → ⊥
  unfolding Covered
  Covered-end seen {u} c here e at = absurd (ground (arith, c u at, eq_iff u target))
  Covered-end seen {u} c (step {v = v} edge w) e at = elim ((c u at).1 v edge) [
    | inl old ↦ Covered-end seen c w e old
    | inr m ↦ elim m [ ]
  ]

  Covered-skip :
      (seen pending : List String) (p : String)
      → is_among p seen ≡ true
      → Covered seen (p ∷ pending)
      → Covered seen pending
  unfolding Covered
  Covered-skip seen pending p old c s at = (
    (c s at).0,
    λ w m. elim ((c s at).1 w m) [
      | inl found ↦ inl found
      | inr (Memᴰ.head e) ↦ inl (subst (λ x. is_among x seen ≡ true) (sym e) old)
      | inr (Memᴰ.tail later) ↦ inr later
    ],
  )

  Covered-expand :
      (seen pending : List String) (p : String)
      → str_eq p target ≡ false
      → Covered seen (p ∷ pending)
      → Covered (p ∷ seen) (pending ++ targets_of adjacency p)
  unfolding Covered
  Covered-expand seen pending p other c s at = elim (Bool-cases (str_eq p s)) [
    | inl same ↦
        let e : p ≡ s = ground (arith, eq_iff p s) in
        (
          subst (λ x. str_eq x target ≡ false) e other,
          λ w m. inr (
              Mem-append_right w pending (targets_of adjacency p)
                (subst (λ x. Memᴰ w (targets_of adjacency x)) (sym e) m)),
        )
    | inr differs ↦
        let old : is_among s seen ≡ true = ground arith in
        (
          (c s old).0,
          λ w m. elim ((c s old).1 w m) [
            | inl found ↦ inl (ground arith)
            | inr (Memᴰ.head e) ↦ inl (ground (arith, eq_iff p w))
            | inr (Memᴰ.tail later) ↦ inr (Mem-append_left w pending (targets_of adjacency p) later)
          ],
        )
  ]

  search_loop_complete :
      (fuel : ℕ) (seen pending : List String)
      → search_loop fuel adjacency target seen pending ≡ some false
      → Covered seen pending
      → (u : String) → (is_among u seen ≡ true) ⊎ Memᴰ u pending
      → Walk adjacency u target
      → ⊥
  unfolding search_loop
  search_loop_complete zero seen pending h c u at w = cc
  search_loop_complete (suc fuel) seen [] h c u (inl at) w = Covered-end seen c w refl at
  search_loop_complete (suc fuel) seen [] h c u (inr m) w = elim m [ ]
  search_loop_complete (suc fuel) seen (p ∷ pending) h c u at w =
      let other : str_eq p target ≡ false = ground (arith, Bool-cases (str_eq p target)) in
      elim (Bool-cases (is_among p seen)) [
        | inl old ↦
            search_loop_complete fuel seen pending (ground arith)
              (Covered-skip seen pending p old c) u
              (elim at [
                | inl found ↦ inl found
                | inr (Memᴰ.head e) ↦ inl (subst (λ x. is_among x seen ≡ true) (sym e) old)
                | inr (Memᴰ.tail later) ↦ inr later
              ])
              w
        | inr new ↦
            search_loop_complete fuel (p ∷ seen) (pending ++ targets_of adjacency p) (ground arith)
              (Covered-expand seen pending p other c) u
              (elim at [
                | inl found ↦ inl (ground arith)
                | inr (Memᴰ.head e) ↦ inl (ground (arith, eq_iff p u))
                | inr (Memᴰ.tail later) ↦
                    inr (Mem-append_left u pending (targets_of adjacency p) later)
              ])
              w
      ]

unseen_targets_mono :
    (p : String) (seen : List String) (adjacency : Adjacency)
    → unseen_targets (p ∷ seen) adjacency ≤ unseen_targets seen adjacency
unfolding unseen_targets
unseen_targets_mono p seen [] = omega arith
unseen_targets_mono p seen ((name, l) ∷ rest) = ground (arith, unseen_targets_mono p seen rest)

unseen_targets-spent :
    (p : String) (seen : List String) (adjacency : Adjacency)
    → is_among p seen ≡ false
    → length (targets_of adjacency p) + unseen_targets (p ∷ seen) adjacency
      ≤ unseen_targets seen adjacency
unfolding unseen_targets targets_of lookup
unseen_targets-spent p seen [] new = omega arith
unseen_targets-spent p seen ((name, l) ∷ rest) new = ground (
  arith,
  unseen_targets-spent p seen rest,
  unseen_targets_mono p seen rest,
  eq_iff name p,
  eq_iff p name,
)

module _ (adjacency : Adjacency) (target : String) where
  search_loop_ends :
      (fuel : ℕ) (seen pending : List String)
      → length pending + unseen_targets seen adjacency < fuel
      → (b : Bool) × (search_loop fuel adjacency target seen pending ≡ some b)
  unfolding search_loop
  search_loop_ends zero seen pending h = absurd (omega arith)
  search_loop_ends (suc fuel) seen [] h = (false, refl)
  search_loop_ends (suc fuel) seen (p ∷ pending) h = elim (Bool-cases (str_eq p target)) [
    | inl same ↦ (true, ground arith)
    | inr other ↦ elim (Bool-cases (is_among p seen)) [
      | inl old ↦ let (b, e) = search_loop_ends fuel seen pending (omega arith) in (b, ground arith)
      | inr new ↦
          let (b, e) = search_loop_ends fuel (p ∷ seen) (pending ++ targets_of adjacency p) (
            omega (
              arith,
              length-append pending (targets_of adjacency p),
              unseen_targets-spent p seen adjacency new,
            )) in
          (b, ground arith)
    ]
  ]

  search_from_decides :
      (from : String)
      → (b : Bool) × (search_from adjacency from target ≡ some b)
        × ((b ≡ true → Walk adjacency from target) × (Walk adjacency from target → b ≡ true))
  unfolding search_from Covered
  search_from_decides from =
      let fuel : ℕ = suc (suc (unseen_targets [] adjacency)) in
      let (b, e) = search_loop_ends fuel [] (from ∷ []) (omega arith) in
      (
        b,
        e,
        (
          λ yes_found.
              let (p, at, w) =
                search_loop-sound adjacency target fuel [] (from ∷ []) (e ∙ ap some yes_found) in
              elim at [
                | Memᴰ.head same ↦ subst (λ x. Walk adjacency x target) same w
                | Memᴰ.tail m ↦ elim m [ ]
              ],
          λ w. elim (Bool-cases b) [
            | inl found ↦ found
            | inr missed ↦ absurd (
                search_loop_complete adjacency target fuel [] (from ∷ []) (e ∙ ap some missed)
                  (λ s at. cc) from (inr (Memᴰ.head refl)) w)
          ],
        ),
      )

-- `flowNodeReaches` ends, and answers whether a walk along the flow leads from the one node to the
-- other.
pub flow_node_reaches_decides :
    (flow : Flow) (from target : String)
    → (b : Bool) × (flow_node_reaches flow from target ≡ some b)
      × ((b ≡ true → Walk (adjacency_of flow) from target)
          × (Walk (adjacency_of flow) from target → b ≡ true))
unfolding flow_node_reaches
flow_node_reaches_decides flow from target = search_from_decides (adjacency_of flow) target from
