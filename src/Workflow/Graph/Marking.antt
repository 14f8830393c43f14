-- ===== src/Workflow/Graph/Marking.antt =====
-- `markReachable` inside `ValidateFlow` of internal/workflow/flow.go marks the names that a walk
-- leads to, and no other.
use tspack.Base.{
  is_among, ℕ, zero, suc, ◌≡◌, refl, sym, subst, true, false, Option, none, some, List, [], ◌∷◌,
  String, Memᴰ, str_eq, eq_iff, arith, Bool-cases, inl, inr, ◌⊎◌,
}
use tspack.Workflow.Graph.{Adjacency, targets_of, and_mark, mark_all, mark_reachable}
use tspack.Workflow.Graph.Walks.{Walk, here, step}

and_mark-eq :
    (o : Option (List String)) (f : List String → Option (List String)) (next : List String)
    → and_mark o f ≡ some next
    → (mid : List String) × (o ≡ some mid) × (f mid ≡ some next)
and_mark-eq none f next h = cc
and_mark-eq (some mid) f next h = (mid, refl, h)

module _ (adjacency : Adjacency) where
  -- What marking from some names adds to the marked ones.
  record Marks (before from after : List String) : Type 0 where
    kept : (u : String) → is_among u before ≡ true → is_among u after ≡ true
    marked : (u : String) → Memᴰ u from → is_among u after ≡ true
    closed :
        (u w : String)
        → is_among u before ≡ false
        → is_among u after ≡ true
        → Memᴰ w (targets_of adjacency u)
        → is_among w after ≡ true
    sound :
        (u : String)
        → is_among u after ≡ true
        → (is_among u before ≡ true) ⊎ ((x : String) × Memᴰ x from × Walk adjacency x u)

  abbrev MarksFrom : (String → List String → Option (List String)) → Type 0
  MarksFrom f =
      (v : String) (before after : List String)
      → f v before ≡ some after
      → Marks before (v ∷ []) after

  Marks-append :
      (before mid after : List String) (t : String) (targets : List String)
      → Marks before (t ∷ []) mid
      → Marks mid targets after
      → Marks before (t ∷ targets) after
  Marks-append before mid after t targets a b = record {
    kept = λ u h. b.kept u (a.kept u h);
    marked = λ u m. elim m [
      | Memᴰ.head e ↦ b.kept u (a.marked u (Memᴰ.head e))
      | Memᴰ.tail m' ↦ b.marked u m'
    ];
    closed = λ u w new now m. elim (Bool-cases (is_among u mid)) [
      | inl early ↦ b.kept w (a.closed u w new early m)
      | inr late ↦ b.closed u w late now m
    ];
    sound = λ u now. elim (b.sound u now) [
      | inl early ↦ elim (a.sound u early) [
        | inl old ↦ inl old
        | inr (x, Memᴰ.head e, w) ↦ inr (x, Memᴰ.head e, w)
        | inr (x, Memᴰ.tail m, w) ↦ inr (x, elim m [ ], w)
      ]
      | inr (x, m, w) ↦ inr (x, Memᴰ.tail m, w)
    ];
  }

  Marks-none : (before : List String) → Marks before [] before
  Marks-none before = record {
    kept = λ u h. h;
    marked = λ u m. elim m [ ];
    closed = λ u w new now m. cc;
    sound = λ u now. inl now;
  }

  mark_all-Marks :
      (f : String → List String → Option (List String)) (targets before after : List String)
      → MarksFrom f
      → mark_all f targets before ≡ some after
      → Marks before targets after
  unfolding mark_all
  mark_all-Marks f [] before after spec h =
      let same : before ≡ after = cc in subst (Marks before []) same (Marks-none before)
  mark_all-Marks f (t ∷ targets) before after spec h =
      let (mid, one, rest) = and_mark-eq (f t before) (mark_all f targets) after h in
      Marks-append before mid after t targets (spec t before mid one)
        (mark_all-Marks f targets mid after spec rest)

  Marks-old :
      (v : String) (before : List String) → is_among v before ≡ true → Marks before (v ∷ []) before
  Marks-old v before old = record {
    kept = λ u h. h;
    marked = λ u m. elim m [
      | Memᴰ.head e ↦ subst (λ x. is_among x before ≡ true) (sym e) old
      | Memᴰ.tail m' ↦ elim m' [ ]
    ];
    closed = λ u w new now m. cc;
    sound = λ u now. inl now;
  }

  Marks-expand :
      (v : String) (before after : List String)
      → Marks (v ∷ before) (targets_of adjacency v) after
      → Marks before (v ∷ []) after
  Marks-expand v before after a = record {
    kept = λ u h. a.kept u (ground arith);
    marked = λ u m. elim m [
      | Memᴰ.head e ↦ a.kept u (ground (arith, eq_iff v u))
      | Memᴰ.tail m' ↦ elim m' [ ]
    ];
    closed = λ u w new now m. elim (Bool-cases (str_eq v u)) [
      | inl same ↦
          a.marked w
            (subst (λ x. Memᴰ w (targets_of adjacency x)) (sym (ground (arith, eq_iff v u))) m)
      | inr other ↦ a.closed u w (ground arith) now m
    ];
    sound = λ u now. elim (a.sound u now) [
      | inl early ↦ elim (Bool-cases (str_eq v u)) [
        | inl same ↦
            inr (v, Memᴰ.head refl, subst (Walk adjacency v) (ground (arith, eq_iff v u)) here)
        | inr other ↦ inl (ground arith)
      ]
      | inr (x, m, w) ↦ inr (v, Memᴰ.head refl, step m w)
    ];
  }

  mark_reachable-Marks : (fuel : ℕ) → MarksFrom (mark_reachable fuel adjacency)
  unfolding mark_reachable
  mark_reachable-Marks zero v before after h = cc
  mark_reachable-Marks (suc fuel) v before after h = elim (Bool-cases (is_among v before)) [
    | inl old ↦
        let same : before ≡ after = ground arith in
        subst (Marks before (v ∷ [])) same (Marks-old v before old)
    | inr new ↦ Marks-expand v before after (
        mark_all-Marks (mark_reachable fuel adjacency) (targets_of adjacency v) (v ∷ before) after
          (mark_reachable-Marks fuel) (ground arith))
  ]

  closed-Walk :
      (after : List String) {u w : String}
      → Marks [] (u ∷ []) after
      → {x : String} → Walk adjacency x w
      → is_among x after ≡ true
      → is_among w after ≡ true
  closed-Walk after a here at = at
  closed-Walk after a (step {u = x} {v = y} edge w) at =
      closed-Walk after a w (a.closed x y refl at edge)

  -- From no marked name, just the names that a walk leads to are marked.
  pub mark_reachable_iff :
      (fuel : ℕ) (v : String) (after : List String)
      → mark_reachable fuel adjacency v [] ≡ some after
      → (u : String)
      → (is_among u after ≡ true → Walk adjacency v u)
        × (Walk adjacency v u → is_among u after ≡ true)
  mark_reachable_iff fuel v after h u =
      let a = mark_reachable-Marks fuel v [] after h in
      (
        λ at. elim (a.sound u at) [
          | inl old ↦ cc
          | inr (x, Memᴰ.head e, w) ↦ subst (λ y. Walk adjacency y u) e w
          | inr (x, Memᴰ.tail m, w) ↦ elim m [ ]
        ],
        λ w. closed-Walk after a w (a.marked v (Memᴰ.head refl)),
      )
