-- ===== src/Concepts/Merge/Unions.antt =====
-- What the loops of merge.go that add named contributions leave in a list: the union of what was
-- there and of what is added, with each name once.
use tspack.Base.{
  ◌≡◌, ◌∙◌, refl, sym, ap, Bool, true, false, not, ◌&&◌, ◌||◌, ◌⊎◌, inl, inr, List, [], ◌∷◌, ◌++◌,
  String, Memᴰ, Mem-append-cases, Mem-append_left, Mem-append_right, str_eq, eq_iff, any, arith,
  Bool-cases,
}
use tspack.Concepts.Merge.{absent, equal, find_same}

module _ {T : Type 0} (key : T → String) where
  -- No key stands twice.
  abbrev pub has_unique_keys : List T → Bool
  has_unique_keys [] = true
  has_unique_keys (x ∷ xs) = not (any (λ y. str_eq (key y) (key x)) xs) && has_unique_keys xs

  any-last :
      (k : String) (xs : List T) (v : T)
      → any (λ y. str_eq (key y) k) (xs ++ v ∷ [])
        ≡ (any (λ y. str_eq (key y) k) xs || str_eq (key v) k)
  any-last k [] v = ground arith
  any-last k (x ∷ xs) v = ground (arith, any-last k xs v)

  pub has_unique_keys-last :
      (xs : List T) (v : T)
      → any (λ y. str_eq (key y) (key v)) xs ≡ false
      → has_unique_keys xs ≡ true
      → has_unique_keys (xs ++ v ∷ []) ≡ true
  has_unique_keys-last [] v h u = ground arith
  has_unique_keys-last (x ∷ xs) v h u = ground (
    arith,
    any-last (key x) xs v,
    has_unique_keys-last xs v,
    eq_iff (key x) (key v),
    eq_iff (key v) (key x),
  )

  any-Mem :
      (k : String) (xs : List T) (b : T)
      → Memᴰ b xs
      → key b ≡ k
      → any (λ y. str_eq (key y) k) xs ≡ true
  any-Mem k [] b m e = elim m [ ]
  any-Mem k (x ∷ xs) b (Memᴰ.head h) e =
      let same = (eq_iff (key x) k).1 (ap key (sym h) ∙ e) in ground arith
  any-Mem k (x ∷ xs) b (Memᴰ.tail m) e = ground (arith, any-Mem k xs b m e)

  -- Two elements with one key are the same.
  pub has_unique_keys-Mem :
      (xs : List T) (a b : T)
      → has_unique_keys xs ≡ true
      → Memᴰ a xs
      → Memᴰ b xs
      → key a ≡ key b
      → a ≡ b
  has_unique_keys-Mem [] a b u m n e = elim m [ ]
  has_unique_keys-Mem (x ∷ xs) a b u (Memᴰ.head h) (Memᴰ.head k) e = h ∙ sym k
  has_unique_keys-Mem (x ∷ xs) a b u (Memᴰ.tail m) (Memᴰ.tail n) e =
      has_unique_keys-Mem xs a b (ground arith) m n e
  has_unique_keys-Mem (x ∷ xs) a b u (Memᴰ.head h) (Memᴰ.tail n) e =
      ground (arith, any-Mem (key x) xs b n (sym e ∙ ap key h))
  has_unique_keys-Mem (x ∷ xs) a b u (Memᴰ.tail m) (Memᴰ.head k) e =
      ground (arith, any-Mem (key x) xs a m (e ∙ ap key k))

  module _ {W : Type 0} (view : T → W) where
    pub record Union (old values new : List T) : Type 0 where
      pub kept : (a : T) → Memᴰ a old → Memᴰ a new
      pub added : (a : T) → Memᴰ a values → (b : T) × Memᴰ b new × (view b ≡ view a)
      pub only : (b : T) → Memᴰ b new → Memᴰ b old ⊎ ((a : T) × Memᴰ a values × (view b ≡ view a))
      pub unique : has_unique_keys old ≡ true → has_unique_keys new ≡ true

    pub Union-refl : (old : List T) → Union old [] old
    Union-refl old = record {
      kept = λ a m. m;
      added = λ a m. elim m [ ];
      only = λ b m. inl m;
      unique = λ u. u;
    }

    pub Union-append :
        (xs vs ys ws zs : List T) → Union xs vs ys → Union ys ws zs → Union xs (vs ++ ws) zs
    Union-append xs vs ys ws zs p q = record {
      kept = λ a m. q.kept a (p.kept a m);
      added = λ a m. elim (Mem-append-cases a vs ws m) [
        | inl at ↦ let (b, m', e) = p.added a at in (b, q.kept b m', e)
        | inr at ↦ q.added a at
      ];
      only = λ b m. elim (q.only b m) [
        | inr (a, at, e) ↦ inr (a, Mem-append_right a vs ws at, e)
        | inl old ↦ elim (p.only b old) [
          | inl older ↦ inl older
          | inr (a, at, e) ↦ inr (a, Mem-append_left a vs ws at, e)
        ]
      ];
      unique = λ u. q.unique (p.unique u);
    }

    -- A value that is there already, as far as it is viewed.
    pub Union-equal :
        (old : List T) (v e : T) → Memᴰ e old → view e ≡ view v → Union old (v ∷ []) old
    Union-equal old v e m same = record {
      kept = λ a m. m;
      added = λ a n. elim n [
        | Memᴰ.head h ↦ (e, m, same ∙ ap view (sym h))
        | Memᴰ.tail n' ↦ elim n' [ ]
      ];
      only = λ b n. inl n;
      unique = λ u. u;
    }

    pub Union-absent :
        (old : List T) (v w : T)
        → any (λ y. str_eq (key y) (key w)) old ≡ false
        → view w ≡ view v
        → Union old (v ∷ []) (old ++ w ∷ [])
    Union-absent old v w new same = record {
      kept = λ a m. Mem-append_left a old (w ∷ []) m;
      added = λ a n. elim n [
        | Memᴰ.head h ↦
            (w, Mem-append_right w old (w ∷ []) (Memᴰ.head refl), same ∙ ap view (sym h))
        | Memᴰ.tail n' ↦ elim n' [ ]
      ];
      only = λ b n. elim (Mem-append-cases b old (w ∷ []) n) [
        | inl at ↦ inl at
        | inr (Memᴰ.head h) ↦ inr (v, Memᴰ.head refl, ap view h ∙ same)
        | inr (Memᴰ.tail n') ↦ elim n' [ ]
      ];
      unique = λ u. has_unique_keys-last old w new u;
    }

module _ {T : Type 0} (key : T → String) (same : T → T → Bool) where
  pub find_same-absent :
      (target : List T) (value : T)
      → find_same key same target value ≡ absent
      → any (λ y. str_eq (key y) (key value)) target ≡ false
  unfolding find_same
  find_same-absent [] value h = refl
  find_same-absent (existing ∷ rest) value h = ground (
    arith,
    find_same-absent rest value,
    Bool-cases (str_eq (key existing) (key value)),
    Bool-cases (same existing value),
  )

  pub find_same-equal :
      (target : List T) (value : T)
      → find_same key same target value ≡ equal
      → (e : T) × Memᴰ e target × (key e ≡ key value) × (same e value ≡ true)
  unfolding find_same
  find_same-equal [] value h = cc
  find_same-equal (existing ∷ rest) value h =
      elim (Bool-cases (str_eq (key existing) (key value))) [
        | inl named ↦ elim (Bool-cases (same existing value)) [
          | inl s ↦ (existing, Memᴰ.head refl, (eq_iff (key existing) (key value)).0 named, s)
          | inr d ↦ ground arith
        ]
        | inr other ↦
            let (e, m, k, s) = find_same-equal rest value (ground arith) in (e, Memᴰ.tail m, k, s)
      ]
