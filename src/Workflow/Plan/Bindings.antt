-- ===== src/Workflow/Plan/Bindings.antt =====
-- What the combinations of `expandMatrix` in internal/workflow/plan.go bind.
use tspack.Base.{
  Mem-append-cases, is_among, subst, ◌≡◌, ◌∙◌, refl, ap, sym, true, ◌||◌, some, List, [], ◌∷◌,
  String, Map, Memᴰ, str_eq, eq_iff, lookup, put, lookup-put, arith, Bool-cases, ◌⊎◌, inl, inr,
}
use tspack.Base.Text.{sort_strings, insert}
use tspack.Workflow.Plan.{keys, values_of, extend, extend_all, expand_axes, expand_matrix}

is_among-insert :
    (axis x : String) (xs : List String)
    → is_among axis (insert x xs) ≡ (str_eq x axis || is_among axis xs)
unfolding insert
is_among-insert axis x [] = refl
is_among-insert axis x (y ∷ xs) = ground (arith, is_among-insert axis x xs)

is_among-sort_strings :
    (axis : String) (xs : List String) → is_among axis (sort_strings xs) ≡ is_among axis xs
unfolding sort_strings
is_among-sort_strings axis [] = refl
is_among-sort_strings axis (x ∷ xs) =
    is_among-insert axis x (sort_strings xs)
    ∙ ap (λ b. str_eq x axis || b) (is_among-sort_strings axis xs)

module _ {V : Type 0} where
  extend-cases :
      (axis : String) (c c' : Map V) (values : List V)
      → Memᴰ c' (extend axis c values)
      → (v : V) × Memᴰ v values × (c' ≡ put axis v c)
  unfolding extend
  extend-cases axis c c' [] m = elim m [ ]
  extend-cases axis c c' (v ∷ values) (Memᴰ.head e) = (v, Memᴰ.head refl, e)
  extend-cases axis c c' (v ∷ values) (Memᴰ.tail m) =
      let (w, at, same) = extend-cases axis c c' values m in (w, Memᴰ.tail at, same)

  extend_all-cases :
      (axis : String) (values : List V) (cs : List (Map V)) (c' : Map V)
      → Memᴰ c' (extend_all axis values cs)
      → (c : Map V) × (v : V) × Memᴰ c cs × Memᴰ v values × (c' ≡ put axis v c)
  unfolding extend_all
  extend_all-cases axis values [] c' m = elim m [ ]
  extend_all-cases axis values (c ∷ cs) c' m =
      elim (Mem-append-cases c' (extend axis c values) (extend_all axis values cs) m) [
        | inl here ↦
            let (v, at, same) = extend-cases axis c c' values here in
            (c, v, Memᴰ.head refl, at, same)
        | inr later ↦
            let (d, v, within, at, same) = extend_all-cases axis values cs c' later in
            (d, v, Memᴰ.tail within, at, same)
      ]

  -- The combination binds the axis to one of its values.
  abbrev pub Binds : Map (List V) → Map V → String → Type 0
  Binds matrix c axis = (v : V) × (lookup axis c ≡ some v) × Memᴰ v (values_of matrix axis)

  put-Binds :
      (matrix : Map (List V)) (c : Map V) (a : String) (v : V) (axis : String)
      → Memᴰ v (values_of matrix a)
      → (str_eq a axis ≡ true) ⊎ Binds matrix c axis
      → Binds matrix (put a v c) axis
  put-Binds matrix c a v axis at h = elim (Bool-cases (str_eq a axis)) [
    | inl same ↦ (
      v,
      ground (arith, lookup-put a axis v c),
      subst (λ x. Memᴰ v (values_of matrix x)) (ground (arith, eq_iff a axis)) at,
    )
    | inr other ↦ elim h [
      | inl same ↦ absurd (ground arith)
      | inr (w, found, within) ↦ (w, ground (arith, lookup-put a axis v c), within)
    ]
  ]

  expand_axes-Binds :
      (matrix : Map (List V)) (axes : List String) (cs : List (Map V)) (c : Map V) (axis : String)
      → Memᴰ c (expand_axes matrix axes cs)
      → (is_among axis axes ≡ true) ⊎ ((d : Map V) → Memᴰ d cs → Binds matrix d axis)
      → Binds matrix c axis
  unfolding expand_axes
  expand_axes-Binds matrix [] cs c axis m (inl h) = absurd (ground arith)
  expand_axes-Binds matrix [] cs c axis m (inr f) = f c m
  expand_axes-Binds matrix (a ∷ axes) cs c axis m h =
      let next = extend_all a (values_of matrix a) cs in
      elim (Bool-cases (is_among axis axes)) [
        | inl later ↦ expand_axes-Binds matrix axes next c axis m (inl later)
        | inr never ↦
            let here : (str_eq a axis ≡ true) ⊎ ((d : Map V) → Memᴰ d cs → Binds matrix d axis) =
              elim h [ inl e ↦ inl (ground arith) | inr f ↦ inr f ] in
            expand_axes-Binds matrix axes next c axis m (
              inr (λ d at.
                let (e, v, within, value, same) = extend_all-cases a (values_of matrix a) cs d at in
                subst (λ x. Binds matrix x axis) (sym same)
                  (put-Binds matrix e a v axis value
                    (elim here [ inl s ↦ inl s | inr f ↦ inr (f e within) ]))))
      ]

  -- Each combination of a matrix binds each of its axes to one of the values of the axis.
  pub expand_matrix-Binds :
      (matrix : Map (List V)) (c : Map V) (axis : String)
      → Memᴰ c (expand_matrix matrix)
      → is_among axis (keys matrix) ≡ true
      → Binds matrix c axis
  unfolding expand_matrix
  expand_matrix-Binds matrix c axis m h =
      expand_axes-Binds matrix (sort_strings (keys matrix)) ([] ∷ []) c axis m
        (inl (is_among-sort_strings axis (keys matrix) ∙ h))
