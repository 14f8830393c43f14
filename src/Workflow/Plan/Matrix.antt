-- ===== src/Workflow/Plan/Matrix.antt =====
-- The combinations of a matrix, `expandMatrix` of internal/workflow/plan.go.
use native.Mathlib.Nat.{mul_assoc, mul_left_comm}
use tspack.Base.{
  ℕ, ◌*◌, ◌≡◌, ◌∙◌, refl, ap, List, [], ◌∷◌, String, Map, length, length-append, arith,
}
use tspack.Base.Text.{sort_strings, insert}
use tspack.Workflow.Plan.{keys, values_of, extend, extend_all, expand_axes, expand_matrix}

module _ {V : Type 0} where
  length-extend :
      (axis : String) (combination : Map V) (values : List V)
      → length (extend axis combination values) ≡ length values
  unfolding extend
  length-extend axis combination [] = refl
  length-extend axis combination (value ∷ values) =
      ground (arith, length-extend axis combination values)

  length-extend_all :
      (axis : String) (values : List V) (combinations : List (Map V))
      → length (extend_all axis values combinations) ≡ length combinations * length values
  unfolding extend_all
  length-extend_all axis values [] = omega arith
  length-extend_all axis values (c ∷ cs) =
      length-append (extend axis c values) (extend_all axis values cs)
      ∙ omega (arith, length-extend axis c values, length-extend_all axis values cs)

  -- How many combinations the axes have.
  abbrev pub combinations_of : Map (List V) → List String → ℕ
  combinations_of matrix [] = 1
  combinations_of matrix (axis ∷ axes) =
      length (values_of matrix axis) * combinations_of matrix axes

  length-expand_axes :
      (matrix : Map (List V)) (axes : List String) (combinations : List (Map V))
      → length (expand_axes matrix axes combinations)
        ≡ length combinations * combinations_of matrix axes
  unfolding expand_axes
  length-expand_axes matrix [] combinations = omega arith
  length-expand_axes matrix (axis ∷ axes) combinations =
      length-expand_axes matrix axes (extend_all axis (values_of matrix axis) combinations)
      ∙ ap (λ n. n * combinations_of matrix axes)
          (length-extend_all axis (values_of matrix axis) combinations)
      ∙ mul_assoc (length combinations) (length (values_of matrix axis))
          (combinations_of matrix axes)

  combinations_of-insert :
      (matrix : Map (List V)) (axis : String) (axes : List String)
      → combinations_of matrix (insert axis axes)
        ≡ length (values_of matrix axis) * combinations_of matrix axes
  unfolding insert
  combinations_of-insert matrix axis [] = refl
  combinations_of-insert matrix axis (b ∷ axes) = ground (
    arith,
    combinations_of-insert matrix axis axes,
    mul_left_comm (length (values_of matrix axis)) (length (values_of matrix b))
        (combinations_of matrix axes),
  )

  combinations_of-sort_strings :
      (matrix : Map (List V)) (axes : List String)
      → combinations_of matrix (sort_strings axes) ≡ combinations_of matrix axes
  unfolding sort_strings
  combinations_of-sort_strings matrix [] = refl
  combinations_of-sort_strings matrix (axis ∷ axes) =
      combinations_of-insert matrix axis (sort_strings axes)
      ∙ ap (λ n. length (values_of matrix axis) * n) (combinations_of-sort_strings matrix axes)

  -- A matrix has as many combinations as the product of the numbers of values of its axes.
  pub length-expand_matrix :
      (matrix : Map (List V)) → length (expand_matrix matrix) ≡ combinations_of matrix (keys matrix)
  unfolding expand_matrix
  length-expand_matrix matrix =
      length-expand_axes matrix (sort_strings (keys matrix)) ([] ∷ [])
      ∙ omega (arith, combinations_of-sort_strings matrix (keys matrix))
