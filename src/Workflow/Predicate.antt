-- ===== src/Workflow/Predicate.antt =====
-- `evaluatePredicate` and `projectedFact` of internal/workflow/machine.go.
pub mod Meaning
use tspack.Base.{
  ℕ, ◌*◌, ◌^◌, ◌+◌, Bool, true, false, not, Option, none, some, List, [], ◌∷◌, String, str_eq,
  lookup, length, ltb, ◌==◌, if◌then◌else◌,
}
use tspack.Workflow.Flow.{
  Float64, ValueRef, PredicateKind, PredicateInfo, Predicate, Predicates, NativeResult,
  TestOperationResult, AuditOperationResult, BuildOperationResult, Snapshot, Result, ok, err, ◌>>=◌,
  value_unknown, predicate_invalid, predicate_missing, predicate_type_invalid, projection_invalid,
}

-- A value of type `any` that `projectedFact` returns: a float64 or an int.
pub data Fact : Type 0 where
  float : Float64 → Fact
  int : ℕ → Fact

-- `float64(n)` of a count, which is exact up to 2 ^ 53.
abbrev pub from_count : ℕ → Float64
from_count n = record { negative = false; mantissa = n; scale = 0 }

-- a < b on finite numbers: by the signs, then over the common denominator.
unfoldable pub float_lt : Float64 → Float64 → Bool
float_lt a b =
    let left = a.mantissa * 2 ^ b.scale in
    let right = b.mantissa * 2 ^ a.scale in
    if a.negative
    then (if b.negative then ltb right left else ltb 0 (left + right))
    else (if b.negative then false else ltb left right)

abbrev no_fact : ValueRef → Result Fact
no_fact reference = err (value_unknown reference.result_type)

abbrev test_fact : ValueRef → String → Option TestOperationResult → Result Fact
test_fact reference field none = no_fact reference
test_fact reference field (some test) =
    if str_eq field "passed"
    then ok (float (from_count test.passed))
    else if str_eq field "failed"
    then ok (float (from_count test.failed))
    else if str_eq field "skipped"
    then ok (float (from_count test.skipped))
    else if str_eq field "durationMs"
    then ok (float test.duration_ms)
    else if str_eq field "tests"
    then ok (int (length test.tests))
    else no_fact reference

abbrev audit_fact : ValueRef → String → Option AuditOperationResult → Result Fact
audit_fact reference field none = no_fact reference
audit_fact reference field (some audit) =
    if str_eq field "failing" then ok (float (from_count audit.failing)) else no_fact reference

abbrev build_fact : ValueRef → String → Option BuildOperationResult → Result Fact
build_fact reference field none = no_fact reference
build_fact reference field (some build) =
    if str_eq field "artifacts"
    then ok (int (length build.artifacts))
    else if str_eq field "targets"
    then ok (int (length build.targets))
    else no_fact reference

field_fact : NativeResult → ValueRef → List String → Result Fact
field_fact result reference (field ∷ []) =
    if str_eq reference.result_type "test"
    then test_fact reference field result.test
    else if str_eq reference.result_type "audit"
    then audit_fact reference field result.audit
    else if str_eq reference.result_type "build"
    then build_fact reference field result.build
    else no_fact reference
field_fact result reference _ = err projection_invalid

unfoldable pub projected_fact : NativeResult → ValueRef → Result Fact
unfolding field_fact
projected_fact result reference = field_fact result reference reference.field_path

-- The last `switch` of `evaluatePredicate`.
unfoldable pub compare_fact : PredicateKind → Option Float64 → Fact → Result Bool
compare_fact PredicateKind.greater_than (some number) (float value) = ok (float_lt number value)
compare_fact PredicateKind.less_than (some number) (float value) = ok (float_lt value number)
compare_fact PredicateKind.greater_than _ _ =
    err (predicate_type_invalid PredicateKind.greater_than)
compare_fact PredicateKind.less_than _ _ = err (predicate_type_invalid PredicateKind.less_than)
compare_fact PredicateKind.not_empty _ (int n) = ok (ltb 0 n)
compare_fact PredicateKind.is_empty _ (int n) = ok (n == 0)
compare_fact PredicateKind.not_empty _ (float _) =
    err (predicate_type_invalid PredicateKind.not_empty)
compare_fact PredicateKind.is_empty _ (float _) =
    err (predicate_type_invalid PredicateKind.is_empty)
compare_fact kind _ _ = err (predicate_invalid kind)

abbrev evaluate_input : Snapshot → PredicateInfo → Option ValueRef → Result Bool
evaluate_input s info none = err (predicate_invalid info.kind)
evaluate_input s info (some input) = elim (lookup input.source s.values) [
  | none ↦ err (value_unknown input.source)
  | some result ↦ projected_fact result input >>= compare_fact info.kind info.number
]

-- A predicate that is not `and`, `or` or `not`.
unfoldable pub evaluate_fact : Snapshot → PredicateInfo → Result Bool
unfolding compare_fact projected_fact
evaluate_fact s info = evaluate_input s info info.input

-- The first `switch predicate.Kind`: `and`, `or`, `not`, and the kinds that read a fact.
abbrev pub by_kind {ℓ} : {A : Type ℓ} → PredicateKind → A → A → A → A → A
by_kind PredicateKind.and a o n f = a
by_kind PredicateKind.or a o n f = o
by_kind PredicateKind.not a o n f = n
by_kind _ a o n f = f

abbrev pub negate : Result Bool → Result Bool
negate (ok b) = ok (not b)
negate (err e) = err e

unfoldable mutual
  pub evaluate : Snapshot → Predicate → Result Bool
  evaluate s (Predicate.predicate info children) =
      by_kind info.kind (evaluate_and s children) (evaluate_or s children) (evaluate_not s children)
        (evaluate_fact s info)

  pub evaluate_and : Snapshot → Predicates → Result Bool
  evaluate_and s Predicates.none = ok true
  evaluate_and s (Predicates.more p rest) = elim (evaluate s p) [
    | err e ↦ err e
    | ok false ↦ ok false
    | ok true ↦ evaluate_and s rest
  ]

  pub evaluate_or : Snapshot → Predicates → Result Bool
  evaluate_or s Predicates.none = ok false
  evaluate_or s (Predicates.more p rest) = elim (evaluate s p) [
    | err e ↦ err e
    | ok true ↦ ok true
    | ok false ↦ evaluate_or s rest
  ]

  pub evaluate_not : Snapshot → Predicates → Result Bool
  evaluate_not s Predicates.none = err (predicate_invalid PredicateKind.not)
  evaluate_not s (Predicates.more p Predicates.none) = negate (evaluate s p)
  evaluate_not s (Predicates.more p (Predicates.more q rest)) =
      err (predicate_invalid PredicateKind.not)

unfoldable pub evaluate_predicate : Snapshot → Option Predicate → Result Bool
unfolding evaluate
evaluate_predicate s none = err predicate_missing
evaluate_predicate s (some p) = evaluate s p
