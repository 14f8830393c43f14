-- ===== src/Workflow/Predicate/Meaning.antt =====
-- `evaluatePredicate` of internal/workflow/machine.go against the Boolean meaning of a predicate.
use tspack.Base.{◌≡◌, refl, Bool, true, false, not, ◌&&◌, ◌||◌, arith, some}
use tspack.Workflow.Flow.{PredicateKind, PredicateInfo, Predicate, Predicates, Snapshot, Result, ok}
use tspack.Workflow.Predicate.{
  by_kind, evaluate_fact, evaluate, evaluate_and, evaluate_or, evaluate_not, evaluate_predicate,
}

-- What a predicate says of given truth values for its facts: all children of an `and`, some child of
-- an `or`, no child of a `not`.
unfoldable mutual
  pub holds : (PredicateInfo → Bool) → Predicate → Bool
  holds facts (Predicate.predicate info children) =
      by_kind info.kind (holds_all facts children) (holds_some facts children)
        (not (holds_some facts children)) (facts info)

  pub holds_all : (PredicateInfo → Bool) → Predicates → Bool
  holds_all facts Predicates.none = true
  holds_all facts (Predicates.more p rest) = holds facts p && holds_all facts rest

  pub holds_some : (PredicateInfo → Bool) → Predicates → Bool
  holds_some facts Predicates.none = false
  holds_some facts (Predicates.more p rest) = holds facts p || holds_some facts rest

-- One child, as `not` requires.
abbrev IsSingle : Predicates → Type 0
IsSingle Predicates.none = ⊥
IsSingle (Predicates.more p Predicates.none) = Unit
IsSingle (Predicates.more p (Predicates.more q rest)) = ⊥

-- Every fact below a predicate can be read from the snapshot, with the given truth value, and every
-- `not` has one child.
unfoldable mutual
  pub Readable : Snapshot → (PredicateInfo → Bool) → Predicate → Type 0
  Readable s facts (Predicate.predicate info children) =
      by_kind info.kind (ReadableAll s facts children) (ReadableAll s facts children)
        (IsSingle children × ReadableAll s facts children) (evaluate_fact s info ≡ ok (facts info))

  pub ReadableAll : Snapshot → (PredicateInfo → Bool) → Predicates → Type 0
  ReadableAll s facts Predicates.none = Unit
  ReadableAll s facts (Predicates.more p rest) = Readable s facts p × ReadableAll s facts rest

module _ {P Q R S : Type 0} {a b c d : Result Bool} {x y z w : Bool} where
  by_kind-cases :
      (kind : PredicateKind)
      → (P → a ≡ ok x)
      → (Q → b ≡ ok y)
      → (R → c ≡ ok z)
      → (S → d ≡ ok w)
      → by_kind kind P Q R S
      → by_kind kind a b c d ≡ ok (by_kind kind x y z w)
  by_kind-cases PredicateKind.and f g h i p = f p
  by_kind-cases PredicateKind.or f g h i p = g p
  by_kind-cases PredicateKind.not f g h i p = h p
  by_kind-cases PredicateKind.greater_than f g h i p = i p
  by_kind-cases PredicateKind.less_than f g h i p = i p
  by_kind-cases PredicateKind.not_empty f g h i p = i p
  by_kind-cases PredicateKind.is_empty f g h i p = i p
  by_kind-cases (PredicateKind.unknown name) f g h i p = i p

mutual
  unfolding evaluate holds Readable

  evaluate_by_kind :
      (s : Snapshot) (facts : PredicateInfo → Bool) (p : Predicate)
      → Readable s facts p
      → evaluate s p ≡ ok (holds facts p)
  evaluate_by_kind s facts (Predicate.predicate info children) h =
      by_kind-cases info.kind (evaluate_and-holds s facts children)
        (evaluate_or-holds s facts children) (λ r. evaluate_not-holds s facts children r.0 r.1)
        (λ e. e) h

  evaluate_and-holds :
      (s : Snapshot) (facts : PredicateInfo → Bool) (ps : Predicates)
      → ReadableAll s facts ps
      → evaluate_and s ps ≡ ok (holds_all facts ps)
  evaluate_and-holds s facts Predicates.none h = refl
  evaluate_and-holds s facts (Predicates.more p rest) h =
      ground (arith, evaluate_by_kind s facts p h.0, evaluate_and-holds s facts rest h.1)

  evaluate_or-holds :
      (s : Snapshot) (facts : PredicateInfo → Bool) (ps : Predicates)
      → ReadableAll s facts ps
      → evaluate_or s ps ≡ ok (holds_some facts ps)
  evaluate_or-holds s facts Predicates.none h = refl
  evaluate_or-holds s facts (Predicates.more p rest) h =
      ground (arith, evaluate_by_kind s facts p h.0, evaluate_or-holds s facts rest h.1)

  evaluate_not-holds :
      (s : Snapshot) (facts : PredicateInfo → Bool) (ps : Predicates)
      → IsSingle ps
      → ReadableAll s facts ps
      → evaluate_not s ps ≡ ok (not (holds_some facts ps))
  evaluate_not-holds s facts Predicates.none i h = absurd i
  evaluate_not-holds s facts (Predicates.more p Predicates.none) i h =
      ground (arith, evaluate_by_kind s facts p h.0)
  evaluate_not-holds s facts (Predicates.more p (Predicates.more q rest)) i h = absurd i

-- Where every fact below a predicate can be read and every `not` has one child, the evaluation,
-- which stops at the first child that decides, gives the Boolean meaning of the predicate.
pub evaluate-holds :
    (s : Snapshot) (facts : PredicateInfo → Bool) (p : Predicate)
    → Readable s facts p
    → evaluate_predicate s (some p) ≡ ok (holds facts p)
unfolding evaluate_predicate
evaluate-holds s facts p h = evaluate_by_kind s facts p h
