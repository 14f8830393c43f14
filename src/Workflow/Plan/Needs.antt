-- ===== src/Workflow/Plan/Needs.antt =====
-- The needs of the jobs that `BuildPlan` of internal/workflow/plan.go plans.
use tspack.Base.{
  ℕ, ◌+◌, ◌≡◌, ◌∙◌, refl, ap, Bool, true, false, ◌&&◌, ◌||◌, some, List, [], ◌∷◌, ◌++◌, map, String,
  Map, str_eq, eq_refl, lookup, put, lookup-put, get_elem?, any, all, arith, Bool-cases, inl, inr,
  if◌then◌else◌,
}
use tspack.Base.Text.{sort_strings, insert}
use tspack.Workflow.Plan.{WorkflowJob, Workflow, PlanJob, expand_matrix}
use tspack.Workflow.Plan.Jobs.{
  Planned, planned_job, instances_of, plan_combination, plan_combinations, plan_jobs, needed,
  declared_needs, with_needs, build_plan,
}

all-append {ℓ} :
    {A : Type ℓ} (p : A → Bool) (xs ys : List A) → all p (xs ++ ys) ≡ (all p xs && all p ys)
all-append p [] ys = refl
all-append p (x ∷ xs) ys = ground (arith, all-append p xs ys)

all-insert :
    (p : String → Bool) (x : String) (xs : List String) → all p (insert x xs) ≡ (p x && all p xs)
unfolding insert
all-insert p x [] = refl
all-insert p x (y ∷ xs) = ground (arith, all-insert p x xs)

all-sort_strings : (p : String → Bool) (xs : List String) → all p (sort_strings xs) ≡ all p xs
unfolding sort_strings
all-sort_strings p [] = refl
all-sort_strings p (x ∷ xs) =
    ground (arith, all-insert p x (sort_strings xs), all-sort_strings p xs)

all_mono {ℓ} :
    {A : Type ℓ} (p q : A → Bool) (xs : List A)
    → ((x : A) → p x ≡ true → q x ≡ true)
    → all p xs ≡ true
    → all q xs ≡ true
all_mono p q [] h a = refl
all_mono p q (x ∷ xs) h a = ground (arith, h x, all_mono p q xs h)

any-append {ℓ} :
    {A : Type ℓ} (p : A → Bool) (xs ys : List A) → any p (xs ++ ys) ≡ (any p xs || any p ys)
any-append p [] ys = refl
any-append p (x ∷ xs) ys = ground (arith, any-append p xs ys)

instances-put :
    (k j : String) (l : List String) (m : Map (List String)) (p : String → Bool)
    → all p l ≡ true
    → all p (instances_of (lookup j m)) ≡ true
    → all p (instances_of (lookup j (put k l m))) ≡ true
instances-put k j l m p new old =
    ap (λ o. all p (instances_of o)) (lookup-put k j l m) ∙ elim (Bool-cases (str_eq k j)) [
      | inl same ↦ ap (λ b. all p (instances_of (if b then some l else lookup j m))) same ∙ new
      | inr other ↦ ap (λ b. all p (instances_of (if b then some l else lookup j m))) other ∙ old
    ]

named_empty : (p : String → Bool) (j : String) → all p (instances_of (lookup j [])) ≡ true
unfolding lookup
named_empty p j = refl

abbrev has_no_needs : List String → Bool
has_no_needs [] = true
has_no_needs (n ∷ ns) = false

module _ {V : Type 0} where
  -- Some job has the identity.
  abbrev pub names : List (PlanJob V) → String → Bool
  names jobs n = any (λ job. str_eq job.identity n) jobs

  -- What holds of the loop over the jobs.
  record Sound (instances : Map (List String)) (jobs : List (PlanJob V)) : Type 0 where
    named : (job : String) → all (names jobs) (instances_of (lookup job instances)) ≡ true
    fresh : all (λ job. has_no_needs job.needs) jobs ≡ true

  names-more :
      (jobs : List (PlanJob V)) (job : PlanJob V) (l : List String)
      → all (names jobs) l ≡ true
      → all (names (jobs ++ job ∷ [])) l ≡ true
  names-more jobs job l = all_mono (names jobs) (names (jobs ++ job ∷ [])) l (λ n h.
      any-append (λ k. str_eq k.identity n) jobs (job ∷ [])
      ∙ ap (λ b. b || any (λ k. str_eq k.identity n) (job ∷ [])) h)

  needed-named :
      (jobs : List (PlanJob V)) (instances : Map (List String)) (needs : List String)
      → Sound instances jobs
      → all (names jobs) (needed instances needs) ≡ true
  unfolding needed
  needed-named jobs instances [] s = refl
  needed-named jobs instances (n ∷ needs) s =
      all-append (names jobs) (instances_of (lookup n instances)) (needed instances needs)
      ∙ ground (arith, s.named n, needed-named jobs instances needs s)

  any-with_needs :
      (instances : Map (List String)) (declared : List (WorkflowJob V)) (n : String)
      (jobs : List (PlanJob V))
      → names (map (with_needs instances declared) jobs) n ≡ names jobs n
  any-with_needs instances declared n [] = refl
  any-with_needs instances declared n (job ∷ jobs) =
      ap (λ b. str_eq job.identity n || b) (any-with_needs instances declared n jobs)

  all_congruent :
      (js ks : List (PlanJob V)) (l : List String)
      → ((n : String) → names ks n ≡ names js n)
      → all (names js) l ≡ true
      → all (names ks) l ≡ true
  all_congruent js ks l e = all_mono (names js) (names ks) l (λ n h. e n ∙ h)

  with_needs-named :
      (jobs : List (PlanJob V)) (instances : Map (List String)) (declared : List (WorkflowJob V))
      (job : PlanJob V)
      → Sound instances jobs
      → has_no_needs job.needs ≡ true
      → all (names jobs) (with_needs instances declared job).needs ≡ true
  with_needs-named jobs instances declared job s none_yet =
      all-sort_strings (names jobs)
        (job.needs ++ needed instances (declared_needs (get_elem? declared job.declaration_ord)))
      ∙ no_needs-append job.needs
          (needed instances (declared_needs (get_elem? declared job.declaration_ord))) none_yet
          (needed-named jobs instances (declared_needs (get_elem? declared job.declaration_ord)) s)
    where
      no_needs-append :
          (l m : List String)
          → has_no_needs l ≡ true
          → all (names jobs) m ≡ true
          → all (names jobs) (l ++ m) ≡ true
      no_needs-append [] m e h = h
      no_needs-append (x ∷ l) m e h = cc

  names-last :
      (jobs : List (PlanJob V)) (job : PlanJob V) → names (jobs ++ job ∷ []) job.identity ≡ true
  names-last jobs job =
      any-append (λ k. str_eq k.identity job.identity) jobs (job ∷ [])
      ∙ ground (arith, eq_refl job.identity, Bool-cases (names jobs job.identity))

  more-Sound :
      (key : String) (instances : Map (List String)) (jobs : List (PlanJob V)) (planned : PlanJob V)
      → has_no_needs planned.needs ≡ true
      → Sound instances jobs
      → Sound
          (put key (instances_of (lookup key instances) ++ planned.identity ∷ []) instances)
          (jobs ++ planned ∷ [])
  more-Sound key instances jobs planned none_yet s = record {
    named = λ j.
        instances-put key j (instances_of (lookup key instances) ++ planned.identity ∷ []) instances
          (names (jobs ++ planned ∷ []))
          (all-append (names (jobs ++ planned ∷ [])) (instances_of (lookup key instances))
              (planned.identity ∷ [])
            ∙ ground (
              arith,
              names-more jobs planned (instances_of (lookup key instances)) (s.named key),
              names-last jobs planned,
            ))
          (names-more jobs planned (instances_of (lookup j instances)) (s.named j));
    fresh =
        all-append (λ job. has_no_needs job.needs) jobs (planned ∷ []) ∙ ground (arith, s.fresh);
  }

  module _ (encode : V → String) (upper : String → String) where
    plan_combinations-Sound :
        (job : WorkflowJob V) (i : ℕ) (p : Planned V) (combinations : List (Map V))
        → Sound p.0 p.1
        → let q = plan_combinations encode upper job i p combinations in Sound q.0 q.1
    unfolding plan_combinations
    plan_combinations-Sound job i p [] s = s
    plan_combinations-Sound job i (instances, jobs) (c ∷ cs) s =
        plan_combinations-Sound job i (plan_combination encode upper job i (instances, jobs) c) cs
          (more-Sound job.identity instances jobs (planned_job encode upper job i c) refl s)

    plan_jobs-Sound :
        (i : ℕ) (p : Planned V) (declared : List (WorkflowJob V))
        → Sound p.0 p.1
        → let q = plan_jobs encode upper i p declared in Sound q.0 q.1
    unfolding plan_jobs
    plan_jobs-Sound i p [] s = s
    plan_jobs-Sound i p (job ∷ declared) s =
        plan_jobs-Sound (i + 1) (plan_combinations encode upper job i p (expand_matrix job.matrix))
          declared (plan_combinations-Sound job i p (expand_matrix job.matrix) s)

    finished-named :
        (instances : Map (List String)) (declared : List (WorkflowJob V))
        (jobs some_jobs : List (PlanJob V))
        → Sound instances jobs
        → all (λ job. has_no_needs job.needs) some_jobs ≡ true
        → all
            (λ job. all (names (map (with_needs instances declared) jobs)) job.needs)
            (map (with_needs instances declared) some_jobs)
          ≡ true
    finished-named instances declared jobs [] s fresh = refl
    finished-named instances declared jobs (job ∷ some_jobs) s fresh =
        let here =
          all_congruent jobs (map (with_needs instances declared) jobs)
            (with_needs instances declared job).needs
            (λ n. any-with_needs instances declared n jobs)
            (with_needs-named jobs instances declared job s (ground arith)) in
        let later = finished-named instances declared jobs some_jobs s (ground arith) in
        ap
          (λ b.
            b
            && all (λ job. all (names (map (with_needs instances declared) jobs)) job.needs)
                (map (with_needs instances declared) some_jobs))
          here
        ∙ later

    -- Each job that a planned job needs is a planned job.
    pub needs-build_plan :
        (declaration : Workflow V)
        → let jobs = (build_plan encode upper declaration).jobs in
          all (λ job. all (names jobs) job.needs) jobs ≡ true
    unfolding build_plan
    needs-build_plan declaration =
        let p = plan_jobs encode upper 0 ([], []) declaration.jobs in
        let s =
          plan_jobs-Sound 0 ([], []) declaration.jobs
            (record { named = λ j. named_empty (names []) j; fresh = refl }) in
        finished-named p.0 declaration.jobs p.1 p.1 s s.fresh
