-- ===== src/Resolver/Occupancy/Bounds.antt =====
-- The number of jobs that `Decide` of internal/resolver/occupancy_controller.go allows.
use tspack.Base.{
  ℤ, pos, negsuc, wrap_int, ℕ, ◌*◌, ◌≤◌, ◌≡◌, String, length, leb, arith, if◌then◌else◌,
}
use tspack.Resolver.Occupancy.{
  ResolveOccupancyController, FrontierInput, new_controller, decide, has_budget,
}

abbrev pub minimum : ℕ → ℕ → ℕ
minimum a b = if leb a b then a else b

-- The jobs of a budget that may be negative: one at least.
abbrev pub available : ℤ → ℕ
available (pos n) = if leb n 1 then 1 else n
available (negsuc n) = 1

-- The jobs allowed: as many as there are items, the limit and, under feedforward with known
-- hosts, the hosts with the jobs of each, in 64 bits.
abbrev pub allowed : ResolveOccupancyController → FrontierInput → ℕ
allowed c input =
    let cap : ℕ = minimum input.work_items c.max_jobs in
    if has_budget c input
    then minimum cap (available (wrap_int (length input.hosts * c.per_host_jobs)))
    else cap

pub new_controller-positive :
    (mode : String) (max_jobs per_host_jobs : ℕ)
    → let c = new_controller mode max_jobs per_host_jobs in
      (1 ≤ c.max_jobs) × (1 ≤ c.per_host_jobs) × (c.min_jobs ≡ 1)
unfolding new_controller
new_controller-positive mode max_jobs per_host_jobs = ground arith

-- The target of a controller whose limits are positive.
pub target_jobs-decide :
    (c : ResolveOccupancyController) (input : FrontierInput)
    → 1 ≤ c.max_jobs
    → c.min_jobs ≡ 1
    → (decide c input).target_jobs ≡ allowed c input
unfolding decide
target_jobs-decide c input most least = ground arith

-- A new controller allows as many jobs as the items, the limit and, under feedforward with known
-- hosts, the budget of the hosts admit: the least of these. The budget is the product of the hosts
-- and the jobs of each as an `int` of 64 bits, or 1 where that is not positive.
pub target_jobs-decide_new :
    (mode : String) (max_jobs per_host_jobs : ℕ) (input : FrontierInput)
    → let c = new_controller mode max_jobs per_host_jobs in
      (decide c input).target_jobs ≡ allowed c input
target_jobs-decide_new mode max_jobs per_host_jobs input =
    let (most, per, least) = new_controller-positive mode max_jobs per_host_jobs in
    target_jobs-decide (new_controller mode max_jobs per_host_jobs) input most least
