-- ===== src/Resolver/Occupancy/Reasons.antt =====
-- The clamp reasons of `Decide` in internal/resolver/occupancy_controller.go.
use tspack.Base.{
  ◌*◌, pos, ltb_ℤ, wrap_int, ◌≡◌, Bool, ◌&&◌, List, String, str_eq, length, any, ltb, arith,
}
use tspack.Resolver.Occupancy.{
  ResolveOccupancyController, FrontierInput, decide, add_clamp_reason, has_budget,
}
use tspack.Resolver.Occupancy.Bounds.{minimum}

abbrev pub reports : List String → String → Bool
reports reasons reason = any (λ r. str_eq r reason) reasons

module _ (c : ResolveOccupancyController) (input : FrontierInput) where
  -- With more than one job allowed, `Decide` reports `max_jobs` just where there are more items
  -- than jobs, and `host_budget` just where there is work, the hosts bound the jobs, and the product
  -- of the hosts and the jobs of each, as an `int` of 64 bits, is less than the items and the limit.
  pub clamp_reasons-decide :
      (ltb 1 c.max_jobs) ≡ Bool.true
      → (reports (decide c input).clamp_reasons "max_jobs" ≡ ltb c.max_jobs input.work_items)
        × (reports (decide c input).clamp_reasons "host_budget" ≡ (
            ltb 0 input.work_items
            && has_budget c input
            && ltb_ℤ
                (wrap_int (length input.hosts * c.per_host_jobs))
                (pos (minimum input.work_items c.max_jobs))))
  unfolding decide add_clamp_reason
  clamp_reasons-decide many = ground arith
