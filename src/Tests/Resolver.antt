-- ===== src/Tests/Resolver.antt =====
-- A frontier of ten items over two hosts.
use tspack.Base.{pos, ltb_ℤ, wrap_int, ◌^◌, ◌≡◌, refl, ◌&&◌, ltb, length, [], ◌∷◌, ◌*◌}
use tspack.Base.Text.{sort_strings, insert}
use tspack.Resolver.Occupancy.{
  ResolveOccupancyController, FrontierInput, FrontierDecision, new_controller, decide,
  add_clamp_reason, sorted_host_keys, has_budget, mode_feedforward,
}
use tspack.Resolver.Occupancy.Bounds.{allowed, minimum, target_jobs-decide_new}
use tspack.Resolver.Occupancy.Reasons.{reports, clamp_reasons-decide}

abbrev frontier : FrontierInput
frontier = record {
  frontier_index = 0;
  frontier_width = 10;
  work_items = 10;
  metadata_items = 10;
  tarball_items = 0;
  hosts = ("npm.example", 1) ∷ ("jsr.example", 1) ∷ [];
}

abbrev controller : ResolveOccupancyController
controller = new_controller mode_feedforward 8 3

-- `decide`, with all that it calls unfolded wherever this name is.
replay_decide : ResolveOccupancyController → FrontierInput → FrontierDecision
unfolding decide new_controller add_clamp_reason sorted_host_keys sort_strings insert
replay_decide = decide

target : (decide controller frontier).target_jobs ≡ 6
unfolding replay_decide
target = refl

-- The product of two hosts and 2 ^ 62 jobs is negative.
wrapped : (decide (new_controller mode_feedforward 24 (2 ^ 62)) frontier).target_jobs ≡ 1
unfolding replay_decide
wrapped = refl

reasons :
    (decide controller frontier).clamp_reasons ≡ "frontier_width" ∷ "max_jobs" ∷ "host_budget" ∷ []
unfolding replay_decide
reasons = refl

hosts : (decide controller frontier).hosts ≡ "jsr.example" ∷ "npm.example" ∷ []
unfolding replay_decide
hosts = refl

target_jobs-decide_new_example :
    (decide controller frontier).target_jobs ≡ allowed controller frontier
target_jobs-decide_new_example = target_jobs-decide_new mode_feedforward 8 3 frontier

abbrev eight : ResolveOccupancyController
eight = record { mode = mode_feedforward; max_jobs = 8; min_jobs = 1; per_host_jobs = 3 }

clamp_reasons-decide_example :
    (reports (decide eight frontier).clamp_reasons "max_jobs" ≡ ltb 8 10)
    × (reports (decide eight frontier).clamp_reasons "host_budget" ≡ (
        ltb 0 10
        && has_budget eight frontier
        && ltb_ℤ (wrap_int (length frontier.hosts * 3)) (pos (minimum 10 8))))
clamp_reasons-decide_example = clamp_reasons-decide eight frontier refl
