-- ===== src/Resource/Tests.antt =====
-- The theorems on internal/resource/limiter.go with two workers.
use aviationwx_org_bridge.Prelude.{◌<◌, arith, ◌≡◌, refl, ◌⊎◌, false, [], ◌∷◌, All}
use aviationwx_org_bridge.Prelude.Int.{pos, negsuc}
use aviationwx_org_bridge.Resource.Limiter.{SlotConfig, new_limiter, acquire}
use aviationwx_org_bridge.Resource.Workers.{
  idle, at_exif, reading, begin, take_exif, System, moves, idle_workers, Reach, at_rest, later,
}
use aviationwx_org_bridge.Resource.Bounded.{Bounded, reach-Bounded}
use aviationwx_org_bridge.Resource.Progress.{is_busy, JobGoes, reach-Goes}

-- No number is configured.
abbrev unset : SlotConfig
unset = record {
  max_concurrent_image_processing = pos 0;
  max_concurrent_exif_operations = negsuc 0;
}

-- The first worker reads, and the second waits for its slot.
abbrev contended : System
contended = record {
  slots = record { image_slots = 0; exif_slots = 1; leaked = 0 };
  stages = reading ∷ at_exif ∷ [];
}

contended_reached : Reach (new_limiter 4 unset) 2 contended
unfolding idle_workers new_limiter acquire
contended_reached =
    later
      (later (later at_rest (moves [] (idle ∷ []) refl begin)) (moves (at_exif ∷ []) [] refl begin))
      (moves [] (at_exif ∷ []) refl (take_exif refl))

reach-Bounded_example : Bounded (new_limiter 4 unset) contended
reach-Bounded_example = reach-Bounded contended_reached

few : 0 < (new_limiter 4 unset).image_processing
unfolding new_limiter
few = ground arith

reach-Goes_example :
    All (λ a. is_busy a ≡ false) contended.stages ⊎ JobGoes (new_limiter 4 unset) contended
reach-Goes_example = reach-Goes 4 unset 2 contended few contended_reached
