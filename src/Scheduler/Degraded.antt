-- ===== src/Scheduler/Degraded.antt =====
-- internal/scheduler/degraded.go: the mode in which less is done at once after repeated failures.
use aviationwx_org_bridge.Prelude.{
  ℕ, ◌+◌, ◌≡◌, refl, Bool, true, false, not, ◌&&◌, List, [], ◌∷◌, leb, ltb, if◌then◌else◌, arith,
}
use aviationwx_org_bridge.Prelude.Int.{ℤ, pos, negsuc}
use aviationwx_org_bridge.Prelude.Ratio.{Ratio, ratio}
use aviationwx_org_bridge.Prelude.Clock.{GoTime, zero_time}

pub record DegradedConfig : Type 0 where
  pub enabled : Bool
  pub failure_threshold : ℕ
  pub concurrency_limit : ℕ
  pub slow_interval_multiplier : Ratio

abbrev pub default_degraded_config : DegradedConfig
default_degraded_config = record {
  enabled = true;
  failure_threshold = 3;
  concurrency_limit = 1;
  slow_interval_multiplier = ratio 2 1;
}

pub record DegradedMode : Type 0 where
  pub config : DegradedConfig
  pub failure_count : ℕ
  pub active : Bool
  pub last_failure_time : GoTime

abbrev pub new_degraded_mode : DegradedConfig → DegradedMode
new_degraded_mode c = record {
  config = c;
  failure_count = 0;
  active = false;
  last_failure_time = zero_time;
}

unfoldable pub record_failure : GoTime → DegradedMode → DegradedMode
record_failure now dm = if not dm.config.enabled then dm else record dm {
  failure_count = dm.failure_count + 1;
  last_failure_time = now;
  active = if leb dm.config.failure_threshold (dm.failure_count + 1) then true else dm.active;
}

unfoldable pub record_success : DegradedMode → DegradedMode
record_success dm =
    if not dm.config.enabled then dm else record dm { failure_count = 0; active = false }

unfoldable pub get_concurrency_limit : DegradedMode → ℤ
get_concurrency_limit dm = if dm.active then pos dm.config.concurrency_limit else negsuc 0

unfoldable pub get_interval_multiplier : DegradedMode → Ratio
get_interval_multiplier dm = if dm.active then dm.config.slow_interval_multiplier else ratio 1 1

-- What the cameras report, in time order.
pub data Report : Type 0 where
  failed_at : GoTime → Report
  succeeded : Report

unfoldable pub report : Report → DegradedMode → DegradedMode
report (failed_at now) dm = record_failure now dm
report succeeded dm = record_success dm

unfoldable pub reports : List Report → DegradedMode → DegradedMode
reports [] dm = dm
reports (r ∷ rs) dm = reports rs (report r dm)

-- The failures since the last success, if `n` came before.
unfoldable pub failures_since : ℕ → List Report → ℕ
failures_since n [] = n
failures_since n (failed_at now ∷ rs) = failures_since (n + 1) rs
failures_since n (succeeded ∷ rs) = failures_since 0 rs

-- The state that `n` failures since the last success mean.
abbrev Means : DegradedConfig → ℕ → DegradedMode → Type 0
Means c n dm =
    (dm.config ≡ c) × (dm.failure_count ≡ n) × (dm.active ≡ (ltb 0 n && leb c.failure_threshold n))

report_failure :
    (c : DegradedConfig) (n : ℕ) (now : GoTime) (dm : DegradedMode)
    → c.enabled ≡ true
    → Means c n dm
    → Means c (n + 1) (record_failure now dm)
unfolding record_failure
report_failure c n now dm on m = ground arith

report_success :
    (c : DegradedConfig) (n : ℕ) (dm : DegradedMode)
    → c.enabled ≡ true
    → Means c n dm
    → Means c 0 (record_success dm)
unfolding record_success
report_success c n dm on m = ground arith

reports-Means :
    (c : DegradedConfig) (rs : List Report) (n : ℕ) (dm : DegradedMode)
    → c.enabled ≡ true
    → Means c n dm
    → Means c (failures_since n rs) (reports rs dm)
unfolding reports report failures_since
reports-Means c [] n dm on m = m
reports-Means c (failed_at now ∷ rs) n dm on m =
    reports-Means c rs (n + 1) (record_failure now dm) on (report_failure c n now dm on m)
reports-Means c (succeeded ∷ rs) n dm on m =
    reports-Means c rs 0 (record_success dm) on (report_success c n dm on m)

-- After any reports the degraded mode is active exactly if there was a failure since the last
-- success and the failures since then are at least the threshold; its limits are those of the
-- configuration then, and no limit and the normal interval otherwise.
pub reports_active :
    (c : DegradedConfig) (rs : List Report)
    → c.enabled ≡ true
    → let n = failures_since 0 rs in
      let slow = ltb 0 n && leb c.failure_threshold n in
      let dm = reports rs (new_degraded_mode c) in
      (dm.active ≡ slow)
      × (get_concurrency_limit dm ≡ (if slow then pos c.concurrency_limit else negsuc 0))
      × (get_interval_multiplier dm ≡ (if slow then c.slow_interval_multiplier else ratio 1 1))
unfolding get_concurrency_limit get_interval_multiplier
reports_active c rs on =
    let (config, count, active) =
      reports-Means c rs 0 (new_degraded_mode c) on (refl, refl, refl) in
    rw (config, active) (refl, refl, refl)
