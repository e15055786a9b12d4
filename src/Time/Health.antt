-- ===== src/Time/Health.antt =====
-- internal/time/types.go: the health of the bridge's clock by NTP.
use aviationwx_org_bridge.Prelude.{
  zero, suc, ◌-◌, ℕ, ◌*◌, ◌≡◌, refl, ap, ◌↔◌, ◌⊎◌, inl, inr, ◌++◌, Bool, true, false, List, [], ◌∷◌,
  Option, none, some, arith, Option-cases, All,
}
use aviationwx_org_bridge.Prelude.Int.{ℤ, pos, negsuc, abs, leb_ℤ, ◌≤ℤ◌}
use aviationwx_org_bridge.Prelude.Clock.{GoTime, Duration, seconds, zero_time, second}
use aviationwx_org_bridge.Files.Bytes.{Bytes, codes}

pub record HealthConfig : Type 0 where
  pub servers : List Bytes
  pub check_interval_seconds : ℤ
  pub max_offset_seconds : ℤ

-- With a negative check interval the goroutine of Start panics in time.NewTicker.
pub record TimeHealth : Type 0 where
  pub healthy : Bool
  pub offset : Duration
  pub last_check : GoTime
  pub check_interval : Duration
  pub max_offset : Duration
  pub servers : List Bytes

-- time.Duration(n) * time.Second, and the default only in place of zero.
abbrev pub seconds_or : ℕ → ℤ → Duration
seconds_or fallback (pos zero) = seconds fallback
seconds_or fallback (pos (suc n)) = seconds (suc n)
seconds_or fallback (negsuc n) = negsuc (suc n * second - 1)

abbrev or_pool : List Bytes → List Bytes
or_pool [] = codes "pool.ntp.org" ∷ []
or_pool (s ∷ ss) = s ∷ ss

unfoldable pub new_time_health : HealthConfig → TimeHealth
new_time_health c = record {
  healthy = false;
  offset = pos 0;
  last_check = zero_time;
  check_interval = seconds_or 300 c.check_interval_seconds;
  max_offset = seconds_or 5 c.max_offset_seconds;
  servers = or_pool c.servers;
}

-- The first server that answers; queryNTP is a function of the server here.
abbrev pub first_offset : (Bytes → Option Duration) → List Bytes → Option Duration
first_offset query [] = none
first_offset query (s ∷ ss) = elim (query s) [
  | none ↦ first_offset query ss
  | some offset ↦ some offset
]

-- The state after the servers were asked.
unfoldable pub checked : GoTime → Option Duration → TimeHealth → TimeHealth
checked now none th = record th { healthy = false; last_check = now }
checked now (some offset) th = record th {
  offset = offset;
  last_check = now;
  healthy = leb_ℤ (pos (abs offset)) th.max_offset;
}

unfoldable pub check : GoTime → (Bytes → Option Duration) → TimeHealth → TimeHealth
unfolding checked
check now query th = checked now (first_offset query th.servers) th

-- The server that answers first: those before it are silent.
abbrev pub FirstAnswer : (Bytes → Option Duration) → List Bytes → Duration → Type 0
FirstAnswer query ss o =
    (silent : List Bytes) × (s : Bytes) × (rest : List Bytes) × (ss ≡ silent ++ s ∷ rest)
    × All (λ x. query x ≡ none) silent
    × (query s ≡ some o)

first_offset_cases :
    (query : Bytes → Option Duration) (ss : List Bytes)
    → ((first_offset query ss ≡ none) × All (λ s. query s ≡ none) ss)
      ⊎ ((o : Duration) × (first_offset query ss ≡ some o) × FirstAnswer query ss o)
first_offset_cases query [] = inl (refl, tt)
first_offset_cases query (s ∷ ss) = elim (Option-cases (query s)) [
  | inr (o, answered) ↦ inr (o, ground arith, ([], s, ss, refl, tt, answered))
  | inl none_here ↦ elim (first_offset_cases query ss) [
    | inl (none_there, all) ↦ inl (ground arith, (none_here, all))
    | inr (o, e, (pre, t, rest, parts, silent, answered)) ↦ inr (
      o,
      ground arith,
      (s ∷ pre, t, rest, ap (λ ys. s ∷ ys) parts, (none_here, silent), answered),
    )
  ]
]

-- A check asks the servers in order and takes the first answer: the clock is then healthy exactly if
-- that offset, in either direction, is at most the maximum. If no server answers it is not healthy,
-- and the offset known so far is kept.
pub check-FirstAnswer :
    (now : GoTime) (query : Bytes → Option Duration) (th : TimeHealth)
    → let th' = check now query th in
      (All (λ s. query s ≡ none) th.servers × (th'.healthy ≡ false) × (th'.offset ≡ th.offset))
      ⊎ ((o : Duration) × FirstAnswer query th.servers o
          × (th'.offset ≡ o)
          × ((th'.healthy ≡ true) ↔ (pos (abs o) ≤ℤ th.max_offset)))
unfolding check
check-FirstAnswer now query th = elim (first_offset_cases query th.servers) [
  | inl (e, silent) ↦ rw e (inl (silent, refl, refl))
  | inr (o, e, first) ↦ rw e (inr (o, first, refl, ground arith))
]
