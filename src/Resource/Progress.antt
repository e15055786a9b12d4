-- ===== src/Resource/Progress.antt =====
-- That the slots of internal/resource/limiter.go are passed on.
use aviationwx_org_bridge.Prelude.{
  ◌<◌, ℕ, ◌+◌, ◌-◌, ◌/◌, ◌≡◌, ◌≤◌, ◌⊎◌, refl, ap, inl, inr, Bool, true, false, List, [], ◌∷◌, ◌++◌,
  some, All, Bool-cases, arith,
}
use aviationwx_org_bridge.Resource.Limiter.{
  Limits, SlotConfig, new_limiter, positive_or, max, acquire, release,
}
use aviationwx_org_bridge.Prelude.Int.{ℤ, pos, negsuc}
use aviationwx_org_bridge.Resource.Workers.{
  Stage, idle, at_exif, reading, at_image, processing, ending, take_exif, skip_processing,
  take_image, release_image, release_exif, end_without_exif, System, Slots, Move, Reach,
}
use aviationwx_org_bridge.Resource.Bounded.{
  holds_image, holds_exif, total, total-append, Bounded, reach-Bounded,
}

-- A job that waits for nothing.
abbrev is_free : Stage → Bool
is_free reading = true
is_free (processing e) = true
is_free (ending e) = true
is_free _ = false

-- A job that may hold a slot.
abbrev may_hold : Stage → Bool
may_hold idle = false
may_hold at_exif = false
may_hold _ = true

abbrev pub is_busy : Stage → Bool
is_busy idle = false
is_busy _ = true

-- A stage in a list, and what stands around it.
record Found (p : Stage → Bool) (ss : List Stage) : Type 0 where
  before : List Stage
  stage : Stage
  after : List Stage
  split : ss ≡ before ++ (stage ∷ after)
  here : p stage ≡ true

search_for : (p : Stage → Bool) (xs : List Stage) → Found p xs ⊎ All (λ a. p a ≡ false) xs
search_for p [] = inr tt
search_for p (x ∷ xs) = elim (Bool-cases (p x)) [
  | inl h ↦ inl (record { before = []; stage = x; after = xs; split = refl; here = h })
  | inr h ↦ elim (search_for p xs) [
    | inl f ↦ inl (record {
      before = x ∷ f.before;
      stage = f.stage;
      after = f.after;
      split = ap (λ t. x ∷ t) f.split;
      here = f.here;
    })
    | inr others ↦ inr (h, others)
  ]
]

total-none :
    (f : Stage → ℕ) (p : Stage → Bool) (xs : List Stage)
    → ((a : Stage) → p a ≡ false → f a ≡ 0)
    → All (λ a. p a ≡ false) xs
    → total f xs ≡ 0
unfolding total
total-none f p [] z h = refl
total-none f p (x ∷ xs) z h = omega (arith, z x h.0, total-none f p xs z h.1)

acquire_free : (c u : ℕ) → u < c → acquire c u ≡ some (u + 1)
unfolding acquire
acquire_free c u h = ground (arith)

release_used : (u : ℕ) → 1 ≤ u → release u ≡ some (u - 1)
unfolding release
release_used u h = ground (arith)

-- A holder is counted.
counted :
    (f : Stage → ℕ) (p : ℕ) (xs : List Stage) (a : Stage) (ys ss : List Stage)
    → total f ss ≤ p
    → ss ≡ xs ++ (a ∷ ys)
    → f a ≡ 1
    → 1 ≤ p
unfolding total
counted f p xs a ys ss h e one = omega (arith, h, ap (total f) e, total-append f xs (a ∷ ys), one)

-- One of the jobs under way takes its next step, which needs no cancelled context and is no panic.
pub record JobGoes (l : Limits) (s : System) : Type 0 where
  before : List Stage
  pub stage : Stage
  after : List Stage
  pub under_way : is_busy stage ≡ true
  split : s.stages ≡ before ++ (stage ∷ after)
  pub next_stage : Stage
  pub slots_then : Slots
  pub goes : Move l s.slots false stage slots_then next_stage

module _ (l : Limits) (s : System) (i : Bounded l s) where
  abbrev Goes : Type 0
  Goes = JobGoes l s

  goes_at :
      (xs ys : List Stage) (a : Stage) {u : Slots} {b : Stage}
      → s.stages ≡ xs ++ (a ∷ ys)
      → is_busy a ≡ true
      → Move l s.slots false a u b
      → Goes
  goes_at xs ys a {u} {b} h busy m = record {
    before = xs;
    stage = a;
    after = ys;
    under_way = busy;
    split = h;
    next_stage = b;
    slots_then = u;
    goes = m;
  }

  free_goes : (xs ys : List Stage) (a : Stage) → s.stages ≡ xs ++ (a ∷ ys) → is_free a ≡ true → Goes
  free_goes xs ys reading h free = goes_at xs ys reading h refl skip_processing
  free_goes xs ys (processing e) h free = goes_at xs ys (processing e) h refl (
      release_image (
        release_used s.slots.image_slots
          (counted holds_image _ xs (processing e) ys _ (omega (arith, i.image_slots)) h refl)))
  free_goes xs ys (ending true) h free = goes_at xs ys (ending true) h refl (
      release_exif (
        release_used s.slots.exif_slots
          (counted holds_exif _ xs (ending true) ys _ (omega (arith, i.exif_slots)) h refl)))
  free_goes xs ys (ending false) h free = goes_at xs ys (ending false) h refl end_without_exif
  free_goes xs ys idle h free = absurd (cc (free))
  free_goes xs ys at_exif h free = absurd (cc (free))
  free_goes xs ys (at_image e) h free = absurd (cc (free))

  module _ (image_slots : s.slots.leaked < l.image_processing)
      (exif_slots : 1 ≤ l.exif_operations) where
    holding_goes :
        (xs ys : List Stage) (a : Stage)
        → s.stages ≡ xs ++ (a ∷ ys)
        → All (λ b. is_free b ≡ false) s.stages
        → may_hold a ≡ true
        → Goes
    holding_goes xs ys (at_image e) h none_free holds = goes_at xs ys (at_image e) h refl (
        take_image (
          acquire_free l.image_processing s.slots.image_slots (
            omega (
              arith,
              image_slots,
              i.image_slots,
              total-none holds_image is_free s.stages no_image none_free,
            ))))
      where
        no_image : (a : Stage) → is_free a ≡ false → holds_image a ≡ 0
        no_image idle k = refl
        no_image at_exif k = refl
        no_image reading k = refl
        no_image (at_image e) k = refl
        no_image (processing e) k = absurd (cc (k))
        no_image (ending e) k = refl
    holding_goes xs ys reading h none_free holds = free_goes xs ys reading h refl
    holding_goes xs ys (processing e) h none_free holds = free_goes xs ys (processing e) h refl
    holding_goes xs ys (ending e) h none_free holds = free_goes xs ys (ending e) h refl
    holding_goes xs ys idle h none_free holds = absurd (cc (holds))
    holding_goes xs ys at_exif h none_free holds = absurd (cc (holds))

    waiting_goes :
        (xs ys : List Stage) (a : Stage)
        → s.stages ≡ xs ++ (a ∷ ys)
        → All (λ b. is_free b ≡ false) s.stages
        → All (λ b. may_hold b ≡ false) s.stages
        → is_busy a ≡ true
        → Goes
    waiting_goes xs ys at_exif h none_free none_holds busy = goes_at xs ys at_exif h refl (
        take_exif (
          acquire_free l.exif_operations s.slots.exif_slots (
            omega (
              arith,
              exif_slots,
              i.exif_slots,
              total-none holds_exif may_hold s.stages no_exif none_holds,
            ))))
      where
        no_exif : (a : Stage) → may_hold a ≡ false → holds_exif a ≡ 0
        no_exif idle k = refl
        no_exif at_exif k = refl
        no_exif reading k = absurd (cc (k))
        no_exif (at_image e) k = absurd (cc (k))
        no_exif (processing e) k = absurd (cc (k))
        no_exif (ending e) k = absurd (cc (k))
    waiting_goes xs ys idle h none_free none_holds busy = absurd (cc (busy))
    waiting_goes xs ys reading h none_free none_holds busy = free_goes xs ys reading h refl
    waiting_goes xs ys (at_image e) h none_free none_holds busy =
        holding_goes xs ys (at_image e) h none_free refl
    waiting_goes xs ys (processing e) h none_free none_holds busy =
        free_goes xs ys (processing e) h refl
    waiting_goes xs ys (ending e) h none_free none_holds busy = free_goes xs ys (ending e) h refl

    busy_goes : All (λ a. is_busy a ≡ false) s.stages ⊎ Goes
    busy_goes = elim (search_for is_free s.stages) [
      | inl f ↦ inr (free_goes f.before f.after f.stage f.split f.here)
      | inr none_free ↦ elim (search_for may_hold s.stages) [
        | inl f ↦ inr (holding_goes f.before f.after f.stage f.split none_free f.here)
        | inr none_holds ↦ elim (search_for is_busy s.stages) [
          | inl f ↦ inr (waiting_goes f.before f.after f.stage f.split none_free none_holds f.here)
          | inr quiet ↦ inl quiet
        ]
      ]
    ]

positive_or-positive : (d : ℕ) (x : ℤ) → 1 ≤ d → 1 ≤ positive_or d x
positive_or-positive d (pos n) h = ground arith
positive_or-positive d (negsuc n) h = h

max_positive : (a : ℕ) → 1 ≤ max 1 a
max_positive a = ground arith

new_limiter-positive :
    (cpus : ℕ) (c : SlotConfig)
    → (1 ≤ (new_limiter cpus c).image_processing) × (1 ≤ (new_limiter cpus c).exif_operations)
unfolding new_limiter
new_limiter-positive cpus c = (
  positive_or-positive (max 1 (cpus / 2)) c.max_concurrent_image_processing
      (max_positive (cpus / 2)),
  positive_or-positive 1 c.max_concurrent_exif_operations (omega arith),
)

-- The workers never block each other for good: with the limits that NewLimiter makes of any configuration,
-- whatever interleaving has happened with fewer panics of jobs that process an image than there are slots
-- for images, no job is under way or one of the jobs under way can take its next step, which needs no
-- cancelled context and is no panic.
pub reach-Goes :
    (cpus : ℕ) (c : SlotConfig) (n : ℕ) (s : System)
    → s.slots.leaked < (new_limiter cpus c).image_processing
    → Reach (new_limiter cpus c) n s
    → All (λ a. is_busy a ≡ false) s.stages ⊎ JobGoes (new_limiter cpus c) s
reach-Goes cpus c n s image_slots r =
    let (_, exif_slots) = new_limiter-positive cpus c in
    busy_goes (new_limiter cpus c) s (reach-Bounded r) image_slots exif_slots
