-- ===== src/Queue/Stable.antt =====
-- What holds of a queue through every operation that drops images: one principle for the loops of
-- internal/queue/queue.go, used for the counters, for names that stay free and for sizes.
use aviationwx_org_bridge.Prelude.{
  true, ℕ, suc, ◌+◌, ◌-◌, ◌≡◌, inl, inr, List, [], ◌∷◌, some, none, leb, ltb, ◌==◌, length, take,
  drop, Bool-cases, not, All, Bool, Option,
}
use aviationwx_org_bridge.Prelude.Ratio.{Ratio}
use aviationwx_org_bridge.Prelude.Clock.{GoTime, before}
use aviationwx_org_bridge.Files.Entry.{Entry, find, Differ, Distinct}
use aviationwx_org_bridge.Queue.Types.{Queue}
use aviationwx_org_bridge.Queue.Listing.{
  is_image, list_files_sorted, parse_timestamp_from_filename, recalculate_oldest, or_empty,
}
use aviationwx_org_bridge.Queue.Health.{update_health_level}
use aviationwx_org_bridge.Queue.Thinning.{
  Reason, thinned, expired, drop_file, remove_counted, remove_counted_outcomes, remove_all, settle,
  settle_oldest, thin_for_space, has_space_for_image, emergency_thin_for_space, keep_count,
  emergency_thin_locked, to_thin, select, thin_to, protect, target_count, thin_queue, expire_loop,
  expire_old_images,
}
use aviationwx_org_bridge.Queue.Consistent.{
  Consistent, Pending, drop_file-Consistent, remove_counted-Pending, list_files_sorted-Pending,
  Pending-take, Pending-drop, recalculate_oldest-Consistent, update_health_level-Consistent,
}

-- A property that dropping an image keeps, and the two updates that follow.
pub record Stable (P : Queue → Type 0) : Type 0 where
  pub consistent : (q : Queue) → P q → Consistent q
  pub dropped :
      (r : Reason) (f : Entry) (q : Queue)
      → P q
      → find f.name q.entries ≡ some f
      → is_image f ≡ true
      → P (drop_file r f q)
  pub recalculated : (q : Queue) → P q → P (recalculate_oldest q)
  pub updated : (q : Queue) → P q → P (update_health_level q)

All-select :
    (P : Entry → Type 0) (p : ℕ → Bool) (i : ℕ) (es : List Entry) → All P es → All P (select p i es)
unfolding select
All-select P p i [] h = tt
All-select P p i (e ∷ es) h = elim (Bool-cases (p i)) [
  | inl taken ↦ rw taken (h.0, All-select P p (suc i) es h.1)
  | inr left ↦ rw left (All-select P p (suc i) es h.1)
]

Distinct-select : (p : ℕ → Bool) (i : ℕ) (es : List Entry) → Distinct es → Distinct (select p i es)
unfolding select
Distinct-select p i [] d = tt
Distinct-select p i (e ∷ es) d = elim (Bool-cases (p i)) [
  | inl taken ↦ rw taken (All-select (Differ e) p (suc i) es d.0, Distinct-select p (suc i) es d.1)
  | inr left ↦ rw left (Distinct-select p (suc i) es d.1)
]

Pending-select :
    (p : ℕ → Bool) (i : ℕ) (q : Queue) (fs : List Entry) → Pending q fs → Pending q (select p i fs)
Pending-select p i q fs w = record {
  listed = All-select _ p i fs w.listed;
  are_images = All-select _ p i fs w.are_images;
  once = Distinct-select p i fs w.once;
}

Pending-none : (q : Queue) → Pending q []
Pending-none q = record { listed = tt; are_images = tt; once = tt }

Pending-to_thin :
    (target oldest newest : ℕ) (q : Queue) (fs : List Entry)
    → Pending q fs
    → Pending q (to_thin target (oldest, newest) fs)
unfolding to_thin
Pending-to_thin target oldest newest q fs w =
    let middle = take (length fs - newest - oldest) (drop oldest fs) in
    let w' = Pending-take (length fs - newest - oldest) q _ (Pending-drop oldest q fs w) in
    let gone = Pending-select _ 0 q middle w' in
    elim (Bool-cases (leb (length fs) (oldest + newest))) [
      | inl all ↦ rw all (Pending-none q)
      | inr some_left ↦ rw some_left (elim (Bool-cases (length middle == 0)) [
        | inl empty ↦ rw empty (Pending-none q)
        | inr more ↦ rw more (elim (Bool-cases (length middle - (target - oldest - newest) == 0)) [
          | inl enough ↦ rw enough (Pending-none q)
          | inr too_many ↦ rw too_many gone
        ])
      ])
    ]

module _ (P : Queue → Type 0) (stable : Stable P) where
  remove_counted-Stable :
      (r : Reason) (f : Entry) (fs : List Entry) (q : Queue)
      → P q
      → Pending q (f ∷ fs)
      → P (remove_counted r f q).1
  remove_counted-Stable r f fs q h p = elim (remove_counted_outcomes r f q) [
    | inl kept ↦ rw kept h
    | inr gone ↦ rw gone (stable.dropped r f q h p.listed.0 p.are_images.0)
  ]

  pub remove_all-Stable :
      (r : Reason) (fs : List Entry) (count : ℕ) (q : Queue)
      → P q
      → Pending q fs
      → P (remove_all r fs count q).1
  unfolding remove_all
  remove_all-Stable r [] count q h p = h
  remove_all-Stable r (f ∷ fs) count q h p =
      remove_all-Stable r fs (count + (remove_counted r f q).0) (remove_counted r f q).1
        (remove_counted-Stable r f fs q h p) (remove_counted-Pending r f fs q p)

  thin_for_space-Stable :
      (needed : ℕ) (fs : List Entry) (count : ℕ) (q : Queue)
      → P q
      → Pending q fs
      → P (thin_for_space needed fs count q).1
  unfolding thin_for_space
  thin_for_space-Stable needed [] count q h p = h
  thin_for_space-Stable needed (f ∷ fs) count q h p =
      elim (Bool-cases (has_space_for_image needed (remove_counted thinned f q).1)) [
        | inl space ↦ rw space (remove_counted-Stable thinned f fs q h p)
        | inr full ↦ rw full (
            thin_for_space-Stable needed fs (count + (remove_counted thinned f q).0)
              (remove_counted thinned f q).1 (remove_counted-Stable thinned f fs q h p)
              (remove_counted-Pending thinned f fs q p))
      ]

  expire_loop-Stable :
      (cutoff : GoTime) (fs : List Entry) (count : ℕ) (q : Queue)
      → P q
      → Pending q fs
      → P (expire_loop cutoff fs count q).1
  unfolding expire_loop
  expire_loop-Stable cutoff [] count q h p = h
  expire_loop-Stable cutoff (f ∷ fs) count q h p =
      elim (Bool-cases (before (parse_timestamp_from_filename f.name) cutoff)) [
        | inl old ↦ rw old (
            expire_loop-Stable cutoff fs (count + (remove_counted expired f q).0)
              (remove_counted expired f q).1 (remove_counted-Stable expired f fs q h p)
              (remove_counted-Pending expired f fs q p))
        | inr young ↦ rw young h
      ]

  settle-Stable : (r : ℕ × Queue) → P r.1 → P (settle r).1
  unfolding settle
  settle-Stable (count, q) h = elim (Bool-cases (ltb 0 count)) [
    | inl some_gone ↦ rw some_gone (stable.updated _ (stable.recalculated q h))
    | inr none_gone ↦ rw none_gone h
  ]

  settle_oldest-Stable : (r : ℕ × Queue) → P r.1 → P (settle_oldest r)
  unfolding settle_oldest
  settle_oldest-Stable (count, q) h = elim (Bool-cases (ltb 0 count)) [
    | inl some_gone ↦ rw some_gone (stable.recalculated q h)
    | inr none_gone ↦ rw none_gone h
  ]

  listing-Pending : (q : Queue) → P q → Pending q (or_empty (list_files_sorted q))
  listing-Pending q h = list_files_sorted-Pending q (stable.consistent q h)

  pub emergency_thin_for_space-Stable :
      (needed : ℕ) (q : Queue) → P q → P (emergency_thin_for_space needed q)
  unfolding emergency_thin_for_space
  emergency_thin_for_space-Stable needed q h =
      let files = or_empty (list_files_sorted q) in
      elim (Bool-cases (leb (length files) 1)) [
        | inl few ↦ rw few h
        | inr more ↦ rw more (
            settle_oldest-Stable (thin_for_space needed (take (length files - 1) files) 0 q) (
              thin_for_space-Stable needed (take (length files - 1) files) 0 q h
                (Pending-take (length files - 1) q files (listing-Pending q h))))
      ]

  pub emergency_thin_locked-Stable : (r : Ratio) (q : Queue) → P q → P (emergency_thin_locked r q).1
  unfolding emergency_thin_locked
  emergency_thin_locked-Stable r q h =
      let files = or_empty (list_files_sorted q) in
      let n = length files in
      elim (Bool-cases (n == 0)) [
        | inl empty ↦ rw empty h
        | inr more ↦ rw more (elim (Bool-cases (leb n (keep_count n r))) [
          | inl enough ↦ rw enough h
          | inr too_many ↦ rw too_many (
              settle-Stable (remove_all thinned (take (n - keep_count n r) files) 0 q) (
                remove_all-Stable thinned (take (n - keep_count n r) files) 0 q h
                  (Pending-take (n - keep_count n r) q files (listing-Pending q h))))
        ])
      ]

  pub expire_old_images-Stable : (now : GoTime) (q : Queue) → P q → P (expire_old_images now q).1
  unfolding expire_old_images
  expire_old_images-Stable now q h =
      settle-Stable _ (expire_loop-Stable _ _ 0 q h (listing-Pending q h))

  thin_to-Stable :
      (t : Option ℕ) (q : Queue) → P q → P (thin_to (or_empty (list_files_sorted q)) q t).1
  unfolding thin_to
  thin_to-Stable none q h = h
  thin_to-Stable (some target) q h =
      let files = or_empty (list_files_sorted q) in
      let kept = protect q.config.protect_oldest q.config.protect_newest (length files) in
      elim (Bool-cases (leb (length files) target)) [
        | inl few ↦ rw few h
        | inr many ↦ rw many (
            settle-Stable (remove_all thinned (to_thin target kept files) 0 q) (
              remove_all-Stable thinned (to_thin target kept files) 0 q h
                (Pending-to_thin target kept.0 kept.1 q files (listing-Pending q h))))
      ]

  pub thin_queue-Stable : (q : Queue) → P q → P (thin_queue q)
  unfolding thin_queue
  thin_queue-Stable q h = elim (Bool-cases (not q.config.thinning_enabled)) [
    | inl off ↦ rw off h
    | inr on ↦ rw on (elim (Bool-cases (length (or_empty (list_files_sorted q)) == 0)) [
      | inl empty ↦ rw empty h
      | inr more ↦ rw more (thin_to-Stable (target_count q.health_level q.config.max_files) q h)
    ])
  ]

-- The counters are right after every such operation.
pub Consistent-Stable : Stable Consistent
Consistent-Stable = record {
  consistent = λ q c. c;
  dropped = λ r f q. drop_file-Consistent r f q;
  recalculated = λ q. recalculate_oldest-Consistent q;
  updated = λ q. update_health_level-Consistent q;
}
