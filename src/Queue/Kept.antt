-- ===== src/Queue/Kept.antt =====
-- Which images the cleanups of internal/queue/queue.go never touch: the newest ones, and those that
-- are not too old.
use aviationwx_org_bridge.Prelude.{
  ℕ, zero, suc, ◌+◌, ◌-◌, ◌≤◌, ◌≡◌, sym, ap, inl, inr, Bool, true, false, List, [], ◌∷◌, some,
  arith, leb, ◌==◌, length, take, drop, All, Bool-cases,
}
use aviationwx_org_bridge.Prelude.Int.{◌-ℤ◌}
use aviationwx_org_bridge.Prelude.Ratio.{Ratio}
use aviationwx_org_bridge.Prelude.Clock.{GoTime, seconds, before}
use aviationwx_org_bridge.Files.Entry.{Entry, find, Differ, Distinct, Listed}
use aviationwx_org_bridge.Files.Directory.{Listed-remove, All-drop}
use aviationwx_org_bridge.Queue.Types.{Queue}
use aviationwx_org_bridge.Queue.Listing.{
  list_files_sorted, parse_timestamp_from_filename, recalculate_oldest, or_empty,
}
use aviationwx_org_bridge.Queue.Health.{update_health_level}
use aviationwx_org_bridge.Queue.Thinning.{
  Reason, thinned, expired, remove_counted, remove_counted_outcomes, remove_all, settle,
  settle_oldest, thin_for_space, has_space_for_image, emergency_thin_for_space, keep_count,
  emergency_thin, select, expire_loop, expire_old_images,
}
use aviationwx_org_bridge.Queue.Consistent.{Consistent, list_files_sorted-Pending}

-- No file of the one list has the name of a file of the other.
abbrev pub Apart : List Entry → List Entry → Type 0
Apart fs ks = All (λ f. All (Differ f) ks) fs

pub Apart-take-drop : (n : ℕ) (es : List Entry) → Distinct es → Apart (take n es) (drop n es)
Apart-take-drop zero es d = tt
Apart-take-drop (suc n) [] d = tt
Apart-take-drop (suc n) (e ∷ es) d = (All-drop (Differ e) n es d.0, Apart-take-drop n es d.1)

Apart-cons : (e : Entry) (fs ks : List Entry) → All (Differ e) fs → Apart fs ks → Apart fs (e ∷ ks)
Apart-cons e [] ks d a = tt
Apart-cons e (f ∷ fs) ks d a = ((λ q. d.0 (sym q), a.0), Apart-cons e fs ks d.1 a.1)

Apart-nil : (fs : List Entry) → Apart fs []
Apart-nil [] = tt
Apart-nil (f ∷ fs) = (tt, Apart-nil fs)

pub Apart-sym : (fs ks : List Entry) → Apart fs ks → Apart ks fs
Apart-sym [] ks a = Apart-nil ks
Apart-sym (f ∷ fs) ks a = Apart-cons f ks fs a.0 (Apart-sym fs ks a.1)

pub Apart-select :
    (p : ℕ → Bool) (i : ℕ) (fs ks : List Entry) → Apart fs ks → Apart (select p i fs) ks
unfolding select
Apart-select p i [] ks a = tt
Apart-select p i (f ∷ fs) ks a = elim (Bool-cases (p i)) [
  | inl taken ↦ rw taken (a.0, Apart-select p (suc i) fs ks a.1)
  | inr left ↦ rw left (Apart-select p (suc i) fs ks a.1)
]

-- Other files stay where they are.
remove_counted-Listed :
    (r : Reason) (f : Entry) (ks : List Entry) (q : Queue)
    → All (Differ f) ks
    → Listed q.entries ks
    → Listed (remove_counted r f q).1.entries ks
remove_counted-Listed r f ks q d l = elim (remove_counted_outcomes r f q) [
  | inl kept ↦ rw kept l
  | inr gone ↦ rw gone (Listed-remove f q.entries ks d l)
]

pub remove_all-Listed :
    (r : Reason) (fs ks : List Entry) (count : ℕ) (q : Queue)
    → Apart fs ks
    → Listed q.entries ks
    → Listed (remove_all r fs count q).1.entries ks
unfolding remove_all
remove_all-Listed r [] ks count q a l = l
remove_all-Listed r (f ∷ fs) ks count q a l =
    remove_all-Listed r fs ks (count + (remove_counted r f q).0) (remove_counted r f q).1 a.1
      (remove_counted-Listed r f ks q a.0 l)

thin_for_space-Listed :
    (needed : ℕ) (fs ks : List Entry) (count : ℕ) (q : Queue)
    → Apart fs ks
    → Listed q.entries ks
    → Listed (thin_for_space needed fs count q).1.entries ks
unfolding thin_for_space
thin_for_space-Listed needed [] ks count q a l = l
thin_for_space-Listed needed (f ∷ fs) ks count q a l =
    let l' = remove_counted-Listed thinned f ks q a.0 l in
    elim (Bool-cases (has_space_for_image needed (remove_counted thinned f q).1)) [
      | inl space ↦ rw space l'
      | inr full ↦ rw full (
          thin_for_space-Listed needed fs ks (count + (remove_counted thinned f q).0)
            (remove_counted thinned f q).1 a.1 l')
    ]

pub entries-settle : (r : ℕ × Queue) → (settle r).1.entries ≡ r.1.entries
unfolding settle update_health_level recalculate_oldest
entries-settle (count, q) = ground arith

entries-settle_oldest : (r : ℕ × Queue) → (settle_oldest r).entries ≡ r.1.entries
unfolding settle_oldest recalculate_oldest
entries-settle_oldest (count, q) = ground arith

-- An emergency cleanup to a share of the images leaves the newest ones in place, as many as that
-- share of them is, and at least one.
pub emergency_thin-Listed :
    (r : Ratio) (q : Queue)
    → Consistent q
    → let files = or_empty (list_files_sorted q) in
      let kept = keep_count (length files) r in
      (1 ≤ kept) × Listed (emergency_thin r q).1.entries (drop (length files - kept) files)
unfolding emergency_thin
emergency_thin-Listed r q c =
    let files = or_empty (list_files_sorted q) in
    let n = length files in
    let k = n - keep_count n r in
    let w = list_files_sorted-Pending q c in
    let same = All-drop (λ f. find f.name q.entries ≡ some f) k files w.listed in
    (
      unfold keep_count in ground arith,
      elim (Bool-cases (n == 0)) [
        | inl empty ↦ rw empty same
        | inr more ↦ rw more (elim (Bool-cases (leb n (keep_count n r))) [
          | inl enough ↦ rw enough same
          | inr too_many ↦
              rw (too_many, entries-settle (remove_all thinned (take k files) 0 q))
                (remove_all-Listed thinned (take k files) (drop k files) 0 q
                  (Apart-take-drop k files w.once) same)
        ])
      ],
    )

-- A cleanup for one image's space leaves the newest image in place, however much is needed.
pub emergency_thin_for_space-Listed :
    (needed : ℕ) (q : Queue)
    → Consistent q
    → let files = or_empty (list_files_sorted q) in
      Listed (emergency_thin_for_space needed q).entries (drop (length files - 1) files)
unfolding emergency_thin_for_space
emergency_thin_for_space-Listed needed q c =
    let files = or_empty (list_files_sorted q) in
    let k = length files - 1 in
    let w = list_files_sorted-Pending q c in
    let same = All-drop (λ f. find f.name q.entries ≡ some f) k files w.listed in
    elim (Bool-cases (leb (length files) 1)) [
      | inl few ↦ rw few same
      | inr more ↦
          rw (more, entries-settle_oldest (thin_for_space needed (take k files) 0 q))
            (thin_for_space-Listed needed (take k files) (drop k files) 0 q
              (Apart-take-drop k files w.once) same)
    ]

-- An image whose time is not before a cutoff.
abbrev pub Young : GoTime → Entry → Type 0
Young cutoff f = before (parse_timestamp_from_filename f.name) cutoff ≡ false

old_differs :
    (cutoff : GoTime) (f : Entry) (ks : List Entry)
    → before (parse_timestamp_from_filename f.name) cutoff ≡ true
    → All (Young cutoff) ks
    → All (Differ f) ks
old_differs cutoff f [] old y = tt
old_differs cutoff f (k ∷ ks) old y = (
  λ e. cc (ap (λ n. before (parse_timestamp_from_filename n) cutoff) e, old, y.0),
  old_differs cutoff f ks old y.1,
)

expire_loop-Listed :
    (cutoff : GoTime) (fs ks : List Entry) (count : ℕ) (q : Queue)
    → All (Young cutoff) ks
    → Listed q.entries ks
    → Listed (expire_loop cutoff fs count q).1.entries ks
unfolding expire_loop
expire_loop-Listed cutoff [] ks count q y l = l
expire_loop-Listed cutoff (f ∷ fs) ks count q y l =
    elim (Bool-cases (before (parse_timestamp_from_filename f.name) cutoff)) [
      | inl old ↦ rw old (
          expire_loop-Listed cutoff fs ks (count + (remove_counted expired f q).0)
            (remove_counted expired f q).1 y
            (remove_counted-Listed expired f ks q (old_differs cutoff f ks old y) l))
      | inr young ↦ rw young l
    ]

-- Expiry removes no file that is younger than the maximal age.
pub expire_old_images-Listed :
    (now : GoTime) (ks : List Entry) (q : Queue)
    → All (Young (now -ℤ seconds q.config.max_age_seconds)) ks
    → Listed q.entries ks
    → Listed (expire_old_images now q).1.entries ks
unfolding expire_old_images
expire_old_images-Listed now ks q y l =
    let loop =
      expire_loop (now -ℤ seconds q.config.max_age_seconds) (or_empty (list_files_sorted q)) 0 q in
    rw (entries-settle loop) (expire_loop-Listed _ _ ks 0 q y l)
