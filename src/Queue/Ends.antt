-- ===== src/Queue/Ends.antt =====
-- Background thinning, thinQueue of internal/queue/queue.go, leaves both ends of a queue in place.
use aviationwx_org_bridge.Prelude.{
  ℕ, zero, suc, ◌+◌, ◌-◌, ◌≡◌, refl, sym, ap, subst, ◌∙◌, inl, inr, List, [], ◌∷◌, Option, some,
  none, arith, leb, ◌==◌, length, take, drop, All, Bool-cases, not,
}
use aviationwx_org_bridge.Files.Entry.{Entry, find, Differ, Distinct, Listed}
use aviationwx_org_bridge.Files.Directory.{All-take, All-drop, Distinct-drop}
use aviationwx_org_bridge.Queue.Types.{Queue}
use aviationwx_org_bridge.Queue.Listing.{list_files_sorted, or_empty}
use aviationwx_org_bridge.Queue.Thinning.{
  thinned, remove_all, to_thin, protect, target_count, thin_to, thin_queue,
}
use aviationwx_org_bridge.Queue.Consistent.{Consistent, list_files_sorted-Pending}
use aviationwx_org_bridge.Queue.Kept.{
  Apart, Apart-take-drop, Apart-sym, Apart-select, remove_all-Listed, entries-settle,
}

drop-nil : (n : ℕ) → drop {A = Entry} n [] ≡ []
drop-nil zero = refl
drop-nil (suc n) = refl

drop-drop : (m n : ℕ) (es : List Entry) → drop m (drop n es) ≡ drop (n + m) es
drop-drop m zero es = ground arith
drop-drop m (suc n) [] = drop-nil m ∙ sym (drop-nil (suc n + m))
drop-drop m (suc n) (e ∷ es) =
    let step : suc (n + m) ≡ suc n + m = omega arith in
    drop-drop m n es ∙ ap (λ k. drop k (e ∷ es)) step

to_thin-Apart :
    (target oldest newest : ℕ) (es : List Entry)
    → Distinct es
    → Apart (to_thin target (oldest, newest) es) (take oldest es)
      × Apart (to_thin target (oldest, newest) es) (drop (length es - newest) es)
unfolding to_thin
to_thin-Apart target oldest newest es d =
    let m = length es - newest - oldest in
    let middle = take m (drop oldest es) in
    let older =
      All-take (λ f. All (Differ f) (take oldest es)) m (drop oldest es)
        (Apart-sym (take oldest es) (drop oldest es) (Apart-take-drop oldest es d)) in
    elim (Bool-cases (leb (length es) (oldest + newest))) [
      | inl all ↦ rw all (tt, tt)
      | inr some_left ↦
          let e : oldest + m ≡ length es - newest = ground arith in
          let newer =
            subst (Apart middle) (drop-drop m oldest es ∙ ap (λ k. drop k es) e)
              (Apart-take-drop m (drop oldest es) (Distinct-drop oldest es d)) in
          rw some_left (elim (Bool-cases (length middle == 0)) [
            | inl empty ↦ rw empty (tt, tt)
            | inr more ↦
                rw more (elim (Bool-cases (length middle - (target - oldest - newest) == 0)) [
                  | inl enough ↦ rw enough (tt, tt)
                  | inr too_many ↦ rw too_many (
                    Apart-select _ 0 middle (take oldest es) older,
                    Apart-select _ 0 middle (drop (length es - newest) es) newer,
                  )
                ])
          ])
    ]

thin_to-Listed :
    (t : Option ℕ) (ks : List Entry) (q : Queue)
    → let files = or_empty (list_files_sorted q) in
      let kept = protect q.config.protect_oldest q.config.protect_newest (length files) in
      ((target : ℕ) → Apart (to_thin target kept files) ks)
      → Listed q.entries ks
      → Listed (thin_to files q t).1.entries ks
unfolding thin_to
thin_to-Listed none ks q a l = l
thin_to-Listed (some target) ks q a l =
    let files = or_empty (list_files_sorted q) in
    let kept = protect q.config.protect_oldest q.config.protect_newest (length files) in
    elim (Bool-cases (leb (length files) target)) [
      | inl few ↦ rw few l
      | inr many ↦
          rw (many, entries-settle (remove_all thinned (to_thin target kept files) 0 q))
            (remove_all-Listed thinned (to_thin target kept files) ks 0 q (a target) l)
    ]

thin_queue-Listed_of :
    (ks : List Entry) (q : Queue)
    → let files = or_empty (list_files_sorted q) in
      let kept = protect q.config.protect_oldest q.config.protect_newest (length files) in
      ((target : ℕ) → Apart (to_thin target kept files) ks)
      → Listed q.entries ks
      → Listed (thin_queue q).entries ks
unfolding thin_queue
thin_queue-Listed_of ks q a l = elim (Bool-cases (not q.config.thinning_enabled)) [
  | inl off ↦ rw off l
  | inr on ↦ rw on (elim (Bool-cases (length (or_empty (list_files_sorted q)) == 0)) [
    | inl empty ↦ rw empty l
    | inr more ↦ rw more (thin_to-Listed (target_count q.health_level q.config.max_files) ks q a l)
  ])
]

-- Background thinning leaves both ends of the queue in place: the protected oldest images and the
-- protected newest ones, where `protect` gives a quarter each if the two would cover all images.
pub thin_queue-Listed :
    (q : Queue)
    → Consistent q
    → let files = or_empty (list_files_sorted q) in
      let (oldest, newest) =
        protect q.config.protect_oldest q.config.protect_newest (length files) in
      Listed (thin_queue q).entries (take oldest files)
      × Listed (thin_queue q).entries (drop (length files - newest) files)
thin_queue-Listed q c =
    let files = or_empty (list_files_sorted q) in
    let kept = protect q.config.protect_oldest q.config.protect_newest (length files) in
    let w = list_files_sorted-Pending q c in
    (
      thin_queue-Listed_of (take kept.0 files) q
          (λ target. (to_thin-Apart target kept.0 kept.1 files w.once).0)
          (All-take (λ f. find f.name q.entries ≡ some f) kept.0 files w.listed),
      thin_queue-Listed_of (drop (length files - kept.1) files) q
          (λ target. (to_thin-Apart target kept.0 kept.1 files w.once).1)
          (All-drop (λ f. find f.name q.entries ≡ some f) (length files - kept.1) files w.listed),
    )
