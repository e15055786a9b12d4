-- ===== src/Queue/Batches.antt =====
-- The order of DequeueBatch and Peek of internal/queue/queue.go.
use mathlib.Core.List.{reverse-append}
use aviationwx_org_bridge.Prelude.{
  ℕ, zero, suc, ◌+◌, ◌-◌, ◌≤◌, ◌<◌, ◌≡◌, refl, sym, ap, ◌∙◌, inl, inr, Bool, true, false, List, [],
  ◌∷◌, ◌++◌, map, reverse, none, some, arith, Option-cases, length, get_elem?, take, drop, min,
  length-reverse, leb, Bool-cases, if◌then◌else◌,
}
use aviationwx_org_bridge.Files.Entry.{Entry, sort_by_name, length-sort_by_name}
use aviationwx_org_bridge.Prelude.Int.{pos}
use aviationwx_org_bridge.Queue.Types.{Queue, QueuedImage, queue_empty}
use aviationwx_org_bridge.Queue.Listing.{images, list_files_sorted}
use aviationwx_org_bridge.Queue.Dequeue.{
  Answer, answer, failure, queued_image, is_empty, cons?, upward, downward, batch, dequeue_batch,
}
use aviationwx_org_bridge.Queue.Consistent.{Consistent}

drop_at :
    (es : List Entry) (i : ℕ) (e : Entry)
    → get_elem? es i ≡ some e
    → drop i es ≡ e ∷ drop (suc i) es
drop_at [] i e h = absurd (ground arith)
drop_at (x ∷ xs) zero e h = ground arith
drop_at (x ∷ xs) (suc i) e h = drop_at xs i e h

drop_past :
    (es : List Entry) (i : ℕ) → get_elem? es i ≡ none → (drop i es ≡ []) × (drop (suc i) es ≡ [])
drop_past [] zero h = (refl, refl)
drop_past [] (suc i) h = (refl, refl)
drop_past (x ∷ xs) zero h = absurd (ground arith)
drop_past (x ∷ xs) (suc i) h = drop_past xs i h

take_none : (k : ℕ) → map queued_image (take k []) ≡ []
take_none zero = refl
take_none (suc k) = refl

upward-take : (es : List Entry) (k i : ℕ) → upward es k i ≡ map queued_image (take k (drop i es))
unfolding upward
upward-take es zero i = refl
upward-take es (suc k) i =
    let next : i + 1 ≡ suc i = omega arith in
    let rest : upward es k (i + 1) ≡ map queued_image (take k (drop (suc i) es)) =
      upward-take es k (i + 1) ∙ ap (λ j. map queued_image (take k (drop j es))) next in
    elim (Option-cases (get_elem? es i)) [
      | inl past ↦
          let (here, after) = drop_past es i past in
          ap (λ o. cons? o (upward es k (i + 1))) past
          ∙ rest
          ∙ ap (λ xs. map queued_image (take k xs)) after
          ∙ take_none k
          ∙ sym (ap (λ xs. map queued_image (take (suc k) xs)) here)
      | inr (e, here) ↦
          ap (λ o. cons? o (upward es k (i + 1))) here
          ∙ ap (λ xs. queued_image e ∷ xs) rest
          ∙ sym (ap (λ xs. map queued_image (take (suc k) xs)) (drop_at es i e here))
    ]

take_at :
    (es : List Entry) (i : ℕ) (e : Entry)
    → get_elem? es i ≡ some e
    → take (suc i) es ≡ take i es ++ e ∷ []
take_at [] i e h = absurd (ground arith)
take_at (x ∷ xs) zero e h = ground arith
take_at (x ∷ xs) (suc i) e h = ap (λ ys. x ∷ ys) (take_at xs i e h)

get_below : (es : List Entry) (i : ℕ) → i < length es → (e : Entry) × (get_elem? es i ≡ some e)
get_below [] i h = absurd (omega arith)
get_below (x ∷ xs) zero h = (x, refl)
get_below (x ∷ xs) (suc i) h = get_below xs i (omega arith)

downward_step :
    (es : List Entry) (k i : ℕ)
    → i < length es
    → downward es k (i - 1) ≡ map queued_image (take k (reverse (take i es)))
    → downward es (suc k) i ≡ map queued_image (take (suc k) (reverse (take (suc i) es)))
unfolding downward
downward_step es k i lt rest =
    let (e, here) = get_below es i lt in
    let newest : reverse (take (suc i) es) ≡ e ∷ reverse (take i es) =
      ap reverse (take_at es i e here) ∙ reverse-append (take i es) (e ∷ []) in
    ap (λ o. cons? o (downward es k (i - 1))) here
    ∙ ap (λ xs. queued_image e ∷ xs) rest
    ∙ sym (ap (λ xs. map queued_image (take (suc k) xs)) newest)

-- The newest k of the first i + 1 files, newest first.
downward-take :
    (es : List Entry) (k i : ℕ)
    → k ≤ suc i
    → i < length es
    → downward es k i ≡ map queued_image (take k (reverse (take (suc i) es)))
unfolding downward
downward-take es zero i le lt = refl
downward-take es (suc zero) zero le lt = downward_step es zero zero lt refl
downward-take es (suc (suc k)) zero le lt = absurd (omega arith)
downward-take es (suc k) (suc j) le lt =
    let before : suc j - 1 ≡ j = omega arith in
    downward_step es k (suc j) lt
      (ap (λ i. downward es k i) before ∙ downward-take es k j (omega arith) (omega arith))

take_all : (es : List Entry) (n : ℕ) → length es ≤ n → take n es ≡ es
take_all [] zero h = refl
take_all [] (suc n) h = refl
take_all (x ∷ xs) zero h = absurd (omega arith)
take_all (x ∷ xs) (suc n) h = ap (λ ys. x ∷ ys) (take_all xs n (omega arith))

take-min : (es : List Entry) (n : ℕ) → take (min n (length es)) es ≡ take n es
take-min es n = elim (Bool-cases (leb n (length es))) [
  | inl few ↦ let e : min n (length es) ≡ n = ground (arith, few) in rw e refl
  | inr many ↦
      let e : min n (length es) ≡ length es = ground (arith, many) in
      let le : length es ≤ n = ground (arith, many) in
      rw e (take_all es (length es) (omega arith) ∙ sym (take_all es n le))
]

-- The images in the order of a batch: from the newest one on, or from the oldest.
abbrev pub in_order : Bool → List Entry → List Entry
in_order true es = reverse es
in_order false es = es

batch-take :
    (count : ℕ) (newest_first : Bool) (f : Entry) (fs : List Entry)
    → batch count newest_first (f ∷ fs)
      ≡ answer (map queued_image (take count (in_order newest_first (f ∷ fs))))
unfolding batch
batch-take count false f fs = ap answer (
    upward-take (f ∷ fs) (min count (length (f ∷ fs))) 0
    ∙ ap (map queued_image) (take-min (f ∷ fs) count))
batch-take count true f fs =
    let es = f ∷ fs in
    let n = min count (length es) in
    let last : suc (length es - 1) ≡ length es = omega arith in
    let all : take (suc (length es - 1)) es ≡ es =
      ap (λ m. take m es) last ∙ take_all es (length es) (omega arith) in
    let same : take n (reverse es) ≡ take count (reverse es) =
      ap (λ m. take (min count m) (reverse es)) (sym (length-reverse es))
      ∙ take-min (reverse es) count in
    ap answer (
      downward-take es n (length es - 1) (omega arith) (omega arith)
      ∙ ap (λ xs. map queued_image (take n (reverse xs))) all
      ∙ ap (map queued_image) same)

abbrev pub answer_or_empty : List Entry → List Entry → Answer (List QueuedImage)
answer_or_empty chosen [] = failure queue_empty
answer_or_empty chosen (f ∷ fs) = answer (map queued_image chosen)

batch-answer :
    (count n : ℕ) (newest_first : Bool) (files : List Entry)
    → n ≡ length files
    → (if is_empty (pos n) then failure queue_empty else batch count newest_first files)
      ≡ answer_or_empty (take count (in_order newest_first files)) files
batch-answer count zero newest_first [] e = refl
batch-answer count (suc n) newest_first [] e = absurd (omega arith)
batch-answer count zero newest_first (f ∷ fs) e = absurd (omega arith)
batch-answer count (suc n) newest_first (f ∷ fs) e = batch-take count newest_first f fs

-- While the counters are right and the directory can be read, DequeueBatch answers that the queue is
-- empty if it has no images, and otherwise the images from the newest one on if that is asked for,
-- and else from the oldest one on, up to the given number of them.
pub dequeue_batch_order :
    (count : ℕ) (newest_first : Bool) (q : Queue)
    → Consistent q
    → q.environment.read_dir_fails q.entries ≡ false
    → dequeue_batch count newest_first q
      ≡ answer_or_empty
          (take count (in_order newest_first (sort_by_name (images q.entries))))
          (sort_by_name (images q.entries))
unfolding dequeue_batch list_files_sorted
dequeue_batch_order count newest_first q c readable =
    rw (readable, c.counted)
      (batch-answer count (length (images q.entries)) newest_first (sort_by_name (images q.entries))
        (sym (length-sort_by_name (images q.entries))))
