-- ===== src/Queue/Names.antt =====
-- The names that Enqueue of internal/queue/queue.go gives: they are read back as their times, differ
-- for different times, and the search for a free one ends while os.Stat does not fail.
use aviationwx_org_bridge.Prelude.{
  Bool, Bool-cases, Option, ◌⊎◌, ◌||◌, ℕ, zero, suc, ◌+◌, ◌*◌, ◌/◌, ◌^◌, ◌<◌, ◌≡◌, refl, sym, ap,
  ◌∙◌, ◌≢◌, inl, inr, true, false, List, ◌++◌, none, some, arith, length, Option-cases,
}
use aviationwx_org_bridge.Prelude.Int.{pos, pos-add}
use aviationwx_org_bridge.Prelude.Clock.{millisecond, unix_milli, from_unix_milli}
use aviationwx_org_bridge.Files.Bytes.{
  Bytes, has_suffix, trim_suffix, has_suffix-append, trim_suffix-append, bytes_eq, has_suffix_other,
}
use aviationwx_org_bridge.Files.Decimal.{show_int, parse_int, parse_int-show_int}
use aviationwx_org_bridge.Files.Entry.{Entry, find, remove}
use aviationwx_org_bridge.Files.Directory.{find-remove_ne, length-remove}
use aviationwx_org_bridge.Queue.Disk.{file_name, jpg, tmp}
use aviationwx_org_bridge.Queue.Listing.{is_image, is_some, parse_timestamp_from_filename}
use aviationwx_org_bridge.Queue.Enqueue.{free_name}

parse_int-file_name :
    (n : ℕ) → n < 2 ^ 63 → parse_int (trim_suffix (file_name (pos n)) jpg) ≡ some (pos n)
unfolding file_name
parse_int-file_name n h = rw (trim_suffix-append (show_int (pos n)) jpg) (parse_int-show_int n h)

-- The time in a name is the time that the name was made from.
pub parse_timestamp-file_name :
    (n : ℕ)
    → n < 2 ^ 63
    → parse_timestamp_from_filename (file_name (pos n)) ≡ from_unix_milli (pos n)
unfolding parse_timestamp_from_filename
parse_timestamp-file_name n h = rw (parse_int-file_name n h)

file_name_suffix :
    (n : ℕ)
    → (has_suffix (file_name (pos n)) jpg ≡ true) × (has_suffix (file_name (pos n)) tmp ≡ false)
unfolding file_name bytes_eq
file_name_suffix n =
    (has_suffix-append (show_int (pos n)) jpg, has_suffix_other (show_int (pos n)) jpg tmp refl)

-- A file written under such a name is in the listing.
pub is_image-file_name :
    (n size : ℕ)
    → n < 2 ^ 63
    → is_image (record { name = file_name (pos n); is_dir = false; has_info = true; size = size })
      ≡ true
unfolding is_image
is_image-file_name n size h = ground (arith, parse_int-file_name n h, file_name_suffix n)

-- A temporary file is not.
pub is_image-tmp : (path : Bytes) (f : Entry) → f.name ≡ path ++ tmp → is_image f ≡ false
unfolding is_image
is_image-tmp path f h = ground (arith, has_suffix-append path tmp)

file_name_ne : (a b : ℕ) → a < 2 ^ 63 → b < 2 ^ 63 → a ≢ b → file_name (pos a) ≢ file_name (pos b)
file_name_ne a b ha hb h e = h (
    ground (
      arith,
      parse_int-file_name a ha,
      parse_int-file_name b hb,
      ap (λ n. parse_int (trim_suffix n jpg)) e,
    ))

-- What the search finds is free, and not much later than it began.
pub free_name_found :
    (f s : ℕ) (fails : Bytes → Bool) (es : List Entry)
    → (free_name f fails (pos s) es ≡ none)
      ⊎ ((k : ℕ) × (k < f)
          × (free_name f fails (pos s) es ≡ some (pos (s + k * millisecond)))
          × (find (file_name (pos ((s + k * millisecond) / millisecond))) es ≡ none))
unfolding free_name unix_milli
free_name_found zero s fails es = inl refl
free_name_found (suc f) s fails es =
    let name = file_name (pos (s / millisecond)) in
    elim (Bool-cases (fails name || is_some (find name es))) [
      | inr free ↦
          let e : s + 0 * millisecond ≡ s = omega arith in
          inr
            (0, omega arith, rw free (rw e refl), rw e (not_taken (fails name) (find name es) free))
      | inl goes_on ↦ elim (free_name_found f (s + millisecond) fails es) [
        | inl ends ↦ inl (rw goes_on (rw (pos-add s millisecond, ends) refl))
        | inr (k, below, found, absent) ↦
            let e : s + millisecond + k * millisecond ≡ s + (k + 1) * millisecond = omega arith in
            inr (
              k + 1,
              omega arith,
              rw goes_on (rw (pos-add s millisecond, found, e) refl),
              rw (← e) absent,
            )
      ]
    ]
  where
    not_taken : (b : Bool) (o : Option Entry) → (b || is_some o) ≡ false → o ≡ none
    not_taken false none h = refl
    not_taken false (some f) h = absurd (cc (h))
    not_taken true o h = absurd (cc (h))

-- A name of an earlier time does not matter for the search.
free_name-remove :
    (f s m : ℕ) (fails : Bytes → Bool) (es : List Entry)
    → s + f * millisecond < 2 ^ 63 * millisecond
    → m < s / millisecond
    → free_name f fails (pos s) (remove (file_name (pos m)) es) ≡ free_name f fails (pos s) es
unfolding free_name unix_milli
free_name-remove zero s m fails es h lt = refl
free_name-remove (suc f) s m fails es h lt =
    let later = free_name-remove f (s + millisecond) m fails es (omega arith) (omega arith) in
    let same =
      find-remove_ne (file_name (pos m)) (file_name (pos (s / millisecond))) es
        (file_name_ne m (s / millisecond) (omega arith) (omega arith) (omega arith)) in
    ground (arith, later, same, pos-add s millisecond)

-- If os.Stat never fails with another error than that there is no such file, the search for a free name
-- ends within one more round than there are files, for a time from 1970 on that stays in the range of a
-- file name; the name that it finds is free.
pub free_name_total :
    (f s : ℕ) (fails : Bytes → Bool) (es : List Entry)
    → ((name : Bytes) → fails name ≡ false)
    → s + f * millisecond < 2 ^ 63 * millisecond
    → length es < f
    → (k : ℕ) × (k < f)
      × (free_name f fails (pos s) es ≡ some (pos (s + k * millisecond)))
      × (find (file_name (pos ((s + k * millisecond) / millisecond))) es ≡ none)
unfolding free_name unix_milli
free_name_total zero s fails es works h lt = absurd (omega arith)
free_name_total (suc f) s fails es works h lt =
    elim (Option-cases (find (file_name (pos (s / millisecond))) es)) [
      | inl free ↦
          let e : s + 0 * millisecond ≡ s = omega arith in
          (0, omega arith, ground (arith, e, works (file_name (pos (s / millisecond)))), rw e free)
      | inr (g, taken) ↦
          let (k, below, found, absent) =
            free_name_total f (s + millisecond) fails
              (remove (file_name (pos (s / millisecond))) es) works (omega arith)
              (omega (arith, length-remove _ es g taken)) in
          let e : s + millisecond + k * millisecond ≡ s + (k + 1) * millisecond = omega arith in
          let same =
            free_name-remove f (s + millisecond) (s / millisecond) fails es (omega arith)
              (omega arith) in
          let seen =
            find-remove_ne (file_name (pos (s / millisecond)))
              (file_name (pos ((s + (k + 1) * millisecond) / millisecond))) es
              (file_name_ne _ _ (omega arith) (omega arith) (omega arith)) in
          (
            k + 1,
            omega arith,
            ground (
              arith,
              pos-add s millisecond,
              same,
              found,
              e,
              works (file_name (pos (s / millisecond))),
            ),
            sym seen ∙ (rw (← e) absent),
          )
    ]
