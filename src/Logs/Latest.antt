-- ===== src/Logs/Latest.antt =====
-- What GetLast of internal/logger/buffer.go gives after any lines were added.
use mathlib.Core.List.{append-nil, append_assoc}
use aviationwx_org_bridge.Prelude.{
  ℕ, zero, suc, ◌+◌, ◌-◌, ◌≡◌, ◌≤◌, refl, sym, ap, ◌∙◌, subst, true, false, List, [], ◌∷◌, ◌++◌,
  some, if◌then◌else◌, ltb, length, take, drop, take-append-drop, length-drop, min, length-append,
  ◌⊎◌, inl, inr, arith,
}
use aviationwx_org_bridge.Prelude.Int.{pos}
use aviationwx_org_bridge.Logs.Buffer.{
  LogEntry, next, set_value, nil_ring, Buffer, new_buffer, add, go_back, get_last,
}
use aviationwx_org_bridge.Logs.Back.{set_cells, set_cells-append, go_back_kept}

unfoldable pub add_lines : List LogEntry → Buffer → Buffer
add_lines [] b = b
add_lines (e ∷ es) b = add_lines es (add e b)

-- A buffer of a capacity after some lines: the last of them are in it, the elements before are not set.
record Keeps (c : ℕ) (es : List LogEntry) (b : Buffer) : Type 0 where
  old : List LogEntry
  kept : List LogEntry
  unset : ℕ
  lines : es ≡ old ++ kept
  ring : b.ring ≡ nil_ring unset ++ set_cells kept
  size : b.size ≡ length kept
  capacity : unset + length kept ≡ c
  full : (unset ≡ 0) ⊎ (old ≡ [])

length-nil_ring : (k : ℕ) → length (nil_ring k) ≡ k
unfolding nil_ring
length-nil_ring zero = refl
length-nil_ring (suc k) = ap suc (length-nil_ring k)

length-set_cells : (es : List LogEntry) → length (set_cells es) ≡ length es
unfolding set_cells
length-set_cells [] = refl
length-set_cells (e ∷ es) = ap suc (length-set_cells es)

-- Adding to a buffer that is not full yet, and to a full one.
add_unfilled :
    (e : LogEntry) (c k : ℕ) (es kept : List LogEntry) (b : Buffer)
    → es ≡ kept
    → b.ring ≡ nil_ring (suc k) ++ set_cells kept
    → b.size ≡ length kept
    → suc k + length kept ≡ c
    → Keeps c (es ++ (e ∷ [])) (add e b)
unfolding add next set_value nil_ring set_cells
add_unfilled e c k es kept b lines ring size capacity =
    let room : ltb b.size (length b.ring) ≡ true =
      let count : length b.ring ≡ suc k + length kept =
        ap length ring
        ∙ length-append (nil_ring (suc k)) (set_cells kept)
        ∙ omega (arith, length-nil_ring (suc k), length-set_cells kept) in
      ground (arith, count, size) in
    record {
      old = [];
      kept = kept ++ (e ∷ []);
      unset = k;
      lines = ap (λ t. t ++ (e ∷ [])) lines;
      ring =
          ap (λ r. next (set_value e r)) ring
          ∙ append_assoc (nil_ring k) (set_cells kept) (some e ∷ [])
          ∙ ap (λ t. nil_ring k ++ t) (sym (set_cells-append kept (e ∷ [])));
      size =
          ap (λ t. if t then b.size + 1 else b.size) room
          ∙ omega (arith, size, length-append kept (e ∷ []));
      capacity = omega (arith, capacity, length-append kept (e ∷ []));
      full = inr refl;
    }

add_full :
    (e : LogEntry) (c : ℕ) (es old : List LogEntry) (x : LogEntry) (kept : List LogEntry)
    (b : Buffer)
    → es ≡ old ++ (x ∷ kept)
    → b.ring ≡ set_cells (x ∷ kept)
    → b.size ≡ suc (length kept)
    → suc (length kept) ≡ c
    → Keeps c (es ++ (e ∷ [])) (add e b)
unfolding add next set_value nil_ring set_cells
add_full e c es old x kept b lines ring size capacity =
    let full : ltb b.size (length b.ring) ≡ false =
      let count : length b.ring ≡ suc (length kept) =
        ap length ring ∙ ap suc (length-set_cells kept) in
      ground (arith, count, size) in
    record {
      old = old ++ (x ∷ []);
      kept = kept ++ (e ∷ []);
      unset = 0;
      lines =
          ap (λ t. t ++ (e ∷ [])) lines
          ∙ append_assoc old (x ∷ kept) (e ∷ [])
          ∙ sym (append_assoc old (x ∷ []) (kept ++ (e ∷ [])));
      ring = ap (λ r. next (set_value e r)) ring ∙ sym (set_cells-append kept (e ∷ []));
      size =
          ap (λ t. if t then b.size + 1 else b.size) full
          ∙ omega (arith, size, length-append kept (e ∷ []));
      capacity = omega (arith, capacity, length-append kept (e ∷ []));
      full = inl refl;
    }

add-Keeps :
    (e : LogEntry) (c : ℕ) (es : List LogEntry) (b : Buffer)
    → 1 ≤ c
    → Keeps c es b
    → Keeps c (es ++ (e ∷ [])) (add e b)
unfolding nil_ring set_cells
add-Keeps e c es b some_room s = go s.unset s.kept s.lines s.ring s.size s.capacity s.full
  where
    go :
        (k : ℕ) (kept : List LogEntry)
        → es ≡ s.old ++ kept
        → b.ring ≡ nil_ring k ++ set_cells kept
        → b.size ≡ length kept
        → k + length kept ≡ c
        → (k ≡ 0) ⊎ (s.old ≡ [])
        → Keeps c (es ++ (e ∷ [])) (add e b)
    go (suc k) kept lines ring size capacity (inl z) = absurd (omega (arith, z))
    go (suc k) kept lines ring size capacity (inr empty) =
        add_unfilled e c k es kept b (lines ∙ ap (λ t. t ++ kept) empty) ring size capacity
    go zero [] lines ring size capacity full = absurd (omega (arith, capacity, some_room))
    go zero (x ∷ kept) lines ring size capacity full =
        add_full e c es s.old x kept b lines ring size (omega (arith, capacity))

add_lines-Keeps :
    (es fs : List LogEntry) (c : ℕ) (b : Buffer)
    → 1 ≤ c
    → Keeps c fs b
    → Keeps c (fs ++ es) (add_lines es b)
unfolding add_lines
add_lines-Keeps [] fs c b some_room s = subst (λ t. Keeps c t b) (sym (append-nil fs)) s
add_lines-Keeps (e ∷ es) fs c b some_room s =
    subst (λ t. Keeps c t (add_lines es (add e b))) (append_assoc fs (e ∷ []) es)
      (add_lines-Keeps es (fs ++ (e ∷ [])) c (add e b) some_room (add-Keeps e c fs b some_room s))

new_buffer-Keeps : (c : ℕ) → Keeps c [] (new_buffer c)
unfolding set_cells
new_buffer-Keeps c = record {
  old = [];
  kept = [];
  unset = c;
  lines = refl;
  ring = sym (append-nil (nil_ring c));
  size = refl;
  capacity = omega arith;
  full = inr refl;
}

kept_count :
    (c k : ℕ) (es old kept : List LogEntry)
    → es ≡ old ++ kept
    → k + length kept ≡ c
    → (k ≡ 0) ⊎ (old ≡ [])
    → length kept ≡ min c (length es)
kept_count c k es old kept lines capacity (inl z) =
    omega (arith, z, capacity, ap length lines, length-append old kept)
kept_count c k es old kept lines capacity (inr empty) =
    omega (arith, capacity, ap length lines, ap (λ t. length (t ++ kept)) empty)

rounds_min : (size n l : ℕ) → size ≡ l → (if ltb size n then size else n) ≡ min n l
rounds_min size n l h = ground (arith, h)

-- After any lines were added to a new buffer, GetLast of a number gives the last of them in the order in
-- which they were added, as many as asked for, as there are and as the buffer holds.
pub get_last-add_lines :
    (c n : ℕ) (es : List LogEntry)
    → 1 ≤ c
    → (older latest : List LogEntry) × (get_last (pos n) (add_lines es (new_buffer c))
        ≡ some latest)
      × (es ≡ older ++ latest)
      × (length latest ≡ min n (min c (length es)))
unfolding get_last
get_last-add_lines c n es some_room =
    let s = add_lines-Keeps es [] c (new_buffer c) some_room (new_buffer-Keeps c) in
    let b = add_lines es (new_buffer c) in
    let rounds = if ltb b.size n then b.size else n in
    let count : length s.kept ≡ min c (length es) =
      kept_count c s.unset es s.old s.kept s.lines s.capacity s.full in
    let enough : rounds ≡ min n (length s.kept) = rounds_min b.size n (length s.kept) s.size in
    let skipped = length s.kept - rounds in
    (
      s.old ++ take skipped s.kept,
      drop skipped s.kept,
      ap (λ r. some (go_back rounds r [])) s.ring
          ∙ ap some (go_back_kept rounds (nil_ring s.unset) s.kept (omega (arith, enough))),
      s.lines
          ∙ ap (λ t. s.old ++ t) (sym (take-append-drop skipped s.kept))
          ∙ sym (append_assoc s.old (take skipped s.kept) (drop skipped s.kept)),
      omega (arith, length-drop skipped s.kept, enough, count),
    )
