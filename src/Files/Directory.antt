-- ===== src/Files/Directory.antt =====
-- What removals, writes and selections leave of a directory: the lemmas that the queue's
-- operations share.
use aviationwx_org_bridge.Prelude.{
  ℕ, suc, ◌+◌, ◌≡◌, refl, subst, ◌∙◌, ◌≢◌, inl, inr, Bool, true, false, List, [], ◌∷◌, none, some,
  arith, length, All, keep, take, drop, Bool-cases, zero,
}
use aviationwx_org_bridge.Files.Bytes.{Bytes, bytes_eq, bytes_eq_iff, bytes_eq_refl}
use aviationwx_org_bridge.Files.Entry.{
  Entry, find, remove, put, total_size, Differ, Distinct, Listed,
}

-- What holds of all entries holds of the kept ones, and of those that a removal leaves.
pub All-keep {κ} :
    (P : Entry → Type κ) (p : Entry → Bool) (es : List Entry) → All P es → All P (keep p es)
All-keep P p [] h = tt
All-keep P p (e ∷ es) h = elim (Bool-cases (p e)) [
  | inl kept ↦ rw kept (h.0, All-keep P p es h.1)
  | inr dropped ↦ rw dropped (All-keep P p es h.1)
]

pub All-remove {κ} :
    (P : Entry → Type κ) (n : Bytes) (es : List Entry) → All P es → All P (remove n es)
unfolding remove
All-remove P n [] h = tt
All-remove P n (e ∷ es) h = elim (Bool-cases (bytes_eq e.name n)) [
  | inl hit ↦ rw hit h.1
  | inr miss ↦ rw miss (h.0, All-remove P n es h.1)
]

pub Distinct-keep : (p : Entry → Bool) (es : List Entry) → Distinct es → Distinct (keep p es)
Distinct-keep p [] d = tt
Distinct-keep p (e ∷ es) d = elim (Bool-cases (p e)) [
  | inl kept ↦ rw kept (All-keep (Differ e) p es d.0, Distinct-keep p es d.1)
  | inr dropped ↦ rw dropped (Distinct-keep p es d.1)
]

pub Distinct-remove : (n : Bytes) (es : List Entry) → Distinct es → Distinct (remove n es)
unfolding remove
Distinct-remove n [] d = tt
Distinct-remove n (e ∷ es) d = elim (Bool-cases (bytes_eq e.name n)) [
  | inl hit ↦ rw hit d.1
  | inr miss ↦ rw miss (All-remove (Differ e) n es d.0, Distinct-remove n es d.1)
]

pub All-take {κ} : (P : Entry → Type κ) (n : ℕ) (es : List Entry) → All P es → All P (take n es)
All-take P zero es h = tt
All-take P (suc n) [] h = tt
All-take P (suc n) (e ∷ es) h = (h.0, All-take P n es h.1)

pub All-drop {κ} : (P : Entry → Type κ) (n : ℕ) (es : List Entry) → All P es → All P (drop n es)
All-drop P zero es h = h
All-drop P (suc n) [] h = tt
All-drop P (suc n) (e ∷ es) h = All-drop P n es h.1

pub Distinct-take : (n : ℕ) (es : List Entry) → Distinct es → Distinct (take n es)
Distinct-take zero es d = tt
Distinct-take (suc n) [] d = tt
Distinct-take (suc n) (e ∷ es) d = (All-take (Differ e) n es d.0, Distinct-take n es d.1)

pub Distinct-drop : (n : ℕ) (es : List Entry) → Distinct es → Distinct (drop n es)
Distinct-drop zero es d = d
Distinct-drop (suc n) [] d = tt
Distinct-drop (suc n) (e ∷ es) d = Distinct-drop n es d.1

-- Looking a name up after another one was removed.
pub find-remove_ne : (n m : Bytes) (es : List Entry) → n ≢ m → find m (remove n es) ≡ find m es
unfolding find remove
find-remove_ne n m [] h = refl
find-remove_ne n m (e ∷ es) h =
    ground (arith, bytes_eq_iff e.name n, bytes_eq_iff e.name m, find-remove_ne n m es h)

pub remove_absent : (n : Bytes) (es : List Entry) → find n es ≡ none → remove n es ≡ es
unfolding find remove
remove_absent n [] h = refl
remove_absent n (e ∷ es) h = ground (arith, remove_absent n es)

pub name-find : (n : Bytes) (es : List Entry) (f : Entry) → find n es ≡ some f → f.name ≡ n
unfolding find
name-find n [] f h = cc
name-find n (e ∷ es) f h = ground (arith, bytes_eq_iff e.name n, name-find n es f)

-- A removed file that the listing shows is one file less, and its bytes.
pub keep-remove_listed :
    (p : Entry → Bool) (n : Bytes) (es : List Entry) (f : Entry)
    → find n es ≡ some f
    → p f ≡ true
    → (length (keep p (remove n es)) + 1 ≡ length (keep p es))
      × (total_size (keep p (remove n es)) + f.size ≡ total_size (keep p es))
unfolding find remove
keep-remove_listed p n [] f h k = cc
keep-remove_listed p n (e ∷ es) f h k = ground (arith, keep-remove_listed p n es f)

-- A removed file that the listing does not show leaves it as it was.
pub keep-remove_unlisted :
    (p : Entry → Bool) (n : Bytes) (es : List Entry)
    → ((f : Entry) → f.name ≡ n → p f ≡ false)
    → keep p (remove n es) ≡ keep p es
unfolding remove
keep-remove_unlisted p n [] h = refl
keep-remove_unlisted p n (e ∷ es) h =
    ground (arith, bytes_eq_iff e.name n, h e, keep-remove_unlisted p n es h)

Listed-cons :
    (e : Entry) (es fs : List Entry) → All (Differ e) fs → Listed es fs → Listed (e ∷ es) fs
unfolding find
Listed-cons e es [] d l = tt
Listed-cons e es (f ∷ fs) d l =
    (ground (arith, bytes_eq_iff e.name f.name), Listed-cons e es fs d.1 l.1)

-- A directory lists its own entries.
pub Listed-self : (es : List Entry) → Distinct es → Listed es es
Listed-self [] d = tt
Listed-self (e ∷ es) d =
    (unfold find in rw (bytes_eq_refl e.name) refl, Listed-cons e es es d.0 (Listed-self es d.1))

-- Other files stay listed when one is removed.
pub Listed-remove :
    (e : Entry) (es fs : List Entry)
    → All (Differ e) fs
    → Listed es fs
    → Listed (remove e.name es) fs
Listed-remove e es [] d l = tt
Listed-remove e es (f ∷ fs) d l =
    (find-remove_ne e.name f.name es d.0 ∙ l.0, Listed-remove e es fs d.1 l.1)

find-none-Differ : (e : Entry) (es : List Entry) → find e.name es ≡ none → All (Differ e) es
unfolding find
find-none-Differ e [] h = tt
find-none-Differ e (f ∷ es) h =
    (ground (arith, bytes_eq_iff f.name e.name), find-none-Differ e es (ground arith))

remove-Differ : (e : Entry) (es : List Entry) → Distinct es → All (Differ e) (remove e.name es)
unfolding remove
remove-Differ e [] d = tt
remove-Differ e (f ∷ es) d = elim (Bool-cases (bytes_eq f.name e.name)) [
  | inl hit ↦
      rw hit (subst (λ n. All (λ g. n ≢ g.name) es) ((bytes_eq_iff f.name e.name).0 hit) d.0)
  | inr miss ↦ rw miss (ground (arith, bytes_eq_iff f.name e.name), remove-Differ e es d.1)
]

pub Distinct-put : (e : Entry) (es : List Entry) → Distinct es → Distinct (put e es)
unfolding put
Distinct-put e es d = (remove-Differ e es d, Distinct-remove e.name es d)

pub length-remove :
    (n : Bytes) (es : List Entry) (f : Entry)
    → find n es ≡ some f
    → length (remove n es) + 1 ≡ length es
unfolding find remove
length-remove n [] f h = cc
length-remove n (e ∷ es) f h = ground (arith, length-remove n es f)

pub find-remove-none :
    (n m : Bytes) (es : List Entry) → find n es ≡ none → find n (remove m es) ≡ none
unfolding find remove
find-remove-none n m [] h = refl
find-remove-none n m (e ∷ es) h = ground (arith, find-remove-none n m es)

-- A new file that the listing shows is one file more, and its bytes.
pub keep-put_new :
    (p : Entry → Bool) (e : Entry) (es : List Entry)
    → find e.name es ≡ none
    → p e ≡ true
    → (length (keep p (put e es)) ≡ length (keep p es) + 1)
      × (total_size (keep p (put e es)) ≡ total_size (keep p es) + e.size)
unfolding put
keep-put_new p e es h k = ground (arith, remove_absent e.name es h)
