-- ===== src/Files/Entry.antt =====
-- Directory entries, and os.Stat, os.Remove, os.WriteFile and os.Rename on a directory's entries.
use aviationwx_org_bridge.Prelude.{
  ℕ, suc, ◌+◌, ◌≡◌, refl, sym, ◌≢◌, inl, inr, Bool, List, [], ◌∷◌, Option, none, some, arith,
  if◌then◌else◌, length, All, Bool-cases,
}
use aviationwx_org_bridge.Files.Bytes.{Bytes, bytes_eq, bytes_lt}

-- os.DirEntry, with what its Info method gives: `has_info` is false where that fails.
pub record Entry : Type 0 where
  pub name : Bytes
  pub is_dir : Bool
  pub has_info : Bool
  pub size : ℕ

-- The entry of a name. Names in a directory differ, so the first one is the only one.
unfoldable pub find : Bytes → List Entry → Option Entry
find n [] = none
find n (e ∷ es) = if bytes_eq e.name n then some e else find n es

unfoldable pub remove : Bytes → List Entry → List Entry
remove n [] = []
remove n (e ∷ es) = if bytes_eq e.name n then es else e ∷ remove n es

-- Writing a file: a new entry, in place of one of the same name.
unfoldable pub put : Entry → List Entry → List Entry
unfolding remove
put e es = e ∷ remove e.name es

-- sort.Slice by name. Names differ, so there is one sorted order.
unfoldable pub insert_by_name : Entry → List Entry → List Entry
insert_by_name e [] = e ∷ []
insert_by_name e (f ∷ fs) = if bytes_lt f.name e.name then f ∷ insert_by_name e fs else e ∷ f ∷ fs

unfoldable pub sort_by_name : List Entry → List Entry
unfolding insert_by_name
sort_by_name [] = []
sort_by_name (e ∷ es) = insert_by_name e (sort_by_name es)

abbrev pub total_size : List Entry → ℕ
total_size [] = 0
total_size (e ∷ es) = e.size + total_size es

abbrev pub Differ : Entry → Entry → Type 0
Differ e f = e.name ≢ f.name

-- The names differ.
abbrev pub Distinct : List Entry → Type 0
Distinct [] = Unit {0}
Distinct (e ∷ es) = All (Differ e) es × Distinct es

-- The entries of `fs` are in the directory `es`, under their names.
abbrev pub Listed : List Entry → List Entry → Type 0
Listed es = All (λ f. find f.name es ≡ some f)

pub All-insert_by_name {κ} :
    (P : Entry → Type κ) (e : Entry) (fs : List Entry)
    → P e
    → All P fs
    → All P (insert_by_name e fs)
unfolding insert_by_name
All-insert_by_name P e [] p h = (p, tt)
All-insert_by_name P e (f ∷ fs) p h = elim (Bool-cases (bytes_lt f.name e.name)) [
  | inl after ↦ rw after (h.0, All-insert_by_name P e fs p h.1)
  | inr before ↦ rw before (p, h)
]

pub All-sort_by_name {κ} :
    (P : Entry → Type κ) (es : List Entry) → All P es → All P (sort_by_name es)
unfolding sort_by_name
All-sort_by_name P [] h = tt
All-sort_by_name P (e ∷ es) h = All-insert_by_name P e _ h.0 (All-sort_by_name P es h.1)

pub Distinct-insert_by_name :
    (e : Entry) (fs : List Entry) → All (Differ e) fs → Distinct fs → Distinct (insert_by_name e fs)
unfolding insert_by_name
Distinct-insert_by_name e [] a d = (tt, tt)
Distinct-insert_by_name e (f ∷ fs) a d = elim (Bool-cases (bytes_lt f.name e.name)) [
  | inl after ↦ rw after (
    All-insert_by_name (Differ f) e fs (λ q. a.0 (sym q)) d.0,
    Distinct-insert_by_name e fs a.1 d.1,
  )
  | inr before ↦ rw before (a, d)
]

pub Distinct-sort_by_name : (es : List Entry) → Distinct es → Distinct (sort_by_name es)
unfolding sort_by_name
Distinct-sort_by_name [] d = tt
Distinct-sort_by_name (e ∷ es) d =
    Distinct-insert_by_name e _ (All-sort_by_name (Differ e) es d.0) (Distinct-sort_by_name es d.1)

length-insert_by_name :
    (e : Entry) (fs : List Entry) → length (insert_by_name e fs) ≡ suc (length fs)
unfolding insert_by_name
length-insert_by_name e [] = refl
length-insert_by_name e (f ∷ fs) = ground (arith, length-insert_by_name e fs)

pub length-sort_by_name : (es : List Entry) → length (sort_by_name es) ≡ length es
unfolding sort_by_name
length-sort_by_name [] = refl
length-sort_by_name (e ∷ es) =
    omega (arith, length-insert_by_name e (sort_by_name es), length-sort_by_name es)

total_size-insert_by_name :
    (e : Entry) (fs : List Entry) → total_size (insert_by_name e fs) ≡ e.size + total_size fs
unfolding insert_by_name
total_size-insert_by_name e [] = refl
total_size-insert_by_name e (f ∷ fs) = ground (arith, total_size-insert_by_name e fs)

pub total_size-sort_by_name : (es : List Entry) → total_size (sort_by_name es) ≡ total_size es
unfolding sort_by_name
total_size-sort_by_name [] = refl
total_size-sort_by_name (e ∷ es) =
    omega (arith, total_size-insert_by_name e (sort_by_name es), total_size-sort_by_name es)
