-- ===== src/Queue/Chronology.antt =====
-- The sorted listing of internal/queue/queue.go is in the order of time: its comment says that files
-- are sorted by time, the code sorts their names as texts.
use aviationwx_org_bridge.Prelude.{
  ℕ, ◌*◌, ◌^◌, ◌≤◌, ◌<◌, ◌≡◌, sym, ◌∙◌, inl, inr, List, [], ◌∷◌, arith, Bool-cases, subst, All, ltb,
  if◌then◌else◌,
}
use aviationwx_org_bridge.Prelude.Int.{pos, ◌≤ℤ◌}
use aviationwx_org_bridge.Prelude.Clock.{GoTime, from_unix_milli}
use aviationwx_org_bridge.Files.Bytes.{bytes_lt}
use aviationwx_org_bridge.Files.Decimal.{show_int, digits, parse_from-digits, length-digits}
use aviationwx_org_bridge.Files.Order.{bytes_lt-parse_from}
use aviationwx_org_bridge.Files.Entry.{Entry, insert_by_name, sort_by_name, All-insert_by_name}
use aviationwx_org_bridge.Queue.Types.{Queue, QueuedImage}
use aviationwx_org_bridge.Queue.Disk.{file_name, jpg}
use aviationwx_org_bridge.Queue.Listing.{images, list_files_sorted, parse_timestamp_from_filename}
use aviationwx_org_bridge.Queue.Dequeue.{Answer, answer, failure, first, is_empty, dequeue}
use aviationwx_org_bridge.Queue.Names.{parse_timestamp-file_name}

-- A name that Enqueue gives from September 2001 to November 2286: thirteen digits.
pub record Timed (f : Entry) : Type 0 where
  pub milliseconds : ℕ
  pub named : f.name ≡ file_name (pos milliseconds)
  pub low : 10 ^ 12 ≤ milliseconds
  pub high : milliseconds < 10 ^ 13

abbrev pub time_of : Entry → GoTime
time_of f = parse_timestamp_from_filename f.name

time_of-Timed : (f : Entry) (t : Timed f) → time_of f ≡ pos (t.milliseconds * 1_000_000)
unfolding from_unix_milli
time_of-Timed f t = rw t.named (parse_timestamp-file_name t.milliseconds (omega (arith, t.high)))

bytes_lt-Timed :
    (f g : Entry) (s : Timed f) (t : Timed g)
    → bytes_lt f.name g.name ≡ ltb s.milliseconds t.milliseconds
unfolding file_name show_int
bytes_lt-Timed f g s t =
    let m = s.milliseconds in
    let n = t.milliseconds in
    let same =
      length-digits 18 12 m (omega arith) s.low s.high
      ∙ sym (length-digits 18 12 n (omega arith) t.low t.high) in
    rw (s.named, t.named)
      (bytes_lt-parse_from (digits 19 m) (digits 19 n) jpg 0 m n same
        (parse_from-digits 18 m (omega (arith, s.high)))
        (parse_from-digits 18 n (omega (arith, t.high))))

-- Each is not later than all that follow.
abbrev pub Ascending : List Entry → Type 0
Ascending [] = Unit {0}
Ascending (e ∷ es) = All (λ f. time_of e ≤ℤ time_of f) es × Ascending es

All-later :
    (t u : GoTime) (es : List Entry)
    → t ≤ℤ u
    → All (λ f. u ≤ℤ time_of f) es
    → All (λ f. t ≤ℤ time_of f) es
All-later t u [] le a = tt
All-later t u (e ∷ es) le a = (omega (arith, a.0), All-later t u es le a.1)

insert_by_name-Ascending :
    (e : Entry) (fs : List Entry)
    → Timed e
    → All Timed fs
    → Ascending fs
    → Ascending (insert_by_name e fs)
unfolding insert_by_name
insert_by_name-Ascending e [] t ts a = (tt, tt)
insert_by_name-Ascending e (f ∷ fs) t ts a =
    let order = bytes_lt-Timed f e ts.0 t in
    let te = time_of-Timed e t in
    let tf = time_of-Timed f ts.0 in
    elim (Bool-cases (bytes_lt f.name e.name)) [
      | inl after ↦
          let le : time_of f ≤ℤ time_of e = rw (te, tf) (ground (arith, order, after)) in
          rw after (
            All-insert_by_name (λ g. time_of f ≤ℤ time_of g) e fs le a.0,
            insert_by_name-Ascending e fs t ts.1 a.1,
          )
      | inr before ↦
          let le : time_of e ≤ℤ time_of f = rw (te, tf) (ground (arith, order, before)) in
          rw before ((le, All-later (time_of e) (time_of f) fs le a.0), a)
    ]

sort_by_name-Ascending :
    (es : List Entry) → All Timed es → Ascending (sort_by_name es) × All Timed (sort_by_name es)
unfolding sort_by_name
sort_by_name-Ascending [] ts = (tt, tt)
sort_by_name-Ascending (e ∷ es) ts =
    let (ascending, timed) = sort_by_name-Ascending es ts.1 in
    (
      insert_by_name-Ascending e (sort_by_name es) ts.0 timed ascending,
      All-insert_by_name Timed e (sort_by_name es) ts.0 timed,
    )

-- What holds of all files of the sorted list holds of all files.
All-of_insert :
    (P : Entry → Type 0) (e : Entry) (fs : List Entry)
    → All P (insert_by_name e fs)
    → P e × All P fs
unfolding insert_by_name
All-of_insert P e [] a = a
All-of_insert P e (f ∷ fs) a = elim (Bool-cases (bytes_lt f.name e.name)) [
  | inl after ↦
      let a' = subst (λ b. All P (if b then f ∷ insert_by_name e fs else e ∷ f ∷ fs)) after a in
      let (pe, pfs) = All-of_insert P e fs a'.1 in (pe, (a'.0, pfs))
  | inr before ↦ subst (λ b. All P (if b then f ∷ insert_by_name e fs else e ∷ f ∷ fs)) before a
]

All-of_sort : (P : Entry → Type 0) (es : List Entry) → All P (sort_by_name es) → All P es
unfolding sort_by_name
All-of_sort P [] a = tt
All-of_sort P (e ∷ es) a =
    let (pe, rest) = All-of_insert P e (sort_by_name es) a in (pe, All-of_sort P es rest)

-- The image that is offered first is not later than any of the list.
abbrev FirstIsOldest : List Entry → Answer QueuedImage → Type 0
FirstIsOldest files (answer img) = All (λ f. img.timestamp ≤ℤ time_of f) files
FirstIsOldest files (failure e) = Unit

first-FirstIsOldest : (files : List Entry) → Ascending files → FirstIsOldest files (first files)
first-FirstIsOldest [] a = tt
first-FirstIsOldest (f ∷ fs) a = (omega arith, a.0)

dequeue-FirstIsOldest :
    (q : Queue)
    → All Timed (images q.entries)
    → FirstIsOldest (sort_by_name (images q.entries)) (dequeue q)
unfolding dequeue list_files_sorted
dequeue-FirstIsOldest q ts = elim (Bool-cases (is_empty q.image_count)) [
  | inl empty ↦ rw empty tt
  | inr more ↦ rw more (elim (Bool-cases (q.environment.read_dir_fails q.entries)) [
    | inl fails ↦ rw fails tt
    | inr reads ↦ rw reads (
        first-FirstIsOldest (sort_by_name (images q.entries))
          (sort_by_name-Ascending (images q.entries) ts).0)
  ])
]

-- If all images have names of thirteen digits, as Enqueue gives them, the image that Dequeue offers
-- is the oldest one: no image of the directory has an earlier time.
pub dequeue_oldest :
    (q : Queue) (img : QueuedImage)
    → All Timed (images q.entries)
    → dequeue q ≡ answer img
    → All (λ f. img.timestamp ≤ℤ time_of f) (images q.entries)
dequeue_oldest q img ts h =
    All-of_sort (λ f. img.timestamp ≤ℤ time_of f) (images q.entries)
      (subst (FirstIsOldest (sort_by_name (images q.entries))) h (dequeue-FirstIsOldest q ts))
