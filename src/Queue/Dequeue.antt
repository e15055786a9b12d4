-- ===== src/Queue/Dequeue.antt =====
-- Dequeue, DequeueBatch, Peek and scanDirectory of internal/queue/queue.go.
use aviationwx_org_bridge.Prelude.{
  ℕ, zero, suc, ◌+◌, ◌-◌, Bool, true, false, List, [], ◌∷◌, Option, none, some, if◌then◌else◌,
  length, get_elem?, min,
}
use aviationwx_org_bridge.Prelude.Int.{ℤ, pos}
use aviationwx_org_bridge.Files.Entry.{Entry, total_size}
use aviationwx_org_bridge.Queue.Types.{
  Queue, QueueConfig, Environment, QueuedImage, QueueError, queue_empty, read_directory,
  initial_state,
}
use aviationwx_org_bridge.Queue.Listing.{
  list_files_sorted, parse_timestamp_from_filename, with_ends,
}
use aviationwx_org_bridge.Queue.Health.{update_health_level}

pub data Answer {ℓ} (A : Type ℓ) : Type ℓ where
  answer : A → Answer A
  failure : QueueError → Answer A

abbrev pub queued_image : Entry → QueuedImage
queued_image f = record {
  filename = f.name;
  timestamp = parse_timestamp_from_filename f.name;
  size_bytes = f.size;
}

-- q.state.ImageCount == 0
abbrev pub is_empty : ℤ → Bool
is_empty (pos zero) = true
is_empty _ = false

abbrev pub first : List Entry → Answer QueuedImage
first [] = failure queue_empty
first (f ∷ _) = answer (queued_image f)

unfoldable pub dequeue : Queue → Answer QueuedImage
dequeue q =
    if is_empty q.image_count
    then failure queue_empty
    else elim (list_files_sorted q) [ none ↦ failure read_directory | some files ↦ first files ]

abbrev pub cons? : Option Entry → List QueuedImage → List QueuedImage
cons? none rest = rest
cons? (some f) rest = queued_image f ∷ rest

-- for i := start; ...; i++ and i--, for a number of rounds.
unfoldable pub upward : List Entry → ℕ → ℕ → List QueuedImage
upward files zero i = []
upward files (suc k) i = cons? (get_elem? files i) (upward files k (i + 1))

unfoldable pub downward : List Entry → ℕ → ℕ → List QueuedImage
downward files zero i = []
downward files (suc k) i = cons? (get_elem? files i) (downward files k (i - 1))

unfoldable pub batch : ℕ → Bool → List Entry → Answer (List QueuedImage)
unfolding upward downward
batch count newest_first [] = failure queue_empty
batch count true (f ∷ fs) =
    answer (downward (f ∷ fs) (min count (length (f ∷ fs))) (length (f ∷ fs) - 1))
batch count false (f ∷ fs) = answer (upward (f ∷ fs) (min count (length (f ∷ fs))) 0)

unfoldable pub dequeue_batch : ℕ → Bool → Queue → Answer (List QueuedImage)
dequeue_batch count newest_first q =
    if is_empty q.image_count then failure queue_empty else elim (list_files_sorted q) [
      | none ↦ failure read_directory
      | some files ↦ batch count newest_first files
    ]

unfoldable pub peek : ℕ → Queue → Answer (List QueuedImage)
unfolding upward
peek count q = elim (list_files_sorted q) [
  | none ↦ failure read_directory
  | some files ↦ answer (upward files (min count (length files)) 0)
]

abbrev pub ends_if_any : Queue → List Entry → Queue
ends_if_any q [] = q
ends_if_any q (f ∷ fs) = with_ends q (f ∷ fs)

-- The state that scanDirectory restores from the files.
unfoldable pub restore : List Entry → Queue → Queue
restore files q = update_health_level (
    ends_if_any
      (record q {
        state = record (q.state) {
          image_count = pos (length files);
          total_size_bytes = pos (total_size files);
        };
      })
      files)

unfoldable pub scan_directory : Queue → Answer Queue
scan_directory q = elim (list_files_sorted q) [
  | none ↦ failure read_directory
  | some files ↦ answer (restore files q)
]

-- NewQueue, in a directory that exists or could be made.
unfoldable pub new_queue : QueueConfig → Environment → List Entry → Answer Queue
new_queue config environment entries = scan_directory (record {
  config = config;
  state = initial_state;
  entries = entries;
  environment = environment;
  pause_signal = false;
  resume_signal = false;
})
