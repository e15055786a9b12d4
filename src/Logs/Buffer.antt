-- ===== src/Logs/Buffer.antt =====
-- internal/logger/buffer.go over container/ring, and addToBuffer of internal/logger/logger.go. A ring is the
-- list of its elements from the current one on, round once.
use aviationwx_org_bridge.Prelude.{
  ℕ, zero, suc, ◌+◌, List, [], ◌∷◌, ◌++◌, Option, none, some, if◌then◌else◌, ltb, reverse, length,
}
use aviationwx_org_bridge.Prelude.Int.{ℤ, pos, negsuc}
use aviationwx_org_bridge.Prelude.Clock.{GoTime}
use aviationwx_org_bridge.Files.Bytes.{Bytes}

pub record LogEntry : Type 0 where
  pub timestamp : GoTime
  pub level : Bytes
  pub message : Bytes
  pub attrs : List (Bytes × Bytes)

-- The elements are nil before they are set.
abbrev pub Ring : Type 0
Ring = List (Option LogEntry)

unfoldable pub next : Ring → Ring
next [] = []
next (x ∷ xs) = xs ++ (x ∷ [])

unfoldable pub prev : Ring → Ring
unfolding next
prev r = reverse (next (reverse r))

unfoldable pub set_value : LogEntry → Ring → Ring
set_value e [] = []
set_value e (x ∷ xs) = some e ∷ xs

abbrev pub value : Ring → Option LogEntry
value [] = none
value (x ∷ xs) = x

unfoldable pub nil_ring : ℕ → Ring
nil_ring zero = []
nil_ring (suc n) = none ∷ nil_ring n

pub record Buffer : Type 0 where
  pub ring : Ring
  pub size : ℕ

-- NewBuffer, with a positive capacity.
abbrev pub new_buffer : ℕ → Buffer
new_buffer capacity = record { ring = nil_ring capacity; size = 0 }

-- Add.
unfoldable pub add : LogEntry → Buffer → Buffer
unfolding next set_value
add e b = record {
  ring = next (set_value e b.ring);
  size = if ltb b.size (length b.ring) then b.size + 1 else b.size;
}

abbrev pub prepend : Option LogEntry → List LogEntry → List LogEntry
prepend none es = es
prepend (some e) es = e ∷ es

-- The loop of GetLast, for some more rounds.
unfoldable pub go_back : ℕ → Ring → List LogEntry → List LogEntry
unfolding prev
go_back zero r es = es
go_back (suc n) r es = go_back n (prev r) (prepend (value (prev r)) es)

-- GetLast; a negative number is no capacity of a slice, and none is a panic.
unfoldable pub get_last : ℤ → Buffer → Option (List LogEntry)
unfolding go_back
get_last (negsuc n) b = none
get_last (pos n) b = some (go_back (if ltb b.size n then b.size else n) b.ring [])
