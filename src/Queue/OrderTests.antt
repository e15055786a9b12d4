-- ===== src/Queue/OrderTests.antt =====
-- The theorems on the reading calls of internal/queue/queue.go at a queue of three images.
use Prim.Native.String.{String}
use aviationwx_org_bridge.Prelude.{◌^◌, All, ℕ, ◌<◌, ◌≤◌, ◌≡◌, ◌≢◌, [], refl, true, arith, take}
use aviationwx_org_bridge.Prelude.Int.{◌≤ℤ◌, pos}
use aviationwx_org_bridge.Prelude.Clock.{from_unix_milli}
use aviationwx_org_bridge.Files.Bytes.{codes, bytes_lt, has_suffix, bytes_eq, trim_suffix}
use aviationwx_org_bridge.Files.Decimal.{parse_int, show_int, digits}
use aviationwx_org_bridge.Files.Entry.{sort_by_name}
use aviationwx_org_bridge.Queue.Disk.{file_name}
use aviationwx_org_bridge.Queue.Listing.{
  images, is_image, list_files_sorted, parse_timestamp_from_filename,
}
use aviationwx_org_bridge.Queue.Dequeue.{dequeue, dequeue_batch, answer}
use aviationwx_org_bridge.Queue.Batches.{in_order, answer_or_empty, dequeue_batch_order}
use aviationwx_org_bridge.Queue.Chronology.{Timed, time_of, dequeue_oldest}
use aviationwx_org_bridge.Queue.Tests.{image_at, oldest, three_images, three_images-Consistent}

dequeue_batch_order_example :
    dequeue_batch 2 true three_images
    ≡ answer_or_empty
        (take 2 (in_order true (sort_by_name (images three_images.entries))))
        (sort_by_name (images three_images.entries))
dequeue_batch_order_example = dequeue_batch_order 2 true three_images three_images-Consistent refl

timed :
    (name : String) (size ms : ℕ)
    → codes name ≡ file_name (pos ms)
    → 10 ^ 12 ≤ ms
    → ms < 10 ^ 13
    → Timed (image_at name size)
timed name size ms named low high = record {
  milliseconds = ms;
  named = named;
  low = low;
  high = high;
}

pub three_images_some : images three_images.entries ≢ []
unfolding is_image has_suffix bytes_eq parse_int trim_suffix
three_images_some e = absurd (cc (e))

pub three_images-Timed : All Timed (images three_images.entries)
unfolding is_image has_suffix bytes_eq parse_int trim_suffix file_name show_int digits
three_images-Timed = (
  timed "1735142730002.jpg" 300 1_735_142_730_002 refl (omega arith) (omega arith),
  (
    timed "1735142730000.jpg" 100 1_735_142_730_000 refl (omega arith) (omega arith),
    (timed "1735142730001.jpg" 200 1_735_142_730_001 refl (omega arith) (omega arith), tt),
  ),
)

offered : dequeue three_images ≡ answer oldest
unfolding dequeue list_files_sorted is_image has_suffix bytes_eq bytes_lt parse_int trim_suffix
    sort_by_name parse_timestamp_from_filename from_unix_milli
offered = refl

dequeue_oldest_example : All (λ f. oldest.timestamp ≤ℤ time_of f) (images three_images.entries)
dequeue_oldest_example = dequeue_oldest three_images oldest three_images-Timed offered
