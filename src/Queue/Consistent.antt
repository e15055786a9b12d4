-- ===== src/Queue/Consistent.antt =====
-- The counters of a queue against its directory, and that dropping images keeps them right.
use aviationwx_org_bridge.Prelude.{
  ℕ, ◌≡◌, inl, inr, true, List, [], ◌∷◌, some, arith, ltb, length, take, drop, All, Bool-cases,
}
use aviationwx_org_bridge.Prelude.Int.{pos, pos-sub}
use aviationwx_org_bridge.Files.Entry.{
  Entry, find, total_size, Distinct, Listed, All-sort_by_name, Distinct-sort_by_name,
}
use aviationwx_org_bridge.Files.Directory.{
  All-keep, Distinct-keep, Distinct-remove, All-take, All-drop, Distinct-take, Distinct-drop,
  keep-remove_listed, Listed-self, Listed-remove,
}
use aviationwx_org_bridge.Queue.Types.{Queue}
use aviationwx_org_bridge.Queue.Listing.{
  is_image, images, list_files_sorted, recalculate_oldest, or_empty,
}
use aviationwx_org_bridge.Queue.Health.{update_health_level}
use aviationwx_org_bridge.Queue.Thinning.{
  Reason, remove_counted, remove_counted_outcomes, drop_file, settle,
}

-- Names differ, and the counters are those of the image files in the directory.
pub record Consistent (q : Queue) : Type 0 where
  pub distinct : Distinct q.entries
  pub counted : q.image_count ≡ pos (length (images q.entries))
  pub sized : q.total_size_bytes ≡ pos (total_size (images q.entries))

-- Files that are still to be dropped: image files of the directory, each once.
pub record Pending (q : Queue) (fs : List Entry) : Type 0 where
  pub listed : Listed q.entries fs
  pub are_images : All (λ f. is_image f ≡ true) fs
  pub once : Distinct fs

-- The operations that leave the files and their counters alone.
pub update_health_level-Consistent : (q : Queue) → Consistent q → Consistent (update_health_level q)
unfolding update_health_level
update_health_level-Consistent q c = ground arith

pub recalculate_oldest-Consistent : (q : Queue) → Consistent q → Consistent (recalculate_oldest q)
unfolding recalculate_oldest
recalculate_oldest-Consistent q c = ground arith

pub settle-Consistent : (r : ℕ × Queue) → Consistent r.1 → Consistent (settle r).1
unfolding settle
settle-Consistent (count, q) c = elim (Bool-cases (ltb 0 count)) [
  | inl some_gone ↦
      rw some_gone (update_health_level-Consistent _ (recalculate_oldest-Consistent q c))
  | inr none_gone ↦ rw none_gone c
]

pub drop_file-Consistent :
    (r : Reason) (f : Entry) (q : Queue)
    → Consistent q
    → find f.name q.entries ≡ some f
    → is_image f ≡ true
    → Consistent (drop_file r f q)
drop_file-Consistent r f q c h k =
    let (fewer, smaller) = keep-remove_listed is_image f.name q.entries f h k in
    record {
      distinct = Distinct-remove f.name q.entries c.distinct;
      counted = rw (c.counted, ← fewer) (pos-sub _ 1);
      sized = rw (c.sized, ← smaller) (pos-sub _ f.size);
    }

pub remove_counted-Consistent :
    (r : Reason) (f : Entry) (q : Queue)
    → Consistent q
    → find f.name q.entries ≡ some f
    → is_image f ≡ true
    → Consistent (remove_counted r f q).1
remove_counted-Consistent r f q c h k = elim (remove_counted_outcomes r f q) [
  | inl kept ↦ rw kept c
  | inr dropped ↦ rw dropped (drop_file-Consistent r f q c h k)
]

pub remove_counted-Pending :
    (r : Reason) (f : Entry) (fs : List Entry) (q : Queue)
    → Pending q (f ∷ fs)
    → Pending (remove_counted r f q).1 fs
remove_counted-Pending r f fs q p = elim (remove_counted_outcomes r f q) [
  | inl kept ↦ rw kept rest
  | inr dropped ↦ rw dropped (record {
    listed = Listed-remove f q.entries fs p.once.0 p.listed.1;
    are_images = p.are_images.1;
    once = p.once.1;
  })
]
  where
    rest : Pending q fs
    rest = record { listed = p.listed.1; are_images = p.are_images.1; once = p.once.1 }

All-images : (es : List Entry) → All (λ f. is_image f ≡ true) (images es)
All-images [] = tt
All-images (e ∷ es) = elim (Bool-cases (is_image e)) [
  | inl image ↦ rw image (image, All-images es)
  | inr other ↦ rw other (All-images es)
]

-- The files of the sorted listing can be dropped one after the other.
pub list_files_sorted-Pending :
    (q : Queue) → Consistent q → Pending q (or_empty (list_files_sorted q))
unfolding list_files_sorted
list_files_sorted-Pending q c = elim (Bool-cases (q.environment.read_dir_fails q.entries)) [
  | inl fails ↦ rw fails (record { listed = tt; are_images = tt; once = tt })
  | inr reads ↦ rw reads (record {
    listed =
        All-sort_by_name _ (images q.entries)
          (All-keep _ is_image q.entries (Listed-self q.entries c.distinct));
    are_images = All-sort_by_name _ (images q.entries) (All-images q.entries);
    once = Distinct-sort_by_name (images q.entries) (Distinct-keep is_image q.entries c.distinct);
  })
]

pub Pending-take : (n : ℕ) (q : Queue) (fs : List Entry) → Pending q fs → Pending q (take n fs)
Pending-take n q fs p = record {
  listed = All-take _ n fs p.listed;
  are_images = All-take _ n fs p.are_images;
  once = Distinct-take n fs p.once;
}

pub Pending-drop : (n : ℕ) (q : Queue) (fs : List Entry) → Pending q fs → Pending q (drop n fs)
Pending-drop n q fs p = record {
  listed = All-drop _ n fs p.listed;
  are_images = All-drop _ n fs p.are_images;
  once = Distinct-drop n fs p.once;
}
