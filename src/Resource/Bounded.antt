-- ===== src/Resource/Bounded.antt =====
-- The slots of internal/resource/limiter.go that are in use, against the workers that hold one.
use aviationwx_org_bridge.Prelude.{
  ℕ, zero, suc, ◌+◌, ◌≡◌, ◌≤◌, refl, ap, ◌∙◌, Bool, true, false, List, [], ◌∷◌, ◌++◌, some, arith,
}
use aviationwx_org_bridge.Resource.Limiter.{Limits, acquire, release}
use aviationwx_org_bridge.Resource.Workers.{
  Stage, idle, reading, at_image, processing, ending, Slots, Move, begin, begin_without_exif,
  begin_without_both, take_exif, give_up_exif, process_next, skip_processing, take_image,
  give_up_image, release_image, panic_in_process, release_exif, end_without_exif, System,
  WorkerStep, moves, idle_workers, Reach, at_rest, later,
}

abbrev pub one_if : Bool → ℕ
one_if true = 1
one_if false = 0

abbrev pub holds_image : Stage → ℕ
holds_image (processing e) = 1
holds_image _ = 0

abbrev pub holds_exif : Stage → ℕ
holds_exif reading = 1
holds_exif (at_image e) = one_if e
holds_exif (processing e) = one_if e
holds_exif (ending e) = one_if e
holds_exif _ = 0

unfoldable pub total : (Stage → ℕ) → List Stage → ℕ
total f [] = 0
total f (a ∷ rest) = f a + total f rest

pub total-append :
    (f : Stage → ℕ) (xs ys : List Stage) → total f (xs ++ ys) ≡ total f xs + total f ys
unfolding total
total-append f [] ys = omega arith
total-append f (x ∷ xs) ys = omega (arith, total-append f xs ys)

-- The channels have an element for each holder, the first one also for each job that panicked, and no more
-- than they can take.
pub record Bounded (l : Limits) (s : System) : Type 0 where
  pub image_slots : s.slots.image_slots ≡ total holds_image s.stages + s.slots.leaked
  pub exif_slots : s.slots.exif_slots ≡ total holds_exif s.stages
  pub images_fit : s.slots.image_slots ≤ l.image_processing
  pub exifs_fit : s.slots.exif_slots ≤ l.exif_operations

acquire-some : (c u n : ℕ) → acquire c u ≡ some n → (n ≡ u + 1) × (n ≤ c)
unfolding acquire
acquire-some c u n h = ground (arith)

release-some : (u n : ℕ) → release u ≡ some n → u ≡ n + 1
unfolding release
release-some u n h = ground (arith)

-- What a move does to the slots.
pub record Balanced (l : Limits) (u : Slots) (a : Stage) (v : Slots) (b : Stage) : Type 0 where
  pub image_slots :
      v.image_slots + holds_image a + u.leaked ≡ u.image_slots + holds_image b + v.leaked
  pub exif_slots : v.exif_slots + holds_exif a ≡ u.exif_slots + holds_exif b
  pub images_fit : u.image_slots ≤ l.image_processing → v.image_slots ≤ l.image_processing
  pub exifs_fit : u.exif_slots ≤ l.exif_operations → v.exif_slots ≤ l.exif_operations

Move-Balanced :
    {l : Limits} {u v : Slots} {c : Bool} {a b : Stage} → Move l u c a v b → Balanced l u a v b
Move-Balanced begin = record {
  image_slots = omega arith;
  exif_slots = refl;
  images_fit = λ h. h;
  exifs_fit = λ h. h;
}
Move-Balanced begin_without_exif = record {
  image_slots = omega arith;
  exif_slots = refl;
  images_fit = λ h. h;
  exifs_fit = λ h. h;
}
Move-Balanced begin_without_both = record {
  image_slots = omega arith;
  exif_slots = refl;
  images_fit = λ h. h;
  exifs_fit = λ h. h;
}
Move-Balanced {l} {u} (take_exif {n} h) =
    let (e, fit) = acquire-some l.exif_operations u.exif_slots n h in
    record {
      image_slots = omega arith;
      exif_slots = omega (arith, e);
      images_fit = λ h. h;
      exifs_fit = λ _. fit;
    }
Move-Balanced give_up_exif = record {
  image_slots = omega arith;
  exif_slots = refl;
  images_fit = λ h. h;
  exifs_fit = λ h. h;
}
Move-Balanced process_next = record {
  image_slots = omega arith;
  exif_slots = refl;
  images_fit = λ h. h;
  exifs_fit = λ h. h;
}
Move-Balanced skip_processing = record {
  image_slots = omega arith;
  exif_slots = refl;
  images_fit = λ h. h;
  exifs_fit = λ h. h;
}
Move-Balanced {l} {u} (take_image {e} {n} h) =
    let (same, fit) = acquire-some l.image_processing u.image_slots n h in
    record {
      image_slots = omega (arith, same);
      exif_slots = refl;
      images_fit = λ _. fit;
      exifs_fit = λ h. h;
    }
Move-Balanced give_up_image = record {
  image_slots = omega arith;
  exif_slots = refl;
  images_fit = λ h. h;
  exifs_fit = λ h. h;
}
Move-Balanced {l} {u} (release_image {e} {n} h) =
    let same = release-some u.image_slots n h in
    record {
      image_slots = omega (arith, same);
      exif_slots = refl;
      images_fit = λ k. omega (arith, same, k);
      exifs_fit = λ h. h;
    }
Move-Balanced panic_in_process = record {
  image_slots = omega arith;
  exif_slots = refl;
  images_fit = λ h. h;
  exifs_fit = λ h. h;
}
Move-Balanced {l} {u} (release_exif {n} h) =
    let same = release-some u.exif_slots n h in
    record {
      image_slots = omega arith;
      exif_slots = omega (arith, same);
      images_fit = λ h. h;
      exifs_fit = λ k. omega (arith, same, k);
    }
Move-Balanced end_without_exif = record {
  image_slots = omega arith;
  exif_slots = refl;
  images_fit = λ h. h;
  exifs_fit = λ h. h;
}

total_moved :
    (f : Stage → ℕ) (p q : ℕ) (xs : List Stage) (a b : Stage) (ys : List Stage)
    → p ≡ total f (xs ++ (a ∷ ys))
    → q + f a ≡ p + f b
    → q ≡ total f (xs ++ (b ∷ ys))
unfolding total
total_moved f p q xs a b ys h e =
    omega (arith, h, e, total-append f xs (a ∷ ys), total-append f xs (b ∷ ys))

total_moved_leaking :
    (f : Stage → ℕ) (p q k k' : ℕ) (xs : List Stage) (a b : Stage) (ys ss : List Stage)
    → ss ≡ xs ++ (a ∷ ys)
    → p ≡ total f ss + k
    → q + f a + k ≡ p + f b + k'
    → q ≡ total f (xs ++ (b ∷ ys)) + k'
unfolding total
total_moved_leaking f p q k k' xs a b ys ss split h e =
    omega (arith, h, e, ap (total f) split, total-append f xs (a ∷ ys), total-append f xs (b ∷ ys))

step-Bounded :
    {l : Limits} {s t : System} {c : Bool} → WorkerStep l s c t → Bounded l s → Bounded l t
step-Bounded {l} {s} (moves xs ys {a} {b} {c} {u} split m) i =
    let w = Move-Balanced m in
    record {
      image_slots =
          total_moved_leaking holds_image s.slots.image_slots u.image_slots s.slots.leaked u.leaked
            xs a b ys s.stages split i.image_slots w.image_slots;
      exif_slots =
          total_moved holds_exif s.slots.exif_slots u.exif_slots xs a b ys
            (i.exif_slots ∙ ap (total holds_exif) split) w.exif_slots;
      images_fit = w.images_fit i.images_fit;
      exifs_fit = w.exifs_fit i.exifs_fit;
    }

idle_workers-total : (f : Stage → ℕ) (n : ℕ) → f idle ≡ 0 → 0 ≡ total f (idle_workers n)
unfolding total idle_workers
idle_workers-total f zero h = refl
idle_workers-total f (suc n) h = omega (arith, h, idle_workers-total f n h)

-- In every interleaving of the jobs of any number of cameras, cancelled contexts included, each channel of
-- the limiter has an element for each worker that holds a slot, that for images also one for each job that
-- panicked while it processed an image, and no more than its capacity.
pub reach-Bounded : {l : Limits} {n : ℕ} {s : System} → Reach l n s → Bounded l s
reach-Bounded {l} {n} at_rest = record {
  image_slots = omega (arith, idle_workers-total holds_image n refl);
  exif_slots = idle_workers-total holds_exif n refl;
  images_fit = omega arith;
  exifs_fit = omega arith;
}
reach-Bounded (later r m) = step-Bounded m (reach-Bounded r)
