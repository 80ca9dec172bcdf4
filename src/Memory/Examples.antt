-- ===== src/Memory/Examples.antt =====
-- States of a small machine: 16 frames, the page directory in frame 1, and the frames 2 and 3 free.
use fos_v.Base.{ℕ, ◌≡◌, refl, none, [], ◌∷◌, arith, ◌==◌, if◌then◌else◌}
use fos_v.Base.Sums.{sum_below-zero}
use fos_v.Queue.{Queue, PrevLink, insert_head}
use fos_v.Queue.Chain.{IsQueue, nil}
use fos_v.Queue.Insert.{insert_head-IsQueue}
use fos_v.Memory.{Memory}
use fos_v.Memory.Space.{mapped, IsSpace}
use fos_v.Memory.Space.Tables.{mapped_by-zero}

abbrev pub no_links : Queue
no_links = record { lh_first = none; le_next = λ _. none; le_prev = λ _. PrevLink.null }

abbrev pub two_free : Queue
two_free = insert_head 2 (insert_head 3 no_links)

pub two_free-IsQueue : IsQueue two_free (2 ∷ 3 ∷ [])
two_free-IsQueue =
    insert_head-IsQueue 2 (insert_head 3 no_links) (3 ∷ [])
      (insert_head-IsQueue 3 no_links [] (nil refl) refl) refl

abbrev pub dir_only : ℕ → ℕ
dir_only f = if f == 1 then 1 else 0

abbrev pub start : Memory
start = record {
  number_of_frames = 16;
  free_frame_list = two_free;
  references = dir_only;
  word = λ _ _. 0;
  invalidated = [];
}

mapped-start : (f : ℕ) → mapped (λ _ _. 0) 1 f ≡ 0
unfolding mapped
mapped-start f = sum_below-zero _ _ (λ i p. mapped_by-zero (λ _ _. 0) f)

pub start-IsSpace : IsSpace start 1 (2 ∷ 3 ∷ []) dir_only
start-IsSpace = record {
  small = omega arith;
  queue = two_free-IsQueue;
  free_in = λ f m. ground arith;
  free_unused = λ f m. ground arith;
  counter = λ f. ground arith;
  counted = λ f. ground (arith, mapped-start f);
  dir_in = omega arith;
  dir_held = omega arith;
  dir_entry = λ i p n. absurd (n refl);
  table_held = λ i p n. absurd (n refl);
  table-ne-dir = λ i p n. absurd (n refl);
  tables_apart = λ i j p r ne n. absurd (n refl);
  table_entry = λ i k p r n. absurd (n refl);
}
