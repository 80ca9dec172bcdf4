-- ===== src/Memory/Frames/Laws.antt =====
-- What the operations on frames do to a well linked free list.
use fos_v.Base.{
  ◌-◌, inl, inr, ℕ, ◌+◌, ◌%◌, ◌^◌, ◌<◌, ◌≡◌, refl, ap, ◌∙◌, ◌≢◌, none, some, List, [], ◌∷◌, arith,
  ◌==◌, ◌∉◌, length, update, Bool-cases, ==_refl, ==_ne,
}
use mathlib.Core.List.{foldl}
use fos_v.Int.{success, e_no_mem}
use fos_v.Mmu.{u32_mod}
use fos_v.Queue.{Queue, remove}
use fos_v.Queue.Chain.{nil, cons, IsQueue, Chain-frame}
use fos_v.Queue.Remove.{remove-IsQueue}
use fos_v.Queue.Insert.{insert_head-IsQueue}
use fos_v.Queue.Foreach.{foreach-foldl}
use fos_v.Memory.{Memory, ok}
use fos_v.Memory.Frames.{
  initialize_frame_info, allocate_frame, free_frame, decrement_references, calculate_free_frames,
  set_references,
}

pub lh_first-nil : {q : Queue} {xs : List ℕ} → IsQueue q xs → xs ≡ [] → q.lh_first ≡ none
lh_first-nil (nil e) h = e
lh_first-nil (cons a b c d) h = cc

pub lh_first-cons : {q : Queue} {f : ℕ} {xs : List ℕ} → IsQueue q (f ∷ xs) → q.lh_first ≡ some f
lh_first-cons (cons e b c d) = e

pub not-mem-tail : {q : Queue} {f : ℕ} {xs : List ℕ} → IsQueue q (f ∷ xs) → f ∉ xs
not-mem-tail (cons e b c d) = c

-- With no frame on the list `allocate_frame` returns E_NO_MEM and changes nothing.
pub allocate_frame-nil :
    (s : Memory) → IsQueue s.free_frame_list [] → allocate_frame s ≡ ok (e_no_mem, none) s
unfolding allocate_frame
allocate_frame-nil s c = rw (lh_first-nil c refl)

-- The state after taking the frame `f` off the list, which leaves the links `q`.
abbrev pub taken : ℕ → Queue → Memory → Memory
taken f q s = record s { free_frame_list = q; references = update s.references f 0 }

allocate_removed :
    (s : Memory) (f : ℕ) (xs : List ℕ) (q : Queue)
    → s.free_frame_list.lh_first ≡ some f
    → f ∉ xs
    → remove f s.free_frame_list ≡ some q
    → IsQueue q xs
    → (r : Queue) × (allocate_frame s ≡ ok (success, some f) (taken f r s)) × IsQueue r xs
unfolding allocate_frame
allocate_removed s f xs q first out removed rest = (
  (initialize_frame_info f (record s { free_frame_list = q })).free_frame_list,
  ground arith,
  Chain-frame _ rest (λ x i. ground arith),
)

-- With a well linked free list that starts with `f`, `allocate_frame` succeeds and returns `f` with
-- its counter at 0, leaves a well linked list of the other frames, and changes nothing else.
pub allocate_frame-cons :
    (s : Memory) (f : ℕ) (xs : List ℕ)
    → IsQueue s.free_frame_list (f ∷ xs)
    → (q : Queue) × (allocate_frame s ≡ ok (success, some f) (taken f q s)) × IsQueue q xs
allocate_frame-cons s f xs c =
    let (q, removed, rest) = remove-IsQueue f s.free_frame_list (f ∷ xs) c (ground arith) in
    let rest' : IsQueue q xs = rw (==_refl f) at rest in
    allocate_removed s f xs q (lh_first-cons c) (not-mem-tail c) removed rest'

-- Freeing a frame that is not on the list puts it in front, where the next allocation finds it.
pub free_frame-IsQueue :
    (s : Memory) (f : ℕ) (xs : List ℕ)
    → IsQueue s.free_frame_list xs
    → f ∉ xs
    → IsQueue (free_frame f s).free_frame_list (f ∷ xs)
unfolding free_frame
free_frame-IsQueue s f xs c out = insert_head-IsQueue f s.free_frame_list xs c out

foldl-count :
    (xs : List ℕ) (n : ℕ)
    → n + length xs < 2 ^ 32
    → foldl (λ cnt (x : ℕ). (cnt + 1) % u32_mod) n xs ≡ n + length xs
foldl-count [] n h = omega arith
foldl-count (x ∷ xs) n h = ground (arith, foldl-count xs ((n + 1) % u32_mod))

-- `calculate_free_frames` returns the number of free frames, with more fuel than there are frames.
pub calculate_free_frames-length :
    (fuel : ℕ) (s : Memory) (xs : List ℕ)
    → IsQueue s.free_frame_list xs
    → length xs < fuel
    → length xs < 2 ^ 32
    → calculate_free_frames fuel s ≡ some (length xs)
unfolding calculate_free_frames
calculate_free_frames-length fuel s xs c enough small =
    foreach-foldl (λ _ cnt. (cnt + 1) % u32_mod) fuel s.free_frame_list xs 0 c enough
    ∙ ap some (foldl-count xs 0 (omega arith) ∙ omega arith)

module _ (f : ℕ) (s : Memory) where
  -- The last reference to a frame frees it.
  pub decrement_references-last :
      s.references f ≡ 1 → decrement_references f s ≡ free_frame f (set_references f 0 s)
  unfolding decrement_references free_frame
  decrement_references-last last = rw last

  -- A frame with other references only loses one.
  pub decrement_references-more :
      (left : ℕ)
      → s.references f ≡ left + 1
      → 0 < left
      → left < 2 ^ 16 - 1
      → decrement_references f s ≡ set_references f left s
  unfolding decrement_references free_frame
  decrement_references-more left count more small =
      let wrapped : (left + 1 + 2 ^ 16 - 1) % 2 ^ 16 ≡ left = omega arith in
      rw (count, wrapped, ==_ne left 0 (omega arith))

  -- Dropping a reference changes neither pages nor the counters of other frames.
  pub word-decrement_references : (decrement_references f s).word ≡ s.word
  unfolding decrement_references free_frame
  word-decrement_references = elim (Bool-cases ((s.references f + 2 ^ 16 - 1) % 2 ^ 16 == 0)) [
    | inl e ↦ rw e
    | inr e ↦ rw e
  ]

  pub number_of_frames-decrement_references :
      (decrement_references f s).number_of_frames ≡ s.number_of_frames
  unfolding decrement_references free_frame
  number_of_frames-decrement_references =
      elim (Bool-cases ((s.references f + 2 ^ 16 - 1) % 2 ^ 16 == 0)) [
        | inl e ↦ rw e
        | inr e ↦ rw e
      ]

  pub references-decrement_references_ne :
      (g : ℕ) → g ≢ f → (decrement_references f s).references g ≡ s.references g
  unfolding decrement_references free_frame
  references-decrement_references_ne g ne =
      elim (Bool-cases ((s.references f + 2 ^ 16 - 1) % 2 ^ 16 == 0)) [
        | inl e ↦ rw (e, ==_ne g f ne)
        | inr e ↦ rw (e, ==_ne g f ne)
      ]

  pub invalidated-decrement_references : (decrement_references f s).invalidated ≡ s.invalidated
  unfolding decrement_references free_frame
  invalidated-decrement_references =
      elim (Bool-cases ((s.references f + 2 ^ 16 - 1) % 2 ^ 16 == 0)) [
        | inl e ↦ rw e
        | inr e ↦ rw e
      ]
