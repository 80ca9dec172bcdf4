-- ===== src/Memory/Frames/Init.antt =====
-- `initialize_paging`.
use fos_v.Base.{
  ℕ, zero, suc, ◌+◌, ◌-◌, ◌/◌, ◌≤◌, ◌<◌, ◌≡◌, refl, sym, ap, ap₂, ◌∙◌, Bool, le→ltb_false, List, [],
  ◌∷◌, arith, ◌∉◌, has, if◌then◌else◌, ltb, leb, ◌&&◌, ◌||◌,
}
use fos_v.Mmu.{page_size, phys_io_mem, phys_extended_mem, roundup}
use fos_v.Queue
use fos_v.Queue.{Queue}
use fos_v.Queue.Chain.{IsQueue, nil}
use fos_v.Queue.Insert.{insert_head-IsQueue}
use fos_v.Memory.{Memory, Outcome, ok, Cmd, ◌>>=◌, k_physical_address}
use fos_v.Memory.Frames.{set_references, free_frame}

-- The loops over the frames from `i` on, `n` of them: set the counter to 0 and put the frame on the
-- list, or set the counter to 1.
mark_free : ℕ → ℕ → Memory → Memory
mark_free zero i s = s
mark_free (suc n) i s = mark_free n (i + 1) (free_frame i (set_references i 0 s))

mark_used : ℕ → ℕ → Memory → Memory
mark_used zero i s = s
mark_used (suc n) i s = mark_used n (i + 1) (set_references i 1 s)

-- The loops, for the first frame above base memory, the first of the IO hole, the first of extended
-- memory and the first behind the kernel.
mark_frames : ℕ → ℕ → ℕ → ℕ → Memory → Memory
unfolding mark_free mark_used
mark_frames base_end hole extended range_end s =
    let s1 = set_references 0 1 (record s { free_frame_list = Queue.init s.free_frame_list }) in
    let s2 = mark_free (base_end - 1) 1 s1 in
    let s3 = mark_used (extended - hole) hole s2 in
    let s4 = mark_used (range_end - extended) extended s3 in
    mark_free (s.number_of_frames - range_end) range_end s4

mark_paging : ℕ → Memory → Memory
unfolding mark_frames
mark_paging free s =
    let base_end = roundup phys_io_mem page_size / page_size in
    let range_end = roundup free page_size / page_size in
    mark_frames base_end (phys_io_mem / page_size) (phys_extended_mem / page_size) range_end s

pub initialize_paging : ℕ → Cmd (Unit {0})
unfolding mark_paging
initialize_paging ptr_free_mem s =
    (k_physical_address ptr_free_mem >>= λ free s. ok tt (mark_paging free s)) s

-- The frames that `mark_free` puts on the list, in front of `xs`.
climb : ℕ → ℕ → List ℕ → List ℕ
climb zero i xs = xs
climb (suc n) i xs = climb n (i + 1) (i ∷ xs)

has-climb :
    (n i : ℕ) (xs : List ℕ) (a : ℕ) → has a (climb n i xs) ≡ (has a xs || leb i a && ltb a (i + n))
unfolding climb
has-climb zero i xs a = ground arith
has-climb (suc n) i xs a = ground (arith, has-climb n (i + 1) (i ∷ xs) a)

mark_free-references :
    (n i : ℕ) (s : Memory) (a : ℕ)
    → (mark_free n i s).references a ≡ (if leb i a && ltb a (i + n) then 0 else s.references a)
unfolding mark_free free_frame
mark_free-references zero i s a = ground arith
mark_free-references (suc n) i s a =
    ground (arith, mark_free-references n (i + 1) (free_frame i (set_references i 0 s)) a)

mark_free-frames : (n i : ℕ) (s : Memory) → (mark_free n i s).number_of_frames ≡ s.number_of_frames
unfolding mark_free free_frame
mark_free-frames zero i s = refl
mark_free-frames (suc n) i s = mark_free-frames n (i + 1) (free_frame i (set_references i 0 s))

mark_free-word : (n i : ℕ) (s : Memory) → (mark_free n i s).word ≡ s.word
unfolding mark_free free_frame
mark_free-word zero i s = refl
mark_free-word (suc n) i s = mark_free-word n (i + 1) (free_frame i (set_references i 0 s))

mark_used-word : (n i : ℕ) (s : Memory) → (mark_used n i s).word ≡ s.word
unfolding mark_used
mark_used-word zero i s = refl
mark_used-word (suc n) i s = mark_used-word n (i + 1) (set_references i 1 s)

mark_free-IsQueue :
    (n i : ℕ) (s : Memory) (xs : List ℕ)
    → IsQueue s.free_frame_list xs
    → ((a : ℕ) → i ≤ a → a ∉ xs)
    → IsQueue (mark_free n i s).free_frame_list (climb n i xs)
unfolding mark_free climb free_frame
mark_free-IsQueue zero i s xs q new = q
mark_free-IsQueue (suc n) i s xs q new =
    mark_free-IsQueue n (i + 1) (free_frame i (set_references i 0 s)) (i ∷ xs)
      (insert_head-IsQueue i s.free_frame_list xs q (new i (omega arith)))
      (λ a h. ground (arith, new a))

mark_used-references :
    (n i : ℕ) (s : Memory) (a : ℕ)
    → (mark_used n i s).references a ≡ (if leb i a && ltb a (i + n) then 1 else s.references a)
unfolding mark_used
mark_used-references zero i s a = ground arith
mark_used-references (suc n) i s a =
    ground (arith, mark_used-references n (i + 1) (set_references i 1 s) a)

mark_used-list : (n i : ℕ) (s : Memory) → (mark_used n i s).free_frame_list ≡ s.free_frame_list
unfolding mark_used
mark_used-list zero i s = refl
mark_used-list (suc n) i s = mark_used-list n (i + 1) (set_references i 1 s)

mark_used-frames : (n i : ℕ) (s : Memory) → (mark_used n i s).number_of_frames ≡ s.number_of_frames
unfolding mark_used
mark_used-frames zero i s = refl
mark_used-frames (suc n) i s = mark_used-frames n (i + 1) (set_references i 1 s)

-- The frames of base memory but the first, and those behind the kernel.
abbrev usable : ℕ → ℕ → ℕ → ℕ → Bool
usable base_end range_end frames a =
    (leb 1 a && ltb a base_end) || (leb range_end a && ltb a frames)

record Marked (base_end range_end : ℕ) (s s' : Memory) : Type 0 where
  list :
      (xs : List ℕ) × IsQueue s'.free_frame_list xs
      × ((a : ℕ) → has a xs ≡ usable base_end range_end s.number_of_frames a)
  counters :
      (a : ℕ)
      → s'.references a ≡ (
          if usable base_end range_end s.number_of_frames a
          then 0
          else if ltb a range_end
          then 1
          else s.references a)

mark_frames_lem :
    (base_end extended range_end : ℕ) (s : Memory)
    → 0 < base_end
    → base_end ≤ extended
    → extended ≤ range_end
    → range_end ≤ s.number_of_frames
    → Marked base_end range_end s (mark_frames base_end base_end extended range_end s)
unfolding mark_frames Queue.init
mark_frames_lem base_end extended range_end s h1 h2 h3 h4 =
    let s1 = set_references 0 1 (record s { free_frame_list = Queue.init s.free_frame_list }) in
    let s2 = mark_free (base_end - 1) 1 s1 in
    let s3 = mark_used (extended - base_end) base_end s2 in
    let s4 = mark_used (range_end - extended) extended s3 in
    let rest = s.number_of_frames - range_end in
    let low = climb (base_end - 1) 1 [] in
    let q2 = mark_free-IsQueue (base_end - 1) 1 s1 [] (nil refl) (λ a h. refl) in
    let same : s4.free_frame_list ≡ s2.free_frame_list =
      mark_used-list (range_end - extended) extended s3
      ∙ mark_used-list (extended - base_end) base_end s2 in
    let q4 : IsQueue s4.free_frame_list low = rw same q2 in
    record {
      list = (
        climb rest range_end low,
        mark_free-IsQueue rest range_end s4 low q4
            (λ a h. ground (arith, has-climb (base_end - 1) 1 [] a)),
        λ a. ground (arith, has-climb rest range_end low a, has-climb (base_end - 1) 1 [] a),
      );
      counters = λ a. ground (
        arith,
        mark_free-references rest range_end s4 a,
        mark_used-references (range_end - extended) extended s3 a,
        mark_used-references (extended - base_end) base_end s2 a,
        mark_free-references (base_end - 1) 1 s1 a,
      );
    }

base_end-160 : roundup phys_io_mem page_size / page_size ≡ 160
unfolding roundup
base_end-160 = refl

mark_paging-Marked :
    (free next : ℕ) (s : Memory)
    → next ≡ roundup free page_size / page_size
    → 256 ≤ next
    → next ≤ s.number_of_frames
    → Marked 160 next s (mark_paging free s)
unfolding mark_paging
mark_paging-Marked free next s e low high =
    let same = ap₂ (λ x y. mark_frames x 160 256 y s) base_end-160 (sym e) in
    rw same (mark_frames_lem 160 256 next s (omega arith) (omega arith) low high)

run-initialize_paging :
    (p : ℕ) (s : Memory)
    → 0xF0000000 ≤ p
    → initialize_paging p s ≡ ok tt (mark_paging (p - 0xF0000000) s)
unfolding initialize_paging k_physical_address
run-initialize_paging p s kernel = rw (le→ltb_false p 0xF0000000 kernel) refl

-- What `initialize_paging` leaves: `next` is the first frame behind the kernel.
abbrev pub Ready : ℕ → Memory → Memory → Type 0
Ready next s s' =
    (xs : List ℕ) × IsQueue s'.free_frame_list xs
    × ((a : ℕ) → has a xs ≡ ((leb 1 a && ltb a 160) || (leb next a && ltb a s.number_of_frames)))
    × ((a : ℕ) → a < s.number_of_frames → s'.references a ≡ (if has a xs then 0 else 1))

-- `initialize_paging`, called once `ptr_free_mem` is in extended memory and below the end of
-- physical memory, ends; then the free list is well formed and holds exactly the frames 1 to 159
-- and those from the first behind the kernel on, and the counter of a frame is 0 if it is on the
-- list and 1 if it is not.
pub initialize_paging_lem :
    (ptr_free_mem next : ℕ) (s : Memory)
    → 0xF0000000 ≤ ptr_free_mem
    → next ≡ roundup (ptr_free_mem - 0xF0000000) 4096 / 4096
    → 256 ≤ next
    → next ≤ s.number_of_frames
    → (s' : Memory) × (initialize_paging ptr_free_mem s ≡ ok tt s') × Ready next s s'
initialize_paging_lem p next s kernel e low high =
    let marked = mark_paging-Marked (p - 0xF0000000) next s e low high in
    (
      mark_paging (p - 0xF0000000) s,
      run-initialize_paging p s kernel,
      (
        marked.list.0,
        marked.list.1,
        marked.list.2,
        λ a h. ground (arith, marked.counters a, marked.list.2 a),
      ),
    )

mark_frames-word :
    (base_end hole extended range_end : ℕ) (s : Memory)
    → (mark_frames base_end hole extended range_end s).word ≡ s.word
unfolding mark_frames
mark_frames-word base_end hole extended range_end s =
    mark_free-word (s.number_of_frames - range_end) range_end _
    ∙ mark_used-word (range_end - extended) extended _
    ∙ mark_used-word (extended - hole) hole _
    ∙ mark_free-word (base_end - 1) 1 _

mark_paging-word : (free : ℕ) (s : Memory) → (mark_paging free s).word ≡ s.word
unfolding mark_paging
mark_paging-word free s =
    mark_frames-word (roundup phys_io_mem page_size / page_size) (phys_io_mem / page_size)
      (phys_extended_mem / page_size) (roundup free page_size / page_size) s

-- `initialize_paging` leaves the contents of the physical pages alone.
pub initialize_paging-word :
    (ptr_free_mem : ℕ) (s : Memory) {s' : Memory}
    → 0xF0000000 ≤ ptr_free_mem
    → initialize_paging ptr_free_mem s ≡ ok tt s'
    → s'.word ≡ s.word
initialize_paging-word p s {s'} kernel run =
    let same : ◌≡◌ {A = Outcome (Unit {0})} (ok tt s') (ok tt (mark_paging (p - 0xF0000000) s)) =
      sym run ∙ run-initialize_paging p s kernel in
    let state : s' ≡ mark_paging (p - 0xF0000000) s = cc in
    ap (λ t. t.word) state ∙ mark_paging-word (p - 0xF0000000) s
