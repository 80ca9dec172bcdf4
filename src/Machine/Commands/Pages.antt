-- ===== src/Machine/Commands/Pages.antt =====
-- The commands "ap" and "fp", from the digits that are typed to the page tables.
use fos_v.Base.{
  ℕ, ◌^◌, ◌<◌, ◌≡◌, ◌≢◌, ◌⊎◌, refl, ◌∙◌, ap, some, Option, List, [], ◌∷◌, arith, ◌==◌, length,
  Bool-cases, inl, inr, ==_ne, bit_or, if◌then◌else◌, ◌||◌,
}
use fos_v.Int.{ℤ, success}
use fos_v.Mmu.{user_top, perm_user, perm_writeable, pdx, ptx}
use fos_v.Queue.{Queue}
use fos_v.Queue.Chain.{IsQueue}
use fos_v.Memory.{Memory, Outcome}
use fos_v.Memory.Frames.{allocate_frame}
use fos_v.Memory.Frames.Laws.{taken, allocate_frame-nil, allocate_frame-cons, not-mem-tail}
use fos_v.Memory.Paging.{map_frame, unmap_frame}
use fos_v.Memory.Paging.Null.{maps_address, map_null_lem}
use fos_v.Memory.Paging.Table.{pdx-user, ptx-lt}
use fos_v.Memory.Paging.Enter.{new_entry, Mapped}
use fos_v.Memory.Paging.Map.{held_after, map_frame_lem}
use fos_v.Memory.Paging.Unmap.{Unmapped, unmap_frame_lem}
use fos_v.Memory.Space.{kva, IsSpace}
use fos_v.Syscall.Allocate.{unmapped}
use fos_v.Env
use fos_v.Env.{Kernel}
use fos_v.Format.Number.{Shows}
use fos_v.String.Cstr.{CStr}
use fos_v.String.Parse.{Arguments}
use fos_v.String.Parse.Value.{strtol-Shows}
use fos_v.Machine.{Machine, Reply, ok, Act, and_then, on_memory, pure, returned}
use fos_v.Machine.Commands.{
  command_ap, command_fp, run_command, allocate, free_page, address_argument, parsed, map_stored,
}

-- The first argument is the address `va` in hexadecimal, as `printnum` prints it.
pub record Types (a : Arguments) (va fuel : ℕ) : Type 0 where
  pub digits : List ℕ
  pub shown : Shows va 16 0 32 digits
  pub stored : CStr a.memory (a.argv 1) digits
  pub given : a.argv 1 ≢ 0
  pub word : va < 2 ^ 32
  pub enough : length digits < fuel

-- The machine with another memory.
abbrev pub with_memory : Memory → Machine → Machine
with_memory t m = record m { kernel = record (m.kernel) { memory = t } }

-- A frame that is taken off the free list, with its contents as they were.
taken-IsSpace :
    (s : Memory) (d f : ℕ) (xs : List ℕ) (held : ℕ → ℕ) (q : Queue)
    → IsSpace s d (f ∷ xs) held
    → IsQueue q xs
    → IsSpace (taken f q s) d xs held
taken-IsSpace s d f xs held q w rest =
    let unused = w.free_unused f (ground arith) in
    record {
      small = w.small;
      queue = rest;
      free_in = λ g m. w.free_in g (ground arith);
      free_unused = λ g m. ground (arith, w.free_unused g);
      counter = λ g. ground (arith, w.counter g);
      counted = λ g. ground (arith, w.counted g, unused);
      dir_in = w.dir_in;
      dir_held = w.dir_held;
      dir_entry = w.dir_entry;
      table_held = w.table_held;
      table-ne-dir = w.table-ne-dir;
      tables_apart = w.tables_apart;
      table_entry = w.table_entry;
    }

-- The permissions that "ap" gives.
abbrev pub ap_permissions : ℕ
ap_permissions = bit_or perm_user perm_writeable

-- `allocate_frame` and the call of `map_frame` for its frame.
map_taken :
    (s : Memory) (d f va : ℕ) (xs : List ℕ) (held : ℕ → ℕ)
    → IsSpace s d (f ∷ xs) held
    → va < user_top
    → (s.word d (pdx va) ≢ 0) ⊎ (xs ≢ [])
    → (q : Queue) × (t : Memory) × (allocate_frame s ≡ Outcome.ok (success, some f) (taken f q s))
      × (map_frame (kva d) f va ap_permissions (taken f q s) ≡ Outcome.ok success t)
      × Mapped s d
          (pdx va)
          (ptx va)
          (new_entry f ap_permissions)
          (held_after (s.word d (pdx va)) xs held)
          t
map_taken s d f va xs held w user room =
    let (q, run, rest) = allocate_frame-cons s f xs w.queue in
    let w' = taken-IsSpace s d f xs held q w rest in
    let inside = w.free_in f (ground arith) in
    elim (map_frame_lem (taken f q s) d xs held va f ap_permissions w' user inside
      (not-mem-tail w.queue) (ground arith) (omega arith)) [
        | inl (absent, none_left, _) ↦
            absurd (elim room [ inl there ↦ there absent | inr more ↦ more none_left ])
        | inr (t, mapped_run, m) ↦
            let fresh = unmapped q w rest (pdx va) (ptx va) (pdx-user va user) (ptx-lt va) in
            let entry_new : Mapped (taken f q s) d (pdx va) (ptx va) (new_entry f ap_permissions)
                (held_after (s.word d (pdx va)) xs held) t =
              rw fresh at m in
            (
              q,
              t,
              run,
              mapped_run,
              record {
                free = entry_new.free;
                space = entry_new.space;
                entries = entry_new.entries;
              },
            )
      ]

-- What "ap" does behind `strtol`, and behind `allocate_frame`.
abbrev mapped_at : ℕ → ℕ → ℤ × Option ℕ → Act ℤ
mapped_at dir va stored m =
    and_then (on_memory (map_stored m.null_address dir va stored) m) (λ _. pure success)

abbrev stored_at : ℕ → ℕ → Act ℤ
stored_at dir va m = and_then (on_memory allocate_frame m) (mapped_at dir va)

module _ (read_byte : ℕ → Machine → Option ℕ) (write_byte : ℕ → ℕ → Machine → Option Machine)
    (ptr_page_directory fuel : ℕ) where
  address_argument-Types :
      (a : Arguments) (va : ℕ) (m : Machine)
      → Types a va fuel
      → address_argument read_byte write_byte ptr_page_directory fuel a m ≡ ok va m
  unfolding address_argument parsed
  address_argument-Types a va m t =
      let value =
        strtol-Shows fuel a.memory (a.argv 1) 16 va t.digits (omega arith) (omega arith) t.word
          t.shown t.stored t.enough in
      let given = ==_ne (a.argv 1) 0 t.given in rw (address_argument, given, value) refl

module _ (read_byte : ℕ → Machine → Option ℕ) (write_byte : ℕ → ℕ → Machine → Option Machine)
    (d fuel : ℕ) where
  -- "fp" with a user address in hexadecimal returns 0 and unmaps the page in the page directory of
  -- the kernel, if it is well formed with `d` as its page: the entry of the page is empty then, those
  -- of the other user pages are as they were, and the frame is free if no reference is left.
  pub command_fp-Unmapped :
      (a : Arguments) (va : ℕ) (m : Machine) (xs : List ℕ) (held : ℕ → ℕ)
      → Types a va fuel
      → IsSpace m.kernel.memory d xs held
      → va < user_top
      → (t : Memory) × (run_command read_byte write_byte (kva d) fuel command_fp a m
          ≡ ok success (with_memory t m))
        × Unmapped m.kernel.memory d xs held va t
  unfolding run_command free_page
  command_fp-Unmapped a va m xs held typed w user =
      let (t, u) = unmap_frame_lem m.kernel.memory d xs held va w user in
      (
        t,
        ap
              (λ r.
                and_then r
                  (λ p. λ m'. and_then (on_memory (unmap_frame (kva d) p) m') (λ _. pure success)))
              (address_argument-Types read_byte write_byte (kva d) fuel a va m typed)
            ∙ ap (λ o. and_then (returned m (Env.returned m.kernel o)) (λ _. pure success)) u.run,
        u,
      )

  -- "ap" with a user address in hexadecimal returns 0 and maps the first free frame at the page, for
  -- the user and writeable, in the well-formed page directory of the kernel, if there is a page
  -- table or one more free frame for it; a frame that the page had before is replaced. The entries of
  -- the other user pages stay.
  pub command_ap-Mapped :
      (a : Arguments) (va f : ℕ) (m : Machine) (xs : List ℕ) (held : ℕ → ℕ)
      → Types a va fuel
      → IsSpace m.kernel.memory d (f ∷ xs) held
      → va < user_top
      → (m.kernel.memory.word d (pdx va) ≢ 0) ⊎ (xs ≢ [])
      → (t : Memory) × (run_command read_byte write_byte (kva d) fuel command_ap a m
          ≡ ok success (with_memory t m))
        × Mapped m.kernel.memory d
            (pdx va)
            (ptx va)
            (new_entry f ap_permissions)
            (held_after (m.kernel.memory.word d (pdx va)) xs held)
            t
  unfolding run_command allocate map_stored
  command_ap-Mapped a va f m xs held typed w user room =
      let s = m.kernel.memory in
      let (q, t, run, mapped_run, result) = map_taken s d f va xs held w user room in
      (
        t,
        ap (λ r. and_then r (stored_at (kva d)))
              (address_argument-Types read_byte write_byte (kva d) fuel a va m typed)
            ∙ ap (λ o. and_then (returned m (fos_v.Env.returned m.kernel o)) (mapped_at (kva d) va))
                run
            ∙ ap
                (λ o.
                  and_then
                    (returned (with_memory (taken f q s) m)
                      (fos_v.Env.returned (record (m.kernel) { memory = taken f q s }) o))
                    (λ _. pure success))
                mapped_run,
        result,
      )

  -- Without a free frame "ap" goes on with a null pointer: it returns 0 and changes nothing if the
  -- page table is missing, or if the page is mapped to the very address that to_physical_address gives
  -- for the null pointer; otherwise it goes through the pointer.
  pub command_ap-none_free :
      (a : Arguments) (va : ℕ) (m : Machine) (held : ℕ → ℕ)
      → Types a va fuel
      → IsSpace m.kernel.memory d [] held
      → va < user_top
      → run_command read_byte write_byte (kva d) fuel command_ap a m ≡ (
          if m.kernel.memory.word d (pdx va) == 0
            || maps_address m.null_address m.kernel.memory d va
          then ok success m
          else Reply.fault)
  unfolding run_command allocate map_stored
  command_ap-none_free a va m held typed w user =
      let s = m.kernel.memory in
      ap (λ r. and_then r (stored_at (kva d)))
        (address_argument-Types read_byte write_byte (kva d) fuel a va m typed)
      ∙ ap (λ o. and_then (returned m (fos_v.Env.returned m.kernel o)) (mapped_at (kva d) va))
          (allocate_frame-nil s w.queue)
      ∙ ap (λ o. and_then (returned m (fos_v.Env.returned m.kernel o)) (λ _. pure success))
          (map_null_lem m.null_address va w user)
      ∙ elim (Bool-cases (s.word d (pdx va) == 0)) [
        | inl absent ↦ rw absent refl
        | inr there ↦ elim (Bool-cases (maps_address m.null_address s d va)) [
          | inl same ↦ rw (there, same) refl
          | inr other ↦ rw (there, other) refl
        ]
      ]
