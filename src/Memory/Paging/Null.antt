-- ===== src/Memory/Paging/Null.antt =====
-- `map_frame` of a null pointer, on a well-formed state.
use fos_v.Base.{
  ℕ, ◌*◌, ◌<◌, ◌≡◌, refl, ◌≢◌, Bool, Bool-cases, true, false, not, ◌&&◌, List, [], arith, ◌==◌,
  if◌then◌else◌, inl, inr, ==→eq, ==_false→ne,
}
use fos_v.Int.{success, e_no_mem}
use fos_v.Mmu.{user_top, pdx, ptx}
use fos_v.Mmu.Fields.{extract_address_lem, and_present}
use fos_v.Memory.{Memory, ok, fault}
use fos_v.Memory.Paging.{map_null, map_null_in_table}
use fos_v.Memory.Paging.Table.{
  read_word-kva, pdx-user, ptx-lt, get_page_table-found, get_page_table-no_mem,
}
use fos_v.Memory.Paging.Unmap.{unmap_frame-mapped}
use fos_v.Memory.Space.{kva, page_of, IsSpace}

-- The page is mapped to the physical address `null_address`.
unfoldable pub maps_address : ℕ → Memory → ℕ → ℕ → Bool
maps_address null_address s d va =
    let pde = s.word d (pdx va) in
    let pte = s.word (page_of pde) (ptx va) in
    not (pde == 0) && (not (pte == 0) && (page_of pte * 4096 == null_address))

module _ {s : Memory} {d : ℕ} {held : ℕ → ℕ} (null_address va : ℕ) where
  map_null_in_table_lem :
      {xs : List ℕ}
      → IsSpace s d xs held
      → va < user_top
      → s.word d (pdx va) ≢ 0
      → map_null_in_table null_address (kva d) (kva (page_of (s.word d (pdx va)))) va s
        ≡ (if maps_address null_address s d va then ok success s else fault)
  unfolding map_null_in_table maps_address
  map_null_in_table_lem w user full =
      let pde = s.word d (pdx va) in
      let pte = s.word (page_of pde) (ptx va) in
      let full' : (pde == 0) ≡ false = ground (arith, full) in
      elim (Bool-cases (pte == 0)) [
        | inl empty ↦
            rw (read_word-kva (page_of pde) (ptx va) s, and_present pte, ==→eq pte 0 empty, full')
              refl
        | inr some_pte ↦
            let there : pte ≢ 0 = ==_false→ne pte 0 some_pte in
            let (present, _, word) =
              w.table_entry (pdx va) (ptx va) (pdx-user va user) (ptx-lt va) full there in
            elim (Bool-cases (page_of pte * 4096 == null_address)) [
              | inl same ↦
                  rw
                    (
                      read_word-kva (page_of pde) (ptx va) s,
                      and_present pte,
                      present,
                      extract_address_lem pte word,
                      full',
                      some_pte,
                      same,
                    )
                    refl
              | inr other ↦
                  rw
                    (
                      read_word-kva (page_of pde) (ptx va) s,
                      and_present pte,
                      present,
                      extract_address_lem pte word,
                      full',
                      some_pte,
                      other,
                      unmap_frame-mapped w va user full there,
                    )
                    refl
            ]
      ]

  -- Without a free frame
  pub map_null_lem :
      IsSpace s d [] held
      → va < user_top
      → map_null null_address (kva d) va s ≡ (
          if s.word d (pdx va) == 0
          then ok e_no_mem s
          else if maps_address null_address s d va
          then ok success s
          else fault)
  unfolding map_null
  map_null_lem w user = elim (Bool-cases (s.word d (pdx va) == 0)) [
    | inl absent ↦ rw (absent, get_page_table-no_mem w va user (==→eq _ 0 absent) w.queue) refl
    | inr there ↦
        let full = ==_false→ne _ 0 there in
        rw (there, get_page_table-found w va user true full) (map_null_in_table_lem w user full)
  ]
