-- ===== src/Debug/Info.antt =====
-- `debuginfo_eip` of kern/kdebug.c.
-- The two sets of tables are parameters: the kernel's, which the linker makes, and the user's, which
-- a structure at USTABDATA points to. Indices of stabs are kept as the index behind, as in Debug.
pub mod Names
use fos_v.Base.{
  ℕ, zero, suc, ◌+◌, ◌-◌, ◌*◌, ◌/◌, ◌%◌, ◌^◌, Bool, true, false, not, ◌&&◌, ◌||◌, Option, none,
  some, if◌then◌else◌, ◌==◌, ltb, leb,
}
use fos_v.Int.{ℤ, pos, negsuc}
use fos_v.Mmu.{user_limit}
use fos_v.String.{Bytes, strfind}
use fos_v.Debug.{Stab, stab_binsearch}

abbrev pub n_fun : ℕ
n_fun = 0x24

abbrev pub n_so : ℕ
n_so = 0x64

abbrev pub n_sol : ℕ
n_sol = 0x84

-- `count` is `stab_end - stabs`.
pub record UserStabData : Type 0 where
  pub stabs : ℕ → Stab
  pub count : ℕ
  pub stabstr : ℕ
  pub stabstr_end : ℕ

-- The literal "<unknown>", or an address in the string table
pub data Name : Type 0 where
  unknown : Name
  at : ℕ → Name

pub record Eipdebuginfo : Type 0 where
  pub eip_file : Name
  pub eip_line : ℕ
  pub eip_fn_name : Name
  pub eip_fn_namelen : ℕ
  pub eip_fn_addr : ℕ
  pub eip_fn_narg : ℕ

-- It returns, the fuel runs out, or the search for the file ends in front of the table: from the
-- index -1 on, the code reads what stands before it.
pub data Lookup : Type 0 where
  returned : ℤ → Eipdebuginfo → Lookup
  before_table : Lookup
  no_fuel : Lookup

-- Whether the last loop stops at a stab.
unfoldable pub names_file : Stab → Bool
names_file s = s.n_type == n_sol || s.n_type == n_so && not (s.n_value == 0)

-- The last loop, over the `n` stabs from `l` on, the last one first
pub file_stab : (ℕ → Stab) → ℕ → ℕ → Option Stab
unfolding names_file
file_stab stabs l zero = none
file_stab stabs l (suc n) = elim (names_file (stabs (l + n))) [
  | true ↦ some (stabs (l + n))
  | false ↦ file_stab stabs l n
]

module _ (fuel : ℕ) (m : Bytes) (t : UserStabData) where
  -- stabstr + n_strx if that is in the table
  unfoldable pub name_of : Stab → Name → Name
  name_of s old =
      if ltb s.n_strx (t.stabstr_end - t.stabstr) then Name.at (t.stabstr + s.n_strx) else old

  -- strfind(name, ':') - name
  name_length : Name → Option ℕ
  name_length Name.unknown = some 9
  name_length (Name.at p) = elim (strfind fuel m p b':') [ none ↦ none | some e ↦ some (e - p) ]

  -- The part behind the search for the function: `lline` is the index behind.
  finish_info : ℕ → ℕ → Eipdebuginfo → Lookup
  unfolding name_length name_of file_stab
  finish_info lfile lline info = elim (name_length info.eip_fn_name) [
    | none ↦ Lookup.no_fuel
    | some n ↦
        let named = record info { eip_fn_namelen = n } in
        elim (file_stab t.stabs (lfile - 1) (lline + 1 - lfile)) [
          | none ↦ Lookup.returned (pos 0) named
          | some s ↦ Lookup.returned (pos 0) (record named { eip_file = name_of s named.eip_file })
        ]
  ]

  -- The part behind the search for the file.
  find_function : ℕ → ℕ → ℕ → Eipdebuginfo → Lookup
  unfolding finish_info
  find_function addr lfile rfile info =
      elim (stab_binsearch t.stabs n_fun fuel (lfile - 1) rfile addr) [
        | none ↦ Lookup.no_fuel
        | some (lfun, rfun) ↦
            if leb lfun rfun
            then (let s = t.stabs (lfun - 1) in
                finish_info lfile lfun (record info {
                  eip_fn_name = name_of s info.eip_fn_name;
                  eip_fn_addr = s.n_value;
                }))
            else finish_info lfile lfile (record info { eip_fn_addr = addr })
      ]

  -- The search for the file.
  find_file : ℕ → Eipdebuginfo → Lookup
  unfolding find_function
  find_file addr info = elim (stab_binsearch t.stabs n_so fuel 0 t.count addr) [
    | none ↦ Lookup.no_fuel
    | some (lfile, rfile) ↦
        if lfile == 1
        then Lookup.returned (negsuc 0) info
        else if lfile == 0
        then Lookup.before_table
        else find_function addr lfile rfile info
  ]

  -- What stands behind the choice of the tables.
  search_tables : ℕ → Eipdebuginfo → Lookup
  unfolding find_file
  search_tables addr info =
      if leb t.stabstr_end t.stabstr || not (m (t.stabstr_end - 1) == 0)
      then Lookup.returned (negsuc 0) info
      else find_file addr info

abbrev pub no_info : ℕ → Eipdebuginfo
no_info addr = record {
  eip_file = Name.unknown;
  eip_line = 0;
  eip_fn_name = Name.unknown;
  eip_fn_namelen = 9;
  eip_fn_addr = addr;
  eip_fn_narg = 0;
}

unfoldable pub debuginfo_eip : ℕ → Bytes → UserStabData → UserStabData → ℕ → Lookup
unfolding search_tables
debuginfo_eip fuel m kernel user addr =
    let t = if leb user_limit addr then kernel else user in
    search_tables fuel m t addr (no_info addr)
