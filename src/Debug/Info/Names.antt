-- ===== src/Debug/Info/Names.antt =====
-- What `debuginfo_eip` stores.
use fos_v.Base.{
  ℕ, ◌+◌, ◌-◌, ◌*◌, ◌^◌, ◌≤◌, ◌<◌, ◌≡◌, refl, not, ◌||◌, some, inl, inr, Bool-cases, Option-cases,
  if◌then◌else◌, ◌==◌, ltb, leb, arith,
}
use fos_v.Int.{pos, negsuc}
use fos_v.Mmu.{user_limit}
use fos_v.String.{Bytes}
use fos_v.String.Find.{strfind-ends}
use fos_v.Debug.{Stab}
use fos_v.Debug.Search.{stab_binsearch-Bounded, stab_binsearch-ordered}
use fos_v.Debug.Info.{
  UserStabData, Name, Eipdebuginfo, Lookup, name_of, name_length, file_stab, finish_info,
  find_function, find_file, search_tables, no_info, debuginfo_eip, n_so, n_fun,
}

module _ (t : UserStabData) where
  -- An address in the string table
  abbrev pub InTable : Name → Type 0
  InTable Name.unknown = Unit {0}
  InTable (Name.at p) = (t.stabstr ≤ p) × (p < t.stabstr_end)

  -- A text of `n` bytes that ends before the table's last byte
  abbrev pub Fits : Name → ℕ → Type 0
  Fits Name.unknown n = n ≡ 9
  Fits (Name.at p) n = (t.stabstr ≤ p) × (p + n < t.stabstr_end)

  -- How the call for `addr` may end
  pub data Ends (addr : ℕ) : Lookup → Type 0 where
    known :
        (info : Eipdebuginfo)
        → InTable info.eip_file
        → Fits info.eip_fn_name info.eip_fn_namelen
        → info.eip_line ≡ 0
        → info.eip_fn_narg ≡ 0
        → Ends addr (Lookup.returned (pos 0) info)
    refused : Ends addr (Lookup.returned (negsuc 0) (no_info addr))
    before : Ends addr Lookup.before_table

module _ (fuel : ℕ) (m : Bytes) (t : UserStabData) (valid : t.stabstr < t.stabstr_end)
    (last : m (t.stabstr_end - 1) ≡ 0) (enough : t.stabstr_end ≤ t.stabstr + fuel)
    (table : 2 * t.count + 1 < fuel) where
  name_of-InTable : (s : Stab) (old : Name) → InTable t old → InTable t (name_of fuel m t s old)
  unfolding name_of
  name_of-InTable s old inside = elim (Bool-cases (ltb s.n_strx (t.stabstr_end - t.stabstr))) [
    | inl short ↦ rw (name_of, short) (omega arith, ground arith)
    | inr long ↦ rw (name_of, long) inside
  ]

  name_length-Fits :
      (name : Name)
      → InTable t name
      → (n : ℕ) × (name_length fuel m t name ≡ some n) × Fits t name n
  unfolding name_length
  name_length-Fits Name.unknown inside = (9, refl, refl)
  name_length-Fits (Name.at p) inside =
      let (q, run, low, high) =
        strfind-ends fuel m p b':' t.stabstr_end inside.1 last (omega (arith, inside.0)) in
      (q - p, rw (name_length, run) refl, (inside.0, omega arith))

  -- So far the file and the line are not known, and the name is in the table.
  Started : Eipdebuginfo → Type 0
  Started info =
      (info.eip_file ≡ Name.unknown)
      × InTable t info.eip_fn_name
      × (info.eip_line ≡ 0)
      × (info.eip_fn_narg ≡ 0)

  finish_info-Ends :
      (addr lfile lline : ℕ) (info : Eipdebuginfo)
      → Started info
      → Ends t addr (finish_info fuel m t lfile lline info)
  unfolding finish_info Started
  finish_info-Ends addr lfile lline info (file, name, line, narg) =
      let (n, run, fits) = name_length-Fits info.eip_fn_name name in
      let named = record info { eip_fn_namelen = n } in
      let unknown_file : InTable t info.eip_file = rw file tt in
      elim (Option-cases (file_stab t.stabs (lfile - 1) (lline + 1 - lfile))) [
        | inl none_there ↦
            rw (finish_info, run, none_there) (known named unknown_file fits line narg)
        | inr (s, there) ↦
            rw (finish_info, run, there)
              (known (record named { eip_file = name_of fuel m t s named.eip_file })
                (name_of-InTable s named.eip_file unknown_file) fits line narg)
      ]

  find_function-Ends :
      (addr lfile rfile : ℕ) (info : Eipdebuginfo)
      → addr < 2 ^ 32
      → lfile ≤ rfile + 1
      → rfile ≤ t.count
      → Started info
      → Ends t addr (find_function fuel m t addr lfile rfile info)
  unfolding find_function Started
  find_function-Ends addr lfile rfile info word order inside (file, name, line, narg) =
      let ((lfun, rfun), run, bounded) =
        stab_binsearch-Bounded t.stabs n_fun fuel (lfile - 1) rfile addr (omega arith) word
          (omega arith) in
      elim (Bool-cases (leb lfun rfun)) [
        | inl found ↦
            let s = t.stabs (lfun - 1) in
            let info' = record info {
              eip_fn_name = name_of fuel m t s info.eip_fn_name;
              eip_fn_addr = s.n_value;
            } in
            rw (find_function, run, found)
              (finish_info-Ends addr lfile lfun info'
                (file, name_of-InTable s info.eip_fn_name name, line, narg))
        | inr none_found ↦
            rw (find_function, run, none_found)
              (finish_info-Ends addr lfile lfile (record info { eip_fn_addr = addr })
                (file, name, line, narg))
      ]

  find_file-Ends : (addr : ℕ) → addr < 2 ^ 32 → Ends t addr (find_file fuel m t addr (no_info addr))
  unfolding find_file Started
  find_file-Ends addr word =
      let ((lfile, rfile), run, bounded) =
        stab_binsearch-Bounded t.stabs n_so fuel 0 t.count addr (omega arith) word (omega arith) in
      let order = stab_binsearch-ordered t.stabs n_so fuel 0 t.count addr run in
      elim (Bool-cases (lfile == 1)) [
        | inl first ↦ rw (find_file, run, first) refused
        | inr other ↦ elim (Bool-cases (lfile == 0)) [
          | inl front ↦ rw (find_file, run, other, front) before
          | inr inside ↦
              rw (find_file, run, other, inside)
                (find_function-Ends addr lfile rfile (no_info addr) word order bounded.3
                  (refl, tt, refl, refl))
        ]
      ]

search_tables-Ends :
    (fuel : ℕ) (m : Bytes) (t : UserStabData) (addr : ℕ)
    → t.stabstr_end ≤ t.stabstr + fuel
    → 2 * t.count + 1 < fuel
    → addr < 2 ^ 32
    → Ends t addr (search_tables fuel m t addr (no_info addr))
unfolding search_tables
search_tables-Ends fuel m t addr enough table word =
    elim (Bool-cases (leb t.stabstr_end t.stabstr || not (m (t.stabstr_end - 1) == 0))) [
      | inl bad ↦ rw (search_tables, bad) refused
      | inr good ↦
          rw (search_tables, good)
            (find_file-Ends fuel m t (ground arith) (ground arith) enough table addr word)
    ]

-- With fuel for the string table and for twice the entries of the stab table, `debuginfo_eip` ends in
-- one of three ways. It returns 0: the name of the function is "<unknown>" or a text that lies in
-- the string table with the byte behind it, the file's name is "<unknown>" or begins in the string
-- table, and the line number and the number of arguments are 0. It returns -1 and has stored only
-- the values it begins with. Or the search for the file ends in front of the table.
pub debuginfo_eip-Ends :
    (fuel : ℕ) (m : Bytes) (kernel user : UserStabData) (addr : ℕ)
    → let t = if leb user_limit addr then kernel else user in
      t.stabstr_end ≤ t.stabstr + fuel
      → 2 * t.count + 1 < fuel
      → addr < 2 ^ 32
      → Ends t addr (debuginfo_eip fuel m kernel user addr)
unfolding debuginfo_eip
debuginfo_eip-Ends fuel m kernel user addr =
    search_tables-Ends fuel m (if leb user_limit addr then kernel else user) addr
