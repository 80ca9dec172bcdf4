-- ===== src/Debug/Tests.antt =====
-- A table with a function at 0x100 and one at 0x200, and a line number after each.
use fos_v.Base.{ℕ, ◌+◌, ◌*◌, ◌%◌, ◌≡◌, some, refl, arith, if◌then◌else◌, ◌==◌}
use fos_v.Int.{pos}
use fos_v.String.{Bytes, strfind}
use fos_v.Debug.Info.{UserStabData, Name, Lookup, debuginfo_eip}
use fos_v.Debug.Info.Names.{Ends, debuginfo_eip-Ends}
use fos_v.Debug.{Stab, stab_binsearch}
use fos_v.Debug.Search.{Bounded, stab_binsearch-Bounded}

abbrev table : ℕ → Stab
table i = record {
  n_strx = i;
  n_type = if i % 2 == 0 then 0x24 else 0x44;
  n_value = 0x100 + i * 0x80;
}

stab_binsearch-Bounded_example :
    (r : ℕ × ℕ) × (stab_binsearch table 0x24 10 0 4 0x210 ≡ some r) × Bounded table 0x24 0 4 r
stab_binsearch-Bounded_example =
    stab_binsearch-Bounded table 0x24 10 0 4 0x210 (omega arith) (omega arith) (omega arith)

-- The function at 0x200 is the one with the index 2.
second_function : stab_binsearch table 0x24 10 0 4 0x210 ≡ some (3, 4)
unfolding stab_binsearch
second_function = refl

-- Two files, a function in the second, and names of two bytes
abbrev kernel_tables : UserStabData
kernel_tables = record {
  stabs = λ i. record {
    n_strx = 2 * i;
    n_type = if i == 2 then 0x24 else 0x64;
    n_value = 0xf0100000 + i * 0x100;
  };
  count = 3;
  stabstr = 1000;
  stabstr_end = 1009;
}

abbrev text : Bytes
text a = if a == 1008 then 0 else if a % 2 == 1 then b':' else b'f'

debuginfo_eip-Ends_example :
    Ends kernel_tables 0xf0100210 (debuginfo_eip 20 text kernel_tables kernel_tables 0xf0100210)
debuginfo_eip-Ends_example =
    debuginfo_eip-Ends 20 text kernel_tables kernel_tables 0xf0100210 (omega arith) (omega arith)
      (omega arith)

in_function :
    debuginfo_eip 20 text kernel_tables kernel_tables 0xf0100210
    ≡ Lookup.returned (pos 0) (record {
      eip_file = Name.at 1002;
      eip_line = 0;
      eip_fn_name = Name.at 1004;
      eip_fn_namelen = 1;
      eip_fn_addr = 0xf0100200;
      eip_fn_narg = 0;
    })
unfolding debuginfo_eip stab_binsearch strfind
in_function = refl
