-- ===== src/Debug.antt =====
-- `stab_binsearch` of kern/kdebug.c; `debuginfo_eip` is in Info.
-- The right end of a region may be the index -1, so it is kept as the index behind it: `behind` is
-- `r + 1`. The same holds for the two results, `*region_left` and `*region_right`. `addr++` adds the
-- size of a pointer's target, which is 4.
pub mod Search
pub mod Info
mod Tests
use fos_v.Base.{
  ℕ, zero, suc, ◌+◌, ◌-◌, ◌/◌, ◌%◌, ◌^◌, Bool, true, false, not, ◌&&◌, Option, none, some,
  if◌then◌else◌, ◌==◌, ltb,
}

-- without n_other and n_desc, which the code does not read
pub record Stab : Type 0 where
  pub n_strx : ℕ
  pub n_type : ℕ
  pub n_value : ℕ

-- The variables of the loop; the results are those that it stores.
pub record Region : Type 0 where
  pub l : ℕ
  pub behind : ℕ
  pub any_matches : Bool
  pub addr : ℕ
  pub region_left : ℕ
  pub region_right : ℕ

module _ (stabs : ℕ → Stab) (type : ℕ) where
  -- The last stab of the type among the `n` from `l` on.
  pub last_match : ℕ → ℕ → Option ℕ
  last_match l zero = none
  last_match l (suc n) = elim ((stabs (l + n)).n_type == type) [
    | true ↦ some (l + n)
    | false ↦ last_match l n
  ]

  -- One round, for the middle and the match in its lower half.
  pub narrow : ℕ → Option ℕ → Region → Region
  narrow true_m none s = record s { l = true_m + 1 }
  narrow true_m (some m) s =
      let found = record s { any_matches = true } in
      if ltb (stabs m).n_value s.addr
      then record found { region_left = m + 1; l = true_m + 1 }
      else if ltb s.addr (stabs m).n_value
      then record found { region_right = m; behind = m }
      else record found { region_left = m + 1; l = m; addr = (s.addr + 4) % 2 ^ 32 }

  pub next : Region → Region
  unfolding last_match narrow
  next s =
      let true_m = (s.l + (s.behind - 1)) / 2 in narrow true_m (last_match s.l (true_m + 1 - s.l)) s

  -- The loop; `none` means that the fuel ran out.
  pub search_loop : ℕ → Region → Option Region
  unfolding next
  search_loop zero s = none
  search_loop (suc fuel) s = elim (ltb s.l s.behind) [
    | true ↦ search_loop fuel (next s)
    | false ↦ some s
  ]

  -- The loop that finds the rightmost region, with `n` indices left above `left`.
  rightmost : ℕ → ℕ → ℕ
  rightmost left zero = left
  rightmost left (suc n) = elim ((stabs (left + n)).n_type == type) [
    | true ↦ left + suc n
    | false ↦ rightmost left n
  ]

  -- The two results, both the index behind.
  finish_search : Region → ℕ × ℕ
  unfolding rightmost
  finish_search s =
      if s.any_matches
      then (
        if ltb s.region_left s.region_right
            then rightmost s.region_left (s.region_right - s.region_left)
            else s.region_right,
        s.region_right,
      )
      else (s.region_left, s.region_left - 1)

  pub finish_all : Option Region → Option (ℕ × ℕ)
  unfolding finish_search
  finish_all none = none
  finish_all (some s) = some (finish_search s)

  -- stab_binsearch of the region from `left` to the index in front of `behind`
  unfoldable pub stab_binsearch : ℕ → ℕ → ℕ → ℕ → Option (ℕ × ℕ)
  unfolding search_loop finish_all
  stab_binsearch fuel left behind addr = finish_all (
      search_loop fuel (record {
        l = left;
        behind = behind;
        any_matches = false;
        addr = addr;
        region_left = left + 1;
        region_right = behind;
      }))
