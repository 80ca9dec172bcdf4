-- ===== src/Debug/Search.antt =====
-- `stab_binsearch` ends, and stays in its region.
use Prim.Native.Nat.{max}
use fos_v.Base.{
  ℕ, zero, suc, ◌+◌, ◌-◌, ◌*◌, ◌/◌, ◌^◌, ◌≤◌, ◌<◌, ◌≡◌, refl, sym, ap, ◌∙◌, Bool-cases,
  Option-cases, false, Option, none, some, inl, inr, arith, if◌then◌else◌, ◌==◌, ltb, ltb→lt,
}
use fos_v.Debug.{
  Stab, Region, last_match, narrow, next, search_loop, rightmost, finish_search, finish_all,
  stab_binsearch,
}

module _ (stabs : ℕ → Stab) (type : ℕ) where
  last_match-inside : (l n m : ℕ) → last_match stabs type l n ≡ some m → (l ≤ m) × (m < l + n)
  unfolding last_match
  last_match-inside l zero m e = ground arith
  last_match-inside l (suc n) m e = ground (arith, last_match-inside l n m)

  -- 1 where the next round can find the address itself at `l`.
  abbrev exact : Region → ℕ
  exact s = if (stabs s.l).n_value == s.addr then 1 else 0

  -- Bounds the rounds that are left.
  abbrev left_over : Region → ℕ
  left_over s = 2 * (s.behind - s.l) + exact s

  narrow-less :
      (m : Option ℕ) (true_m : ℕ) (s : Region)
      → s.l < s.behind
      → s.l ≤ true_m
      → true_m < s.behind
      → s.addr < 2 ^ 32
      → ((k : ℕ) → m ≡ some k → (s.l ≤ k) × (k ≤ true_m))
      → left_over (narrow stabs type true_m m s) < left_over s
  unfolding narrow
  narrow-less none true_m s some_left low high word found = ground arith
  narrow-less (some m) true_m s some_left low high word found = ground (arith, found m refl)

  next-found :
      (l t k : ℕ) → l ≤ t → last_match stabs type l (t + 1 - l) ≡ some k → (l ≤ k) × (k ≤ t)
  next-found l t k low e =
      let (from, to) = last_match-inside l (t + 1 - l) k e in (from, omega arith)

  next-less :
      (s : Region) → s.l < s.behind → s.addr < 2 ^ 32 → left_over (next stabs type s) < left_over s
  unfolding next
  next-less s some_left word =
      let t = (s.l + (s.behind - 1)) / 2 in
      narrow-less (last_match stabs type s.l (t + 1 - s.l)) t s some_left (omega arith)
        (omega arith) word (λ k e. next-found s.l t k (omega arith) e)

  -- The region stays between `lo` and `hi`.
  record Within (lo hi : ℕ) (s : Region) : Type 0 where
    low : lo ≤ s.l
    high : s.behind ≤ hi
    left_low : lo < s.region_left
    left_high : s.region_left ≤ max hi (lo + 1)
    right_low : lo ≤ s.region_right
    right_high : s.region_right ≤ hi
    word : s.addr < 2 ^ 32

  narrow-Within :
      (lo hi true_m : ℕ) (m : Option ℕ) (s : Region)
      → Within lo hi s
      → s.l ≤ true_m
      → true_m < s.behind
      → ((k : ℕ) → m ≡ some k → (s.l ≤ k) × (k ≤ true_m))
      → Within lo hi (narrow stabs type true_m m s)
  unfolding narrow
  narrow-Within lo hi true_m none s w low high found = record {
    low = omega (arith, w.low);
    high = w.high;
    left_low = w.left_low;
    left_high = w.left_high;
    right_low = w.right_low;
    right_high = w.right_high;
    word = w.word;
  }
  narrow-Within lo hi true_m (some m) s w low high found =
      let (from, to) = found m refl in
      record {
        low = ground (arith, w.low);
        high = ground (arith, w.high);
        left_low = ground (arith, w.low, w.left_low);
        left_high = ground (arith, w.high, w.left_high);
        right_low = ground (arith, w.low, w.right_low);
        right_high = ground (arith, w.high, w.right_high);
        word = ground (arith, w.word);
      }

  next-Within :
      (lo hi : ℕ) (s : Region) → Within lo hi s → s.l < s.behind → Within lo hi (next stabs type s)
  unfolding next
  next-Within lo hi s w some_left =
      let t = (s.l + (s.behind - 1)) / 2 in
      narrow-Within lo hi t (last_match stabs type s.l (t + 1 - s.l)) s w (omega arith)
        (omega arith) (λ k e. next-found s.l t k (omega arith) e)

  search_loop-ends :
      (fuel lo hi : ℕ) (s : Region)
      → Within lo hi s
      → left_over s < fuel
      → (s' : Region) × (search_loop stabs type fuel s ≡ some s') × Within lo hi s'
  unfolding search_loop
  search_loop-ends zero lo hi s w enough = absurd (omega arith)
  search_loop-ends (suc fuel) lo hi s w enough = elim (Bool-cases (ltb s.l s.behind)) [
    | inl more ↦
        let some_left = ltb→lt s.l s.behind more in
        let (s', run, w') =
          search_loop-ends fuel lo hi (next stabs type s) (next-Within lo hi s w some_left)
            (omega (arith, next-less s some_left w.word)) in
        (s', rw (search_loop, more) run, w')
    | inr over ↦ (s, rw (search_loop, over) refl, w)
  ]

  rightmost-inside :
      (left n : ℕ) → (left ≤ rightmost stabs type left n) × (rightmost stabs type left n ≤ left + n)
  unfolding rightmost
  rightmost-inside left zero = (omega arith, omega arith)
  rightmost-inside left (suc n) =
      (ground (arith, rightmost-inside left n), ground (arith, rightmost-inside left n))

  -- The bounds of the two results of a search from `lo` up to the index in front of `hi`. A result
  -- `n` stands for the index `n - 1`.
  abbrev pub Bounded : ℕ → ℕ → ℕ × ℕ → Type 0
  Bounded lo hi r = (lo ≤ r.0) × (r.0 ≤ max hi (lo + 1)) × (lo ≤ r.1) × (r.1 ≤ hi) × (r.0 ≤ r.1 + 1)

  finish_search-Bounded :
      (lo hi : ℕ) (s : Region) → Within lo hi s → Bounded lo hi (finish_search stabs type s)
  unfolding finish_search
  finish_search-Bounded lo hi s w = elim (Bool-cases s.any_matches) [
    | inr none_found ↦
        rw (finish_search, none_found)
          (
            omega (arith, w.left_low),
            w.left_high,
            omega (arith, w.left_low),
            omega (arith, w.left_high, w.right_low, w.right_high),
            omega arith,
          )
    | inl found ↦ elim (Bool-cases (ltb s.region_left s.region_right)) [
      | inl wide ↦
          let in_order = ltb→lt s.region_left s.region_right wide in
          let (from, to) = rightmost-inside s.region_left (s.region_right - s.region_left) in
          rw (finish_search, found, wide)
            (
              omega (arith, from, w.left_low),
              omega (arith, to, w.right_high),
              w.right_low,
              w.right_high,
              omega (arith, to),
            )
      | inr narrow_one ↦
          rw (finish_search, found, narrow_one)
            (w.right_low, omega (arith, w.right_high), w.right_low, w.right_high, omega arith)
    ]
  ]

  -- The binary search of the region from `left` to the index in front of `behind` ends after at most
  -- twice as many rounds as the region has entries, and two more. Each result is an index of the
  -- region or the one in front of it, but that in an empty region the left one may be `left` itself;
  -- and the left one is at most one behind the right one.
  pub stab_binsearch-Bounded :
      (fuel left behind addr : ℕ)
      → left ≤ behind
      → addr < 2 ^ 32
      → 2 * (behind - left) + 1 < fuel
      → (r : ℕ × ℕ) × (stab_binsearch stabs type fuel left behind addr ≡ some r)
        × Bounded left behind r
  unfolding stab_binsearch finish_all
  stab_binsearch-Bounded fuel left behind addr order word enough =
      let start : Region = record {
        l = left;
        behind = behind;
        any_matches = false;
        addr = addr;
        region_left = left + 1;
        region_right = behind;
      } in
      let (s', run, w) =
        search_loop-ends fuel left behind start
          (record {
            low = omega arith;
            high = omega arith;
            left_low = omega arith;
            left_high = omega arith;
            right_low = order;
            right_high = omega arith;
            word = word;
          })
          (ground arith) in
      (
        finish_search stabs type s',
        ap (finish_all stabs type) run,
        finish_search-Bounded left behind s' w,
      )

  finish_search-ordered :
      (s : Region) → (finish_search stabs type s).0 ≤ (finish_search stabs type s).1 + 1
  unfolding finish_search
  finish_search-ordered s =
      ground (arith, rightmost-inside s.region_left (s.region_right - s.region_left))

  -- The left result is at most one behind the right one.
  pub stab_binsearch-ordered :
      (fuel left behind addr : ℕ) {r : ℕ × ℕ}
      → stab_binsearch stabs type fuel left behind addr ≡ some r
      → r.0 ≤ r.1 + 1
  unfolding stab_binsearch finish_all
  stab_binsearch-ordered fuel left behind addr {r} run =
      let start : Region = record {
        l = left;
        behind = behind;
        any_matches = false;
        addr = addr;
        region_left = left + 1;
        region_right = behind;
      } in
      elim (Option-cases (search_loop stabs type fuel start)) [
        | inl none_left ↦ cc
        | inr (s, loop) ↦
            let same : some (finish_search stabs type s) ≡ some r =
              sym (ap (finish_all stabs type) loop) ∙ run in
            ground (arith, finish_search-ordered s, same)
      ]
