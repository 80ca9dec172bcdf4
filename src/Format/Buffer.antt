-- ===== src/Format/Buffer.antt =====
-- `vcprintf` of lib/printf.c sends what it was given.
use fos_v.Base.{
  ℕ, zero, suc, ◌+◌, ◌-◌, ◌%◌, ◌^◌, ◌<◌, ◌≡◌, refl, sym, ◌∙◌, ap, ap₂, Bool-cases, inl, inr, List,
  [], ◌∷◌, ◌++◌, arith, length, append_assoc, append-nil, map, update, ◌==◌,
}
use fos_v.Format.{PrintBuf, bytes, flush, putch, put_all, vcprintf}

abbrev pub byte : ℕ → ℕ
byte c = c % 2 ^ 8

-- What was sent and what waits in the buffer.
abbrev text : PrintBuf → List ℕ
text b = b.sent ++ bytes b.buf 0 b.idx

bytes-snoc :
    (buf : ℕ → ℕ) (i n j c : ℕ)
    → j ≡ i + n
    → bytes (update buf j c) i (suc n) ≡ bytes buf i n ++ (c ∷ [])
unfolding bytes
bytes-snoc buf i zero j c at = ground arith
bytes-snoc buf i (suc n) j c at =
    let head : update buf j c i ≡ buf i = ground arith in
    let tail = bytes-snoc buf (i + 1) n j c (omega arith) in ap₂ (λ x xs. x ∷ xs) head tail

bytes-push : (buf : ℕ → ℕ) (n c : ℕ) → bytes (update buf n c) 0 (n + 1) ≡ bytes buf 0 n ++ (c ∷ [])
bytes-push buf n c =
    ap (bytes (update buf n c) 0) (omega arith) ∙ bytes-snoc buf 0 n n c (omega arith)

-- One character more is sent or waiting, and the buffer has room for the next one.
record Pushed (ch : ℕ) (b b' : PrintBuf) : Type 0 where
  room : b'.idx < 255
  count : b'.cnt ≡ b.cnt + 1
  content : text b' ≡ text b ++ (byte ch ∷ [])

putch-Pushed : (ch : ℕ) (b : PrintBuf) → b.idx < 255 → Pushed ch b (putch ch b)
unfolding putch flush
putch-Pushed ch b h =
    let content =
      ap (λ xs. b.sent ++ xs) (bytes-push b.buf b.idx (byte ch))
      ∙ sym (append_assoc b.sent (bytes b.buf 0 b.idx) (byte ch ∷ [])) in
    elim (Bool-cases (b.idx + 1 == 256 - 1)) [
      | inl full ↦
          rw full record { room = omega arith; count = refl; content = append-nil _ ∙ content }
      | inr more ↦ rw more record { room = ground arith; count = refl; content = content }
    ]

put_all-text :
    (cs : List ℕ) (b : PrintBuf)
    → b.idx < 255
    → (text (put_all cs b) ≡ text b ++ map byte cs) × ((put_all cs b).cnt ≡ b.cnt + length cs)
unfolding put_all
put_all-text [] b h = (sym (append-nil (text b)), omega arith)
put_all-text (c ∷ cs) b h =
    let p = putch-Pushed c b h in
    let (content, count) = put_all-text cs (putch c b) p.room in
    (
      content
          ∙ ap (λ xs. xs ++ map byte cs) p.content
          ∙ append_assoc (text b) (byte c ∷ []) (map byte cs),
      omega (arith, count, p.count),
    )

-- The user's `vcprintf` returns the number of characters that `vprintfmt` gave it, and
-- `sys_cputs` gets their bytes, all of them and in their order, however often the buffer is full.
pub vcprintf-sends :
    (cs : List ℕ) (garbage : ℕ → ℕ) → vcprintf cs garbage ≡ (length cs, map byte cs)
unfolding vcprintf flush
vcprintf-sends cs garbage =
    let (content, count) =
      put_all-text cs (record { idx = 0; cnt = 0; buf = garbage; sent = [] }) (omega arith) in
    ap₂ (λ n xs. (n, xs)) (omega (arith, count)) content
