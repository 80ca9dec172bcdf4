-- ===== src/Queue/Remove.antt =====
-- LIST_REMOVE unlinks an element.
use fos_v.Base.{
  ℕ, ◌≡◌, refl, sym, ◌∙◌, ◌≢◌, inl, inr, false, Option, some, List, [], ◌∷◌, arith, ◌==◌, ◌∈◌, ◌∉◌,
  erase, Bool-cases, update, ==→eq,
}
use fos_v.Queue.{Queue, PrevLink, null, head, next_of, set_prev, remove}
use fos_v.Queue.Chain.{
  Chain, nil, cons, IsQueue, read_link, stored_in, Chain-relink, mem-first, mem-next, mem-prev,
}

-- The store after `LIST_REMOVE` of an element with the links `n` and `link`.
pub unlinked : Option ℕ → PrevLink → Queue → Queue
unlinked n null q = q
unlinked n head q = record (set_prev n head q) { lh_first = n }
unlinked n (next_of o) q = record (set_prev n (next_of o) q) { le_next = update q.le_next o n }

pub remove-unlinked :
    (e : ℕ) (q : Queue)
    → q.le_prev e ≢ null
    → q.le_next e ≢ some e
    → remove e q ≡ some (unlinked (q.le_next e) (q.le_prev e) q)
unfolding remove unlinked
remove-unlinked e q linked other = ground arith

module _ (n : Option ℕ) (link : PrevLink) (q : Queue) where
  read_link-unlinked : link ≢ null → read_link (unlinked n link q) link ≡ n
  unfolding unlinked
  read_link-unlinked linked = ground arith

  read_link-unlinked_ne :
      (l : PrevLink) → link ≢ l → read_link (unlinked n link q) l ≡ read_link q l
  unfolding unlinked set_prev
  read_link-unlinked_ne l ne = ground arith

  le_prev-unlinked_ne : (j : ℕ) → n ≢ some j → (unlinked n link q).le_prev j ≡ q.le_prev j
  unfolding unlinked set_prev
  le_prev-unlinked_ne j ne = ground arith

  le_prev-unlinked : (j : ℕ) → link ≢ null → n ≡ some j → (unlinked n link q).le_prev j ≡ link
  unfolding unlinked set_prev
  le_prev-unlinked j linked e = ground arith

not-mem-erase : (a e : ℕ) (xs : List ℕ) → a ∉ xs → a ∉ erase e xs
not-mem-erase a e [] h = refl
not-mem-erase a e (x ∷ xs) h = ground (arith, not-mem-erase a e xs)

apart :
    (x : ℕ) (xs : List ℕ) (link : PrevLink)
    → stored_in link (x ∷ xs) ≡ false
    → stored_in link xs ≡ false
apart x xs null h = refl
apart x xs head h = refl
apart x xs (next_of o) h = ground arith

-- The first element's links go.
unlinked_first :
    {q : Queue} {link to : PrevLink} {p : Option ℕ} {xs : List ℕ}
    → Chain q to p xs
    → link ≢ null
    → stored_in link xs ≡ false
    → Chain (unlinked p link q) link (read_link (unlinked p link q) link) xs
unlinked_first {q} {link} {p} c linked outside = rw (read_link-unlinked p link q linked) (
    Chain-relink (unlinked p link q) link c (λ y first. le_prev-unlinked p link q y linked first)
      (λ y i. read_link-unlinked_ne p link q (next_of y) (λ z. ground arith))
      (λ y i other. le_prev-unlinked_ne p link q y other))

-- A later element's pointer is not stored where the first one's is.
elsewhere :
    {q : Queue} {link : PrevLink} {p : Option ℕ} {x : ℕ} {xs : List ℕ} (e : ℕ)
    → Chain q (next_of x) p xs
    → e ∈ xs
    → stored_in link (x ∷ xs) ≡ false
    → (e == x) ≡ false
    → q.le_prev e ≢ link
elsewhere e c i outside below same = elim (mem-prev e c i) [
  | inl (next, prev) ↦ ground arith
  | inr (o, prev, j, next) ↦ ground arith
]

Chain-unlinked :
    {q : Queue} {link : PrevLink} {p : Option ℕ} {xs : List ℕ} (e : ℕ)
    → Chain q link p xs
    → p ≡ read_link q link
    → link ≢ null
    → stored_in link xs ≡ false
    → e ∈ xs
    → let r = unlinked (q.le_next e) (q.le_prev e) q in Chain r link (read_link r link) (erase e xs)
Chain-unlinked e (nil n) at linked outside m = cc
Chain-unlinked {q} {link} e (cons {x} {xs} n b out c) at linked outside m =
    elim (Bool-cases (e == x)) [
      | inl here ↦ rw (here, ==→eq e x here, b) (unlinked_first c linked (apart x xs link outside))
      | inr below ↦
          let i : e ∈ xs = ground arith in
          let kept = elsewhere e c i outside below in
          rw below (
            cons (read_link-unlinked_ne (q.le_next e) (q.le_prev e) q link kept ∙ sym at ∙ n)
              (le_prev-unlinked_ne (q.le_next e) (q.le_prev e) q x
                  (λ y. absurd (ground (arith, mem-next e x c i y)))
                ∙ b)
              (not-mem-erase x e xs out) (Chain-unlinked e c refl (λ z. cc) out i))
    ]

le_prev-ne-null :
    {q : Queue} {link : PrevLink} {p : Option ℕ} {xs : List ℕ} (e : ℕ)
    → Chain q link p xs
    → e ∈ xs
    → link ≢ null
    → q.le_prev e ≢ null
le_prev-ne-null e c i linked same = elim (mem-prev e c i) [
  | inl (next, prev) ↦ linked (sym prev ∙ same)
  | inr (o, prev, j, next) ↦ cc
]

-- No element of a list is its own successor.
next-ne_self :
    {q : Queue} {link : PrevLink} {p : Option ℕ} {xs : List ℕ} (e : ℕ)
    → Chain q link p xs
    → e ∈ xs
    → q.le_next e ≢ some e
next-ne_self e (nil n) i same = cc
next-ne_self e (cons {x} n b out c) i same = elim (Bool-cases (e == x)) [
  | inl here ↦ ground (arith, mem-first e c)
  | inr below ↦ next-ne_self e c (ground arith) same
]

-- Removing an element that the list holds succeeds, and gives a well linked list of the others in
-- their order.
pub remove-IsQueue :
    (e : ℕ) (q : Queue) (xs : List ℕ)
    → IsQueue q xs
    → e ∈ xs
    → (r : Queue) × (remove e q ≡ some r) × IsQueue r (erase e xs)
remove-IsQueue e q xs c m = (
  unlinked (q.le_next e) (q.le_prev e) q,
  remove-unlinked e q (le_prev-ne-null e c m (λ z. cc)) (next-ne_self e c m),
  Chain-unlinked e c refl (λ z. cc) refl m,
)
