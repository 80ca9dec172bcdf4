-- ===== src/Queue/Chain.antt =====
-- What it means that a store of links holds a list, and which writes spare it.
use fos_v.Base.{
  ℕ, ◌≡◌, ◌≢◌, ◌⊎◌, inl, inr, Bool, false, Option, none, some, List, [], ◌∷◌, arith, has, ◌∈◌, ◌∉◌,
  ◌==◌, Bool-cases,
}
use fos_v.Queue.{Queue, PrevLink, null, head, next_of}

-- From the pointer `p`, stored at `link`, the `le_next` links lead through the distinct elements
-- `xs` to NULL, and each `le_prev` points back at where the pointer to its element is stored.
pub data Chain (q : Queue) : PrevLink → Option ℕ → List ℕ → Type 0 where
  nil : {link : PrevLink} {p : Option ℕ} → p ≡ none → Chain q link p []
  cons :
      {link : PrevLink} {p : Option ℕ} {x : ℕ} {xs : List ℕ}
      → p ≡ some x
      → q.le_prev x ≡ link
      → x ∉ xs
      → Chain q (next_of x) (q.le_next x) xs
      → Chain q link p (x ∷ xs)

-- The list of `q` holds exactly `xs`, in this order.
abbrev pub IsQueue : Queue → List ℕ → Type 0
IsQueue q xs = Chain q head q.lh_first xs

abbrev pub read_link : Queue → PrevLink → Option ℕ
read_link q null = none
read_link q head = q.lh_first
read_link q (next_of o) = q.le_next o

-- The link is stored in one of the elements `xs`.
abbrev pub stored_in : PrevLink → List ℕ → Bool
stored_in null xs = false
stored_in head xs = false
stored_in (next_of o) xs = has o xs

-- A chain depends on the links of its own elements only.
pub Chain-frame :
    {q : Queue} {link : PrevLink} {p : Option ℕ} {xs : List ℕ} (r : Queue)
    → Chain q link p xs
    → ((x : ℕ) → x ∈ xs → (r.le_next x ≡ q.le_next x) × (r.le_prev x ≡ q.le_prev x))
    → Chain r link p xs
Chain-frame r (nil e) same = nil e
Chain-frame r (cons {x} {xs} e b out c) same =
    cons e (ground (arith, same x)) out
      (rw ((same x (ground arith)).0) (Chain-frame r c λ y i. same y (ground arith)))

-- A chain whose first pointer moves to another place, with the first element's `le_prev`.
pub Chain-relink :
    {q : Queue} {link : PrevLink} {p : Option ℕ} {xs : List ℕ} (r : Queue) (to : PrevLink)
    → Chain q link p xs
    → ((x : ℕ) → p ≡ some x → r.le_prev x ≡ to)
    → ((x : ℕ) → x ∈ xs → r.le_next x ≡ q.le_next x)
    → ((x : ℕ) → x ∈ xs → p ≢ some x → r.le_prev x ≡ q.le_prev x)
    → Chain r to p xs
Chain-relink r to (nil e) first next prev = nil e
Chain-relink {p} r to (cons {x} {xs} e b out c) first next prev = cons e (first x e) out (
    rw (next x (ground arith))
      (Chain-frame r c λ y i. (next y (ground arith), prev y (ground arith) (ground arith))))

-- The first element of a chain is in it.
pub mem-first :
    {q : Queue} {link : PrevLink} {p : Option ℕ} {xs : List ℕ} (y : ℕ)
    → Chain q link p xs
    → p ≡ some y
    → y ∈ xs
mem-first y (nil n) e = cc
mem-first y (cons n b out c) e = ground arith

-- The successor of an element of a chain is in the chain.
pub mem-next :
    {q : Queue} {link : PrevLink} {p : Option ℕ} {xs : List ℕ} (e y : ℕ)
    → Chain q link p xs
    → e ∈ xs
    → q.le_next e ≡ some y
    → y ∈ xs
mem-next e y (nil n) m s = cc
mem-next e y (cons {x} n b out c) m s = elim (Bool-cases (e == x)) [
  | inl here ↦ ground (arith, mem-first y c)
  | inr below ↦ ground (arith, mem-next e y c)
]

-- The pointer to an element of a chain is stored where the chain starts or in the chain.
pub mem-prev :
    {q : Queue} {link : PrevLink} {p : Option ℕ} {xs : List ℕ} (e : ℕ)
    → Chain q link p xs
    → e ∈ xs
    → ((p ≡ some e) × (q.le_prev e ≡ link))
      ⊎ ((o : ℕ) × (q.le_prev e ≡ next_of o) × (o ∈ xs) × (q.le_next o ≡ some e))
mem-prev e (nil n) m = cc
mem-prev e (cons {x} n b out c) m = elim (Bool-cases (e == x)) [
  | inl here ↦ inl (ground arith, ground arith)
  | inr below ↦ elim (mem-prev e c (ground arith)) [
    | inl (next, prev) ↦ inr (x, prev, ground arith, next)
    | inr (o, prev, m, next) ↦ inr (o, prev, ground arith, next)
  ]
]
