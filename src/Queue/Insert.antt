-- ===== src/Queue/Insert.antt =====
-- LIST_INSERT_HEAD puts an element in front.
use fos_v.Base.{
  ℕ, ◌≡◌, refl, ◌≢◌, some, List, ◌∷◌, arith, ◌==◌, if◌then◌else◌, ◌∈◌, ◌∉◌, ==_refl, ==_ne,
}
use fos_v.Queue.{Queue, next_of, insert_head}
use fos_v.Queue.Chain.{cons, IsQueue, Chain-relink, mem-first}

module _ (e : ℕ) (q : Queue) where
  pub le_next-insert_head :
      (j : ℕ) → (insert_head e q).le_next j ≡ (if j == e then q.lh_first else q.le_next j)
  unfolding insert_head
  le_next-insert_head j = ground arith

  le_prev-insert_head_first :
      (x : ℕ) → x ≢ e → q.lh_first ≡ some x → (insert_head e q).le_prev x ≡ next_of e
  unfolding insert_head
  le_prev-insert_head_first x ne first = ground arith

  le_prev-insert_head_ne :
      (x : ℕ) → x ≢ e → q.lh_first ≢ some x → (insert_head e q).le_prev x ≡ q.le_prev x
  unfolding insert_head
  le_prev-insert_head_ne x ne first = ground arith

-- Inserting an element that the list does not hold gives a well linked list with the element in
-- front of all others.
pub insert_head-IsQueue :
    (e : ℕ) (q : Queue) (xs : List ℕ) → IsQueue q xs → e ∉ xs → IsQueue (insert_head e q) (e ∷ xs)
unfolding insert_head
insert_head-IsQueue e q xs c out = cons refl (ground arith) out (
    rw (le_next-insert_head e q e, ==_refl e)
      (Chain-relink (insert_head e q) (next_of e) c
        (λ x first. le_prev-insert_head_first e q x (ne x (mem-first x c first)) first)
        (λ x i. rw (le_next-insert_head e q x, ==_ne x e (ne x i)))
        (λ x i first. le_prev-insert_head_ne e q x (ne x i) first)))
  where
    ne : (x : ℕ) → x ∈ xs → x ≢ e
    ne x i same = absurd (ground arith)
