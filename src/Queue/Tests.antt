-- ===== src/Queue/Tests.antt =====
-- Lists of three elements.
use fos_v.Base.{◌≡◌, refl, none, some, [], ◌∷◌}
use fos_v.Queue.{Queue, PrevLink, insert_head, remove}
use fos_v.Queue.Chain.{IsQueue, nil}
use fos_v.Queue.Insert.{insert_head-IsQueue}
use fos_v.Queue.Remove.{remove-IsQueue}

abbrev empty : Queue
empty = record { lh_first = none; le_next = λ _. none; le_prev = λ _. PrevLink.null }

abbrev one : Queue
one = insert_head 3 empty

abbrev two : Queue
two = insert_head 2 one

one-IsQueue : IsQueue one (3 ∷ [])
one-IsQueue = insert_head-IsQueue 3 empty [] (nil refl) refl

two-IsQueue : IsQueue two (2 ∷ 3 ∷ [])
two-IsQueue = insert_head-IsQueue 2 one (3 ∷ []) one-IsQueue refl

three-IsQueue : IsQueue (insert_head 1 two) (1 ∷ 2 ∷ 3 ∷ [])
three-IsQueue = insert_head-IsQueue 1 two (2 ∷ 3 ∷ []) two-IsQueue refl

remove-IsQueue_example :
    (r : Queue) × (remove 2 (insert_head 1 two) ≡ some r) × IsQueue r (1 ∷ 3 ∷ [])
remove-IsQueue_example = remove-IsQueue 2 (insert_head 1 two) (1 ∷ 2 ∷ 3 ∷ []) three-IsQueue refl
