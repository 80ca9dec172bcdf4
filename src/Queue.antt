-- ===== src/Queue.antt =====
-- The linked lists of inc/queue.h: the macros LIST_INIT, LIST_FIRST, LIST_NEXT, LIST_EMPTY,
-- LIST_INSERT_HEAD, LIST_INSERT_AFTER, LIST_INSERT_BEFORE, LIST_REMOVE and LIST_FOREACH.
-- An element is the index of its struct in the array that holds it (`frames_info`, `envs`), a
-- `struct type *` is an optional index, and a list with the links of all elements is one store.
pub mod Chain
pub mod Insert
pub mod Remove
pub mod Foreach
mod Tests
use fos_v.Base.{ℕ, zero, suc, Bool, true, false, Option, none, some, update}

-- What a `struct type **le_prev` points at: nothing, the head's `lh_first`, or an element's
-- `le_next`.
pub data PrevLink : Type 0 where
  null : PrevLink
  head : PrevLink
  next_of : ℕ → PrevLink

-- LIST_HEAD with the LIST_ENTRY of every element.
pub record Queue : Type 0 where
  pub lh_first : Option ℕ
  pub le_next : ℕ → Option ℕ
  pub le_prev : ℕ → PrevLink

-- LIST_EMPTY
pub is_empty : Queue → Bool
is_empty q = elim (q.lh_first) [ none ↦ true | some _ ↦ false ]

-- LIST_INIT
unfoldable pub init : Queue → Queue
init q = record q { lh_first = none }

-- `if (p != NULL) p->prev_next_info.le_prev = link`
unfoldable pub set_prev : Option ℕ → PrevLink → Queue → Queue
set_prev none link q = q
set_prev (some e) link q = record q { le_prev = update q.le_prev e link }

-- `*link = p`, a fault where `link` is null
unfoldable pub write_link : PrevLink → Option ℕ → Queue → Option Queue
write_link null p q = none
write_link head p q = some (record q { lh_first = p })
write_link (next_of o) p q = some (record q { le_next = update q.le_next o p })

-- LIST_INSERT_HEAD
unfoldable pub insert_head : ℕ → Queue → Queue
unfolding set_prev
insert_head elm q =
    let linked = record q { le_next = update q.le_next elm q.lh_first } in
    let back = set_prev q.lh_first (next_of elm) linked in
    record back { lh_first = some elm; le_prev = update back.le_prev elm head }

-- LIST_INSERT_AFTER
unfoldable pub insert_after : ℕ → ℕ → Queue → Queue
unfolding set_prev
insert_after listelm elm q =
    let after = q.le_next listelm in
    let linked = record q { le_next = update q.le_next elm after } in
    let back = set_prev after (next_of elm) linked in
    record back {
      le_next = update back.le_next listelm (some elm);
      le_prev = update back.le_prev elm (next_of listelm);
    }

-- LIST_INSERT_BEFORE
unfoldable pub insert_before : ℕ → ℕ → Queue → Option Queue
unfolding write_link
insert_before listelm elm q =
    let linked = record q {
      le_prev = update q.le_prev elm (q.le_prev listelm);
      le_next = update q.le_next elm (some listelm);
    } in
    elim (write_link (linked.le_prev listelm) (some elm) linked) [
      | none ↦ none
      | some back ↦ some (record back { le_prev = update back.le_prev listelm (next_of elm) })
    ]

-- LIST_REMOVE
unfoldable pub remove : ℕ → Queue → Option Queue
unfolding set_prev write_link
remove elm q =
    let back = set_prev (q.le_next elm) (q.le_prev elm) q in
    write_link (back.le_prev elm) (back.le_next elm) back

-- LIST_FOREACH from the element `var` on, over a body that leaves the links alone. `none` means
-- that the fuel ran out.
unfoldable pub foreach_from {ℓ} : {S : Type ℓ} → ℕ → Queue → (ℕ → S → S) → Option ℕ → S → Option S
foreach_from zero q body var s = none
foreach_from (suc fuel) q body none s = some s
foreach_from (suc fuel) q body (some e) s = foreach_from fuel q body (q.le_next e) (body e s)

unfoldable pub foreach {ℓ} : {S : Type ℓ} → ℕ → Queue → (ℕ → S → S) → S → Option S
unfolding foreach_from
foreach fuel q body s = foreach_from fuel q body q.lh_first s
