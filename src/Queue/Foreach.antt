-- ===== src/Queue/Foreach.antt =====
-- LIST_FOREACH visits every element once, from the first to the last.
use fos_v.Base.{ℕ, zero, suc, ◌<◌, ◌≡◌, Option, some, List, arith, length}
use mathlib.Core.List.{foldl}
use fos_v.Queue.{Queue, PrevLink, foreach_from, foreach}
use fos_v.Queue.Chain.{Chain, nil, cons, IsQueue}

module _ {ℓ} {S : Type ℓ} (body : ℕ → S → S) where
  foreach_from-foldl :
      (fuel : ℕ) {q : Queue} {link : PrevLink} {p : Option ℕ} {xs : List ℕ} (s : S)
      → Chain q link p xs
      → length xs < fuel
      → foreach_from fuel q body p s ≡ some (foldl (λ t x. body x t) s xs)
  unfolding foreach_from
  foreach_from-foldl zero s c h = absurd (omega arith)
  foreach_from-foldl (suc fuel) s (nil e) h = rw (e, foreach_from)
  foreach_from-foldl (suc fuel) s (cons {x} e b out c) h =
      rw (e, foreach_from) (foreach_from-foldl fuel (body x s) c (omega arith))

  -- With more fuel than elements the loop ends, and has run its body on each element in order.
  pub foreach-foldl :
      (fuel : ℕ) (q : Queue) (xs : List ℕ) (s : S)
      → IsQueue q xs
      → length xs < fuel
      → foreach fuel q body s ≡ some (foldl (λ t x. body x t) s xs)
  unfolding foreach
  foreach-foldl fuel q xs s c h = foreach_from-foldl fuel s c h
