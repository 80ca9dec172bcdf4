-- ===== src/Machine/Returns.antt =====
-- Calls that do not return.
use fos_v.Base.{◌≡◌, refl, Bool, true, false}
use fos_v.Machine.{Machine, Reply, ok, enter, Act, and_then}

abbrev pub is_ok : {A : Type 0} → Reply A → Bool
is_ok (ok a m) = true
is_ok Reply.panicked = false
is_ok Reply.fault = false
is_ok (enter tf m) = false
is_ok (Reply.prompt m) = false
is_ok Reply.no_input = false
is_ok Reply.no_fuel = false

-- What does not return goes on as little with something behind it.
pub and_then-is_ok :
    {A B : Type 0} (r : Reply A) (f : A → Act B)
    → ((a : A) (m : Machine) → is_ok (f a m) ≡ false)
    → is_ok (and_then r f) ≡ false
and_then-is_ok (ok a m) f h = h a m
and_then-is_ok Reply.panicked f h = refl
and_then-is_ok Reply.fault f h = refl
and_then-is_ok (enter tf m) f h = refl
and_then-is_ok (Reply.prompt m) f h = refl
and_then-is_ok Reply.no_input f h = refl
and_then-is_ok Reply.no_fuel f h = refl
