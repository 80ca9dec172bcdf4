-- ===== src/Env/Id.antt =====
-- Ids of environments.

use fos_v.Base.{
  ℕ, ◌+◌, ◌-◌, ◌*◌, ◌/◌, ◌%◌, ◌^◌, ◌<◌, ◌≡◌, ◌≢◌, sym, ◌∙◌, ap, Bool, true, false, not, Option,
  none, some, arith, bit_and, bit_or, ◌==◌, ◌⊎◌, ◌&&◌, ◌||◌, Bool-cases, inl, inr,
}
use fos_v.Base.Bits.{and-high, and-low, or_low}
use fos_v.Int.{ℤ, pos, success, neg, e_bad_env}
use fos_v.Env.{
  Env, Kernel, ok, nenv, envx, next_generation, started, envid2env, is_free, may_change, Step,
}

next_generation-mask :
    (id : ℕ)
    → bit_and ((id + 2 ^ 12) % 2 ^ 32) (2 ^ 32 - 1 - (nenv - 1))
      ≡ (id + 2 ^ 12) % 2 ^ 32 / 1024 * 1024
next_generation-mask id = and-high 10 22 ((id + 2 ^ 12) % 2 ^ 32) (omega arith)

-- The generation is a multiple of NENV, above 0 and below 2 ^ 31, and not the one of the last id.
next_generation_lem :
    (id : ℕ)
    → id < 2 ^ 32
    → let g = next_generation id in (g % 1024 ≡ 0) × (0 < g) × (g < 2 ^ 31) × (g ≢ id / 1024 * 1024)
unfolding next_generation
next_generation_lem id h = ground (arith, next_generation-mask id)

id_sum : (g e : ℕ) → g % 1024 ≡ 0 → e < 1024 → bit_or g e ≡ g + e
id_sum g e whole h =
    let split : g / 1024 * 1024 ≡ g = omega arith in
    let sum : bit_or (g / 1024 * 1024) e ≡ g / 1024 * 1024 + e = or_low 10 (g / 1024) e h in
    rw split at sum

-- The id that an environment gets names its place in the array, is positive as an `int32`, and is
-- not the id that the place had before.
pub started-env_id :
    (e : ℕ) (env : Env)
    → e < 1024
    → env.env_id < 2 ^ 32
    → let id = (started e env).env_id in
      (envx id ≡ e) × (0 < id) × (id < 2 ^ 31) × (id ≢ env.env_id)
unfolding started
started-env_id e env h small =
    let g = next_generation env.env_id in
    let (whole, above, below, new) = next_generation_lem env.env_id small in
    let sum = id_sum g e whole h in
    rw sum (ground (arith, and-low 10 (g + e)), omega arith, omega arith, λ same. new (omega arith))

run-found :
    (id : ℕ) (k : Kernel)
    → id ≢ 0
    → is_free (k.envs (envx id)).env_status ≡ false
    → (k.envs (envx id)).env_id ≡ id
    → envid2env id false k ≡ ok (success, some (envx id)) k
unfolding envid2env
run-found id k some_id used same = ground arith

run-stale :
    (id : ℕ) (b : Bool) (k : Kernel)
    → id ≢ 0
    → (k.envs (envx id)).env_id ≢ id
    → envid2env id b k ≡ ok (neg e_bad_env, none) k
unfolding envid2env
run-stale id b k some_id other = ground arith

-- Once an environment has been started, `envid2env` without the check of permissions finds it under
-- the id it got then.
pub envid2env-started :
    (k : Kernel) (e : ℕ) (env : Env)
    → e < 1024
    → env.env_id < 2 ^ 32
    → k.envs e ≡ started e env
    → envid2env (started e env).env_id false k ≡ ok (success, some e) k
unfolding started is_free
envid2env-started k e env h small at =
    let (place, above, below, new) = started-env_id e env h small in
    let id = (started e env).env_id in
    let here : k.envs (envx id) ≡ started e env = ap k.envs place ∙ at in
    run-found id k (λ zero_id. omega (arith, above, zero_id)) (ap (λ v. is_free v.env_status) here)
      (ap (λ v. v.env_id) here)
    ∙ ap (λ i. ok (success, some i) k) place

-- The id that the environment in the same place had before is stale: `envid2env` refuses it, with
-- -E_BAD_ENV, which is 2.
pub envid2env-stale :
    (k : Kernel) (e : ℕ) (env : Env) (checkperm : Bool)
    → e < 1024
    → env.env_id < 2 ^ 32
    → env.env_id ≢ 0
    → envx env.env_id ≡ e
    → k.envs e ≡ started e env
    → envid2env env.env_id checkperm k ≡ ok (pos 2, none) k
envid2env-stale k e env checkperm h small some_id place at =
    let (_, _, _, new) = started-env_id e env h small in
    let here : k.envs (envx env.env_id) ≡ started e env = ap k.envs place ∙ at in
    run-stale env.env_id checkperm k some_id (λ same. new (sym (ap (λ v. v.env_id) here) ∙ same))

-- The environment `c` may destroy the one with the id `envid`: the id is 0, or it is the id of an
-- environment that is not free and is `c` or a child of `c`.
pub destroys : ℕ → ℕ → Kernel → Bool
destroys envid c k =
    let e = envx envid in
    (envid == 0)
    || ((not (is_free (k.envs e).env_status) && ((k.envs e).env_id == envid))
        && ((c == e) || ((k.envs e).env_parent_id == (k.envs c).env_id)))

-- There is a current environment, and it may.
unfoldable pub current_destroys : ℕ → Kernel → Bool
unfolding destroys is_free
current_destroys envid k = elim (k.curenv) [ none ↦ false | some c ↦ destroys envid c k ]

-- What `envid2env` gives to the current environment `c`
abbrev pub Answer : ℕ → ℕ → Kernel → Step (ℤ × Option ℕ) → Type 0
Answer envid c k r =
    ((e : ℕ) × (r ≡ Step.ok (success, some e) k) × (destroys envid c k ≡ true))
    ⊎ ((r ≡ Step.ok (neg e_bad_env, none) k) × (destroys envid c k ≡ false))

pub envid2env-Answer :
    (envid c : ℕ) (k : Kernel) → k.curenv ≡ some c → Answer envid c k (envid2env envid true k)
unfolding envid2env may_change destroys
envid2env-Answer envid c k current = elim (Bool-cases (destroys envid c k)) [
  | inl may ↦ elim (Bool-cases (envid == 0)) [
    | inl zero_id ↦ inl (c, ground (arith, current), may)
    | inr some_id ↦ inl (envx envid, ground (arith, current, may), may)
  ]
  | inr may_not ↦ inr (ground (arith, current, may_not), may_not)
]

-- Without a current environment
abbrev pub NoCurrent : Kernel → Step (ℤ × Option ℕ) → Type 0
NoCurrent k r =
    (r ≡ Step.ok (success, none) k) ⊎ (r ≡ Step.ok (neg e_bad_env, none) k) ⊎ (r ≡ Step.fault)

pub envid2env-NoCurrent :
    (envid : ℕ) (k : Kernel) → k.curenv ≡ none → NoCurrent k (envid2env envid true k)
unfolding envid2env may_change
envid2env-NoCurrent envid k current = elim (Bool-cases (envid == 0)) [
  | inl zero_id ↦ inl (ground (arith, current))
  | inr some_id ↦
      let e = envx envid in
      elim (Bool-cases (is_free (k.envs e).env_status || not ((k.envs e).env_id == envid))) [
        | inl stale ↦ inr (inl (ground (arith, stale)))
        | inr there ↦ inr (inr (ground (arith, current, there)))
      ]
]
