-- ===== src/Env/Init.antt =====
-- `env_init`.
use fos_v.Base.{
  Bool-cases, inl, inr, ℕ, zero, suc, ◌<◌, ◌≡◌, refl, none, List, [], ◌∷◌, arith, ◌∉◌, ◌==◌, update,
}
use fos_v.Queue.{insert_head}
use fos_v.Queue.Chain.{IsQueue, nil}
use fos_v.Queue.Insert.{insert_head-IsQueue}
use fos_v.Env.{Env, env_free, Kernel, nenv, env_init_loop, env_init}

-- The numbers from 0 to `n - 1` in front of `xs`.
pub count_up : ℕ → List ℕ → List ℕ
count_up zero xs = xs
count_up (suc n) xs = count_up n (n ∷ xs)

loop-IsQueue :
    (n : ℕ) (k : Kernel) (xs : List ℕ)
    → IsQueue k.env_free_list xs
    → ((a : ℕ) → a < n → a ∉ xs)
    → IsQueue (env_init_loop n k).env_free_list (count_up n xs)
unfolding env_init_loop count_up
loop-IsQueue zero k xs q new = q
loop-IsQueue (suc n) k xs q new =
    let k' = record k {
      envs = update k.envs n (record (k.envs n) { env_status = env_free; env_id = 0 });
      env_free_list = insert_head n k.env_free_list;
    } in
    loop-IsQueue n k' (n ∷ xs) (insert_head-IsQueue n k.env_free_list xs q (new n (omega arith)))
      (λ a h. ground (arith, new a))

-- A free environment that has had no id.
abbrev pub Fresh : Env → Type 0
Fresh env = (env.env_status ≡ env_free) × (env.env_id ≡ 0)

loop-keeps : (n : ℕ) (k : Kernel) (e : ℕ) → Fresh (k.envs e) → Fresh ((env_init_loop n k).envs e)
unfolding env_init_loop
loop-keeps zero k e h = h
loop-keeps (suc n) k e h = loop-keeps n _ e (ground (arith, h.0), ground (arith, h.1))

loop-Fresh : (n : ℕ) (k : Kernel) (e : ℕ) → e < n → Fresh ((env_init_loop n k).envs e)
unfolding env_init_loop
loop-Fresh zero k e h = absurd (omega arith)
loop-Fresh (suc n) k e h = elim (Bool-cases (e == n)) [
  | inl here ↦ loop-keeps n _ e (ground arith, ground arith)
  | inr below ↦ loop-Fresh n _ e (ground arith)
]

-- From an empty free list `env_init` makes a well linked one that holds all environments from 0 to
-- NENV - 1 in this order, and each of them is free and has the id 0.
pub env_init-Fresh :
    (k : Kernel)
    → k.env_free_list.lh_first ≡ none
    → IsQueue (env_init k).env_free_list (count_up nenv [])
      × ((e : ℕ) → e < nenv → Fresh ((env_init k).envs e))
unfolding env_init
env_init-Fresh k empty =
    (loop-IsQueue nenv k [] (nil empty) (λ a h. refl), λ e h. loop-Fresh nenv k e h)
