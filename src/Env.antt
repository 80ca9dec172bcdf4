-- ===== src/Env.antt =====
-- Environments: inc/environment_definitions.h, inc/trap.h, kern/user_environment.c, and `envid2env`
-- of kern/helpers.c.
-- A `struct Env *` is an index into `envs`, and none stands for NULL. An `int32` id is the word that
-- holds it, so it is negative from 2 ^ 31 on.
pub mod Init
pub mod Id
pub mod Start
pub mod Program
pub mod Examples
mod Tests
use fos_v.Base.{
  ℕ, zero, suc, ◌+◌, ◌-◌, ◌%◌, ◌^◌, Bool, true, false, not, ◌&&◌, ◌||◌, Option, none, some,
  if◌then◌else◌, ◌==◌, leb, bit_and, bit_or, update,
}
use fos_v.Int.{ℤ, pos, neg, success, e_bad_env, e_no_free_env}
use fos_v.Mmu.{perm_present, perm_writeable, perm_user, vpt, uvpt, ustacktop, pdx}
use fos_v.Queue.{Queue, insert_head}
use fos_v.Queue
use fos_v.Memory.{Memory, Outcome, Cmd, write_word}

pub record PushRegs : Type 0 where
  pub reg_edi : ℕ
  pub reg_esi : ℕ
  pub reg_ebp : ℕ
  pub reg_oesp : ℕ
  pub reg_ebx : ℕ
  pub reg_edx : ℕ
  pub reg_ecx : ℕ
  pub reg_eax : ℕ

-- without the padding
pub record Trapframe : Type 0 where
  pub tf_regs : PushRegs
  pub tf_es : ℕ
  pub tf_ds : ℕ
  pub tf_trapno : ℕ
  pub tf_err : ℕ
  pub tf_eip : ℕ
  pub tf_cs : ℕ
  pub tf_eflags : ℕ
  pub tf_esp : ℕ
  pub tf_ss : ℕ

pub data EnvStatus : Type 0 where
  env_free : EnvStatus
  env_runnable : EnvStatus
  env_not_runnable : EnvStatus

pub record Env : Type 0 where
  pub env_tf : Trapframe
  pub env_id : ℕ
  pub env_parent_id : ℕ
  pub env_status : EnvStatus
  pub env_runs : ℕ
  pub env_pgdir : ℕ
  pub env_cr3 : ℕ

-- The globals of kern/user_environment.c with the memory and the register cr3.
pub record Kernel : Type 0 where
  pub memory : Memory
  pub envs : ℕ → Env
  pub env_free_list : Queue
  pub curenv : Option ℕ
  pub cr3 : ℕ

-- How a call ends: it returns, it panics, it goes through a null pointer, or it enters the user code
-- of an environment.
pub data Step (A : Type 0) : Type 0 where
  ok : A → Kernel → Step A
  panicked : Step A
  fault : Step A
  enter : Trapframe → Kernel → Step A

module _ {A B : Type 0} where
  abbrev pub and_then : Step A → (A → Kernel → Step B) → Step B
  and_then (ok a k) f = f a k
  and_then panicked f = panicked
  and_then fault f = fault
  and_then (enter tf k) f = enter tf k

  infixl 5 ◌>>=◌ ◌>>◌
  abbrev pub ◌>>=◌ : (Kernel → Step A) → (A → Kernel → Step B) → Kernel → Step B
  m >>= f = λ k. and_then (m k) f

  abbrev pub ◌>>◌ : (Kernel → Step A) → (Kernel → Step B) → Kernel → Step B
  m >> n = m >>= λ _. n

-- A command of the memory manager.
abbrev pub returned : {A : Type 0} → Kernel → Outcome A → Step A
returned k (Outcome.ok a m) = ok a (record k { memory = m })
returned k Outcome.panicked = panicked
returned k Outcome.fault = fault

abbrev pub in_memory : {A : Type 0} → Cmd A → Kernel → Step A
in_memory c k = returned k (c k.memory)

abbrev pub modify_env : ℕ → (Env → Env) → Kernel → Step (Unit {0})
modify_env e f k = ok tt (record k { envs = update k.envs e (f (k.envs e)) })

abbrev pub nenv : ℕ
nenv = 2 ^ 10

-- `ENVX(envid)`
abbrev pub envx : ℕ → ℕ
envx envid = bit_and envid (nenv - 1)

-- The loop of `env_init`, with `n` environments left, the last one first.
pub env_init_loop : ℕ → Kernel → Kernel
env_init_loop zero k = k
env_init_loop (suc n) k = env_init_loop n (record k {
  envs = update k.envs n (record (k.envs n) { env_status = env_free; env_id = 0 });
  env_free_list = insert_head n k.env_free_list;
})

pub env_init : Kernel → Kernel
unfolding env_init_loop
env_init k = env_init_loop nenv k

-- The pair is the return code and what is stored in `*e`.
pub allocate_environment : Kernel → ℤ × Option ℕ
allocate_environment k = elim (k.env_free_list.lh_first) [
  | none ↦ (e_no_free_env, none)
  | some e ↦ (success, some e)
]

pub free_environment : ℕ → Kernel → Kernel
free_environment e k = record k {
  curenv = none;
  envs = update k.envs e (record (k.envs e) { env_status = env_free });
  env_free_list = insert_head e k.env_free_list;
}

-- The generation for an environment whose last id was `id`.
pub next_generation : ℕ → ℕ
next_generation id =
    let generation = bit_and ((id + 2 ^ 12) % 2 ^ 32) (2 ^ 32 - 1 - (nenv - 1)) in
    if generation == 0 || leb (2 ^ 31) generation then 2 ^ 12 else generation

abbrev cleared_regs : PushRegs
cleared_regs = record {
  reg_edi = 0;
  reg_esi = 0;
  reg_ebp = 0;
  reg_oesp = 0;
  reg_ebx = 0;
  reg_edx = 0;
  reg_ecx = 0;
  reg_eax = 0;
}

-- The saved registers of a new environment: GD_UD is 0x20 and GD_UT is 0x18.
pub initial_tf : Trapframe
initial_tf = record {
  tf_regs = cleared_regs;
  tf_es = bit_or 0x20 3;
  tf_ds = bit_or 0x20 3;
  tf_trapno = 0;
  tf_err = 0;
  tf_eip = 0;
  tf_cs = bit_or 0x18 3;
  tf_eflags = 0;
  tf_esp = ustacktop;
  tf_ss = bit_or 0x20 3;
}

-- LIST_REMOVE on the free list
pub unlink_env : ℕ → Kernel → Step (Unit {0})
unlink_env e k = elim (Queue.remove e k.env_free_list) [
  | none ↦ fault
  | some q ↦ ok tt (record k { env_free_list = q })
]

-- What is set in the `struct Env`.
pub started : ℕ → Env → Env
unfolding next_generation initial_tf
started e env = record env {
  env_id = bit_or (next_generation env.env_id) e;
  env_parent_id = 0;
  env_status = env_runnable;
  env_runs = 0;
  env_tf = initial_tf;
}

pub complete_environment_initialization : ℕ → Kernel → Step (Unit {0})
unfolding started unlink_env
complete_environment_initialization e k =
    (in_memory (
          write_word (k.envs e).env_pgdir (pdx vpt)
            (bit_or (bit_or (k.envs e).env_cr3 perm_present) perm_writeable))
        >> in_memory (
            write_word (k.envs e).env_pgdir (pdx uvpt)
              (bit_or (bit_or (k.envs e).env_cr3 perm_present) perm_user))
        >> modify_env e (started e)
        >> unlink_env e)
      k

abbrev pub same_env : Option ℕ → ℕ → Bool
same_env none e = false
same_env (some c) e = c == e

is_free : EnvStatus → Bool
is_free env_free = true
is_free env_runnable = false
is_free env_not_runnable = false

-- The check of the caller's permission; `curenv` is read through a pointer.
pub may_change : ℕ → Kernel → Option Bool
may_change e k = elim (k.curenv) [
  | none ↦ none
  | some c ↦ some (c == e || ((k.envs e).env_parent_id == (k.envs c).env_id))
]

-- The pair is the return code and what is stored in `*env_store`. The error is `-E_BAD_ENV`, where
-- E_BAD_ENV is negative itself.
pub envid2env : ℕ → Bool → Kernel → Step (ℤ × Option ℕ)
unfolding may_change is_free
envid2env envid checkperm k =
    let e = envx envid in
    if envid == 0
    then ok (success, k.curenv) k
    else if is_free (k.envs e).env_status || not ((k.envs e).env_id == envid)
    then ok (neg e_bad_env, none) k
    else if checkperm
    then elim (may_change e k) [
      | none ↦ fault
      | some allowed ↦ if allowed then ok (success, some e) k else ok (neg e_bad_env, none) k
    ]
    else ok (success, some e) k

-- The part of `env_run` in which another environment becomes the current one.
switch_to : ℕ → Kernel → Kernel
switch_to e k = record k {
  curenv = some e;
  envs = update k.envs e (record (k.envs e) { env_runs = ((k.envs e).env_runs + 1) % 2 ^ 32 });
  cr3 = (k.envs e).env_cr3;
}

unfoldable pub env_run : ℕ → Kernel → Step (Unit {0})
unfolding switch_to
env_run e k =
    let k' = if same_env k.curenv e then k else switch_to e k in enter (k'.envs e).env_tf k'
