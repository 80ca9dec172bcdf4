-- ===== src/Env/Examples.antt =====
-- Environments to try the functions on.
use fos_v.Base.{none}
use fos_v.Queue.{insert_head}
use fos_v.Memory.Examples.{no_links, start}
use fos_v.Env.{Env, env_free, Kernel, initial_tf}

abbrev pub idle : Env
idle = record {
  env_tf = initial_tf;
  env_id = 0;
  env_parent_id = 0;
  env_status = env_free;
  env_runs = 0;
  env_pgdir = 0xf0001000;
  env_cr3 = 0x1000;
}

abbrev pub booted : Kernel
booted = record {
  memory = start;
  envs = λ _. idle;
  env_free_list = no_links;
  curenv = none;
  cr3 = 0x1000;
}

-- With the environments 4 and 5 free.
abbrev pub two_idle : Kernel
two_idle = record booted { env_free_list = insert_head 4 (insert_head 5 no_links) }
