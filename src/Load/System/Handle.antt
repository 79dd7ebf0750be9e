-- ===== src/Load/System/Handle.antt =====
-- src/load/load_system.c: the life of the monitor, and what other threads read from it.
use vmp_rl.Base.{ℕ, Bool, true, false, ℤ, minus_one, if◌then◌else◌, Doubles, Run, done, fault}
use vmp_rl.Load.Task.{Ptr, null, live, freed, Life, ended, crashed, ◌>>=◌, Pthread, mutex_ready}
use vmp_rl.Load.System.{Info}

module _ (arithmetic : Doubles) where
  open arithmetic use {D, of_ℤ, sub}

  abbrev zero_D : D
  zero_D = of_ℤ (ℤ.pos 0)

  -- `calloc` makes all numbers zero; the argument tells whether it gives memory.
  unfoldable pub load_system_create : Bool → Ptr (Info D)
  load_system_create memory =
      if memory
      then live (record {
        interval = 1;
        uplink = zero_D;
        downlink = zero_D;
        cpu_idle = zero_D;
        mem_total = ℤ.pos 0;
        mem_free = ℤ.pos 0;
        cond = true;
        initialized = true;
      })
      else null

  -- The result, and whether the thread runs; a thread that was not created is detached all the same.
  unfoldable pub load_system_start : Pthread → Ptr (Info D) → Life (ℤ × Bool)
  load_system_start p null = ended (minus_one, false)
  load_system_start p freed = crashed
  load_system_start p (live info) =
      if mutex_ready p
      then if p.create then ended (ℤ.pos 0, true) else crashed
      else ended (minus_one, false)

  -- The thread is neither told nor waited for.
  unfoldable pub load_system_stop : Ptr (Info D) → Life (Ptr (Info D) × ℤ)
  load_system_stop null = ended (null, minus_one)
  load_system_stop freed = crashed
  load_system_stop (live info) =
      ended (live (record info { cond = false; initialized = false }), ℤ.pos 0)

  unfoldable pub load_system_destroy : Ptr (Info D) → Life (Ptr (Info D))
  load_system_destroy null = ended null
  load_system_destroy freed = crashed
  load_system_destroy (live info) = load_system_stop (live info) >>= λ r. ended freed

  unfoldable pub load_system_interval_set : Ptr (Info D) → ℕ → Life (Ptr (Info D) × ℤ)
  load_system_interval_set null n = ended (null, minus_one)
  load_system_interval_set freed n = crashed
  load_system_interval_set (live info) n = ended (live (record info { interval = n }), ℤ.pos 0)

  -- The getters answer zero without a monitor.
  unfoldable pub ls_uplink_get : Ptr (Info D) → Run D
  ls_uplink_get null = done zero_D
  ls_uplink_get freed = fault
  ls_uplink_get (live info) = done info.uplink

  unfoldable pub ls_downlink_get : Ptr (Info D) → Run D
  ls_downlink_get null = done zero_D
  ls_downlink_get freed = fault
  ls_downlink_get (live info) = done info.downlink

  unfoldable pub ls_cpu_get : Ptr (Info D) → Run D
  ls_cpu_get null = done zero_D
  ls_cpu_get freed = fault
  ls_cpu_get (live info) = done (sub (of_ℤ (ℤ.pos 100)) info.cpu_idle)

  unfoldable pub ls_mem_total_get : Ptr (Info D) → Run ℤ
  ls_mem_total_get null = done (ℤ.pos 0)
  ls_mem_total_get freed = fault
  ls_mem_total_get (live info) = done info.mem_total

  unfoldable pub ls_mem_free_get : Ptr (Info D) → Run ℤ
  ls_mem_free_get null = done (ℤ.pos 0)
  ls_mem_free_get freed = fault
  ls_mem_free_get (live info) = done info.mem_free
