-- ===== src/Load/Tests.antt =====
-- Lives of tasks under answers of the system.
use vmp_rl.Base.{◌≡◌, refl, Bool, true, false}
use vmp_rl.Load.Task
use vmp_rl.Load.Task.{
  null, Life, ended, blocked, ◌>>=◌, Pthread, load_task_create, load_task_start, load_task_done,
  after_done,
}
use vmp_rl.Load.Core
use vmp_rl.Load.Core.Order
use vmp_rl.Load.Core.{
  Start, System, Core, new_core, load_core_init, load_core_done, load_core_thread, core_setup,
}

abbrev all_good : Pthread
all_good = record { attr_init = true; settype = true; mutex_init = true; create = true }

-- The child, while its server feeds the watchdog.
load_task_life_example :
    (load_task_start false all_good (load_task_create true) >>= λ r. load_task_done false r.0)
    ≡ blocked
load_task_life_example = Task.load_task_life false all_good

core_waits : (load_core_init true all_good >>= λ core. load_core_done core) ≡ blocked
core_waits = Core.load_core_life all_good

abbrev good_start : Start
good_start = record { memory = true; pthread = all_good }

abbrev good_system : System
good_system = record {
  server_memory = true;
  server_thread = true;
  process = good_start;
  demo = good_start;
  vmon = record { memory = false; pthread = all_good };
  node_state = good_start;
  over = true;
  ends = true;
}

abbrev told_to_end : Core
told_to_end = record new_core { cond = false }

-- The test mode does not run here.
abbrev no_test : Life Bool
no_test = blocked

load_core_thread_lem_example :
    (set : Core) × (c : Core) × (core_setup good_system told_to_end ≡ ended set)
    × (load_core_thread no_test false good_system told_to_end
        ≡ ended (
          c,
          record {
            process = after_done set.process;
            demo = after_done set.demo;
            vmon = after_done set.vmon;
            node_state = after_done set.node_state;
          },
        ))
    × (c.process ≡ null)
    × (c.demo ≡ null)
    × (c.vmon ≡ null)
    × (c.node_state ≡ null)
load_core_thread_lem_example =
    Order.load_core_thread_lem no_test good_system told_to_end (refl, refl, refl, refl, refl) refl
      (tt, tt, tt, tt)
