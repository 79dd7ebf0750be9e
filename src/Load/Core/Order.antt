-- ===== src/Load/Core/Order.antt =====
-- src/load/load_core.c: the order in which the core thread starts and ends the tasks.
use vmp_rl.Base.{◌≡◌, refl, ap, ◌∙◌, Bool, true, false, ◌≢◌, inl, inr, Bool-cases, if◌then◌else◌}
use vmp_rl.Load.Task.{
  Ptr, null, live, freed, Life, ended, blocked, Task, all_ready, load_task_done, IsHealthy,
  after_done, done-IsHealthy, start-IsHealthy,
}
use vmp_rl.Load.Core.{
  Server, vmp_rpcsvc_create, vmp_rpcsvc_set, serve, vmp_rpcsvc_start, Start, System, Core, Left,
  task_start, rpc_server_start, server_tasks, core_setup, core_teardown, load_core_thread,
}

abbrev pub Ready : Start → Type 0
Ready s = all_ready s.pthread ≡ true

-- Every call of every start succeeds, but for the memory.
abbrev pub AllReady : System → Type 0
AllReady sys =
    (sys.server_thread ≡ true)
    × Ready sys.process
    × Ready sys.demo
    × Ready sys.vmon
    × Ready sys.node_state

task_start-IsHealthy :
    (over : Bool) (s : Start)
    → Ready s
    → (q : Ptr Task) × (task_start over s ≡ ended q) × IsHealthy q
unfolding task_start
task_start-IsHealthy over s ready =
    let (q, n, e, h) = start-IsHealthy over s.memory s.pthread ready in (q, rw e refl, h)

-- All tasks of the core run or are absent.
abbrev IsWell : Core → Type 0
IsWell c = IsHealthy c.process × IsHealthy c.demo × IsHealthy c.vmon × IsHealthy c.node_state

live_freed : (s : Server) → live s ≢ freed
live_freed s e = cc

null_freed : ◌≢◌ {A = Ptr Server} null freed
null_freed e = cc

rpc_server_start_lem :
    (sys : System)
    → sys.server_thread ≡ true
    → (svc : Ptr Server) × (rpc_server_start sys ≡ ended svc) × (svc ≢ freed)
unfolding rpc_server_start serve vmp_rpcsvc_set vmp_rpcsvc_start vmp_rpcsvc_create
rpc_server_start_lem sys created = elim (Bool-cases sys.server_memory) [
  | inl m ↦
      let s : Server = record {
        cond = true;
        initialized = true;
        thread = true;
        port = 9876;
        listener = false;
      } in
      (live s, rw (m, created) refl, live_freed s)
  | inr m ↦ (null, rw m refl, null_freed)
]

server_tasks-IsWell :
    (sys : System) (c : Core) (svc : Ptr Server)
    → AllReady sys
    → svc ≢ freed
    → IsWell c
    → (c' : Core) × (server_tasks sys c svc ≡ ended c') × IsWell c' × (c'.cond ≡ c.cond)
unfolding server_tasks
server_tasks-IsWell sys c null ready there well = (c, refl, well, refl)
server_tasks-IsWell sys c freed ready there well = absurd (there refl)
server_tasks-IsWell sys c (live s) ready there well =
    let (_, _, demo_ready, vmon_ready, state_ready) = ready in
    let (d, de, dh) = task_start-IsHealthy true sys.demo demo_ready in
    let (v, ve, vh) = task_start-IsHealthy true sys.vmon vmon_ready in
    let (n, ne, nh) = task_start-IsHealthy true sys.node_state state_ready in
    (
      record c { demo = d; vmon = v; node_state = n },
      rw (de, ve, ne) refl,
      (well.0, dh, vh, nh),
      refl,
    )

core_setup-IsWell :
    (sys : System) (c : Core)
    → AllReady sys
    → IsWell c
    → (c' : Core) × (core_setup sys c ≡ ended c') × IsWell c' × (c'.cond ≡ c.cond)
unfolding core_setup
core_setup-IsWell sys c ready well =
    let (svc, se, there) = rpc_server_start_lem sys ready.0 in
    let (p, pe, ph) = task_start-IsHealthy sys.over sys.process ready.1 in
    let (c', e, kept, same) =
      server_tasks-IsWell sys (record c { svc = svc; process = p }) svc ready there
        (ph, well.1, well.2, well.3) in
    (c', rw (se, pe) e, kept, same)

abbrev cleared : Core → Core
cleared c = record c { node_state = null; demo = null; vmon = null; process = null }

-- The tasks of a core behind their ends: freed, where there was one.
abbrev pub all_done : Core → Left
all_done c = record {
  process = after_done c.process;
  demo = after_done c.demo;
  vmon = after_done c.vmon;
  node_state = after_done c.node_state;
}

core_teardown_lem :
    (sys : System) (c : Core)
    → sys.over ≡ true
    → IsWell c
    → core_teardown sys c ≡ ended (cleared c, all_done c)
unfolding core_teardown
core_teardown_lem sys c over (p, d, v, n) =
    rw
      (
        done-IsHealthy c.node_state n,
        done-IsHealthy c.demo d,
        done-IsHealthy c.vmon v,
        ap (λ o. load_task_done o c.process) over ∙ done-IsHealthy c.process p,
      )
      refl

thread_after {ℓ} :
    {A : Type ℓ} (test : Life A) (sys : System) (c set : Core)
    → core_setup sys c ≡ ended set
    → set.cond ≡ c.cond
    → core_teardown sys set ≡ ended (cleared set, all_done set)
    → load_core_thread test false sys c
      ≡ (if c.cond then blocked else ended (cleared set, all_done set))
unfolding load_core_thread
thread_after test sys c set e same down =
    rw (e, down) (ap (λ b. if b then blocked else ended (cleared set, all_done set)) same)

-- The thread of the core after starts that succeed, but for the memory, and once the watch of the
-- child is over: while its condition holds it waits for ever, and without it each of the four tasks
-- that the starts have created is freed, without a crash, and no pointer to any is kept.
pub load_core_thread_lem {ℓ} :
    {A : Type ℓ} (test : Life A) (sys : System) (c : Core)
    → AllReady sys
    → sys.over ≡ true
    → IsWell c
    → (set : Core) × (c' : Core) × (core_setup sys c ≡ ended set)
      × (load_core_thread test false sys c ≡ (
          if c.cond
          then blocked
          else ended (
            c',
            record {
              process = after_done set.process;
              demo = after_done set.demo;
              vmon = after_done set.vmon;
              node_state = after_done set.node_state;
            },
          )))
      × (c'.process ≡ null)
      × (c'.demo ≡ null)
      × (c'.vmon ≡ null)
      × (c'.node_state ≡ null)
load_core_thread_lem test sys c ready over well =
    let (set, e, set_well, same) = core_setup-IsWell sys c ready well in
    (
      set,
      cleared set,
      e,
      thread_after test sys c set e same (core_teardown_lem sys set over set_well),
      refl,
      refl,
      refl,
      refl,
    )
