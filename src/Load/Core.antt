-- ===== src/Load/Core.antt =====
-- src/load/load_core.c: the thread that starts and ends the tasks, and the start of the server thread
-- in src/rpc/rpc_svc.c.
pub mod Order
use vmp_rl.Base.{
  ℕ, List, codes, ◌≡◌, refl, Bool, true, false, not, ◌&&◌, ℤ, minus_one, if◌then◌else◌,
}
use vmp_rl.Load.Task.{
  Ptr, null, live, freed, Life, ended, crashed, blocked, ◌>>=◌, Task, Pthread, mutex_ready,
  all_ready, join, load_task_create, load_task_start, load_demo_done, load_vmon_done,
  load_node_state_done, load_child_done,
}

-- The thread of the server; `listener` is `priv->svc`, set by the thread.
pub record Server : Type 0 where
  pub cond : Bool
  pub initialized : Bool
  pub thread : Bool
  pub port : ℕ
  pub listener : Bool

unfoldable pub vmp_rpcsvc_create : Bool → Ptr Server
vmp_rpcsvc_create memory =
    if memory
    then live
        (record { cond = true; initialized = true; thread = false; port = 0; listener = false })
    else null

unfoldable pub vmp_rpcsvc_set : ℕ → Ptr Server → Life (Ptr Server × ℤ)
vmp_rpcsvc_set port null = crashed
vmp_rpcsvc_set port freed = crashed
vmp_rpcsvc_set port (live s) = ended (live (record s { port = port }), ℤ.pos 0)

-- `rpc_svc_thread` up to its event loop; `pbrpc_svc_new` gives a listener or null.
unfoldable pub rpc_svc_thread : (pbrpc_svc_new : List ℕ → ℕ → Bool) → Server → Server
rpc_svc_thread pbrpc_svc_new s = record s { listener = pbrpc_svc_new (codes "localhost") s.port }

-- The first argument tells whether the thread's event loop ends.
unfoldable pub rpc_svc_stop : Bool → Server → Life Server
rpc_svc_stop ends s =
    let joined : Server = record s { cond = false; initialized = false; thread = false } in
    if s.initialized then join s.thread ends joined else ended (record s { cond = false })

-- `pbrpc_svc_destroy`, where the thread has made a listener.
abbrev pub drop_listener : Server → Server
drop_listener s = if s.listener then record s { listener = false } else s

unfoldable pub vmp_rpcsvc_destroy : Bool → Ptr Server → Life (Ptr Server)
vmp_rpcsvc_destroy ends null = ended null
vmp_rpcsvc_destroy ends freed = crashed
vmp_rpcsvc_destroy ends (live s) = rpc_svc_stop ends (drop_listener s) >>= λ t. ended freed

unfoldable pub vmp_rpcsvc_start : Bool → Bool → Ptr Server → Life (Ptr Server × ℤ)
vmp_rpcsvc_start ends create null = ended (null, minus_one)
vmp_rpcsvc_start ends create freed = crashed
vmp_rpcsvc_start ends create (live s) =
    let started : Server = record s { thread = true } in
    if create
    then ended (live started, ℤ.pos 0)
    else vmp_rpcsvc_destroy ends (live s) >>= λ q. ended (q, minus_one)

-- What the system answers to the start of one task.
pub record Start : Type 0 where
  pub memory : Bool
  pub pthread : Pthread

-- To all starts, and whether the watch of the child is over and the server's loop ends.
pub record System : Type 0 where
  pub server_memory : Bool
  pub server_thread : Bool
  pub process : Start
  pub demo : Start
  pub vmon : Start
  pub node_state : Start
  pub over : Bool
  pub ends : Bool

pub record Core : Type 0 where
  pub cond : Bool
  pub initialized : Bool
  pub thread : Bool
  pub svc : Ptr Server
  pub process : Ptr Task
  pub demo : Ptr Task
  pub vmon : Ptr Task
  pub node_state : Ptr Task

-- What `task_demo_start` and its likes do: the pointer that the core keeps.
unfoldable pub task_start : Bool → Start → Life (Ptr Task)
task_start over s = load_task_start over s.pthread (load_task_create s.memory) >>= λ r. ended r.0

unfoldable pub serve : System → Ptr Server → Life (Ptr Server)
serve sys null = ended null
serve sys freed = crashed
serve sys (live s) = vmp_rpcsvc_set 9876 (live s) >>= λ set.
    vmp_rpcsvc_start sys.ends sys.server_thread set.0 >>= λ r. ended r.0

unfoldable pub rpc_server_start : System → Life (Ptr Server)
unfolding serve
rpc_server_start sys = serve sys (vmp_rpcsvc_create sys.server_memory)

abbrev pub task_demo_start : System → Life (Ptr Task)
task_demo_start sys = task_start true sys.demo

abbrev pub task_vmon_start : System → Life (Ptr Task)
task_vmon_start sys = task_start true sys.vmon

abbrev pub task_node_state_start : System → Life (Ptr Task)
task_node_state_start sys = task_start true sys.node_state

abbrev pub task_process_start : System → Life (Ptr Task)
task_process_start sys = task_start sys.over sys.process

-- The three tasks that need the server, in the order of the code.
unfoldable pub server_tasks : System → Core → Ptr Server → Life Core
server_tasks sys c null = ended c
server_tasks sys c freed = crashed
server_tasks sys c (live s) = task_demo_start sys >>= λ demo. task_vmon_start sys >>= λ vmon.
    task_node_state_start sys >>= λ node_state.
    ended (record c { demo = demo; vmon = vmon; node_state = node_state })

unfoldable pub core_setup : System → Core → Life Core
core_setup sys c = rpc_server_start sys >>= λ svc. task_process_start sys >>= λ process.
    server_tasks sys (record c { svc = svc; process = process }) svc

-- What became of the tasks that the core pointed to.
pub record Left : Type 0 where
  pub process : Ptr Task
  pub demo : Ptr Task
  pub vmon : Ptr Task
  pub node_state : Ptr Task

-- What follows the loop of the thread: the core, and what its pointers pointed to.
unfoldable pub core_teardown : System → Core → Life (Core × Left)
core_teardown sys c = load_node_state_done c.node_state >>= λ n. load_demo_done c.demo >>= λ d.
    load_vmon_done c.vmon >>= λ v. load_child_done sys.over c.process >>= λ p. ended (
      record c { node_state = null; demo = null; vmon = null; process = null },
      record { process = p; demo = d; vmon = v; node_state = n },
    )

-- With `config->client` the thread makes the calls of `load_core_test`, here `test`, whose client
-- it does not keep.
unfoldable pub load_core_thread {ℓ} :
    {A : Type ℓ} → Life A → Bool → System → Core → Life (Core × Left)
load_core_thread test client sys c =
    (if client then (test >>= λ t. ended c) else core_setup sys c) >>= λ set.
    if set.cond then blocked else core_teardown sys set

unfoldable pub load_core_stop : Ptr Core → Life (Ptr Core × ℤ)
load_core_stop null = ended (null, minus_one)
load_core_stop freed = crashed
load_core_stop (live c) =
    let joined : Core = record c { initialized = false; thread = false } in
    if c.initialized
    then join c.thread (not c.cond) (live joined, ℤ.pos 0)
    else ended (live c, ℤ.pos 0)

-- What `load->core` holds afterwards.
unfoldable pub load_core_done : Ptr Core → Life (Ptr Core)
load_core_done null = ended null
load_core_done freed = crashed
load_core_done (live c) = load_core_stop (live c) >>= λ r. ended null

unfoldable pub load_core_start : Pthread → Ptr Core → Life (Ptr Core × ℤ)
load_core_start p null = ended (null, minus_one)
load_core_start p freed = crashed
load_core_start p (live c) =
    let started : Core = record c { thread = p.create } in
    if mutex_ready p
    then ended (live started, ℤ.pos 0)
    else load_core_done (live c) >>= λ q. ended (q, minus_one)

abbrev pub new_core : Core
new_core = record {
  cond = true;
  initialized = true;
  thread = false;
  svc = null;
  process = null;
  demo = null;
  vmon = null;
  node_state = null;
}

-- The memory is not tested.
unfoldable pub load_core_init : Bool → Pthread → Life (Ptr Core)
load_core_init memory p =
    if memory then (load_core_start p (live new_core) >>= λ r. ended r.0) else crashed

-- After a start all of whose calls succeed, `load_core_done` never returns: nothing clears the
-- condition that the joined thread waits on. Where a call of the start fails, it crashes.
pub load_core_life :
    (p : Pthread)
    → (load_core_init true p >>= λ core. load_core_done core)
      ≡ (if all_ready p then blocked else crashed)
unfolding load_core_init load_core_start load_core_done load_core_stop
load_core_life p = by_calls (mutex_ready p) p.create
  where
    started : Bool → Bool → Life (Ptr Core × ℤ)
    started ready created =
        if ready then ended (live (record new_core { thread = created }), ℤ.pos 0) else crashed

    by_calls :
        (ready created : Bool)
        → ((started ready created >>= λ r. ended r.0) >>= λ core. load_core_done core)
          ≡ (if ready && created then blocked else crashed)
    by_calls true true = refl
    by_calls true false = refl
    by_calls false created = refl
