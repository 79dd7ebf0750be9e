-- ===== src/Load/Task.antt =====
-- src/load/load_demo.c, load_vmon.c, load_node_state.c and load_child.c: the life of a task, from
-- its creation to its end. The four files have the same text but for the body of the thread.
use vmp_rl.Base.{
  ◌≡◌, refl, Bool, true, false, not, ◌&&◌, ℤ, minus_one, arith, inl, inr, Bool-cases, if◌then◌else◌,
}

-- A pointer to an object of its own: null, to the object, or to freed memory.
pub data Ptr {ℓ} (A : Type ℓ) : Type ℓ where
  null : Ptr A
  live : A → Ptr A
  freed : Ptr A

-- A call ends, reaches undefined behaviour, or waits for ever.
pub data Life {ℓ} (A : Type ℓ) : Type ℓ where
  ended : A → Life A
  crashed : Life A
  blocked : Life A

infixl 5 ◌>>=◌
abbrev pub ◌>>=◌ {ℓ κ} : {A : Type ℓ} {B : Type κ} → Life A → (A → Life B) → Life B
ended a >>= f = f a
crashed >>= f = crashed
blocked >>= f = blocked

-- `thread` tells whether there is a thread to join.
pub record Task : Type 0 where
  pub cond : Bool
  pub initialized : Bool
  pub mutex : Bool
  pub thread : Bool

-- Whether each call of a start succeeds.
pub record Pthread : Type 0 where
  pub attr_init : Bool
  pub settype : Bool
  pub mutex_init : Bool
  pub create : Bool

abbrev pub mutex_ready : Pthread → Bool
mutex_ready p = p.attr_init && p.settype && p.mutex_init

abbrev pub all_ready : Pthread → Bool
all_ready p = mutex_ready p && p.create

-- `pthread_join`, undefined without a thread; it waits for ever where the thread does not return.
abbrev pub join {ℓ} : {A : Type ℓ} → Bool → Bool → A → Life A
join thread returns a = if thread then (if returns then ended a else blocked) else crashed

-- The thread of a task ends where its condition is off; the one of the child only where the watch
-- has come to its end, too.
abbrev pub task_returns : Bool → Bool → Bool
task_returns over cond = over && not cond

-- The argument tells whether `calloc` gives memory.
unfoldable pub load_task_create : Bool → Ptr Task
load_task_create memory =
    if memory
    then live (record { cond = true; initialized = true; mutex = false; thread = false })
    else null

-- The first argument is that of `task_returns`.
unfoldable pub load_task_stop : Bool → Ptr Task → Life (Ptr Task × ℤ)
load_task_stop over null = ended (null, minus_one)
load_task_stop over freed = crashed
load_task_stop over (live t) =
    let off : Task = record t { cond = false } in
    let joined : Task = record t { cond = false; initialized = false; thread = false } in
    if t.initialized
    then join t.thread (task_returns over off.cond) (live joined, ℤ.pos 0)
    else ended (live off, ℤ.pos 0)

unfoldable pub load_task_destroy : Ptr Task → Life (Ptr Task)
load_task_destroy null = ended null
load_task_destroy freed = crashed
load_task_destroy (live t) = ended freed

unfoldable pub load_task_done : Bool → Ptr Task → Life (Ptr Task)
load_task_done over null = ended null
load_task_done over freed = crashed
load_task_done over (live t) = load_task_stop over (live t) >>= λ r. load_task_destroy r.0

unfoldable pub load_task_start : Bool → Pthread → Ptr Task → Life (Ptr Task × ℤ)
load_task_start over p null = ended (null, minus_one)
load_task_start over p freed = crashed
load_task_start over p (live t) =
    let started : Task = record t { mutex = true; thread = p.create } in
    if mutex_ready p
    then ended (live started, ℤ.pos 0)
    else load_task_done over (live t) >>= λ q. ended (q, minus_one)

-- The four tasks. That of the node state creates and starts the system statistics besides.
abbrev pub load_demo_create : Bool → Ptr Task
load_demo_create memory = load_task_create memory

abbrev pub load_demo_start : Pthread → Ptr Task → Life (Ptr Task × ℤ)
load_demo_start p t = load_task_start true p t

abbrev pub load_demo_stop : Ptr Task → Life (Ptr Task × ℤ)
load_demo_stop t = load_task_stop true t

abbrev pub load_demo_destroy : Ptr Task → Life (Ptr Task)
load_demo_destroy t = load_task_destroy t

abbrev pub load_demo_done : Ptr Task → Life (Ptr Task)
load_demo_done t = load_task_done true t

abbrev pub load_vmon_create : Bool → Ptr Task
load_vmon_create memory = load_task_create memory

abbrev pub load_vmon_start : Pthread → Ptr Task → Life (Ptr Task × ℤ)
load_vmon_start p t = load_task_start true p t

abbrev pub load_vmon_stop : Ptr Task → Life (Ptr Task × ℤ)
load_vmon_stop t = load_task_stop true t

abbrev pub load_vmon_destroy : Ptr Task → Life (Ptr Task)
load_vmon_destroy t = load_task_destroy t

abbrev pub load_vmon_done : Ptr Task → Life (Ptr Task)
load_vmon_done t = load_task_done true t

abbrev pub load_node_state_start : Pthread → Ptr Task → Life (Ptr Task × ℤ)
load_node_state_start p t = load_task_start true p t

abbrev pub load_node_state_stop : Ptr Task → Life (Ptr Task × ℤ)
load_node_state_stop t = load_task_stop true t

abbrev pub load_node_state_destroy : Ptr Task → Life (Ptr Task)
load_node_state_destroy t = load_task_destroy t

abbrev pub load_node_state_done : Ptr Task → Life (Ptr Task)
load_node_state_done t = load_task_done true t

abbrev pub load_child_create : Bool → Ptr Task
load_child_create memory = load_task_create memory

abbrev pub load_child_start : Bool → Pthread → Ptr Task → Life (Ptr Task × ℤ)
load_child_start over p t = load_task_start over p t

abbrev pub load_child_stop : Bool → Ptr Task → Life (Ptr Task × ℤ)
load_child_stop over t = load_task_stop over t

abbrev pub load_child_destroy : Ptr Task → Life (Ptr Task)
load_child_destroy t = load_task_destroy t

abbrev pub load_child_done : Bool → Ptr Task → Life (Ptr Task)
load_child_done over t = load_task_done over t

-- The whole life of a task for which there is memory. Where all calls of the start succeed, its
-- memory is freed if the thread returns once the condition is off; if it does not, as that of the
-- child while its watch runs, the end waits for ever. Where a call of the start fails the end joins
-- a thread that was never created.
pub load_task_life :
    (over : Bool) (p : Pthread)
    → (load_task_start over p (load_task_create true) >>= λ r. load_task_done over r.0)
      ≡ (if all_ready p then (if over then ended freed else blocked) else crashed)
unfolding load_task_start load_task_create load_task_done load_task_stop load_task_destroy
load_task_life over p = by_calls over (mutex_ready p) p.create
  where
    started : Bool → Bool → Life (Ptr Task × ℤ)
    started ready created =
        if ready
        then ended (
          live (record { cond = true; initialized = true; mutex = true; thread = created }),
          ℤ.pos 0,
        )
        else crashed

    by_calls :
        (finished ready created : Bool)
        → (started ready created >>= λ r. load_task_done finished r.0)
          ≡ (if ready && created then (if finished then ended freed else blocked) else crashed)
    by_calls true true true = refl
    by_calls false true true = refl
    by_calls finished true false = refl
    by_calls finished false created = refl

-- A pointer to a task that runs, or none.
abbrev pub IsHealthy : Ptr Task → Type 0
IsHealthy null = Unit
IsHealthy freed = ⊥
IsHealthy (live t) = t.thread ≡ true

abbrev pub after_done : Ptr Task → Ptr Task
after_done null = null
after_done freed = freed
after_done (live t) = freed

-- Ending a task that was never created, or that runs, does not crash.
pub done-IsHealthy : (p : Ptr Task) → IsHealthy p → load_task_done true p ≡ ended (after_done p)
unfolding load_task_done load_task_stop load_task_destroy
done-IsHealthy null h = refl
done-IsHealthy freed h = absurd h
done-IsHealthy (live t) h = elim (Bool-cases t.initialized) [
  | inl on ↦ rw (on, h) refl
  | inr off ↦ rw off refl
]

-- A start whose calls succeed leaves a task running, if there is memory for it.
pub start-IsHealthy :
    (over memory : Bool) (p : Pthread)
    → all_ready p ≡ true
    → (q : Ptr Task) × (n : ℤ) × (load_task_start over p (load_task_create memory) ≡ ended (q, n))
      × IsHealthy q
unfolding load_task_start load_task_create
start-IsHealthy over false p ready = (null, minus_one, refl, tt)
start-IsHealthy over true p ready = (
  live (record { cond = true; initialized = true; mutex = true; thread = p.create }),
  ℤ.pos 0,
  rw mutexes refl,
  created,
)
  where
    mutexes : mutex_ready p ≡ true
    mutexes = ground (arith, ready)

    created : p.create ≡ true
    created = ground (arith, ready)
