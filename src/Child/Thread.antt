-- ===== src/Child/Thread.antt =====
-- src/load/load_child.c: `load_child_thread`, which keeps a media server running.
use vmp_rl.Base.{ℕ, List, [], ◌∷◌, some, Run, done, fault, ℤ, codes}
use vmp_rl.Ipc.Segment.{ShmData, ChildOp, child_ops}
use vmp_rl.Ipc.Device.{Sysv, ShmDev, ipc_shared_init, ipc_shared_done}
use vmp_rl.Ipc.Watch.{Schedule, watching, bitten, Proc, returned, looped, ipc_shared_proc}
use vmp_rl.Child.Process.{Os, Flow, returned, unfinished, crashed, ◌>>=◌, kill_app, vmp_run_process}

-- `ipcs` with the segment it maps, `shared.vmon`, and the pids that were logged, the newest first.
pub record Private : Type 0 where
  pub ipcs : ShmDev
  pub seg : ShmData
  pub vmon : ℕ
  pub pids : List ℤ

-- What the server does before the watch clears the shared data, and what it does in each second of
-- the watch.
pub record Turn : Type 0 where
  pub early : List ChildOp
  pub rounds : Schedule

-- The shared data behind operations of the server.
abbrev pub used_early : List ChildOp → Private → Private
used_early ops p = record p { seg = child_ops ops p.seg }

abbrev pub path_vmp_sa : List ℕ
path_vmp_sa = codes "./vmp-sa"

module _ (os : Os) where
  -- `vmp_run_process`, and the log line with the pid.
  unfoldable pub start_child : Private → os.S → Flow os.S Private (Private × os.S)
  start_child p s = vmp_run_process os (some path_vmp_sa) s >>= λ r.
      returned (record p { pids = r.1 ∷ p.pids }, r.0)

  -- The rest of a turn, behind `ipc_shared_proc`, and the `sleep(2)`.
  unfoldable pub restart : Private → os.S → Flow os.S Private (Private × os.S)
  unfolding start_child
  restart p s =
      let killed = kill_app os s in start_child p killed.0 >>= λ r. returned (r.0, os.sleep r.1)

  -- The answer of the watch is not looked at.
  unfoldable pub after_watch : Run Proc → Private → os.S → Flow os.S Private (Private × os.S)
  unfolding restart
  after_watch fault p s = crashed
  after_watch (done (Proc.returned n)) p s = restart p s
  after_watch (done (looped (watching w))) p s =
      unfinished (os.sleep s) (record p { seg = w.seg; vmon = w.vmon })
  after_watch (done (looped (bitten w rest))) p s =
      restart (record p { seg = w.seg; vmon = w.vmon }) (os.sleep s)

  -- The condition holds for the given turns, and is found off then.
  unfoldable pub load_child_loop : List Turn → Private → os.S → Flow os.S Private (Private × os.S)
  unfolding after_watch
  load_child_loop [] p s = returned (p, s)
  load_child_loop (t ∷ more) p s =
      let q = used_early t.early p in
      after_watch (ipc_shared_proc q.ipcs.shmbuf q.seg q.vmon t.rounds) q s >>= λ r.
      load_child_loop more r.0 r.1

  -- The thread behind `ipc_shared_init`; `semctl` is the answer to the removal of the semaphore at
  -- the end.
  unfoldable pub after_init :
      Run (ShmDev × ShmData × ℤ)
      → Sysv
      → (semctl : ℤ) → List Turn
      → Private
      → os.S
      → Flow os.S Private (Private × os.S)
  unfolding load_child_loop
  after_init fault sysv semctl turns p s = crashed
  after_init (done r) sysv semctl turns p s =
      start_child (record p { ipcs = r.0; seg = r.1 }) s >>= λ a.
      load_child_loop turns a.0 a.1 >>= λ b.
      let closed = ipc_shared_done sysv semctl b.0.ipcs in returned b

  unfoldable pub load_child_thread :
      Sysv → (semctl : ℤ) → List Turn → Private → os.S → Flow os.S Private (Private × os.S)
  unfolding after_init
  load_child_thread sysv semctl turns p s =
      after_init (ipc_shared_init sysv p.ipcs p.seg) sysv semctl turns p s
