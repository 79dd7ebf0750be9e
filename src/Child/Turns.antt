-- ===== src/Child/Turns.antt =====
-- src/load/load_child.c: the turns of `load_child_thread` in which the media server is started anew.
use vmp_rl.Base.{
  ℕ, suc, ◌+◌, ◌≤◌, ◌≡◌, refl, ap, ◌∙◌, List, [], ◌∷◌, ◌++◌, Run, done, false, ◌==◌, ℤ, minus_one,
  ◌⊎◌, inl, inr, arith, length, All,
}
use vmp_rl.Ipc.Segment.{ShmData, ShmBuf, null, failed, mapped}
use vmp_rl.Ipc.Device.{Sysv, ShmDev, ipc_shared_init, ipc_shared_init_lem}
use vmp_rl.Ipc.Watch.{Schedule, Proc, ipc_shared_proc}
use vmp_rl.Ipc.Rounds.{Silent}
use vmp_rl.Ipc.Deadline.{ipc_shared_proc_gives_up}
use vmp_rl.Child.Process.{Os, Flow, returned, ◌>>=◌, kill_command, kill_app, vmp_run_process}
use vmp_rl.Child.Thread.{
  Private, Turn, used_early, start_child, restart, after_watch, load_child_loop,
}

-- Sixty silent rounds in a row.
pub record HasSilence (sched : Schedule) : Type 0 where
  pub before : Schedule
  pub quiet : Schedule
  pub post : Schedule
  pub split : sched ≡ before ++ quiet ++ post
  pub silent : Silent quiet
  pub long : 60 ≤ length quiet

-- Every fork gives a pid.
abbrev pub CanFork : Os → Type 0
CanFork os = (s : os.S) → (n : ℕ) × ((os.fork s).1 ≡ ℤ.pos (suc n))

-- A turn whose watch gives the server up.
abbrev pub FallsSilent : Turn → Type 0
FallsSilent t = HasSilence t.rounds

-- What a fresh device maps after `ipc_shared_init`, by its answer.
pub init-mapped :
    (sysv : Sysv) (ipcs : ShmDev) (d : ShmData) {dev : ShmDev} {seg : ShmData}
    → ipcs.shmbuf ≡ null
    → ipc_shared_init sysv ipcs d ≡ done (dev, seg, ℤ.pos 0)
    → dev.shmbuf ≡ mapped
init-mapped sysv ipcs d fresh up = elim (ipc_shared_init_lem sysv ipcs d fresh).1 [
  | inl (e, m) ↦ cc
  | inr (e, b) ↦ cc
]

pub init-unmapped :
    (sysv : Sysv) (ipcs : ShmDev) (d : ShmData) {dev : ShmDev} {seg : ShmData}
    → ipcs.shmbuf ≡ null
    → ipc_shared_init sysv ipcs d ≡ done (dev, seg, minus_one)
    → (dev.shmbuf ≡ null) ⊎ (dev.shmbuf ≡ failed)
init-unmapped sysv ipcs d fresh down = elim (ipc_shared_init_lem sysv ipcs d fresh).1 [
  | inl (e, m) ↦ cc
  | inr (e, inl b) ↦ inl cc
  | inr (e, inr b) ↦ inr cc
]

suc-==-zero : (n : ℕ) → (suc n == 0) ≡ false
suc-==-zero n = ground arith

module _ (os : Os) (can : CanFork os) where
  -- The system behind a start, and behind the end of a turn: the server is killed, and started.
  abbrev pub started : os.S → os.S
  started s = os.sleep (os.fork s).0

  abbrev pub renewed : os.S → os.S
  renewed s = os.sleep (started (os.system_ex kill_command 3 s).0)

  -- As many of these as there are turns.
  abbrev pub renewals : List Turn → os.S → os.S
  renewals [] s = s
  renewals (t ∷ turns) s = renewals turns (renewed s)

  -- A call that returns, with one more pid logged and nothing else changed but the system.
  abbrev pub IsStart : Private → os.S → Flow os.S Private (Private × os.S) → Type 0
  IsStart p s' m = (pid : ℤ) × (m ≡ returned (record p { pids = pid ∷ p.pids }, s'))

  pub start_child-IsStart : (p : Private) (s : os.S) → IsStart p (started s) (start_child os p s)
  unfolding start_child vmp_run_process
  start_child-IsStart p s = ((os.fork s).1, rw ((can s).1, suc-==-zero (can s).0) refl)

  restart-IsStart : (p : Private) (s : os.S) → IsStart p (renewed s) (restart os p s)
  unfolding restart kill_app
  restart-IsStart p s =
      let r = start_child-IsStart p (kill_app os s).0 in
      (r.0, ap (λ m. m >>= λ a. returned (a.0, os.sleep a.1)) r.1)

  -- A turn of the loop in which the server is started anew.
  abbrev pub Restarts : Private → Schedule → os.S → Type 0
  Restarts p sched s =
      (q : Private) × (s' : os.S) × (after_watch os
          (ipc_shared_proc p.ipcs.shmbuf p.seg p.vmon sched) p s
        ≡ returned (q, s'))
      × (q.ipcs ≡ p.ipcs)
      × (length q.pids ≡ length p.pids + 1)

  pub watch-shmbuf :
      (p : Private) (sched : Schedule) (s : os.S) {b : ShmBuf} {proc : Run Proc}
      → p.ipcs.shmbuf ≡ b
      → ipc_shared_proc b p.seg p.vmon sched ≡ proc
      → after_watch os (ipc_shared_proc p.ipcs.shmbuf p.seg p.vmon sched) p s
        ≡ after_watch os proc p s
  watch-shmbuf p sched s e eq =
      ap (λ c. after_watch os (ipc_shared_proc c p.seg p.vmon sched) p s) e
      ∙ ap (λ r. after_watch os r p s) eq

  pub HasSilence-Restarts :
      (p : Private) (sched : Schedule) (s : os.S)
      → p.ipcs.shmbuf ≡ mapped
      → HasSilence sched
      → Restarts p sched s
  unfolding after_watch
  HasSilence-Restarts p sched s e h =
      let up = ipc_shared_proc_gives_up p.seg p.vmon h.before h.quiet h.post h.silent h.long in
      let w = up.0 in
      let now : Private = record p { seg = w.seg; vmon = w.vmon } in
      let r = restart-IsStart now (os.sleep s) in
      (
        record now { pids = r.0 ∷ p.pids },
        renewed (os.sleep s),
        watch-shmbuf p sched s e (ap (ipc_shared_proc mapped p.seg p.vmon) h.split ∙ up.2) ∙ r.1,
        refl,
        omega arith,
      )

  -- Turns that start the server anew, one after the other.
  pub loop_restarts :
      (turns rest : List Turn) (p : Private) (s : os.S)
      → p.ipcs.shmbuf ≡ mapped
      → All FallsSilent turns
      → (q : Private) × (s' : os.S) × (load_child_loop os (turns ++ rest) p s
          ≡ load_child_loop os rest q s')
        × (q.ipcs ≡ p.ipcs)
        × (length q.pids ≡ length p.pids + length turns)
  unfolding load_child_loop
  loop_restarts [] rest p s e h = (p, s, refl, refl, omega arith)
  loop_restarts (t ∷ turns) rest p s e h =
      let a = HasSilence-Restarts (used_early t.early p) t.rounds s e h.0 in
      let r = loop_restarts turns rest a.0 a.1 (ap (λ (d : ShmDev). d.shmbuf) a.3 ∙ e) h.1 in
      (
        r.0,
        r.1,
        ap (λ m. m >>= λ b. load_child_loop os (turns ++ rest) b.0 b.1) a.2 ∙ r.2,
        r.3 ∙ a.3,
        omega (arith, r.4, a.4),
      )

  -- A turn without a buffer.
  null-IsStart :
      (p : Private) (sched : Schedule) (s : os.S)
      → p.ipcs.shmbuf ≡ null
      → IsStart p
          (renewed s)
          (after_watch os (ipc_shared_proc p.ipcs.shmbuf p.seg p.vmon sched) p s)
  unfolding after_watch ipc_shared_proc
  null-IsStart p sched s e =
      let r = restart-IsStart p s in (r.0, watch-shmbuf p sched s e refl ∙ r.1)

  -- Turns without a buffer.
  pub null_restarts :
      (turns : List Turn) (p : Private) (s : os.S)
      → p.ipcs.shmbuf ≡ null
      → (q : Private) × (load_child_loop os turns p s ≡ returned (q, renewals turns s))
        × (length q.pids ≡ length p.pids + length turns)
  unfolding load_child_loop
  null_restarts [] p s e = (p, refl, omega arith)
  null_restarts (t ∷ turns) p s e =
      let a = null-IsStart (used_early t.early p) t.rounds s e in
      let now : Private = record (used_early t.early p) { pids = a.0 ∷ p.pids } in
      let r = null_restarts turns now (renewed s) e in
      (r.0, ap (λ m. m >>= λ b. load_child_loop os turns b.0 b.1) a.1 ∙ r.1, omega (arith, r.2))
