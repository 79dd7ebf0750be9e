-- ===== src/Child/Alone.antt =====
-- src/load/load_child.c: how many media servers `load_child_thread` keeps running.
use vmp_rl.Base.{
  ℕ, suc, ◌≤◌, ◌≡◌, List, [], ◌∷◌, Option, none, some, Run, done, fault, ℤ, arith, Bool, true,
  false, if◌then◌else◌, ◌⊎◌, inl, inr,
}
use vmp_rl.Ipc.Device.{Sysv, ShmDev, is_neg, ipc_shared_init}
use vmp_rl.Ipc.Segment.{ShmData}
use vmp_rl.Ipc.Watch.{watching, bitten, Proc, looped, ipc_shared_proc}
use vmp_rl.Child.Process.{
  Os, Flow, returned, exited, replaced, unfinished, crashed, ◌>>=◌, eqb_ℤ, kill_command, kill_app,
  after_execv, vmp_run_process,
}
use vmp_rl.Child.Thread.{
  Private, Turn, used_early, start_child, restart, after_watch, load_child_loop, after_init,
  load_child_thread,
}

-- The media servers that run in a state of the system: a `killall` that answers 0 leaves none, and
-- another no more than there were, `fork` adds one at most, and in the course of time they may end
-- by themselves.
pub record Count (os : Os) : Type 0 where
  pub running : os.S → ℕ
  pub killed :
      (s : os.S)
      → (os.system_ex kill_command 3 s).1 ≡ ℤ.pos 0
      → running (os.system_ex kill_command 3 s).0 ≡ 0
  pub missed : (s : os.S) → running (os.system_ex kill_command 3 s).0 ≤ running s
  pub forked : (s : os.S) → running (os.fork s).0 ≤ suc (running s)
  pub slept : (s : os.S) → running (os.sleep s) ≤ running s

-- A predicate on the system wherever a call comes to an end, and one on what it returns.
abbrev pub Everywhere {ℓ κ} :
    {S P : Type 0} {A : Type ℓ} → (S → Type κ) → (A → Type κ) → Flow S P A → Type κ
Everywhere I Q (returned a) = Q a
Everywhere I Q (exited s n) = I s
Everywhere I Q (replaced s) = I s
Everywhere I Q (unfinished s p) = I s
Everywhere I Q crashed = Unit

Everywhere->>= {ℓ κ μ} :
    {S P : Type 0} {A : Type ℓ} {B : Type κ} (I : S → Type μ) {Q : A → Type μ} (R : B → Type μ)
    (m : Flow S P A) (f : A → Flow S P B)
    → Everywhere I Q m
    → ((a : A) → Q a → Everywhere I R (f a))
    → Everywhere I R (m >>= f)
Everywhere->>= I R (returned a) f h next = next a h
Everywhere->>= I R (exited s n) f h next = h
Everywhere->>= I R (replaced s) f h next = h
Everywhere->>= I R (unfinished s p) f h next = h
Everywhere->>= I R crashed f h next = tt

Everywhere-if {ℓ κ} :
    {S P : Type 0} {A : Type ℓ} (I : S → Type κ) (Q : A → Type κ) (b : Bool) (m n : Flow S P A)
    → Everywhere I Q m
    → Everywhere I Q n
    → Everywhere I Q (if b then m else n)
Everywhere-if I Q true m n hm hn = hm
Everywhere-if I Q false m n hm hn = hn

-- Wherever a server runs, the command that kills it answers 0.
abbrev pub CanKill : (os : Os) → Count os → Type 0
CanKill os count =
    (s : os.S) → ((os.system_ex kill_command 3 s).1 ≡ ℤ.pos 0) ⊎ (count.running s ≡ 0)

module _ (os : Os) (count : Count os) (can : CanKill os count) where
  kill-none : (s : os.S) → count.running (os.system_ex kill_command 3 s).0 ≡ 0
  kill-none s = elim (can s) [
    | inl answered ↦ count.killed s answered
    | inr absent ↦ omega (arith, count.missed s, absent)
  ]

  abbrev pub IsAlone : os.S → Type 0
  IsAlone s = count.running s ≤ 1

  -- One server at most, wherever the thread comes to an end.
  abbrev pub IsAlways : Flow os.S Private (Private × os.S) → Type 0
  IsAlways = Everywhere IsAlone (λ r. IsAlone r.1)

  -- The same of what a call returns besides.
  abbrev IsStarted : Flow os.S Private (os.S × ℤ) → Type 0
  IsStarted = Everywhere IsAlone (λ r. IsAlone r.0)

  after_execv-IsStarted : (o : Option ℤ) (s : os.S) → IsAlone s → IsStarted (after_execv os o s)
  unfolding after_execv
  after_execv-IsStarted none s h = h
  after_execv-IsStarted (some ret) s h =
      Everywhere-if IsAlone _ (is_neg ret) _ _ h (omega (arith, h, count.slept s))

  run_process-IsStarted :
      (cmd : List ℕ) (s : os.S) → count.running s ≡ 0 → IsStarted (vmp_run_process os (some cmd) s)
  unfolding vmp_run_process kill_app
  run_process-IsStarted cmd s h =
      let f = os.fork s in
      let one : IsAlone f.0 = omega (arith, h, count.forked s) in
      Everywhere-if IsAlone _ (is_neg f.1) _ _ (omega (arith, kill-none f.0)) (
        Everywhere-if IsAlone _ (eqb_ℤ f.1 (ℤ.pos 0)) _ _
          (after_execv-IsStarted (os.execv cmd f.0) f.0 one) (omega (arith, one, count.slept f.0)))

  start_child-IsAlways :
      (p : Private) (s : os.S) → count.running s ≡ 0 → IsAlways (start_child os p s)
  unfolding start_child
  start_child-IsAlways p s h =
      Everywhere->>= IsAlone _ (vmp_run_process os (some _) s) _ (run_process-IsStarted _ s h)
        (λ r one. one)

  restart-IsAlways : (p : Private) (s : os.S) → IsAlways (restart os p s)
  unfolding restart kill_app
  restart-IsAlways p s =
      let killed = (os.system_ex kill_command 3 s).0 in
      Everywhere->>= IsAlone _ (start_child os p killed) _
        (start_child-IsAlways p killed (kill-none s)) (λ r one. omega (arith, one, count.slept r.1))

  after_watch-IsAlways :
      (proc : Run Proc) (p : Private) (s : os.S) → IsAlone s → IsAlways (after_watch os proc p s)
  unfolding after_watch
  after_watch-IsAlways fault p s h = tt
  after_watch-IsAlways (done (Proc.returned n)) p s h = restart-IsAlways p s
  after_watch-IsAlways (done (looped (watching w))) p s h = omega (arith, h, count.slept s)
  after_watch-IsAlways (done (looped (bitten w rest))) p s h = restart-IsAlways _ (os.sleep s)

  loop-IsAlways :
      (turns : List Turn) (p : Private) (s : os.S)
      → IsAlone s
      → IsAlways (load_child_loop os turns p s)
  unfolding load_child_loop
  loop-IsAlways [] p s h = h
  loop-IsAlways (t ∷ more) p s h =
      let q = used_early t.early p in
      let proc = ipc_shared_proc q.ipcs.shmbuf q.seg q.vmon t.rounds in
      Everywhere->>= IsAlone _ (after_watch os proc q s) _ (after_watch-IsAlways proc q s h)
        (λ r one. loop-IsAlways more r.0 r.1 one)

  after_init-IsAlways :
      (r : Run (ShmDev × ShmData × ℤ)) (sysv : Sysv) (semctl : ℤ) (turns : List Turn) (p : Private)
      (s : os.S)
      → count.running s ≡ 0
      → IsAlways (after_init os r sysv semctl turns p s)
  unfolding after_init
  after_init-IsAlways fault sysv semctl turns p s h = tt
  after_init-IsAlways (done r) sysv semctl turns p s h =
      let q = record p { ipcs = r.0; seg = r.1 } in
      Everywhere->>= IsAlone _ (start_child os q s) _ (start_child-IsAlways q s h) (λ a one.
        Everywhere->>= IsAlone _ (load_child_loop os turns a.0 a.1) _
          (loop-IsAlways turns a.0 a.1 one) (λ b still. still))

  -- Where no media server runs at first, and the command that kills a server answers 0 wherever one
  -- runs, as it then leaves none, there is one at most whenever the thread is at work, has
  -- ended, has ended the daemon, or has become the server itself, whatever fork, exec and the
  -- shared memory answer and whatever the servers do.
  pub load_child_thread-IsAlways :
      (sysv : Sysv) (semctl : ℤ) (turns : List Turn) (p : Private) (s : os.S)
      → count.running s ≡ 0
      → IsAlways (load_child_thread os sysv semctl turns p s)
  unfolding load_child_thread
  load_child_thread-IsAlways sysv semctl turns p s h =
      after_init-IsAlways (ipc_shared_init sysv p.ipcs p.seg) sysv semctl turns p s h
