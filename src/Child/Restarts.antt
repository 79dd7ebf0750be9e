-- ===== src/Child/Restarts.antt =====
-- src/load/load_child.c: how often `load_child_thread` starts the media server.
use vmp_rl.Base.{
  ◌+◌, ◌≡◌, ◌≢◌, refl, ap, ◌∙◌, List, [], ◌∷◌, ◌++◌, done, ℤ, minus_one, ◌⊎◌, inl, inr, arith,
  length, All, ℕ, true, false, ◌<◌, ◌≤◌, ◌^◌,
}
use vmp_rl.Ipc.Segment.{ChildOp, ShmData, null, failed, mapped}
use vmp_rl.Ipc.Device.{Sysv, ShmDev, ipc_shared_init}
use vmp_rl.Ipc.Counter.{count_rounds, ipc_shared_proc_counts}
use vmp_rl.Ipc.Watch.{Watch, watching, looped, Schedule, ipc_shared_proc}
use vmp_rl.Ipc.Deadline.{WellFed, ipc_shared_proc_keeps}
use vmp_rl.Child.Process.{Os, returned, unfinished, crashed, ◌>>=◌}
use vmp_rl.Child.Thread.{
  Private, Turn, used_early, after_watch, load_child_loop, after_init, load_child_thread,
}
use vmp_rl.Child.Turns.{
  FallsSilent, CanFork, init-mapped, init-unmapped, start_child-IsStart, watch-shmbuf, started,
  renewals, null_restarts, loop_restarts,
}

module _ (os : Os) (can : CanFork os) where
  -- The thread up to its loop.
  thread-start :
      (sysv : Sysv) (semctl : ℤ) (turns : List Turn) (p : Private) (s : os.S) {dev : ShmDev}
      {seg : ShmData} {n : ℤ}
      → ipc_shared_init sysv p.ipcs p.seg ≡ done (dev, seg, n)
      → (q : Private) × (load_child_thread os sysv semctl turns p s
          ≡ (load_child_loop os turns q (started os can s) >>= λ b. returned b))
        × (q.ipcs ≡ dev)
        × (length q.pids ≡ length p.pids + 1)
  unfolding load_child_thread
  thread-start sysv semctl turns p s {dev} {seg} e =
      let now : Private = record p { ipcs = dev; seg = seg } in
      let r = start_child-IsStart os can now s in
      (
        record now { pids = r.0 ∷ p.pids },
        ap (λ i. after_init os i sysv semctl turns p s) e
            ∙ ap (λ m. m >>= λ a. load_child_loop os turns a.0 a.1 >>= λ b. returned b) r.1,
        refl,
        omega arith,
      )

  -- The thread behind its restarts, and the watch that it is in.
  pub restarts-watching :
      (sysv : Sysv) (semctl : ℤ) (turns : List Turn) (last : Turn) (p : Private) (s : os.S)
      {dev : ShmDev} {seg : ShmData}
      → p.ipcs.shmbuf ≡ null
      → ipc_shared_init sysv p.ipcs p.seg ≡ done (dev, seg, ℤ.pos 0)
      → p.pids ≡ []
      → All FallsSilent turns
      → WellFed last.rounds
      → (seg' : ShmData) × (vmon' : ℕ) × (w : Watch) × (q : Private) × (s' : os.S)
        × (ipc_shared_proc mapped seg' vmon' last.rounds ≡ done (looped (watching w)))
        × (q.vmon ≡ w.vmon)
        × (load_child_thread os sysv semctl (turns ++ last ∷ []) p s ≡ unfinished s' q)
        × (length q.pids ≡ length turns + 1)
  unfolding load_child_loop after_watch
  restarts-watching sysv semctl turns last p s fresh e new silent fed =
      let a = thread-start sysv semctl (turns ++ last ∷ []) p s e in
      let on = ap (λ (d : ShmDev). d.shmbuf) a.2 ∙ init-mapped sysv p.ipcs p.seg fresh e in
      let r = loop_restarts os can turns (last ∷ []) a.0 (started os can s) on silent in
      let c = used_early last.early r.0 in
      let on' = ap (λ (d : ShmDev). d.shmbuf) r.3 ∙ on in
      let k = ipc_shared_proc_keeps c.seg c.vmon last.rounds fed in
      let w = k.0 in
      (
        c.seg,
        c.vmon,
        w,
        record c { seg = w.seg; vmon = w.vmon },
        os.sleep r.1,
        k.1,
        refl,
        a.1
            ∙ ap (λ m. m >>= λ b. returned b)
                (r.2
                  ∙ ap (λ m. m >>= λ c. load_child_loop os [] c.0 c.1)
                      (watch-shmbuf os can c last.rounds r.1 on' k.1)),
        omega (arith, r.4, a.3, ap (length {A = ℤ}) new),
      )

  -- Where `ipc_shared_init` succeeds on a fresh device and every fork succeeds, the server is
  -- started once, and anew after each schedule with sixty silent rounds in a row; in a schedule
  -- with a feeding among any fifty-nine rounds in a row it is watched to the end and left running.
  -- As many pids are logged.
  pub load_child_thread_restarts :
      (sysv : Sysv) (semctl : ℤ) (turns : List Turn) (last : Turn) (p : Private) (s : os.S)
      {dev : ShmDev} {seg : ShmData}
      → p.ipcs.shmbuf ≡ null
      → ipc_shared_init sysv p.ipcs p.seg ≡ done (dev, seg, ℤ.pos 0)
      → p.pids ≡ []
      → All FallsSilent turns
      → WellFed last.rounds
      → (q : Private) × (s' : os.S) × (load_child_thread os sysv semctl (turns ++ last ∷ []) p s
          ≡ unfinished s' q)
        × (length q.pids ≡ length turns + 1)
  load_child_thread_restarts sysv semctl turns last p s fresh e new silent fed =
      let r = restarts-watching sysv semctl turns last p s fresh e new silent fed in
      (r.3, r.4, r.7, r.8)

  -- Under the same conditions, what `load_child_connection_get` reads while a server that feeds the
  -- watchdog is watched is the number of connections opened less those closed since its watch began,
  -- as long as those numbers fit, whatever the servers before it did. What the server itself did
  -- before the watch cleared the shared data is lost.
  pub load_child_thread_counts :
      (sysv : Sysv) (semctl : ℤ) (turns : List Turn) (early ops : List ChildOp) (rest : Schedule)
      (p : Private) (s : os.S) {dev : ShmDev} {seg : ShmData}
      → p.ipcs.shmbuf ≡ null
      → ipc_shared_init sysv p.ipcs p.seg ≡ done (dev, seg, ℤ.pos 0)
      → p.pids ≡ []
      → All FallsSilent turns
      → WellFed (ops ∷ rest)
      → count_rounds false (ops ∷ rest) ≤ count_rounds true (ops ∷ rest)
      → count_rounds true (ops ∷ rest) < 2 ^ 32
      → (q : Private) × (s' : os.S) × (load_child_thread os sysv semctl
            (turns ++ record { early = early; rounds = ops ∷ rest } ∷ [])
            p
            s
          ≡ unfinished s' q)
        × (q.vmon + count_rounds false (ops ∷ rest) ≡ count_rounds true (ops ∷ rest))
  load_child_thread_counts sysv semctl turns early ops rest p s fresh e new silent fed small fits =
      let r =
        restarts-watching sysv semctl turns (record { early = early; rounds = ops ∷ rest }) p s
          fresh e new silent fed in
      (r.3, r.4, r.7, omega (arith, ipc_shared_proc_counts r.0 r.1 ops rest r.5 small fits, r.6))

  loop_crashes :
      (turns : List Turn) (p : Private) (s : os.S)
      → p.ipcs.shmbuf ≡ failed
      → turns ≢ []
      → load_child_loop os turns p s ≡ crashed
  unfolding load_child_loop after_watch ipc_shared_proc
  loop_crashes [] p s e some_turn = absurd (some_turn refl)
  loop_crashes (t ∷ more) p s e some_turn =
      ap (λ m. m >>= λ a. load_child_loop os more a.0 a.1)
        (watch-shmbuf os can (used_early t.early p) t.rounds s e refl)

  -- Where `ipc_shared_init` fails on a fresh device and every fork succeeds, the thread goes on all
  -- the same. Without a buffer it starts the server and then, in each turn, gives the command that
  -- kills it and starts it anew, whether it feeds the watchdog or not: the system is left as these
  -- commands and forks and the sleeps behind them leave it, in this order. With the buffer of a
  -- failed `shmat` it crashes in the first turn.
  pub load_child_thread_unmapped :
      (sysv : Sysv) (semctl : ℤ) (turns : List Turn) (p : Private) (s : os.S) {dev : ShmDev}
      {seg : ShmData}
      → p.ipcs.shmbuf ≡ null
      → ipc_shared_init sysv p.ipcs p.seg ≡ done (dev, seg, minus_one)
      → p.pids ≡ []
      → turns ≢ []
      → ((dev.shmbuf ≡ null)
          × (q : Private) × (load_child_thread os sysv semctl turns p s
              ≡ returned (q, renewals os can turns (started os can s)))
          × (length q.pids ≡ length turns + 1))
        ⊎ ((dev.shmbuf ≡ failed) × (load_child_thread os sysv semctl turns p s ≡ crashed))
  load_child_thread_unmapped sysv semctl turns p s fresh e new some_turn =
      let a = thread-start sysv semctl turns p s e in
      let buffer = ap (λ (d : ShmDev). d.shmbuf) a.2 in
      elim (init-unmapped sysv p.ipcs p.seg fresh e) [
        | inl b ↦
            let r = null_restarts os can turns a.0 (started os can s) (buffer ∙ b) in
            inl (
              b,
              r.0,
              a.1 ∙ ap (λ m. m >>= λ b. returned b) r.1,
              omega (arith, r.2, a.3, ap (length {A = ℤ}) new),
            )
        | inr b ↦
            let r = loop_crashes turns a.0 (started os can s) (buffer ∙ b) some_turn in
            inr (b, a.1 ∙ ap (λ m. m >>= λ b. returned b) r)
      ]
