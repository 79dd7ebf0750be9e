-- ===== src/Child/Tests.antt =====
-- The theorems on src/vmp/vmp_process.c and src/load/load_child.c at concrete inputs.
use vmp_rl.Ipc.Deadline.{WellFed}
use vmp_rl.Base.{
  List, ap, length-append, true, ℕ, ◌+◌, ◌≤◌, ◌≡◌, ◌⊎◌, inl, refl, false, [], ◌∷◌, ◌++◌, none, done,
  ℤ, minus_one, arith, leb, if◌then◌else◌, length,
}
use vmp_rl.Ipc.Segment.{null, failed, feed, zeroed, ChildOp, conn}
use vmp_rl.Ipc.Device.{Sysv, ShmDev, ipc_shared_init}
use vmp_rl.Ipc.Watch.{Schedule}
use vmp_rl.Ipc.Tests.{
  fed_rounds, quiet_rounds, replicate-Silent, fed_rounds-WellFed, working, fresh, opened,
}
use vmp_rl.Child.Process.{Os, returned, unfinished, crashed, eqb_ℤ, vmp_waitpid}
use vmp_rl.Child.Thread.{Private, Turn, load_child_thread}
use vmp_rl.Child.Waiting
use vmp_rl.Child.Alone
use vmp_rl.Child.Turns.{FallsSilent}
use vmp_rl.Child.Restarts

-- A state has the number of media servers that run, and the seconds since the start.
abbrev toy_os : Os
toy_os = record {
  S = ℕ × ℕ;
  fork = λ s. ((s.0 + 1, s.1), ℤ.pos 70);
  execv = λ cmd s. none;
  system_ex = λ cmd seconds s. ((0, s.1), ℤ.pos 0);
  waitpid = λ pid s. (s, if leb 2 s.1 then pid else ℤ.pos 0);
  sleep = λ s. (s.0, s.1 + 1);
}

vmp_waitpid_lem_example :
    (n : ℕ) × Waiting.IsQuiet toy_os (ℤ.pos 70) n (1, 0)
    × (((n ≤ 3)
          × (eqb_ℤ (Waiting.poll toy_os (ℤ.pos 70) n (1, 0)).1 (ℤ.pos 0) ≡ false)
          × (vmp_waitpid toy_os (ℤ.pos 70) (1, 0) ≡ (
            (Waiting.poll toy_os (ℤ.pos 70) n (1, 0)).0,
            if eqb_ℤ (Waiting.poll toy_os (ℤ.pos 70) n (1, 0)).1 (ℤ.pos 70)
                then ℤ.pos 0
                else minus_one,
          )))
        ⊎ ((n ≡ 4)
            × (vmp_waitpid toy_os (ℤ.pos 70) (1, 0)
                ≡ (Waiting.after_polls toy_os (ℤ.pos 70) n (1, 0), ℤ.pos 0))))
vmp_waitpid_lem_example = Waiting.vmp_waitpid_lem toy_os (ℤ.pos 70) (1, 0)

abbrev toy_count : Alone.Count toy_os
toy_count = record {
  running = λ s. s.0;
  killed = λ s answered. refl;
  missed = λ s. omega arith;
  forked = λ s. omega arith;
  slept = λ s. omega arith;
}

abbrev toy_kills : Alone.CanKill toy_os toy_count
toy_kills s = inl refl

abbrev start : Private
start = record { ipcs = fresh; seg = zeroed; vmon = 0; pids = [] }

-- A schedule in which the server falls silent, and one in which it is fed.
abbrev silent_rounds : Schedule
silent_rounds = fed_rounds ++ quiet_rounds ++ fed_rounds

-- Two connections are opened before the watch, and closed at no time.
abbrev silent_turn : Turn
silent_turn = record { early = conn true ∷ conn true ∷ []; rounds = silent_rounds }

abbrev fed_turn : Turn
fed_turn = record { early = []; rounds = fed_rounds }

load_child_thread-IsAlways_example :
    Alone.IsAlways toy_os toy_count toy_kills
      (load_child_thread toy_os working (ℤ.pos 0) (silent_turn ∷ fed_turn ∷ []) start (0, 0))
load_child_thread-IsAlways_example =
    Alone.load_child_thread-IsAlways toy_os toy_count toy_kills working (ℤ.pos 0)
      (silent_turn ∷ fed_turn ∷ []) start (0, 0) refl

silent_turn-FallsSilent : FallsSilent silent_turn
silent_turn-FallsSilent = record {
  before = fed_rounds;
  quiet = quiet_rounds;
  post = fed_rounds;
  split = refl;
  silent = replicate-Silent 60;
  long = omega arith;
}

working_start : ipc_shared_init working fresh zeroed ≡ done (opened, zeroed, ℤ.pos 0)
unfolding ipc_shared_init
working_start = refl

load_child_thread_restarts_example :
    (q : Private) × (s' : ℕ × ℕ) × (load_child_thread toy_os working
        (ℤ.pos 0)
        ((silent_turn ∷ []) ++ fed_turn ∷ [])
        start
        (0, 0)
      ≡ unfinished s' q)
    × (length q.pids ≡ 2)
load_child_thread_restarts_example =
    Restarts.load_child_thread_restarts toy_os (λ s. (69, refl)) working (ℤ.pos 0)
      (silent_turn ∷ []) fed_turn start (0, 0) refl working_start refl (silent_turn-FallsSilent, tt)
      fed_rounds-WellFed

-- Two connections are opened in one round and one is closed in the next, which feeds the watchdog.
abbrev opening : List ChildOp
opening = conn true ∷ conn true ∷ []

abbrev closing : Schedule
closing = (feed ∷ conn false ∷ []) ∷ []

counted-WellFed : WellFed (opening ∷ closing)
counted-WellFed before quiet post split long silent =
    absurd (omega (arith, short before quiet post split))
  where
    short : (b q p : Schedule) → opening ∷ closing ≡ b ++ q ++ p → length q ≤ 2
    short b q p e =
        omega (arith, ap (length {A = List ChildOp}) e, length-append (b ++ q) p, length-append b q)

load_child_thread_counts_example :
    (q : Private) × (s' : ℕ × ℕ) × (load_child_thread toy_os working
        (ℤ.pos 0)
        ((silent_turn ∷ []) ++ record { early = conn true ∷ []; rounds = opening ∷ closing } ∷ [])
        start
        (0, 0)
      ≡ unfinished s' q)
    × (q.vmon + 1 ≡ 2)
load_child_thread_counts_example =
    Restarts.load_child_thread_counts toy_os (λ s. (69, refl)) working (ℤ.pos 0) (silent_turn ∷ [])
      (conn true ∷ []) opening closing start (0, 0) refl working_start refl
      (silent_turn-FallsSilent, tt) counted-WellFed (omega arith) (omega arith)

-- The segment does not exist.
abbrev no_segment : Sysv
no_segment = record working { shmget = λ key size. minus_one }

abbrev unopened : ShmDev
unopened = record fresh { semid = ℤ.pos 8; size = 68 }

no_segment_start : ipc_shared_init no_segment fresh zeroed ≡ done (unopened, zeroed, minus_one)
unfolding ipc_shared_init
no_segment_start = refl

-- The server is fed in both turns, and started three times.
load_child_thread_unmapped_example :
    ((unopened.shmbuf ≡ null)
      × (q : Private) × (load_child_thread toy_os no_segment
            (ℤ.pos 0)
            (fed_turn ∷ fed_turn ∷ [])
            start
            (0, 0)
          ≡ returned (q, (1, 5)))
      × (length q.pids ≡ 3))
    ⊎ ((unopened.shmbuf ≡ failed)
        × (load_child_thread toy_os no_segment (ℤ.pos 0) (fed_turn ∷ fed_turn ∷ []) start (0, 0)
            ≡ crashed))
load_child_thread_unmapped_example =
    Restarts.load_child_thread_unmapped toy_os (λ s. (69, refl)) no_segment (ℤ.pos 0)
      (fed_turn ∷ fed_turn ∷ []) start (0, 0) refl no_segment_start refl (λ e. cc)
