-- ===== src/Ipc/Tests.antt =====
-- The theorems on src/ipcs/ipc_shared.c and src/vmp/vmp_shared.c at concrete inputs, and short runs.
use vmp_rl.Base.{
  ℕ, zero, suc, ◌+◌, ◌-◌, ◌^◌, ◌≤◌, ◌≡◌, refl, ◌⊎◌, ◌↔◌, Bool, true, false, List, [], ◌∷◌, ◌++◌,
  done, ℤ, minus_one, arith, replicate, length, ap, length-append,
}
use vmp_rl.Ipc.Segment.{ShmData, null, failed, mapped, zeroed, ChildOp, feed, conn, ipc_stream_conn}
use vmp_rl.Ipc.Device.{Sysv, ShmDev, ipc_sem_open, ipc_shared_init, ipc_shared_init_lem}
use vmp_rl.Ipc.Watch.{Watch, Schedule, watching, bitten, looped, ipc_shared_proc, tick}
use vmp_rl.Ipc.Rounds.{Silent}
use vmp_rl.Ipc.Deadline.{WellFed, ipc_shared_proc_gives_up, ipc_shared_proc_keeps}
use vmp_rl.Ipc.Counter.{ipc_shared_proc_counts, ipc_stream_conn-eq-minus_one}

abbrev pub fed_rounds : Schedule
fed_rounds = (feed ∷ []) ∷ (conn true ∷ []) ∷ []

abbrev pub quiet_rounds : Schedule
quiet_rounds = replicate 60 []

pub replicate-Silent : (n : ℕ) → Silent (replicate n [])
replicate-Silent zero = tt
replicate-Silent (suc n) = (refl, replicate-Silent n)

ipc_shared_proc_gives_up_example :
    (w : Watch) × (more : Schedule) × (ipc_shared_proc mapped zeroed 0
        (fed_rounds ++ quiet_rounds ++ fed_rounds)
      ≡ done (looped (bitten w (more ++ fed_rounds))))
ipc_shared_proc_gives_up_example =
    ipc_shared_proc_gives_up zeroed 0 fed_rounds quiet_rounds fed_rounds (replicate-Silent 60)
      (omega arith)

-- A schedule of two rounds has no fifty-nine in a row.
pub fed_rounds-WellFed : WellFed fed_rounds
fed_rounds-WellFed before quiet post split long silent =
    absurd (omega (arith, short before quiet post split))
  where
    short : (b q p : Schedule) → fed_rounds ≡ b ++ q ++ p → length q ≤ 2
    short b q p e =
        omega (arith, ap (length {A = List ChildOp}) e, length-append (b ++ q) p, length-append b q)

ipc_shared_proc_keeps_example :
    (w : Watch) × (ipc_shared_proc mapped zeroed 7 fed_rounds ≡ done (looped (watching w)))
ipc_shared_proc_keeps_example = ipc_shared_proc_keeps zeroed 7 fed_rounds fed_rounds-WellFed

-- Two connections are opened and one is closed.
abbrev counted_seg : ShmData
counted_seg = record { network_dog = 0; dog = 2; number = 1 }

abbrev counted_watch : Watch
counted_watch = record { seg = counted_seg; vmon = 1; cnt = 2; logs = [] }

abbrev opens : List ChildOp
opens = conn true ∷ conn true ∷ []

counted_run :
    ipc_shared_proc mapped zeroed 5 (opens ∷ (conn false ∷ []) ∷ [])
    ≡ done (looped (watching counted_watch))
unfolding ipc_shared_proc tick vmp_rl.Ipc.Segment.child_ops
counted_run = refl

counted_connections : counted_watch.vmon + 1 ≡ 2
counted_connections =
    ipc_shared_proc_counts zeroed 5 opens ((conn false ∷ []) ∷ []) counted_run (omega arith)
      (omega arith)

closed_at_zero :
    (d' : ShmData) × (r : ℤ) × (ipc_stream_conn mapped zeroed false ≡ done (d', r))
    × ((r ≡ minus_one) ↔ (
        ((◌≡◌ {A = Bool} false false) × (zeroed.number ≡ 0))
        ⊎ ((◌≡◌ {A = Bool} false true) × (zeroed.number ≡ 2 ^ 32 - 2))))
closed_at_zero = ipc_stream_conn-eq-minus_one zeroed false (omega arith)

-- A system on which everything works, and a device that was never opened.
abbrev pub working : Sysv
working = record {
  exists = true;
  create_file = ℤ.pos 3;
  ftok = λ id. ℤ.pos id;
  semget = λ key. ℤ.pos 8;
  setall = λ id. ℤ.pos 0;
  shmget = λ key size. ℤ.pos 9;
  shmat = λ id. mapped;
  shmdt = ℤ.pos 0;
  rmid = λ id. ℤ.pos 0;
}

abbrev pub fresh : ShmDev
fresh = record { semid = ℤ.pos 0; shmid = ℤ.pos 0; size = 0; shmbuf = null }

abbrev pub opened : ShmDev
opened = record { semid = ℤ.pos 8; shmid = ℤ.pos 9; size = 68; shmbuf = mapped }

working_init : ipc_shared_init working fresh counted_seg ≡ done (opened, zeroed, ℤ.pos 0)
unfolding ipc_shared_init
working_init = refl

working_opened :
    (dev' : ShmDev) × (((ipc_shared_init working fresh counted_seg ≡ done (dev', zeroed, ℤ.pos 0))
        × (dev'.shmbuf ≡ mapped))
      ⊎ ((ipc_shared_init working fresh counted_seg ≡ done (dev', counted_seg, minus_one))
          × ((dev'.shmbuf ≡ null) ⊎ (dev'.shmbuf ≡ failed))))
working_opened = ipc_shared_init_lem working fresh counted_seg refl

-- The semaphore cannot be opened, and the answer is 0 all the same.
abbrev no_semaphore : Sysv
no_semaphore = record working { semget = λ key. minus_one; setall = λ id. minus_one }

no_semaphore_opens : ipc_sem_open no_semaphore true true ≡ minus_one
unfolding ipc_sem_open
no_semaphore_opens = refl
