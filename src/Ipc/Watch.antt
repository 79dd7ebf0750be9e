-- ===== src/Ipc/Watch.antt =====
-- src/ipcs/ipc_shared.c: `ipc_shared_proc`, the loop by which the daemon watches its child.
use vmp_rl.Base.{
  ℕ, ◌+◌, Bool, List, [], ◌∷◌, ◌++◌, Run, done, fault, ℤ, minus_one, u8, ltb, leb, if◌then◌else◌,
}
use vmp_rl.Ipc.Segment.{ShmData, ShmBuf, null, failed, mapped, zeroed, ChildOp, child_ops}

-- The log lines: every thirty-first round, a watchdog above 16, and the child given up.
pub data Log : Type 0 where
  debug : ℕ → Log
  warn : ℕ → Log
  error : ℕ → Log

-- The segment with the variables of the loop: `*vmon` and `cnt`.
pub record Watch : Type 0 where
  pub seg : ShmData
  pub vmon : ℕ
  pub cnt : ℕ
  pub logs : List Log

-- One round after the `sleep(1)`; the second part tells whether the loop breaks.
unfoldable pub tick : Watch → Watch × Bool
tick w =
    let watchdog = u8 (w.seg.dog + 1) in
    let cnt = w.cnt + 1 in
    let shown = ltb 30 cnt in
    let late = ltb 16 watchdog in
    let stop = leb 60 watchdog in
    (
      record {
        seg = record (w.seg) { dog = watchdog };
        vmon = w.seg.number;
        cnt = if shown then 0 else cnt;
        logs =
            (if stop then Log.error watchdog ∷ [] else [])
            ++ (if late then Log.warn watchdog ∷ [] else [])
            ++ (if shown then Log.debug watchdog ∷ [] else [])
            ++ w.logs;
      },
      stop,
    )

-- What the child calls in each round's second.
abbrev pub Schedule : Type 0
Schedule = List (List ChildOp)

-- The loop is still running at the end of the schedule, or has stopped with rounds left.
pub data Outcome : Type 0 where
  watching : Watch → Outcome
  bitten : Watch → Schedule → Outcome

abbrev pub after_child : List ChildOp → Watch → Watch
after_child ops w = record w { seg = child_ops ops w.seg }

unfoldable pub watch_loop : Schedule → Watch → Outcome
watch_loop [] w = watching w
watch_loop (ops ∷ rest) w =
    let r = tick (after_child ops w) in
    let more = watch_loop rest r.0 in if r.1 then bitten r.0 rest else more

-- `ipc_shared_proc`: nothing is watched without a buffer; the newest log line stands first.
pub data Proc : Type 0 where
  returned : ℤ → Proc
  looped : Outcome → Proc

unfoldable pub ipc_shared_proc : ShmBuf → ShmData → ℕ → Schedule → Run Proc
unfolding watch_loop
ipc_shared_proc null d vmon sched = done (returned minus_one)
ipc_shared_proc failed d vmon sched = fault
ipc_shared_proc mapped d vmon sched =
    done (looped (watch_loop sched (record { seg = zeroed; vmon = vmon; cnt = 0; logs = [] })))
