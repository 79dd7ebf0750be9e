-- ===== src/Ipc/Segment.antt =====
-- src/ipcs/ipc_shared.h and src/ipcs/ipc_shared.c: the shared data, and what the child does to it.
use vmp_rl.Base.{
  ℕ, ◌+◌, ◌-◌, ◌^◌, Bool, List, [], ◌∷◌, Run, done, fault, ℤ, minus_one, signed32, u32,
  if◌then◌else◌,
}

-- `ipc_shmdata_t`: two watchdog bytes and the `unsigned int` that counts the connections.
pub record ShmData : Type 0 where
  pub network_dog : ℕ
  pub dog : ℕ
  pub number : ℕ

-- `memset(g_data, 0x00, sizeof(ipc_shmdata_t))`
abbrev pub zeroed : ShmData
zeroed = record { network_dog = 0; dog = 0; number = 0 }

-- `shmbuf`: never attached, the `(void *)-1` of a failed `shmat`, or the segment.
pub data ShmBuf : Type 0 where
  null : ShmBuf
  failed : ShmBuf
  mapped : ShmBuf

-- The result of the unlocking is an argument, since the semaphore is not part of the program.
unfoldable pub ipc_watchdog_feed : ℤ → ShmBuf → ShmData → Run (ShmData × ℤ)
ipc_watchdog_feed unlocked null d = done (d, minus_one)
ipc_watchdog_feed unlocked failed d = fault
ipc_watchdog_feed unlocked mapped d = done (record d { dog = 0 }, unlocked)

unfoldable pub ipc_stream_conn : ShmBuf → ShmData → Bool → Run (ShmData × ℤ)
ipc_stream_conn null d op = done (d, minus_one)
ipc_stream_conn failed d op = fault
ipc_stream_conn mapped d op =
    let n = if op then u32 (d.number + 1) else u32 (d.number + 2 ^ 32 - 1) in
    done (record d { number = n }, signed32 n)

unfoldable pub ipc_shared_vmon : ShmBuf → ShmData → Run ℕ
ipc_shared_vmon null d = done 0
ipc_shared_vmon failed d = fault
ipc_shared_vmon mapped d = done d.number

-- What the child calls while the daemon sleeps.
pub data ChildOp : Type 0 where
  feed : ChildOp
  conn : (op : Bool) → ChildOp

kept : ShmData → Run (ShmData × ℤ) → ShmData
kept d (done r) = r.0
kept d fault = d

-- One call of the child, whose buffer is mapped.
unfoldable pub child_op : ChildOp → ShmData → ShmData
unfolding kept ipc_watchdog_feed ipc_stream_conn
child_op feed d = kept d (ipc_watchdog_feed (ℤ.pos 0) mapped d)
child_op (conn op) d = kept d (ipc_stream_conn mapped d op)

unfoldable pub child_ops : List ChildOp → ShmData → ShmData
unfolding child_op
child_ops [] d = d
child_ops (o ∷ os) d = child_ops os (child_op o d)
