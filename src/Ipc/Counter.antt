-- ===== src/Ipc/Counter.antt =====
-- src/ipcs/ipc_shared.c: the count of connections that the child keeps and the daemon reads.
use vmp_rl.Base.{
  ℕ, ◌+◌, ◌-◌, ◌*◌, ◌%◌, ◌^◌, ◌≤◌, ◌<◌, ◌≡◌, ◌↔◌, ◌⊎◌, refl, Bool, true, false, List, [], ◌∷◌, done,
  ℤ, minus_one, signed32, arith, Bool-cases, inl, inr,
}
use vmp_rl.Ipc.Segment.{
  ShmData, mapped, zeroed, ChildOp, feed, conn, child_op, child_ops, ipc_stream_conn,
}
use vmp_rl.Ipc.Watch.{
  Watch, Schedule, watching, tick, after_child, watch_loop, looped, ipc_shared_proc,
}

-- How often the child opened or closed a connection.
abbrev pub count_ops : Bool → List ChildOp → ℕ
count_ops op [] = 0
count_ops op (feed ∷ os) = count_ops op os
count_ops true (conn true ∷ os) = 1 + count_ops true os
count_ops true (conn false ∷ os) = count_ops true os
count_ops false (conn true ∷ os) = count_ops false os
count_ops false (conn false ∷ os) = 1 + count_ops false os

abbrev pub count_rounds : Bool → Schedule → ℕ
count_rounds op [] = 0
count_rounds op (ops ∷ rest) = count_ops op ops + count_rounds op rest

-- `opened` and `closed` calls, from a count of `n`, in 32 bits.
abbrev pub balance : ℕ → ℕ → ℕ → ℕ
balance n opened closed = (n + opened + (2 ^ 32 - 1) * closed) % 2 ^ 32

number-child_ops :
    (ops : List ChildOp) (d : ShmData)
    → d.number < 2 ^ 32
    → (child_ops ops d).number ≡ balance d.number (count_ops true ops) (count_ops false ops)
unfolding child_ops child_op
number-child_ops [] d h = omega arith
number-child_ops (feed ∷ os) d h = number-child_ops os _ h
number-child_ops (conn true ∷ os) d h =
    omega (arith, number-child_ops os (child_op (conn true) d) (omega arith))
number-child_ops (conn false ∷ os) d h =
    omega (arith, number-child_ops os (child_op (conn false) d) (omega arith))

number-tick :
    (w : Watch) → ((tick w).0.seg.number ≡ w.seg.number) × ((tick w).0.vmon ≡ w.seg.number)
unfolding tick
number-tick w = (refl, refl)

watch_loop-balance :
    (sched : Schedule) (w : Watch) {w' : Watch}
    → w.seg.number < 2 ^ 32
    → w.vmon ≡ w.seg.number
    → watch_loop sched w ≡ watching w'
    → w'.vmon ≡ balance w.seg.number (count_rounds true sched) (count_rounds false sched)
unfolding watch_loop
watch_loop-balance [] w h v e = ground arith
watch_loop-balance (ops ∷ rest) w {w'} h v e = elim (Bool-cases (tick (after_child ops w)).1) [
  | inl stop ↦ ground arith
  | inr go_on ↦
      let n = tick (after_child ops w) in
      let more : watch_loop rest n.0 ≡ watching w' = ground arith in
      omega (
        arith,
        number-child_ops ops w.seg h,
        number-tick (after_child ops w),
        watch_loop-balance rest n.0
            (omega (arith, number-child_ops ops w.seg h, number-tick (after_child ops w)))
            (omega (arith, number-tick (after_child ops w))) more,
      )
]

-- Until the watchdog stops the loop, the daemon's copy is the number of connections opened less
-- those closed since it zeroed the segment, as long as those numbers fit.
pub ipc_shared_proc_counts :
    (d : ShmData) (vmon : ℕ) (ops : List ChildOp) (rest : Schedule) {w : Watch}
    → ipc_shared_proc mapped d vmon (ops ∷ rest) ≡ done (looped (watching w))
    → count_rounds false (ops ∷ rest) ≤ count_rounds true (ops ∷ rest)
    → count_rounds true (ops ∷ rest) < 2 ^ 32
    → w.vmon + count_rounds false (ops ∷ rest) ≡ count_rounds true (ops ∷ rest)
unfolding ipc_shared_proc watch_loop tick
ipc_shared_proc_counts d vmon ops rest {w} e small fits =
    omega (arith, watch_loop-balance (ops ∷ rest) start (omega arith) refl from_start)
  where
    start : Watch
    start = record { seg = zeroed; vmon = 0; cnt = 0; logs = [] }

    from_start : watch_loop (ops ∷ rest) start ≡ watching w
    from_start = cc

-- With a mapped segment `ipc_stream_conn` answers -1, its answer to a missing buffer, when it
-- closes a connection at a count of 0 (and when it opens one at 2 ^ 32 - 2), and never else.
pub ipc_stream_conn-eq-minus_one :
    (d : ShmData) (op : Bool)
    → d.number < 2 ^ 32
    → (d' : ShmData) × (r : ℤ) × (ipc_stream_conn mapped d op ≡ done (d', r))
      × ((r ≡ minus_one)
          ↔ (((op ≡ false) × (d.number ≡ 0)) ⊎ ((op ≡ true) × (d.number ≡ 2 ^ 32 - 2))))
unfolding ipc_stream_conn
ipc_stream_conn-eq-minus_one d true h = (
  record d { number = (d.number + 1) % 2 ^ 32 },
  signed32 ((d.number + 1) % 2 ^ 32),
  refl,
  ground arith,
)
ipc_stream_conn-eq-minus_one d false h = (
  record d { number = (d.number + 2 ^ 32 - 1) % 2 ^ 32 },
  signed32 ((d.number + 2 ^ 32 - 1) % 2 ^ 32),
  refl,
  ground arith,
)
