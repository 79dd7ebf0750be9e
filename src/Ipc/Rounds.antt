-- ===== src/Ipc/Rounds.antt =====
-- src/ipcs/ipc_shared.c: what one round of `ipc_shared_proc` does to the watchdog.
use vmp_rl.Base.{
  ℕ, ◌+◌, ◌≤◌, ◌<◌, ◌≡◌, refl, Bool, true, false, List, [], ◌∷◌, leb, if◌then◌else◌, arith, All,
}
use vmp_rl.Ipc.Segment.{ShmData, ChildOp, feed, conn, child_op, child_ops}
use vmp_rl.Ipc.Watch.{Watch, Schedule, bitten, tick, after_child, watch_loop}

abbrev pub has_feed : List ChildOp → Bool
has_feed [] = false
has_feed (feed ∷ os) = true
has_feed (conn op ∷ os) = has_feed os

-- No feeding in any of the rounds.
abbrev pub Silent : Schedule → Type 0
Silent = All (λ ops. has_feed ops ≡ false)

dog-zero : (ops : List ChildOp) (d : ShmData) → d.dog ≡ 0 → (child_ops ops d).dog ≡ 0
unfolding child_ops child_op
dog-zero [] d e = e
dog-zero (feed ∷ os) d e = dog-zero os _ refl
dog-zero (conn op ∷ os) d e = dog-zero os _ e

pub dog-child_ops :
    (ops : List ChildOp) (d : ShmData) → (child_ops ops d).dog ≡ (if has_feed ops then 0 else d.dog)
unfolding child_ops child_op
dog-child_ops [] d = refl
dog-child_ops (feed ∷ os) d = dog-zero os _ refl
dog-child_ops (conn op ∷ os) d = dog-child_ops os _

-- The watchdog after a round, and whether the round ends the loop.
unfoldable pub round : (ops : List ChildOp) (w : Watch) → ℕ
round ops w = (if has_feed ops then 0 else w.seg.dog) + 1

pub tick_lem :
    (ops : List ChildOp) (w : Watch)
    → w.seg.dog < 60
    → ((tick (after_child ops w)).0.seg.dog ≡ round ops w)
      × ((tick (after_child ops w)).1 ≡ leb 60 (round ops w))
      × (round ops w ≤ 60)
unfolding tick round
tick_lem ops w h = ground (arith, dog-child_ops ops w.seg)

pub round-silent :
    (ops : List ChildOp) (w : Watch) → has_feed ops ≡ false → round ops w ≡ w.seg.dog + 1
unfolding round
round-silent ops w e = ground arith

-- One round of the loop, by its two outcomes.
module _ (ops : List ChildOp) (sched : Schedule) (w : Watch) (low : w.seg.dog < 60) where
  abbrev pub next : Watch
  next = (tick (after_child ops w)).0

  pub watch_loop-stop : 60 ≤ round ops w → watch_loop (ops ∷ sched) w ≡ bitten next sched
  unfolding watch_loop
  watch_loop-stop h = ground (arith, tick_lem ops w low)

  pub watch_loop-next : round ops w < 60 → watch_loop (ops ∷ sched) w ≡ watch_loop sched next
  unfolding watch_loop
  watch_loop-next h = ground (arith, tick_lem ops w low)

  pub next-low : round ops w < 60 → next.seg.dog < 60
  next-low h = omega (arith, tick_lem ops w low)
