-- ===== src/Load/System/Shares.antt =====
-- src/load/load_system.c: the shares of the processor time are shares.
use vmp_rl.Base.{ℕ, ◌+◌, ◌^◌, ◌≤◌, ◌<◌, ◌≡◌, pos, arith, to_int, ◌+ℤ◌, ◌-ℤ◌}
use vmp_rl.Nmon.Cpu.{CpuStat, zero_ℤ}
use vmp_rl.Load.System.{cpu_share}

-- The counters that the shares are computed from.
pub record Ticks : Type 0 where
  pub user : ℕ
  pub nice : ℕ
  pub sys : ℕ
  pub idle : ℕ
  pub wait : ℕ
  pub irq : ℕ
  pub softirq : ℕ
  pub steal : ℕ

abbrev pub stat : Ticks → CpuStat
stat t = record {
  user = pos t.user;
  nice = pos t.nice;
  sys = pos t.sys;
  idle = pos t.idle;
  wait = pos t.wait;
  irq = pos t.irq;
  softirq = pos t.softirq;
  steal = pos t.steal;
  guest = zero_ℤ;
  guest_nice = zero_ℤ;
}

-- The counters after the ticks `d` more.
abbrev pub later : Ticks → Ticks → Ticks
later t d = record {
  user = t.user + d.user;
  nice = t.nice + d.nice;
  sys = t.sys + d.sys;
  idle = t.idle + d.idle;
  wait = t.wait + d.wait;
  irq = t.irq + d.irq;
  softirq = t.softirq + d.softirq;
  steal = t.steal + d.steal;
}

abbrev pub total : Ticks → ℕ
total t = t.idle + (t.user + t.nice) + (t.sys + t.irq + t.softirq) + t.wait + t.steal

pos-sub : (a d : ℕ) → pos (a + d) -ℤ pos a ≡ pos d
unfolding ◌-ℤ◌
pos-sub a d = ground arith

pos-add : (a b : ℕ) → pos a +ℤ pos b ≡ pos (a + b)
unfolding ◌+ℤ◌
pos-add a b = ground arith

to_int-pos : (n : ℕ) → n < 2 ^ 31 → to_int (pos n) ≡ pos n
unfolding to_int
to_int-pos n h = ground arith

-- While all counters together grow by less than 2^31, the two numbers of the share are the ticks
-- spent idle and all ticks spent, of which the first is at most the second.
pub cpu_share_lem :
    (old d : Ticks)
    → total d < 2 ^ 31
    → (cpu_share (stat (later old d)) (stat old)
        ≡ record { cpu_idle = pos d.idle; cpu_sum = pos (total d) })
      × (d.idle ≤ total d)
unfolding cpu_share
cpu_share_lem old d small = (
  simp (
    pos-sub,
    pos-add,
    to_int-pos (d.user + d.nice) (omega (arith, small)),
    to_int-pos (d.sys + d.irq + d.softirq) (omega (arith, small)),
    to_int-pos d.wait (omega (arith, small)),
    to_int-pos d.idle (omega (arith, small)),
    to_int-pos d.steal (omega (arith, small)),
    to_int-pos (total d) small,
  ),
  omega arith,
)
