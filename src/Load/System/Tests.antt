-- ===== src/Load/System/Tests.antt =====
-- The rates and shares at concrete readings.
use vmp_rl.Base.{ℕ, ◌-◌, ◌*◌, ◌/◌, ◌≤◌, ◌≡◌, refl, true, [], ◌∷◌, pos, pos_part, arith, Doubles}
use vmp_rl.Nmon.Net.{NetStat, no_stat}
use vmp_rl.Load.System.{Sample, Info, cpu_share, system_net_proc}
use vmp_rl.Load.System.Rates
use vmp_rl.Load.System.Rates.{series}
use vmp_rl.Load.System.Shares
use vmp_rl.Load.System.Shares.{Ticks, stat, later}

-- Whole numbers in place of doubles.
abbrev whole : Doubles
whole = record {
  D = ℕ;
  of_ℤ = pos_part;
  to_float = λ x. x;
  floor_ulong = λ x. x;
  sub = λ x y. x - y;
  mul = λ x y. x * y;
  div = λ x y. x / y;
}

abbrev net : ℕ → ℕ → NetStat
net received sent = record no_stat { if_ibytes = received; if_obytes = sent }

abbrev ticks : ℕ → ℕ → Ticks
ticks user idle = record {
  user = user;
  nice = 0;
  sys = 1;
  idle = idle;
  wait = 0;
  irq = 0;
  softirq = 0;
  steal = 0;
}

abbrev reading : ℕ → ℕ → ℕ → Sample ℕ
reading time received idle = record {
  time = time;
  ifnets = net received 2048 ∷ [];
  cpu_total = stat (ticks 10 idle);
  memtotal = pos 800;
  memfree = pos 300;
}

abbrev unpublished : Info ℕ
unpublished = record {
  interval = 0;
  uplink = 0;
  downlink = 0;
  cpu_idle = 0;
  mem_total = pos 0;
  mem_free = pos 0;
  cond = true;
  initialized = true;
}

system_net_proc_lem_example :
    (system_net_proc whole
      (reading 1 0 5)
      (reading 2 4096 50 ∷ reading 3 8192 95 ∷ [])
      (no_stat ∷ no_stat ∷ [])
      []
      unpublished).info
    ≡ series whole
        (reading 1 0 5)
        (reading 2 4096 50 ∷ reading 3 8192 95 ∷ [])
        (record unpublished { interval = 1 })
system_net_proc_lem_example =
    Rates.system_net_proc_lem whole (reading 1 0 5) (reading 2 4096 50 ∷ reading 3 8192 95 ∷ [])
      (no_stat ∷ no_stat ∷ []) [] unpublished (refl, (refl, tt))

cpu_share_lem_example :
    (cpu_share (stat (later (ticks 10 5) (ticks 20 70))) (stat (ticks 10 5))
      ≡ record { cpu_idle = pos 70; cpu_sum = pos 91 })
    × (70 ≤ 91)
cpu_share_lem_example = Shares.cpu_share_lem (ticks 10 5) (ticks 20 70) (omega arith)
