-- ===== src/Load/System.antt =====
-- src/load/load_system.c: the rates of the machine, from one reading of the statistics to the next.
pub mod Rates
pub mod Shares
pub mod Handle
pub mod Tests
use vmp_rl.Base.{
  ℕ, suc, ◌+◌, ◌-◌, Bool, true, false, List, [], ◌∷◌, ◌++◌, ℤ, ltb, if◌then◌else◌, length, drop,
  ◌+ℤ◌, ◌-ℤ◌, to_int, Doubles,
}
use vmp_rl.Nmon.Cpu.{CpuStat}
use vmp_rl.Nmon.Net.{NetStat}

-- What one reading of the files gives: the entries told to the callback are the first ones of its
-- array.
pub record Sample (D : Type 0) : Type 0 where
  pub time : D
  pub ifnets : List NetStat
  pub cpu_total : CpuStat
  pub memtotal : ℤ
  pub memfree : ℤ

-- `system_data_t`, without the figures of single processors, which nothing reads, and those of the
-- memory, which are published as they are read.
pub record SystemData (D : Type 0) : Type 0 where
  pub cpu_total : CpuStat
  pub ifnets : List NetStat
  pub time : D

-- `PrivInfo`, what is published.
pub record Info (D : Type 0) : Type 0 where
  pub interval : ℕ
  pub uplink : D
  pub downlink : D
  pub cpu_idle : D
  pub mem_total : ℤ
  pub mem_free : ℤ
  pub cond : Bool
  pub initialized : Bool

-- `sys_data`, which of its entries is next (`which` is 1 for the first), and the `PrivInfo`.
pub record Monitor (D : Type 0) : Type 0 where
  pub first : SystemData D
  pub second : SystemData D
  pub which : Bool
  pub info : Info D

-- `system_interface_stat`: the entries behind those copied keep what they had.
unfoldable pub system_interface_stat : List NetStat → List NetStat → List NetStat
system_interface_stat old ifnets = ifnets ++ drop (length ifnets) old

-- What the percentages are computed from: `cpu_idle` and `cpu_sum`, all of them of type `int`.
pub record Share : Type 0 where
  pub cpu_idle : ℤ
  pub cpu_sum : ℤ

unfoldable pub cpu_share : CpuStat → CpuStat → Share
cpu_share p q =
    let cpu_user = to_int ((p.user -ℤ q.user) +ℤ (p.nice -ℤ q.nice)) in
    let cpu_sys = to_int (((p.sys -ℤ q.sys) +ℤ (p.irq -ℤ q.irq)) +ℤ (p.softirq -ℤ q.softirq)) in
    let cpu_wait = to_int (p.wait -ℤ q.wait) in
    let cpu_idle = to_int (p.idle -ℤ q.idle) in
    let cpu_steal = to_int (p.steal -ℤ q.steal) in
    record {
      cpu_idle = cpu_idle;
      cpu_sum = to_int ((((cpu_idle +ℤ cpu_user) +ℤ cpu_sys) +ℤ cpu_wait) +ℤ cpu_steal);
    }

module _ (arithmetic : Doubles) where
  open arithmetic use {D, of_ℤ, to_float, sub, mul, div}

  -- The macro IFDELTA at two readings of one counter.
  unfoldable pub if_delta : ℕ → ℕ → D → D
  if_delta new old elapsed =
      to_float (if ltb new old then of_ℤ (ℤ.pos 0) else div (of_ℤ (ℤ.pos (new - old))) elapsed)

  -- The loop on the interfaces: what the last of them leaves.
  unfoldable pub publish_rates : ℕ → List NetStat → List NetStat → D → Info D → Info D
  publish_rates (suc n) (p ∷ ps) (q ∷ qs) elapsed info =
      publish_rates n ps qs elapsed (record info {
        uplink = div (if_delta p.if_ibytes q.if_ibytes elapsed) (of_ℤ (ℤ.pos 1024));
        downlink = div (if_delta p.if_obytes q.if_obytes elapsed) (of_ℤ (ℤ.pos 1024));
      })
  publish_rates n ps qs elapsed info = info

  unfoldable pub publish_cpu : Share → Info D → Info D
  publish_cpu s info = record info {
    cpu_idle = mul (div (of_ℤ s.cpu_idle) (of_ℤ s.cpu_sum)) (of_ℤ (ℤ.pos 100));
  }

  unfoldable pub publish_mem : ℤ → ℤ → Info D → Info D
  publish_mem total free info = record info { mem_total = total; mem_free = free }

  -- One turn of the loop at `p` and `q`: the entry `p` after it, and what is published.
  unfoldable pub interval_proc :
      SystemData D → SystemData D → Sample D → Info D → SystemData D × Info D
  interval_proc p q s info =
      let elapsed = sub s.time q.time in
      let ifnets = system_interface_stat p.ifnets s.ifnets in
      (
        record { cpu_total = s.cpu_total; ifnets = ifnets; time = s.time },
        publish_mem s.memtotal s.memfree (
            publish_cpu (cpu_share s.cpu_total q.cpu_total)
              (publish_rates (length s.ifnets) ifnets q.ifnets elapsed info)),
      )

  -- The macro data_switcher, then the turn.
  unfoldable pub turn : Sample D → Monitor D → Monitor D
  turn s m =
      let one = interval_proc m.first m.second s m.info in
      let other = interval_proc m.second m.first s m.info in
      if m.which
      then record m { first = one.0; which = false; info = one.1 }
      else record m { second = other.0; which = true; info = other.1 }

  unfoldable pub turns : List (Sample D) → Monitor D → Monitor D
  turns [] m = m
  turns (s ∷ ss) m = turns ss (turn s m)

  -- The readings before the loop, into the first entry and copied to the second. The entries of
  -- the two arrays behind the interfaces are what the stack held.
  unfoldable pub start : Sample D → List NetStat → List NetStat → Info D → Monitor D
  start s stack0 stack1 info = record {
    first = record {
      cpu_total = s.cpu_total;
      ifnets = system_interface_stat stack0 s.ifnets;
      time = s.time;
    };
    second = record {
      cpu_total = s.cpu_total;
      ifnets = system_interface_stat stack1 s.ifnets;
      time = s.time;
    };
    which = true;
    info = record info { interval = 1 };
  }

  unfoldable pub system_net_proc :
      Sample D → List (Sample D) → List NetStat → List NetStat → Info D → Monitor D
  unfolding start turns
  system_net_proc s0 ss stack0 stack1 info = turns ss (start s0 stack0 stack1 info)
