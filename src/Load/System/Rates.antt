-- ===== src/Load/System/Rates.antt =====
-- src/load/load_system.c: the two entries of `sys_data` change places, and yet each turn compares a
-- reading with the one before it.
use vmp_rl.Base.{
  ◌≡◌, refl, sym, ap, ◌∙◌, List, [], ◌∷◌, ◌++◌, if◌then◌else◌, length, drop, arith, All, Bool-cases,
  inl, inr, Doubles,
}
use vmp_rl.Nmon.Net.{NetStat}
use vmp_rl.Load.System.{
  Sample, SystemData, Info, Monitor, system_interface_stat, cpu_share, publish_rates, publish_cpu,
  publish_mem, interval_proc, turn, turns, start, system_net_proc,
}

module _ (arithmetic : Doubles) where
  open arithmetic use {D, sub}

  -- What is published from two readings in a row.
  abbrev pub between : Sample D → Sample D → Info D → Info D
  between prev s info = publish_mem arithmetic s.memtotal s.memfree (
      publish_cpu arithmetic (cpu_share s.cpu_total prev.cpu_total) (
        publish_rates arithmetic (length s.ifnets) s.ifnets prev.ifnets (sub s.time prev.time)
          info))

  -- And from a series of them, after a first one.
  abbrev pub series : Sample D → List (Sample D) → Info D → Info D
  series prev [] info = info
  series prev (s ∷ ss) info = series s ss (between prev s info)

  -- An entry of `sys_data` that holds a reading.
  abbrev Holds : SystemData D → Sample D → Type 0
  Holds e s =
      (e.cpu_total ≡ s.cpu_total)
      × (e.time ≡ s.time)
      × (rest : List NetStat) × (e.ifnets ≡ s.ifnets ++ rest)

  publish_rates-append :
      (ps qs rest rest' : List NetStat) (elapsed : D) (info : Info D)
      → length ps ≡ length qs
      → publish_rates arithmetic (length ps) (ps ++ rest) (qs ++ rest') elapsed info
        ≡ publish_rates arithmetic (length ps) ps qs elapsed info
  unfolding publish_rates
  publish_rates-append [] qs rest rest' elapsed info e = refl
  publish_rates-append (p ∷ ps) [] rest rest' elapsed info e = absurd (omega (arith, e))
  publish_rates-append (p ∷ ps) (q ∷ qs) rest rest' elapsed info e =
      publish_rates-append ps qs rest rest' elapsed _ (omega (arith, e))

  interval_proc_lem :
      (p q : SystemData D) (prev s : Sample D) (info : Info D)
      → Holds q prev
      → length s.ifnets ≡ length prev.ifnets
      → ((interval_proc arithmetic p q s info).1 ≡ between prev s info)
        × Holds (interval_proc arithmetic p q s info).0 s
  unfolding interval_proc system_interface_stat
  interval_proc_lem p q prev s info (cpu, time, rest, nets) same = (
    cc (
      publish_rates-append s.ifnets prev.ifnets (drop (length s.ifnets) p.ifnets) rest
          (sub s.time prev.time) info same,
      cpu,
      time,
      nets,
    ),
    (refl, refl, drop (length s.ifnets) p.ifnets, refl),
  )

  -- The entry that the next turn compares with.
  abbrev previous : Monitor D → SystemData D
  previous m = if m.which then m.second else m.first

  turn_lem :
      (m : Monitor D) (prev s : Sample D)
      → Holds (previous m) prev
      → length s.ifnets ≡ length prev.ifnets
      → ((turn arithmetic s m).info ≡ between prev s m.info)
        × Holds (previous (turn arithmetic s m)) s
  unfolding turn
  turn_lem m prev s held same = elim (Bool-cases m.which) [
    | inl first ↦
        rw first (interval_proc_lem m.first m.second prev s m.info (rw first at held) same)
    | inr second ↦
        rw second (interval_proc_lem m.second m.first prev s m.info (rw second at held) same)
  ]

  -- Every reading has as many interfaces as the first.
  abbrev pub SameNets : Sample D → List (Sample D) → Type 0
  SameNets s0 = All (λ s. length s.ifnets ≡ length s0.ifnets)

  turns_lem :
      (s0 prev : Sample D) (ss : List (Sample D)) (m : Monitor D)
      → Holds (previous m) prev
      → length prev.ifnets ≡ length s0.ifnets
      → SameNets s0 ss
      → (turns arithmetic ss m).info ≡ series prev ss m.info
  unfolding turns
  turns_lem s0 prev [] m held same all = refl
  turns_lem s0 prev (s ∷ ss) m held same (next, all) =
      let (info, held') = turn_lem m prev s held (next ∙ sym same) in
      turns_lem s0 s ss (turn arithmetic s m) held' next all ∙ ap (series s ss) info

  -- While the number of interfaces stays the same, what `system_net_proc` publishes after any
  -- number of turns is what the series of readings gives, each taken with the one before it,
  -- whatever the stack held before.
  pub system_net_proc_lem :
      (s0 : Sample D) (ss : List (Sample D)) (stack0 stack1 : List NetStat) (info : Info D)
      → SameNets s0 ss
      → (system_net_proc arithmetic s0 ss stack0 stack1 info).info
        ≡ series s0 ss (record info { interval = 1 })
  unfolding system_net_proc system_interface_stat
  system_net_proc_lem s0 ss stack0 stack1 info all =
      turns_lem s0 s0 ss (start arithmetic s0 stack0 stack1 info)
        (refl, refl, drop (length s0.ifnets) stack1, refl) refl all
