-- ===== src/Nmon/Cpu.antt =====
-- src/vmp/vmp_nmon.c: `get_cpu_cnt` and `proc_cpu`, on the lines that `proc_read` leaves.
pub mod Rows
pub mod Count
use vmp_rl.Base.{
  ℕ, zero, suc, ◌+◌, ◌-◌, ◌*◌, ◌/◌, ◌%◌, ◌≡◌, refl, ap, ◌∙◌, Bool, false, ◌&&◌, List, [], ◌∷◌, ◌++◌,
  Option, none, some, ℤ, minus_one, ltb, leb, codes, arith, length, take, drop, get_or, ◌==◌,
  if◌then◌else◌,
}
use vmp_rl.Nmon.Scan.{scan_signed, starts_with}

-- `VMP_CPUMAX`
abbrev pub vmp_cpumax : ℕ
vmp_cpumax = 192 * 8

-- The loop of `get_cpu_cnt` on the lines from the one of index `i` on.
unfoldable pub cpu_loop : ℕ → ℕ → List (List ℕ) → ℕ
cpu_loop i cpus [] = cpus
cpu_loop i cpus (line ∷ lines) =
    let rest = cpu_loop (i + 1) i lines in if starts_with (codes "cpu") line then rest else cpus

-- `line` holds the entries of the table, of which the first `lines` count; `none` stands for the
-- program's exit.
unfoldable pub get_cpu_cnt : List (List ℕ) → ℕ → Option ℕ
get_cpu_cnt line lines =
    let cpus = cpu_loop 1 0 (drop 1 (take lines line)) in
    if leb vmp_cpumax cpus then none else some cpus

-- The part of `struct cpu_stat` that a line of a processor fills.
pub record CpuStat : Type 0 where
  pub user : ℤ
  pub nice : ℤ
  pub sys : ℤ
  pub idle : ℤ
  pub wait : ℤ
  pub irq : ℤ
  pub softirq : ℤ
  pub steal : ℤ
  pub guest : ℤ
  pub guest_nice : ℤ

-- The rest of `cpu_total`, up to `blocked`.
pub record Counts : Type 0 where
  pub intr : ℤ
  pub ctxt : ℤ
  pub procs : ℤ
  pub running : ℤ
  pub blocked : ℤ

-- The static variables of `proc_cpu`; the lines but the first are only written with it.
pub record CpuStatics : Type 0 where
  pub intr_line : ℕ
  pub ctxt_line : ℕ
  pub proc_line : ℕ
  pub run_line : ℕ
  pub block_line : ℕ
  pub first_time : Bool
  pub stat8 : ℕ
  pub stat10 : ℕ
  pub old_cpus : ℕ

abbrev pub zero_ℤ : ℤ
zero_ℤ = ℤ.pos 0

-- How many numbers are read from a line.
abbrev pub fields : CpuStatics → ℕ
fields s = if s.stat10 == 10 then 10 else if s.stat8 == 8 then 8 else 4

-- The fields behind the numbers read are zero, but the last two keep what they had.
unfoldable pub fill : ℤ → ℤ → List ℤ → CpuStat
fill guest guest_nice ns = record {
  user = get_or ns 0 zero_ℤ;
  nice = get_or ns 1 zero_ℤ;
  sys = get_or ns 2 zero_ℤ;
  idle = get_or ns 3 zero_ℤ;
  wait = get_or ns 4 zero_ℤ;
  irq = get_or ns 5 zero_ℤ;
  softirq = get_or ns 6 zero_ℤ;
  steal = get_or ns 7 zero_ℤ;
  guest = get_or ns 8 guest;
  guest_nice = get_or ns 9 guest_nice;
}

unfoldable pub row : ℕ → ℕ
row i =
    if ltb 1000 (i + 1) then 8 else if ltb 100 (i + 1) then 7 else if ltb 10 (i + 1) then 6 else 5

-- The loop on the processors from number `i` on, with the two variables it does not reset.
unfoldable pub each_cpu : ℕ → ℕ → ℤ → ℤ → ℕ → List (List ℕ) → List CpuStat
each_cpu n i guest guest_nice zero line = []
each_cpu n i guest guest_nice (suc more) line =
    let cpu = fill guest guest_nice (scan_signed n (drop (row i) (get_or line (i + 1) []))) in
    cpu ∷ each_cpu n (i + 1) cpu.guest cpu.guest_nice more line

-- One number behind a label, where the table has the line and the line has both.
unfoldable pub labelled : List (List ℕ) → ℕ → ℕ → List ℕ → ℤ
labelled line lines index label =
    let text = get_or line index [] in
    if leb index lines && starts_with label text
    then get_or (scan_signed 1 (drop (length label) text)) 0 minus_one
    else minus_one

-- The block that finds the lines behind the processors', in a kernel 2.4 or 2.6.
unfoldable pub find_lines : List (List ℕ) → ℕ → CpuStatics → CpuStatics
find_lines line i s =
    let from = if starts_with (codes "page") (get_or line (i + 1) []) then i + 3 else i + 1 in
    let next = if starts_with (codes "page") (get_or line (i + 1) []) then i + 5 else i + 2 in
    if s.intr_line == 0
    then record {
      intr_line = from;
      ctxt_line = next;
      proc_line = next + 2;
      run_line = next + 3;
      block_line = next + 4;
      first_time = s.first_time;
      stat8 = s.stat8;
      stat10 = s.stat10;
      old_cpus = s.old_cpus;
    }
    else s

-- The statics at the start of a call: the kind of file at the first, the lines to be found again
-- when the number of processors changed.
unfoldable pub start_call : List (List ℕ) → ℕ → CpuStatics → CpuStatics
start_call line cpus s = record {
  intr_line = if s.old_cpus == cpus then s.intr_line else 0;
  ctxt_line = s.ctxt_line;
  proc_line = s.proc_line;
  run_line = s.run_line;
  block_line = s.block_line;
  first_time = false;
  stat8 = if s.first_time then length (scan_signed 8 (drop 5 (get_or line 0 []))) else s.stat8;
  stat10 = if s.first_time then length (scan_signed 10 (drop 5 (get_or line 0 []))) else s.stat10;
  old_cpus = cpus;
}

pub record CpuCall : Type 0 where
  pub statics : CpuStatics
  pub total : CpuStat
  pub counts : Counts
  pub cpus : List CpuStat

-- A call that is not skipped: `proc_cpu_done` is 0 before and 1 after it.
unfoldable pub proc_cpu : List (List ℕ) → ℕ → ℕ → CpuStatics → CpuCall
proc_cpu line lines cpus statics =
    let s = start_call line cpus statics in
    let total = fill zero_ℤ zero_ℤ (scan_signed (fields s) (drop 5 (get_or line 0 []))) in
    let found = find_lines line cpus s in
    record {
      statics = found;
      total = total;
      counts = record {
        intr = labelled line lines found.intr_line (codes "intr");
        ctxt = labelled line lines found.ctxt_line (codes "ctxt");
        procs = labelled line lines found.proc_line (codes "processes");
        running = labelled line lines found.run_line (codes "procs_running");
        blocked = labelled line lines found.block_line (codes "procs_blocked");
      };
      cpus = each_cpu (fields s) 0 total.guest total.guest_nice cpus line;
    }

-- The decimal digits of a number below 10000.
abbrev pub digit : ℕ → ℕ
digit n = 48 + n % 10

abbrev pub digits : ℕ → List ℕ
digits i =
    if ltb i 10
    then digit i ∷ []
    else if ltb i 100
    then digit (i / 10) ∷ digit i ∷ []
    else if ltb i 1000
    then digit (i / 100) ∷ digit (i / 10) ∷ digit i ∷ []
    else digit (i / 1000) ∷ digit (i / 100) ∷ digit (i / 10) ∷ digit i ∷ []

row-digits : (i : ℕ) → row i ≡ suc (suc (suc (suc (length (digits i)))))
unfolding row
row-digits i = ground arith

-- `proc_cpu` starts to read the line of processor `i`, "cpu" with the digits of `i` and a space,
-- right behind that space.
pub row-label :
    (i : ℕ) (text : List ℕ) → drop (row i) (codes "cpu" ++ (digits i ++ b' ' ∷ text)) ≡ text
row-label i text =
    ap (λ n. drop n (codes "cpu" ++ (digits i ++ b' ' ∷ text))) (row-digits i)
    ∙ behind (digits i) text
  where
    behind : (ds rest : List ℕ) → drop (suc (length ds)) (ds ++ b' ' ∷ rest) ≡ rest
    behind [] rest = refl
    behind (d ∷ ds) rest = behind ds rest
