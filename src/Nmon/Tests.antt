-- ===== src/Nmon/Tests.antt =====
-- Runs of the statistics files on small inputs.
use vmp_rl.Base.{
  done, ℕ, ◌+◌, ◌<◌, All, ◌≡◌, refl, true, false, List, [], ◌∷◌, ◌++◌, replicate, none, some, ℤ,
  codes, arith, length, leb, if◌then◌else◌,
}
use vmp_rl.Nmon.Strip.{strip_spaces, c_str}
use vmp_rl.Nmon.Strip.Words
use vmp_rl.Nmon.Strip.Words.{Tidy, words_from}
use vmp_rl.Nmon.Scan.{skip_space, starts_with}
use vmp_rl.Nmon.Lines.{newline, line_table, split_lines, count_newlines}
use vmp_rl.Nmon.Lines.Cutting.{NonZero}
use vmp_rl.Nmon.Read
use vmp_rl.Nmon.Read.{NmonProc, File, proc_read, p_stat}
use vmp_rl.Nmon.Mem
use vmp_rl.Nmon.Mem.{proc_mem_search, mem_line}
use vmp_rl.Nmon.Cpu.Count
use vmp_rl.Nmon.Cpu.{CpuStatics, get_cpu_cnt, vmp_cpumax}
use vmp_rl.Nmon.Cpu.Rows
use vmp_rl.Nmon.Net.Interfaces
use vmp_rl.Nmon.Net.Interfaces.{IsLine, IsInterface, net_file, fill_slots, lesser}
use vmp_rl.Nmon.Net.{vmp_proc_net, no_stat}

-- "cpu 1\nintr 2\n"
abbrev small_stat : File
small_stat = record {
  can_open = true;
  content = codes "cpu 1" ++ newline ∷ codes "intr 2" ++ newline ∷ [];
  stale = 0;
}

abbrev unread : NmonProc
unread = record {
  opened = false;
  size = 0;
  cut = record { buf = []; starts = []; lines = 0 };
  read_this_interval = false;
  proc_cpu_done = true;
}

small_stat-NonZero : NonZero small_stat.content
small_stat-NonZero = omega arith

proc_read_lem_example :
    (line_table (proc_read small_stat p_stat false unread).cut ≡ split_lines small_stat.content)
    × ((proc_read small_stat p_stat false unread).cut.lines ≡ count_newlines small_stat.content)
    × (length small_stat.content + 1 < (proc_read small_stat p_stat false unread).size)
    × ((proc_read small_stat p_stat false unread).read_this_interval ≡ true)
proc_read_lem_example =
    Read.proc_read_lem small_stat p_stat false unread refl refl refl small_stat-NonZero
      (omega arith) (omega arith)

small_table : split_lines small_stat.content ≡ codes "cpu 1" ∷ codes "intr 2" ∷ [] ∷ []
unfolding split_lines
small_table = refl

value_found :
    proc_mem_search
      (codes "MemTotal: 8 kB" ∷ mem_line (codes "MemFree") 2 (b'4' ∷ b'2' ∷ []) (codes " kB") ∷ [])
      (codes "MemFree")
    ≡ ℤ.pos 42
unfolding starts_with
value_found =
    Mem.proc_mem_search-value (codes "MemFree") 1 b'4' (b'2' ∷ []) (codes " kB")
      (codes "MemTotal: 8 kB" ∷ []) [] (refl, tt) refl (refl, tt) refl

nines_skipped :
    proc_mem_search (codes "A:95" ∷ []) (codes "A") ≡ proc_mem_search (codes "A:5" ∷ []) (codes "A")
nines_skipped = Mem.proc_mem_search_nines (codes "A") (codes "5") 1 [] [] tt

cpus_counted :
    get_cpu_cnt
      (codes "cpu 4" ∷ (codes "cpu0 1" ∷ codes "cpu1 3" ∷ []) ++ codes "intr 7" ∷ [] ∷ [])
      4
    ≡ (if leb vmp_cpumax 2 then none else some 2)
unfolding starts_with
cpus_counted =
    Count.get_cpu_cnt_lem (codes "cpu 4") (codes "intr 7") (codes "cpu0 1" ∷ codes "cpu1 3" ∷ [])
      ([] ∷ []) 3 (refl, (refl, tt)) refl (omega arith)

abbrev two_texts : List (List ℕ)
two_texts = codes "1 2 3 4 5 6 7 8 9 10" ∷ codes "0 0 1 0 0 0 0 0 0 0" ∷ []

abbrev first_call : CpuStatics
first_call = record {
  intr_line = 0;
  ctxt_line = 0;
  proc_line = 0;
  run_line = 0;
  block_line = 0;
  first_time = true;
  stat8 = 0;
  stat10 = 0;
  old_cpus = 1;
}

inter-IsLine : IsLine (codes "I-|")
inter-IsLine = (omega arith, (refl, (refl, (refl, tt))))

face-IsLine : IsLine (codes " f |")
face-IsLine = (omega arith, (refl, (refl, (refl, (refl, tt)))))

abbrev interfaces : List (List ℕ)
interfaces = codes " l:1 3" ∷ codes "e: 0" ∷ []

interfaces-IsInterface : All IsInterface interfaces
unfolding strip_spaces vmp_rl.Nmon.Scan.read_word skip_space c_str
interfaces-IsInterface = (
  ((omega arith, (refl, (refl, (refl, (refl, (refl, (refl, tt))))))), omega arith),
  (((omega arith, (refl, (refl, (refl, (refl, tt))))), omega arith), tt),
)

vmp_proc_net_lem_example :
    vmp_proc_net false true (net_file (codes "I-|" ∷ codes " f |" ∷ interfaces)) true
    ≡ done (record {
      networks = lesser 2 32;
      told = some (fill_slots (replicate 32 no_stat) interfaces, lesser 2 32);
      opened = false;
    })
vmp_proc_net_lem_example =
    Interfaces.vmp_proc_net_lem false true true (codes "I-|") (codes " f |") interfaces refl
      inter-IsLine face-IsLine interfaces-IsInterface

strip_spaces_lem_example :
    (let line = c_str (strip_spaces (codes " l:  1" ++ 0 ∷ [])) in
      Tidy true line × (words_from [] line ≡ words_from [] (codes " l:  1")))
strip_spaces_lem_example = Words.strip_spaces_lem (codes " l:  1") [] (omega arith)
