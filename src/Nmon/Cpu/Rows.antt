-- ===== src/Nmon/Cpu/Rows.antt =====
-- src/vmp/vmp_nmon.c: what `proc_cpu` makes of the lines of a well-formed /proc/stat.
use vmp_rl.Base.{ℕ, ◌+◌, ◌≤◌, List, [], ◌∷◌, ◌++◌, codes, length}
use vmp_rl.Nmon.Scan.{scan_signed}
use vmp_rl.Nmon.Cpu.{digits}

-- The lines of the processors from number `i` on, with these texts behind their labels.
abbrev pub cpu_lines : ℕ → List (List ℕ) → List (List ℕ)
cpu_lines i [] = []
cpu_lines i (text ∷ texts) = (codes "cpu" ++ (digits i ++ b' ' ∷ text)) ∷ cpu_lines (i + 1) texts

-- The text starts with as many numbers.
abbrev pub Numbers : ℕ → List ℕ → Type 0
Numbers n text = n ≤ length (scan_signed n text)
