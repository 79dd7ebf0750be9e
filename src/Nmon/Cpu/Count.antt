-- ===== src/Nmon/Cpu/Count.antt =====
-- src/vmp/vmp_nmon.c: what `get_cpu_cnt` counts.
use vmp_rl.Base.{
  ℕ, zero, suc, ◌+◌, ◌<◌, ◌≡◌, refl, ap, ◌∙◌, true, false, List, [], ◌∷◌, ◌++◌, none, some, leb,
  codes, arith, length, take, if◌then◌else◌, All,
}
use vmp_rl.Nmon.Scan.{starts_with}
use vmp_rl.Nmon.Cpu.{vmp_cpumax, cpu_loop, get_cpu_cnt}

cpu_loop-cpus :
    (i : ℕ) (cpus rest : List (List ℕ))
    → All (λ line. starts_with (codes "cpu") line ≡ true) cpus
    → cpu_loop (i + 1) i (cpus ++ rest) ≡ cpu_loop (i + length cpus + 1) (i + length cpus) rest
unfolding cpu_loop
cpu_loop-cpus i [] rest all = ap (λ n. cpu_loop (n + 1) n rest) (omega arith)
cpu_loop-cpus i (c ∷ cpus) rest (is, all) =
    (rw is) ∙ cpu_loop-cpus (i + 1) cpus rest all ∙ ap (λ n. cpu_loop (n + 1) n rest) (omega arith)

cpu_loop-end :
    (i cpus : ℕ) (line : List ℕ) (rest : List (List ℕ))
    → starts_with (codes "cpu") line ≡ false
    → cpu_loop i cpus (line ∷ rest) ≡ cpus
unfolding cpu_loop
cpu_loop-end i cpus line rest other = rw other

take-through :
    (n : ℕ) (cpus : List (List ℕ)) (next : List ℕ) (rest : List (List ℕ))
    → length cpus < n
    → (kept : List (List ℕ)) × (take n (cpus ++ next ∷ rest) ≡ cpus ++ next ∷ kept)
take-through zero cpus next rest h = absurd (omega (arith, h))
take-through (suc n) [] next rest h = (take n rest, refl)
take-through (suc n) (c ∷ cpus) next rest h =
    let (kept, e) = take-through n cpus next rest (omega (arith, h)) in (kept, ap (λ ls. c ∷ ls) e)

-- In a table whose first line is followed by lines that start with "cpu", then by one that does
-- not, all of them among the lines that count, `get_cpu_cnt` counts the former, and the program exits instead
-- where they are 1536 or more.
pub get_cpu_cnt_lem :
    (total next : List ℕ) (cpus rest : List (List ℕ)) (lines : ℕ)
    → All (λ line. starts_with (codes "cpu") line ≡ true) cpus
    → starts_with (codes "cpu") next ≡ false
    → length cpus < lines
    → get_cpu_cnt (total ∷ (cpus ++ next ∷ rest)) (suc lines)
      ≡ (if leb vmp_cpumax (length cpus) then none else some (length cpus))
unfolding get_cpu_cnt
get_cpu_cnt_lem total next cpus rest lines all other enough =
    let (kept, e) = take-through lines cpus next rest enough in
    ap (λ ls. let cpus = cpu_loop 1 0 ls in if leb vmp_cpumax cpus then none else some cpus) e
    ∙ ap (λ (n : ℕ). if leb vmp_cpumax n then none else some n)
        (cpu_loop-cpus 0 cpus (next ∷ kept) all
          ∙ cpu_loop-end (0 + length cpus + 1) (0 + length cpus) next kept other
          ∙ omega arith)
