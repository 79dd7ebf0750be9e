-- ===== src/Nmon/Lines.antt =====
-- src/vmp/vmp_nmon.c: how `proc_read` cuts its buffer into lines.
pub mod Cutting
use vmp_rl.Base.{ℕ, ◌+◌, ◌-◌, ◌*◌, List, [], ◌∷◌, ◌++◌, arith, drop, map, ◌==◌, if◌then◌else◌}
use vmp_rl.Nmon.Strip.{c_str}

abbrev pub newline : ℕ
newline = 10

abbrev pub tab : ℕ
tab = 9

-- `PROC_MAXLINES`
abbrev pub proc_maxlines : ℕ
proc_maxlines = 16 * 1024

-- The buffer after the loop, the offsets of the entries of `line` behind the first, and `lines`.
pub record Cut : Type 0 where
  pub buf : List ℕ
  pub starts : List ℕ
  pub lines : ℕ

abbrev pub cut_char : ℕ → ℕ
cut_char c = if c == tab then b' ' else if c == newline then 0 else c

abbrev pub cut_lines : ℕ → ℕ → ℕ
cut_lines lines c = if c == newline then lines + 1 else lines

-- From the character at offset `i` on, with `lines` lines so far; the loop stops at the last entry
-- of the table.
unfoldable pub cut_loop : ℕ → ℕ → List ℕ → Cut
cut_loop lines i [] = record { buf = []; starts = []; lines = lines }
cut_loop lines i (c ∷ cs) =
    let rest = cut_loop (cut_lines lines c) (i + 1) cs in
    let starts = if c == newline then (i + 1) ∷ [] else [] in
    if cut_lines lines c == proc_maxlines - 1
    then record { buf = cut_char c ∷ cs; starts = starts; lines = cut_lines lines c }
    else record { buf = cut_char c ∷ rest.buf; starts = starts ++ rest.starts; lines = rest.lines }

-- The entries of `line` up to `line[lines]`, as C strings; a NUL ends the buffer.
unfoldable pub line_table : Cut → List (List ℕ)
line_table cut = map (λ start. c_str (drop start (cut.buf ++ 0 ∷ []))) (0 ∷ cut.starts)

-- The lines of a text: what stands between its newlines, with tabs as spaces.
abbrev pub into_first : ℕ → List (List ℕ) → List (List ℕ)
into_first c [] = (c ∷ []) ∷ []
into_first c (l ∷ ls) = (c ∷ l) ∷ ls

unfoldable pub split_lines : List ℕ → List (List ℕ)
split_lines [] = [] ∷ []
split_lines (c ∷ cs) =
    if c == newline then [] ∷ split_lines cs else into_first (cut_char c) (split_lines cs)

abbrev pub count_newlines : List ℕ → ℕ
count_newlines [] = 0
count_newlines (c ∷ cs) = cut_lines (count_newlines cs) c
