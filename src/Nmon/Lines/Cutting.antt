-- ===== src/Nmon/Lines/Cutting.antt =====
-- src/vmp/vmp_nmon.c: the loop of `proc_read` cuts a text into its lines.
use mathlib.Core.List.{append_assoc}
use mathlib.Core.Path.{ap₂}
use vmp_rl.Base.{
  ℕ, ◌+◌, ◌-◌, ◌<◌, ◌≡◌, ◌≢◌, refl, sym, ap, ◌∙◌, Bool, true, false, List, [], ◌∷◌, ◌++◌, arith,
  length, drop, map, ◌==◌, if◌then◌else◌, All, Bool-cases, inl, inr, length-append, drop-append,
}
use vmp_rl.Nmon.Strip.{c_str}
use vmp_rl.Nmon.Lines.{
  newline, proc_maxlines, Cut, cut_char, cut_lines, cut_loop, line_table, into_first, split_lines,
  count_newlines,
}

-- Reading the table from the text at offset `i` on, where `before` has been cut already.
abbrev strings_from : List ℕ → Cut → ℕ → List (List ℕ)
strings_from before cut i =
    map (λ start. c_str (drop start (before ++ (cut.buf ++ 0 ∷ [])))) (i ∷ cut.starts)

module _ (before : List ℕ) (rest : Cut) (i c : ℕ) (at : length before ≡ i) where
  abbrev text : List ℕ
  text = rest.buf ++ 0 ∷ []

  regroup : before ++ c ∷ text ≡ (before ++ c ∷ []) ++ text
  regroup = sym (append_assoc before (c ∷ []) text)

  drop-here : drop i (before ++ c ∷ text) ≡ c ∷ text
  drop-here = rw (← at) (drop-append before (c ∷ text))

  drop-next : drop (i + 1) ((before ++ c ∷ []) ++ text) ≡ text
  drop-next =
      ap (λ (n : ℕ). drop n ((before ++ c ∷ []) ++ text))
        (omega (arith, length-append before (c ∷ [])))
      ∙ drop-append (before ++ c ∷ []) text

  others :
      map (λ start. c_str (drop start (before ++ c ∷ text))) rest.starts
      ≡ map (λ start. c_str (drop start ((before ++ c ∷ []) ++ text))) rest.starts
  others = ap (λ (b : List ℕ). map (λ start. c_str (drop start b)) rest.starts) regroup

  -- One more character at the front of the rest.
  strings-char :
      (lines : ℕ)
      → c ≢ 0
      → strings_from before (record { buf = c ∷ rest.buf; starts = rest.starts; lines = lines }) i
        ≡ into_first c (strings_from (before ++ c ∷ []) rest (i + 1))
  unfolding c_str
  strings-char lines nz =
      ap₂ ◌∷◌ (ap c_str drop-here ∙ (rw not_end) ∙ ap (λ (l : List ℕ). c ∷ c_str l) (sym drop-next))
        others
    where
      not_end : (c == 0) ≡ false
      not_end = ground (arith, nz)

  strings-newline :
      (lines : ℕ)
      → c ≡ 0
      → strings_from before
          (record { buf = c ∷ rest.buf; starts = (i + 1) ∷ rest.starts; lines = lines })
          i
        ≡ [] ∷ strings_from (before ++ c ∷ []) rest (i + 1)
  strings-newline lines zero_char =
      ap₂ ◌∷◌ (ap c_str drop-here ∙ unfold c_str in rw ended)
        (ap₂ ◌∷◌ (ap (λ (b : List ℕ). c_str (drop (i + 1) b)) regroup) others)
    where
      ended : (c == 0) ≡ true
      ended = ground (arith, zero_char)

abbrev pub NonZero : List ℕ → Type 0
NonZero = All (λ c. c ≢ 0)

cut_loop-step :
    (lines i c : ℕ) (cs : List ℕ)
    → cut_lines lines c < proc_maxlines - 1
    → cut_loop lines i (c ∷ cs) ≡ (
        let rest = cut_loop (cut_lines lines c) (i + 1) cs in
        record {
          buf = cut_char c ∷ rest.buf;
          starts = (if c == newline then (i + 1) ∷ [] else []) ++ rest.starts;
          lines = rest.lines;
        })
unfolding cut_loop
cut_loop-step lines i c cs h = rw more
  where
    more : (cut_lines lines c == proc_maxlines - 1) ≡ false
    more = ground (arith, h)

-- What the loop does from offset `i` on.
abbrev Cuts : ℕ → ℕ → List ℕ → List ℕ → Type 0
Cuts lines i before cs =
    (strings_from before (cut_loop lines i cs) i ≡ split_lines cs)
    × ((cut_loop lines i cs).lines ≡ lines + count_newlines cs)

Cuts-nil : (lines i : ℕ) (before : List ℕ) → length before ≡ i → Cuts lines i before []
unfolding cut_loop c_str split_lines
Cuts-nil lines i before at = (ap (λ (l : List ℕ). c_str l ∷ []) here ∙ nothing, omega arith)
  where
    here : drop i (before ++ 0 ∷ []) ≡ 0 ∷ []
    here = rw (← at) (drop-append before (0 ∷ []))

    nothing : c_str (0 ∷ []) ∷ [] ≡ split_lines []
    nothing = refl

module _ (lines i c : ℕ) (before cs : List ℕ) (at : length before ≡ i) where
  abbrev next : Cut
  next = cut_loop (cut_lines lines c) (i + 1) cs

  Cuts-newline :
      c == newline ≡ true
      → cut_lines lines c < proc_maxlines - 1
      → Cuts (cut_lines lines c) (i + 1) (before ++ cut_char c ∷ []) cs
      → Cuts lines i before (c ∷ cs)
  Cuts-newline is few (ih, count) = (
    ap (λ (cut : Cut). strings_from before cut i) cut
        ∙ strings-newline before next i (cut_char c) at next.lines ended
        ∙ ap (λ ls. [] ∷ ls) ih
        ∙ unfold split_lines in rw is,
    ap (λ (cut : Cut). cut.lines) cut ∙ count ∙ rw is (omega arith),
  )
    where
      ended : cut_char c ≡ 0
      ended = ground (arith, is)

      cut : cut_loop lines i (c ∷ cs) ≡ record {
        buf = cut_char c ∷ next.buf;
        starts = (i + 1) ∷ next.starts;
        lines = next.lines;
      }
      cut =
          cut_loop-step lines i c cs few
          ∙ ap
              (λ (b : Bool). record {
                buf = cut_char c ∷ next.buf;
                starts = (if b then (i + 1) ∷ [] else []) ++ next.starts;
                lines = next.lines;
              })
              is

  Cuts-char :
      c == newline ≡ false
      → c ≢ 0
      → cut_lines lines c < proc_maxlines - 1
      → Cuts (cut_lines lines c) (i + 1) (before ++ cut_char c ∷ []) cs
      → Cuts lines i before (c ∷ cs)
  Cuts-char not nz few (ih, count) = (
    ap (λ (cut : Cut). strings_from before cut i) cut
        ∙ strings-char before next i (cut_char c) at next.lines kept
        ∙ ap (into_first (cut_char c)) ih
        ∙ unfold split_lines in rw not,
    ap (λ (cut : Cut). cut.lines) cut ∙ count ∙ rw not (omega arith),
  )
    where
      kept : cut_char c ≢ 0
      kept = ground (arith, not, nz)

      cut :
          cut_loop lines i (c ∷ cs)
          ≡ record { buf = cut_char c ∷ next.buf; starts = next.starts; lines = next.lines }
      cut =
          cut_loop-step lines i c cs few
          ∙ ap
              (λ (b : Bool). record {
                buf = cut_char c ∷ next.buf;
                starts = (if b then (i + 1) ∷ [] else []) ++ next.starts;
                lines = next.lines;
              })
              not

cut_lines-count : (lines c n : ℕ) → cut_lines lines c + n ≡ lines + cut_lines n c
cut_lines-count lines c n = ground arith

cut_loop-strings :
    (lines i : ℕ) (before cs : List ℕ)
    → length before ≡ i
    → NonZero cs
    → lines + count_newlines cs < proc_maxlines - 1
    → Cuts lines i before cs
cut_loop-strings lines i before [] at nz few = Cuts-nil lines i before at
cut_loop-strings lines i before (c ∷ cs) at (nz, nzs) few =
    let split = cut_lines-count lines c (count_newlines cs) in
    let rest =
      cut_loop-strings (cut_lines lines c) (i + 1) (before ++ cut_char c ∷ []) cs
        (omega (arith, at, length-append before (cut_char c ∷ []))) nzs
        (omega (arith, few, split)) in
    elim (Bool-cases (c == newline)) [
      | inl is ↦ Cuts-newline lines i c before cs at is (omega (arith, few, split)) rest
      | inr not ↦ Cuts-char lines i c before cs at not nz (omega (arith, few, split)) rest
    ]

-- The loop cuts a text without NUL, with fewer newlines than the table has entries but one, into
-- its lines: the entries of `line` up to `line[lines]`, as C strings, are the pieces between the
-- newlines with their tabs as spaces, and `lines` is the number of newlines.
pub cut_loop_lem :
    (content : List ℕ)
    → NonZero content
    → count_newlines content < proc_maxlines - 1
    → (line_table (cut_loop 0 0 content) ≡ split_lines content)
      × ((cut_loop 0 0 content).lines ≡ count_newlines content)
cut_loop_lem content nz few =
    let (strings, lines) = cut_loop-strings 0 0 [] content refl nz (omega (arith, few)) in
    ((unfold line_table in strings), omega (arith, lines))
