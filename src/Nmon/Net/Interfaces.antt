-- ===== src/Nmon/Net/Interfaces.antt =====
-- src/vmp/vmp_nmon.c: what `vmp_proc_net` makes of the lines of /proc/net/dev.
use vmp_rl.Base.{
  ℕ, zero, suc, ltb, ◌+◌, ◌<◌, ◌≡◌, refl, ap, ◌∙◌, Bool, true, false, not, ◌||◌, List, [], ◌∷◌,
  ◌++◌, some, ◌==◌, if◌then◌else◌, arith, length, replicate, All, done, ◌>>=◌,
}
use vmp_rl.Nmon.Lines.{newline}
use vmp_rl.Nmon.Net.{
  vmp_netmax, NetStat, no_stat, interface_name, scanned, scan_interface, fgets, line_max, net_loop,
  next_line, skip_headers, vmp_proc_net,
}

-- A file's text, from its lines without their newlines.
abbrev pub net_file : List (List ℕ) → List ℕ
net_file [] = []
net_file (line ∷ lines) = line ++ newline ∷ net_file lines

-- A line that the buffer holds.
abbrev pub IsLine : List ℕ → Type 0
IsLine line = (length line < line_max) × All (λ c. c == newline ≡ false) line

-- A line of an interface, whose name `if_name` holds.
abbrev pub IsInterface : List ℕ → Type 0
IsInterface line = IsLine line × (length (interface_name (line ++ newline ∷ [])) < 136)

-- The entries after the loop by the lines themselves.
abbrev pub fill_slots : List NetStat → List (List ℕ) → List NetStat
fill_slots [] lines = []
fill_slots (s ∷ slots) [] = s ∷ slots
fill_slots (s ∷ slots) (line ∷ lines) = scanned s (line ++ newline ∷ []) ∷ fill_slots slots lines

-- How many lines there are, at most as many as there are entries.
abbrev pub at_most : List NetStat → List (List ℕ) → ℕ
at_most [] lines = 0
at_most (s ∷ slots) [] = 0
at_most (s ∷ slots) (line ∷ lines) = at_most slots lines + 1

fgets-line :
    (n : ℕ) (line rest : List ℕ)
    → length line < n
    → All (λ c. c == newline ≡ false) line
    → fgets n (line ++ newline ∷ rest) ≡ (line ++ newline ∷ [], rest)
unfolding fgets
fgets-line zero line rest short plain = absurd (omega (arith, short))
fgets-line (suc n) [] rest short plain = refl
fgets-line (suc n) (c ∷ line) rest short (not_end, plain) =
    rw (not_end, fgets-line n line rest (omega (arith, short)) plain) refl

net_loop-line :
    (s : NetStat) (slots : List NetStat) (line rest : List ℕ)
    → IsInterface line
    → net_loop (s ∷ slots) (line ++ newline ∷ rest) ≡ (
        net_loop slots rest >>= λ others.
        done (scanned s (line ++ newline ∷ []) ∷ others.0, others.1 + 1))
unfolding net_loop scan_interface
net_loop-line s slots line rest ((short, plain), held) = by_line line short plain held
  where
    by_line :
        (l : List ℕ)
        → length l < line_max
        → All (λ c. c == newline ≡ false) l
        → length (interface_name (l ++ newline ∷ [])) < 136
        → net_loop (s ∷ slots) (l ++ newline ∷ rest) ≡ (
            net_loop slots rest >>= λ others.
            done (scanned s (l ++ newline ∷ []) ∷ others.0, others.1 + 1))
    by_line [] few none_ends fits =
        let is : ltb (length (interface_name (newline ∷ []))) 136 ≡ true = ground (arith, fits) in
        rw (fgets-line line_max [] rest few none_ends, is) refl
    by_line (c ∷ l) few none_ends fits =
        let is : ltb (length (interface_name (c ∷ (l ++ newline ∷ [])))) 136 ≡ true =
          ground (arith, fits) in
        rw (fgets-line line_max (c ∷ l) rest few none_ends, is) refl

net_loop_lem :
    (slots : List NetStat) (lines : List (List ℕ))
    → All IsInterface lines
    → net_loop slots (net_file lines) ≡ done (fill_slots slots lines, at_most slots lines)
unfolding net_loop
net_loop_lem [] lines all = refl
net_loop_lem (s ∷ slots) [] all = refl
net_loop_lem (s ∷ slots) (line ∷ lines) (is, all) =
    net_loop-line s slots line (net_file lines) is ∙ rw (net_loop_lem slots lines all) refl

abbrev pub lesser : ℕ → ℕ → ℕ
lesser m n = if ltb m n then m else n

at_most_lem :
    (slots : List NetStat) (lines : List (List ℕ))
    → at_most slots lines ≡ lesser (length lines) (length slots)
at_most_lem [] lines = ground arith
at_most_lem (s ∷ slots) [] = ground arith
at_most_lem (s ∷ slots) (line ∷ lines) = ground (arith, at_most_lem slots lines)

next_line_lem : (line rest : List ℕ) → IsLine line → next_line (line ++ newline ∷ rest) ≡ some rest
next_line_lem [] rest (short, plain) =
    ap (λ got. some got.1) (fgets-line line_max [] rest short plain)
next_line_lem (c ∷ line) rest (short, plain) =
    ap (λ got. some got.1) (fgets-line line_max (c ∷ line) rest short plain)

skip_headers_lem :
    (first second rest : List ℕ)
    → IsLine first
    → IsLine second
    → skip_headers (first ++ newline ∷ (second ++ newline ∷ rest)) ≡ some rest
unfolding skip_headers
skip_headers_lem first second rest one two =
    rw (skip_headers, next_line_lem first (second ++ newline ∷ rest) one)
      (next_line_lem second rest two)

-- On a readable /proc/net/dev of two header lines and further lines, each shorter than 1023
-- characters and the latter with a first word, the name, of less than 136, `vmp_proc_net` returns the number of the further lines, at most 32, and tells its
-- callback that number and the entries filled from the lines in their order.
pub vmp_proc_net_lem :
    (opened can_open reread : Bool) (first second : List ℕ) (lines : List (List ℕ))
    → opened || can_open ≡ true
    → IsLine first
    → IsLine second
    → All IsInterface lines
    → vmp_proc_net opened can_open (net_file (first ∷ second ∷ lines)) reread
      ≡ done (record {
        networks = lesser (length lines) 32;
        told = some (fill_slots (replicate 32 no_stat) lines, lesser (length lines) 32);
        opened = not reread;
      })
unfolding vmp_proc_net
vmp_proc_net_lem opened can_open reread first second lines can one two all =
    rw
      (
        can,
        skip_headers_lem first second (net_file lines) one two,
        net_loop_lem (replicate vmp_netmax no_stat) lines all,
        at_most_lem (replicate vmp_netmax no_stat) lines,
      )
      refl
