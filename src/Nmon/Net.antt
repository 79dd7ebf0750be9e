-- ===== src/Nmon/Net.antt =====
-- src/vmp/vmp_nmon.c: `vmp_proc_net` and `vmp_proc_net_stat`.
pub mod Interfaces
use vmp_rl.Base.{
  ℕ, zero, suc, ◌+◌, Bool, false, not, ◌||◌, List, [], ◌∷◌, ◌++◌, Option, none, some, ◌==◌,
  if◌then◌else◌, arith, get_or, replicate, length, ltb, Run, done, fault, ◌>>=◌,
}
use vmp_rl.Nmon.Strip.{strip_spaces, c_str}
use vmp_rl.Nmon.Scan.{skip_space, read_word, scan_unsigned}
use vmp_rl.Nmon.Lines.{newline}

-- `VMP_NETMAX`
abbrev pub vmp_netmax : ℕ
vmp_netmax = 32

-- `if_name` is the string in it.
pub record NetStat : Type 0 where
  pub if_name : List ℕ
  pub if_ibytes : ℕ
  pub if_obytes : ℕ
  pub if_ipackets : ℕ
  pub if_opackets : ℕ
  pub if_ierrs : ℕ
  pub if_oerrs : ℕ
  pub if_idrop : ℕ
  pub if_ififo : ℕ
  pub if_iframe : ℕ
  pub if_odrop : ℕ
  pub if_ofifo : ℕ
  pub if_ocarrier : ℕ
  pub if_ocolls : ℕ

abbrev pub no_stat : NetStat
no_stat = record {
  if_name = [];
  if_ibytes = 0;
  if_obytes = 0;
  if_ipackets = 0;
  if_opackets = 0;
  if_ierrs = 0;
  if_oerrs = 0;
  if_idrop = 0;
  if_ififo = 0;
  if_iframe = 0;
  if_odrop = 0;
  if_ofifo = 0;
  if_ocarrier = 0;
  if_ocolls = 0;
}

-- What `sscanf` assigns behind the name; the fields behind the numbers read keep what they had.
abbrev pub assign : NetStat → List ℕ → List ℕ → NetStat
assign s name ns = record {
  if_name = name;
  if_ibytes = get_or ns 0 s.if_ibytes;
  if_ipackets = get_or ns 1 s.if_ipackets;
  if_ierrs = get_or ns 2 s.if_ierrs;
  if_idrop = get_or ns 3 s.if_idrop;
  if_ififo = get_or ns 4 s.if_ififo;
  if_iframe = get_or ns 5 s.if_iframe;
  if_obytes = get_or ns 8 s.if_obytes;
  if_opackets = get_or ns 9 s.if_opackets;
  if_oerrs = get_or ns 10 s.if_oerrs;
  if_odrop = get_or ns 11 s.if_odrop;
  if_ofifo = get_or ns 12 s.if_ofifo;
  if_ocolls = get_or ns 13 s.if_ocolls;
  if_ocarrier = get_or ns 14 s.if_ocarrier;
}

-- `sizeof if_name`
abbrev pub if_name_size : ℕ
if_name_size = 136

-- `strip_spaces(buf)`, and what `sscanf` reads from it.
abbrev pub interface_text : List ℕ → List ℕ
interface_text buf = skip_space (c_str (strip_spaces (buf ++ 0 ∷ [])))

abbrev pub interface_name : List ℕ → List ℕ
interface_name buf = (read_word (interface_text buf)).0

unfoldable pub scanned : NetStat → List ℕ → NetStat
scanned s buf =
    let word = read_word (interface_text buf) in
    elim (interface_text buf) [ [] ↦ s | c ∷ cs ↦ assign s word.0 (scan_unsigned 15 word.1) ]

-- A name that is too long for `if_name`, with its NUL, is written behind it.
unfoldable pub scan_interface : NetStat → List ℕ → Run NetStat
scan_interface s buf =
    if ltb (length (interface_name buf)) if_name_size then done (scanned s buf) else fault

-- `fgets`, at most `n` characters up to a newline and with it: the string, and the rest of the
-- file. At the end of the file the string is empty, and C's answer is NULL.
unfoldable pub fgets : ℕ → List ℕ → List ℕ × List ℕ
fgets n [] = ([], [])
fgets zero (c ∷ cs) = ([], c ∷ cs)
fgets (suc n) (c ∷ cs) =
    let rest = fgets n cs in if c == newline then (c ∷ [], cs) else (c ∷ rest.0, rest.1)

-- `sizeof buf - 1`
abbrev pub line_max : ℕ
line_max = 1023

-- The loop on the remaining entries of the array: the entries after it, and how many were filled.
unfoldable pub net_loop : List NetStat → List ℕ → Run (List NetStat × ℕ)
net_loop [] file = done ([], 0)
net_loop (s ∷ slots) file =
    let got = fgets line_max file in
    let more = scan_interface s got.0 >>= λ t.
    net_loop slots got.1 >>= λ rest. done (t ∷ rest.0, rest.1 + 1) in
    elim file [ [] ↦ done (s ∷ slots, 0) | c ∷ cs ↦ more ]

-- What `fgets` leaves of the file, where it does not answer NULL.
abbrev pub next_line : List ℕ → Option (List ℕ)
next_line [] = none
next_line (c ∷ cs) = some (fgets line_max (c ∷ cs)).1

-- Both header lines read, or a jump to `end`.
unfoldable pub skip_headers : List ℕ → Option (List ℕ)
skip_headers file = elim (next_line file) [ none ↦ none | some rest ↦ next_line rest ]

-- The result, what the callback was told if it was called, and whether `fp` stays open.
pub record NetCall : Type 0 where
  pub networks : ℕ
  pub told : Option (List NetStat × ℕ)
  pub opened : Bool

unfoldable pub vmp_proc_net : Bool → Bool → List ℕ → Bool → Run NetCall
vmp_proc_net opened can_open file reread =
    let none_read : NetCall = record { networks = 0; told = none; opened = not reread } in
    if opened || can_open
    then elim (skip_headers file) [
      | none ↦ done none_read
      | some body ↦ net_loop (replicate vmp_netmax no_stat) body >>= λ read.
          done (record { networks = read.1; told = some read; opened = not reread })
    ]
    else done (record { networks = 0; told = none; opened = false })

-- The caller's array after the call, the result, and whether `fp` stays open.
unfoldable pub vmp_proc_net_stat :
    Bool → Bool → List ℕ → List NetStat → Bool → Run (List NetStat × ℕ × Bool)
vmp_proc_net_stat opened can_open file ifstat reread =
    if opened || can_open
    then elim (skip_headers file) [
      | none ↦ done (ifstat, 0, not reread)
      | some body ↦ net_loop ifstat body >>= λ read. done (read.0, read.1, not reread)
    ]
    else done (ifstat, 0, false)
