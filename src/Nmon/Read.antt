-- ===== src/Nmon/Read.antt =====
-- src/vmp/vmp_nmon.c: `struct nmon_proc` and `proc_read`.
use vmp_rl.Base.{
  ℕ, zero, suc, ◌+◌, ◌-◌, ◌*◌, ◌≤◌, ◌<◌, ◌≡◌, refl, ap, Bool, true, false, not, ◌&&◌, ◌||◌, List,
  [], ◌∷◌, ◌++◌, ltb, arith, length, take, length-take, ◌⊎◌, get_or, ◌==◌, if◌then◌else◌, inl, inr,
}
use vmp_rl.Nmon.Lines.{
  newline, proc_maxlines, Cut, cut_loop, line_table, split_lines, count_newlines,
}
use vmp_rl.Nmon.Lines.Cutting.{NonZero, cut_loop_lem}

-- The numbers of the files that the functions tell apart.
abbrev pub p_stat : ℕ
p_stat = 1

abbrev pub p_version : ℕ
p_version = 2

-- `opened` is `fp != 0`; `cut` stands for `buf`, `line` and `lines`; `proc_cpu_done` is the global.
pub record NmonProc : Type 0 where
  pub opened : Bool
  pub size : ℕ
  pub cut : Cut
  pub read_this_interval : Bool
  pub proc_cpu_done : Bool

-- What the system answers: whether `fopen` succeeds, what the file holds, and the byte that stands
-- behind the NUL in the buffer.
pub record File : Type 0 where
  pub can_open : Bool
  pub content : List ℕ
  pub stale : ℕ

-- The loop on `fread`: the allocated size and what the buffer holds behind it.
unfoldable pub grow_loop : ℕ → ℕ → List ℕ → List ℕ → ℕ × List ℕ
grow_loop zero size content text = (size, text)
grow_loop (suc n) size content text =
    let rest = grow_loop n (size + 512) content (take (size - 1) content) in
    if ltb (length (take (size - 1) content)) (size - 1)
    then (size, take (size - 1) content)
    else rest

-- `buf[i + k + 1]`, where `cs` follows the character at `i`.
abbrev peek : ℕ → List ℕ → ℕ → ℕ
peek stale cs k = get_or (cs ++ 0 ∷ stale ∷ []) k 0

-- The loop for /proc/version; `cut` says that the turn before replaced this character.
unfoldable pub fix_version : ℕ → Bool → Bool → List ℕ → List ℕ
fix_version stale found cut [] = []
fix_version stale found cut (ch ∷ cs) =
    let c = if cut then newline else ch in
    let opens = not found && c == b')' && peek stale cs 0 == b' ' && peek stale cs 1 == b'(' in
    let counts = c == b')' && peek stale cs 0 == b' ' && peek stale cs 1 == b'#' in
    let first = c == b'#' && peek stale cs 1 == b'1' in
    let rest = fix_version stale (found || opens) (opens || counts) cs in
    (if first then newline else c) ∷ rest

abbrev pub first_size : ℕ → ℕ
first_size size = if size == 0 then 512 else size

-- What follows the opening of the file.
abbrev read_open : File → ℕ → Bool → NmonProc → NmonProc
read_open file num reread p =
    let grown = grow_loop 4096 (first_size p.size) file.content [] in
    let text = if num == p_version then fix_version file.stale false false grown.1 else grown.1 in
    record {
      opened = not reread;
      size = grown.0;
      cut = cut_loop 0 0 text;
      read_this_interval = true;
      proc_cpu_done = if num == p_stat then false else p.proc_cpu_done;
    }

unfoldable pub proc_read : File → ℕ → Bool → NmonProc → NmonProc
proc_read file num reread p =
    if p.read_this_interval
    then p
    else if p.opened || file.can_open
    then read_open file num reread p
    else p

take-all : (n : ℕ) (xs : List ℕ) → length xs ≤ n → take n xs ≡ xs
take-all zero [] h = refl
take-all zero (x ∷ xs) h = absurd (omega arith)
take-all (suc n) [] h = refl
take-all (suc n) (x ∷ xs) h = ap (λ ys. x ∷ ys) (take-all n xs (omega arith))

length-take_lt : (n : ℕ) (xs : List ℕ) → length (take n xs) < n → length xs < n
length-take_lt zero xs h = absurd (omega arith)
length-take_lt (suc n) [] h = omega arith
length-take_lt (suc n) (x ∷ xs) h = omega (arith, length-take_lt n xs (omega arith))

-- Where the content fits a buffer of the size, the turn is the last.
grow-fits :
    (n size : ℕ) (content text : List ℕ)
    → length content + 1 < size
    → grow_loop (suc n) size content text ≡ (size, content)
unfolding grow_loop
grow-fits n size content text fits =
    let whole = take-all (size - 1) content (omega (arith, fits)) in rw (whole, shorter)
  where
    shorter : ltb (length content) (size - 1) ≡ true
    shorter = ground (arith, fits)

grow-full :
    (n size : ℕ) (content text : List ℕ)
    → size ≤ length content + 1
    → grow_loop (suc n) size content text
      ≡ grow_loop n (size + 512) content (take (size - 1) content)
unfolding grow_loop
grow-full n size content text full = rw (
    ltb_full (length (take (size - 1) content)) (size - 1)
      (length-take (size - 1) content (omega (arith, full))))
  where
    ltb_full : (m k : ℕ) → m ≡ k → ltb m k ≡ false
    ltb_full m k e = ground (arith, e)

-- The loop reads a file whole that fits the buffer within its turns, with a byte left for the NUL.
grow_loop_lem :
    (n size : ℕ) (content text : List ℕ)
    → length content + 1 < size + 512 * n
    → ((grow_loop (suc n) size content text).1 ≡ content)
      × (length content + 1 < (grow_loop (suc n) size content text).0)
grow_loop_lem zero size content text fits =
    let lt : length content + 1 < size = omega (arith, fits) in
    rw (grow-fits zero size content text lt) (refl, lt)
grow_loop_lem (suc n) size content text fits = elim (total (length content + 1) size) [
  | inl lt ↦ rw (grow-fits (suc n) size content text lt) (refl, lt)
  | inr ge ↦
      rw (grow-full (suc n) size content text ge)
        (grow_loop_lem n (size + 512) content (take (size - 1) content) (omega (arith, fits)))
]
  where
    total : (a b : ℕ) → (a < b) ⊎ (b ≤ a)
    total a b = omega arith

-- A first or repeated reading of a file without NUL that fits the buffer's 4096 enlargements and
-- the table of lines, other than /proc/version: the table holds the file's lines, with their tabs
-- as spaces, `lines` counts its newlines, the buffer has room for the content and the NUL, and the
-- file counts as read in this interval.
pub proc_read_lem :
    (file : File) (num : ℕ) (reread : Bool) (p : NmonProc)
    → p.read_this_interval ≡ false
    → p.opened || file.can_open ≡ true
    → num == p_version ≡ false
    → NonZero file.content
    → count_newlines file.content < proc_maxlines - 1
    → length file.content + 1 < first_size p.size + 512 * 4095
    → (line_table (proc_read file num reread p).cut ≡ split_lines file.content)
      × ((proc_read file num reread p).cut.lines ≡ count_newlines file.content)
      × (length file.content + 1 < (proc_read file num reread p).size)
      × ((proc_read file num reread p).read_this_interval ≡ true)
unfolding proc_read
proc_read_lem file num reread p fresh can other nz few fits =
    let (whole, room) = grow_loop_lem 4095 (first_size p.size) file.content [] fits in
    let (table, lines) = cut_loop_lem file.content nz few in
    rw (fresh, can, other, whole) (table, lines, room, refl)

-- A file read in this interval is not read again, and a failed `fopen` changes nothing.
proc_read-kept :
    (file : File) (num : ℕ) (reread : Bool) (p : NmonProc)
    → p.read_this_interval || not (p.opened || file.can_open) ≡ true
    → proc_read file num reread p ≡ p
unfolding proc_read
proc_read-kept file num reread p h = ground (arith, h)
