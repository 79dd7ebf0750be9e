-- ===== src/Nmon/Mem.antt =====
-- src/vmp/vmp_nmon.c: `proc_mem_search` and `vmp_proc_mem`.
use vmp_rl.Base.{
  ℕ, zero, suc, ◌≡◌, refl, sym, ap, ◌∙◌, some, codes, Bool, true, false, not, ◌&&◌, List, [], ◌∷◌,
  ◌++◌, ℤ, minus_one, leb, if◌then◌else◌, arith, length, drop, replicate, All, drop-append,
}
use vmp_rl.Nmon.Scan.{
  is_dec, is_space, skip_space, starts_dec, read_sign, read_number, atol, starts_with,
  starts_with-append, value, AllDigits, read_digits-append,
}

-- The macro `isdigit`, which covers the C library's, at a signed `char`.
abbrev pub isdigit : ℕ → Bool
isdigit ch = if leb 128 ch then true else not (leb b'0' ch && leb b'9' ch)

-- The inner loop of `proc_mem_search`.
unfoldable pub skip_label : List ℕ → List ℕ
skip_label [] = []
skip_label (c ∷ cs) = let rest = skip_label cs in if isdigit c then c ∷ cs else rest

-- The lines are those below `proc_info->lines`.
unfoldable pub proc_mem_search : List (List ℕ) → List ℕ → ℤ
proc_mem_search [] s = minus_one
proc_mem_search (line ∷ lines) s =
    if starts_with s line then atol (skip_label (drop (length s) line)) else proc_mem_search lines s

-- A line of /proc/meminfo: the key, a colon, `blanks` spaces, the digits, and the unit.
abbrev pub mem_line : List ℕ → ℕ → List ℕ → List ℕ → List ℕ
mem_line key blanks ds unit = key ++ b':' ∷ (replicate blanks b' ' ++ (ds ++ unit))

abbrev pub NoKey : List ℕ → List (List ℕ) → Type 0
NoKey key = All (λ line. starts_with key line ≡ false)

search-first :
    (key line : List ℕ) (before after : List (List ℕ))
    → NoKey key before
    → starts_with key line ≡ true
    → proc_mem_search (before ++ line ∷ after) key ≡ atol (skip_label (drop (length key) line))
unfolding proc_mem_search
search-first key line [] after none is = rw is
search-first key line (b ∷ before) after none is =
    rw none.0 (search-first key line before after none.1 is)

-- Without a line that starts with the key the answer is -1.
pub proc_mem_search_absent :
    (key : List ℕ) (lines : List (List ℕ)) → NoKey key lines → proc_mem_search lines key ≡ minus_one
unfolding proc_mem_search
proc_mem_search_absent key [] h = refl
proc_mem_search_absent key (l ∷ lines) h = rw h.0 (proc_mem_search_absent key lines h.1)

skip_space-blanks :
    (n : ℕ) (d : ℕ) (ds : List ℕ)
    → is_dec d ≡ true
    → skip_space (replicate n b' ' ++ d ∷ ds) ≡ d ∷ ds
unfolding skip_space
skip_space-blanks zero d ds h = rw not_blank
  where
    not_blank : is_space d ≡ false
    not_blank = ground arith
skip_space-blanks (suc n) d ds h = skip_space-blanks n d ds h

read_sign-digit : (d : ℕ) (ds : List ℕ) → is_dec d ≡ true → read_sign (d ∷ ds) ≡ (false, d ∷ ds)
read_sign-digit d ds h = ground arith

read_number-digits :
    (blanks d : ℕ) (ds unit : List ℕ)
    → is_dec d ≡ true
    → AllDigits ds
    → starts_dec unit ≡ false
    → read_number (replicate blanks b' ' ++ (d ∷ ds ++ unit)) ≡ some (false, value 0 (d ∷ ds), unit)
unfolding read_number
read_number-digits blanks d ds unit h hs e = rw (
  skip_space-blanks blanks d (ds ++ unit) h,
  read_sign-digit d (ds ++ unit) h,
  h,
  read_digits-append 0 (d ∷ ds) unit (h, hs) e,
)

atol-digits :
    (blanks d : ℕ) (ds unit : List ℕ)
    → is_dec d ≡ true
    → AllDigits ds
    → starts_dec unit ≡ false
    → atol (replicate blanks b' ' ++ (d ∷ ds ++ unit)) ≡ ℤ.pos (value 0 (d ∷ ds))
unfolding atol
atol-digits blanks d ds unit h hs e = rw (read_number-digits blanks d ds unit h hs e, atol)

-- A line `key:`, at least one space and digits gives the number of the digits, if it is the first
-- line that starts with the key.
pub proc_mem_search-value :
    (key : List ℕ) (blanks d : ℕ) (ds unit : List ℕ) (before after : List (List ℕ))
    → NoKey key before
    → is_dec d ≡ true
    → AllDigits ds
    → starts_dec unit ≡ false
    → proc_mem_search (before ++ mem_line key (suc blanks) (d ∷ ds) unit ∷ after) key
      ≡ ℤ.pos (value 0 (d ∷ ds))
proc_mem_search-value key blanks d ds unit before after none h hs e =
    search-first key (mem_line key (suc blanks) (d ∷ ds) unit) before after none
      (starts_with-append key _)
    ∙ ap (λ (l : List ℕ). atol (skip_label l)) (drop-append key _)
    ∙ unfold skip_label in atol-digits (suc blanks) d ds unit h hs e

skip_label-nines :
    (n : ℕ) (rest : List ℕ)
    → skip_label (b':' ∷ (replicate n b'9' ++ rest)) ≡ skip_label (b':' ∷ rest)
unfolding skip_label
skip_label-nines zero rest = refl
skip_label-nines (suc n) rest = skip_label-nines n rest

-- The macro `isdigit` denies that 9 is a digit: with no space behind the colon the nines that lead
-- a number are skipped with the label, so that the line reads like one without them.
pub proc_mem_search_nines :
    (key rest : List ℕ) (nines : ℕ) (before after : List (List ℕ))
    → NoKey key before
    → proc_mem_search (before ++ (key ++ b':' ∷ (replicate nines b'9' ++ rest)) ∷ after) key
      ≡ proc_mem_search (before ++ (key ++ b':' ∷ rest) ∷ after) key
proc_mem_search_nines key rest nines before after none =
    search-first key (key ++ b':' ∷ (replicate nines b'9' ++ rest)) before after none
      (starts_with-append key _)
    ∙ ap (λ (l : List ℕ). atol (skip_label l)) (drop-append key _)
    ∙ ap atol (skip_label-nines nines rest)
    ∙ ap (λ (l : List ℕ). atol (skip_label l)) (sym (drop-append key (b':' ∷ rest)))
    ∙ sym (search-first key (key ++ b':' ∷ rest) before after none (starts_with-append key _))

-- `struct mem_stat`, without LARGEMEM.
pub record MemStat : Type 0 where
  pub memtotal : ℤ
  pub memfree : ℤ
  pub memshared : ℤ
  pub buffers : ℤ
  pub cached : ℤ
  pub swapcached : ℤ
  pub active : ℤ
  pub inactive : ℤ
  pub hightotal : ℤ
  pub highfree : ℤ
  pub lowtotal : ℤ
  pub lowfree : ℤ
  pub swaptotal : ℤ
  pub swapfree : ℤ
  pub bigfree : ℤ

-- The searches of `vmp_proc_mem`, once the file has been read.
unfoldable pub proc_mem_stat : List (List ℕ) → MemStat
proc_mem_stat lines = record {
  memtotal = proc_mem_search lines (codes "MemTotal");
  memfree = proc_mem_search lines (codes "MemFree");
  memshared = proc_mem_search lines (codes "MemShared");
  buffers = proc_mem_search lines (codes "Buffers");
  cached = proc_mem_search lines (codes "Cached");
  swapcached = proc_mem_search lines (codes "SwapCached");
  active = proc_mem_search lines (codes "Active");
  inactive = proc_mem_search lines (codes "Inactive");
  hightotal = proc_mem_search lines (codes "HighTotal");
  highfree = proc_mem_search lines (codes "HighFree");
  lowtotal = proc_mem_search lines (codes "LowTotal");
  lowfree = proc_mem_search lines (codes "LowFree");
  swaptotal = proc_mem_search lines (codes "SwapTotal");
  swapfree = proc_mem_search lines (codes "SwapFree");
  bigfree = proc_mem_search lines (codes "BigFree");
}
