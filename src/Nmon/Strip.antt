-- ===== src/Nmon/Strip.antt =====
-- src/vmp/vmp_nmon.c: `strip_spaces`, which squeezes a line in place.
pub mod Words
use mathlib.Core.List.{append_assoc}
use vmp_rl.Base.{
  ℕ, zero, suc, ◌+◌, ◌≡◌, ◌≢◌, refl, sym, ap, ◌∙◌, Bool, true, false, List, [], ◌∷◌, ◌++◌, arith,
  length, get_or, set, ◌==◌, if◌then◌else◌, All, length-append,
}

abbrev pub colon : ℕ
colon = b':'

abbrev pub space : ℕ
space = b' '

-- The write through `s` of one round: what is stored and whether `spaced` is set, for a character
-- whose colon has been replaced already. A second space is skipped.
abbrev pub skips : Bool → ℕ → Bool
skips spaced c = elim (c == space) [ true ↦ spaced | false ↦ false ]

abbrev pub no_colon : ℕ → ℕ
no_colon c = if c == colon then space else c

-- The buffer, with the indices `p` and `s` and the flag `spaced`; a round for each character.
unfoldable pub strip_loop : ℕ → List ℕ → ℕ → ℕ → Bool → List ℕ
strip_loop zero buf p s spaced = buf
strip_loop (suc left) buf p s spaced =
    let c = no_colon (get_or buf p 0) in
    let buf' = set buf p c in
    let skip = strip_loop left buf' (p + 1) s true in
    let keep = strip_loop left (set buf' s c) (p + 1) (s + 1) (c == space) in
    if get_or buf p 0 == 0 then set buf s 0 else if skips spaced c then skip else keep

-- A buffer of `n` bytes is walked in at most `n` rounds.
unfoldable pub strip_spaces : List ℕ → List ℕ
unfolding strip_loop
strip_spaces buf = strip_loop (length buf) buf 0 0 true

-- What the line should become: colons are spaces, and of spaces in a row, or at the start, one or
-- none is left.
unfoldable pub squeeze : Bool → List ℕ → List ℕ
squeeze spaced [] = []
squeeze spaced (c ∷ cs) =
    if skips spaced (no_colon c)
    then squeeze true cs
    else no_colon c ∷ squeeze (no_colon c == space) cs

-- The characters of a C string, up to its NUL.
unfoldable pub c_str : List ℕ → List ℕ
c_str [] = []
c_str (c ∷ cs) = let rest = c_str cs in if c == 0 then [] else c ∷ rest

abbrev pub NonZero : List ℕ → Type 0
NonZero = All (λ c. c ≢ 0)

pub get_or-at : (out : List ℕ) (c : ℕ) (rest : List ℕ) → get_or (out ++ c ∷ rest) (length out) 0 ≡ c
get_or-at [] c rest = refl
get_or-at (o ∷ out) c rest = get_or-at out c rest

pub set-at :
    (out : List ℕ) (c d : ℕ) (rest : List ℕ)
    → set (out ++ c ∷ rest) (length out) d ≡ out ++ d ∷ rest
set-at [] c d rest = refl
set-at (o ∷ out) c d rest = ap (◌∷◌ o) (set-at out c d rest)

-- The bytes between `s` and `p` after a write at `s`.
pub shift_gap : List ℕ → ℕ → List ℕ
shift_gap [] c = []
shift_gap (g ∷ gap) c = gap ++ c ∷ []

module _ (out gap : List ℕ) (c : ℕ) (rest : List ℕ) where
  abbrev pub buffer : List ℕ
  buffer = out ++ (gap ++ c ∷ rest)

  pub read-p : get_or buffer (length out + length gap) 0 ≡ c
  read-p =
      ap (λ (b : List ℕ). get_or b (length out + length gap) 0)
        (sym (append_assoc out gap (c ∷ rest)))
      ∙ ap (λ (n : ℕ). get_or ((out ++ gap) ++ c ∷ rest) n 0) (sym (length-append out gap))
      ∙ get_or-at (out ++ gap) c rest

  pub write-p : (d : ℕ) → set buffer (length out + length gap) d ≡ out ++ (gap ++ d ∷ rest)
  write-p d =
      ap (λ (b : List ℕ). set b (length out + length gap) d) (sym (append_assoc out gap (c ∷ rest)))
      ∙ ap (λ (n : ℕ). set ((out ++ gap) ++ c ∷ rest) n d) (sym (length-append out gap))
      ∙ set-at (out ++ gap) c d rest
      ∙ append_assoc out gap (d ∷ rest)

  pub write-s : (d : ℕ) → set buffer (length out) d ≡ (out ++ d ∷ []) ++ (shift_gap gap c ++ rest)
  write-s d = go gap
    where
      go :
          (g : List ℕ)
          → set (out ++ (g ++ c ∷ rest)) (length out) d ≡ (out ++ d ∷ []) ++ (shift_gap g c ++ rest)
      go [] = unfold shift_gap in set-at out c d rest ∙ sym (append_assoc out (d ∷ []) rest)
      go (g ∷ gs) =
          unfold shift_gap in
          set-at out g d (gs ++ c ∷ rest)
          ∙ sym (append_assoc out (d ∷ []) (gs ++ c ∷ rest))
          ∙ ap (◌++◌ (out ++ d ∷ [])) (sym (append_assoc gs (c ∷ []) rest))

pub length-shift_gap : (gap : List ℕ) (c : ℕ) → length (shift_gap gap c) ≡ length gap
unfolding shift_gap
length-shift_gap [] c = refl
length-shift_gap (g ∷ gap) c = omega (arith, length-append gap (c ∷ []))
