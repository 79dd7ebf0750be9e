-- ===== src/Nmon/Strip/Words.antt =====
-- src/vmp/vmp_nmon.c: `strip_spaces` in place meets its description, and keeps the words of a line.
use mathlib.Core.List.{append_assoc}
use mathlib.Core.Bool.{false≢true}
use vmp_rl.Base.{
  ℕ, zero, suc, ◌+◌, ◌<◌, ◌≡◌, ◌≢◌, refl, sym, ap, ◌∙◌, Bool, true, false, List, [], ◌∷◌, ◌++◌,
  arith, length, ◌==◌, if◌then◌else◌, Bool-cases, inl, inr, length-append,
}
use vmp_rl.Nmon.Strip.{
  colon, space, no_colon, skips, strip_loop, strip_spaces, squeeze, c_str, NonZero, shift_gap,
  read-p, write-p, write-s, length-shift_gap,
}

loop-cong :
    (left : ℕ) (spaced : Bool) {b b' : List ℕ} {p p' i i' : ℕ}
    → b ≡ b'
    → p ≡ p'
    → i ≡ i'
    → strip_loop left b p i spaced ≡ strip_loop left b' p' i' spaced
loop-cong left spaced e f g = cc

-- The rounds from a buffer `out ++ gap ++ text ++ 0 ∷ tail`, at the start of `text`.
strip_loop-squeeze :
    (left : ℕ) (out gap text tail : List ℕ) (spaced : Bool)
    → NonZero text
    → length text < left
    → (tail' : List ℕ) × (strip_loop left
          (out ++ (gap ++ (text ++ 0 ∷ tail)))
          (length out + length gap)
          (length out)
          spaced
        ≡ out ++ (squeeze spaced text ++ 0 ∷ tail'))
unfolding strip_loop squeeze
strip_loop-squeeze zero out gap text tail spaced nz h = absurd (omega arith)
strip_loop-squeeze (suc left) out gap [] tail spaced nz h = (
  shift_gap gap 0 ++ tail,
  rw (read-p out gap 0 tail)
      (write-s out gap 0 tail 0 ∙ append_assoc out (0 ∷ []) (shift_gap gap 0 ++ tail)),
)
strip_loop-squeeze (suc left) out gap (c ∷ text) tail spaced nz h =
    elim (Bool-cases (skips spaced (no_colon c))) [
      | inl skip ↦
          let r = strip_loop-squeeze left out (gap ++ d ∷ []) text tail true nz.1 (omega arith) in
          (
            r.0,
            rw (read-p out gap c rest, write-p out gap c rest d, not_end, skip)
                (loop-cong left true (ap (◌++◌ out) (sym (append_assoc gap (d ∷ []) rest)))
                    (omega (arith, length-append gap (d ∷ []))) refl
                  ∙ r.1),
          )
      | inr keep ↦
          let r =
            strip_loop-squeeze left (out ++ d ∷ []) (shift_gap gap d) text tail (d == space) nz.1
              (omega arith) in
          (
            r.0,
            rw (read-p out gap c rest, write-p out gap c rest d, not_end, keep)
                (loop-cong left (d == space) (write-s out gap d rest d)
                    (omega (arith, length-append out (d ∷ []), length-shift_gap gap d))
                    (omega (arith, length-append out (d ∷ [])))
                  ∙ r.1
                  ∙ append_assoc out (d ∷ []) (squeeze (d == space) text ++ 0 ∷ r.0)),
          )
    ]
  where
    d : ℕ
    d = no_colon c

    rest : List ℕ
    rest = text ++ 0 ∷ tail

    not_end : (c == 0) ≡ false
    not_end = ground (arith, nz.0)

c_str-text : (text tail : List ℕ) → NonZero text → c_str (text ++ 0 ∷ tail) ≡ text
unfolding c_str
c_str-text [] tail nz = refl
c_str-text (c ∷ text) tail nz = rw (not_end, c_str-text text tail nz.1)
  where
    not_end : (c == 0) ≡ false
    not_end = ground (arith, nz.0)

squeeze-NonZero : (spaced : Bool) (text : List ℕ) → NonZero text → NonZero (squeeze spaced text)
unfolding squeeze
squeeze-NonZero spaced [] nz = tt
squeeze-NonZero spaced (c ∷ text) nz = elim (Bool-cases (skips spaced (no_colon c))) [
  | inl skip ↦ rw skip (squeeze-NonZero true text nz.1)
  | inr keep ↦ rw keep (kept, squeeze-NonZero (no_colon c == space) text nz.1)
]
  where
    kept : no_colon c ≢ 0
    kept = ground (arith, nz.0)

-- The in-place loop leaves the squeezed line in the buffer.
pub c_str-strip_spaces :
    (text tail : List ℕ)
    → NonZero text
    → c_str (strip_spaces (text ++ 0 ∷ tail)) ≡ squeeze true text
unfolding strip_spaces
c_str-strip_spaces text tail nz =
    let r =
      strip_loop-squeeze (length (text ++ 0 ∷ tail)) [] [] text tail true nz
        (omega (arith, length-append text (0 ∷ tail))) in
    ap c_str r.1 ∙ c_str-text (squeeze true text) r.0 (squeeze-NonZero true text nz)

-- No colon is left, and no space at the start or after a space.
abbrev pub Tidy : Bool → List ℕ → Type 0
Tidy spaced [] = Unit
Tidy spaced (c ∷ cs) = (c ≢ colon) × (skips spaced c ≡ false) × Tidy (c == space) cs

squeeze-Tidy : (spaced : Bool) (text : List ℕ) → Tidy spaced (squeeze spaced text)
unfolding squeeze
squeeze-Tidy spaced [] = tt
squeeze-Tidy spaced (c ∷ text) = elim (Bool-cases (skips spaced (no_colon c))) [
  | inl skip ↦ rw (skip, was skip) (squeeze-Tidy true text)
  | inr keep ↦ rw keep (ground arith, keep, squeeze-Tidy (no_colon c == space) text)
]
  where
    was : skips spaced (no_colon c) ≡ true → spaced ≡ true
    was h = ground arith

-- The words of a line: colons and spaces stand between them.
abbrev pub flush : List ℕ → List (List ℕ)
flush [] = []
flush (c ∷ cs) = (c ∷ cs) ∷ []

-- With the part `w` of a word read already.
unfoldable pub words_from : List ℕ → List ℕ → List (List ℕ)
words_from w [] = flush w
words_from w (c ∷ cs) =
    let inside = words_from (w ++ c ∷ []) cs in
    let outside = flush w ++ words_from [] cs in if no_colon c == space then outside else inside

words_from-squeeze :
    (spaced : Bool) (w text : List ℕ)
    → (spaced ≡ true → w ≡ [])
    → words_from w (squeeze spaced text) ≡ words_from w text
unfolding words_from squeeze
words_from-squeeze spaced w [] h = refl
words_from-squeeze spaced w (c ∷ text) h = elim (Bool-cases (no_colon c == space)) [
  | inl outside ↦ gap spaced outside h (words_from-squeeze true [] text (λ e. refl))
  | inr inside ↦
      rw (skip_not spaced inside, inside, same inside, kept inside)
        (words_from-squeeze false (w ++ c ∷ []) text (λ e. absurd (false≢true e)))
]
  where
    same : (no_colon c == space) ≡ false → no_colon c ≡ c
    same h = ground arith

    kept : (no_colon c == space) ≡ false → (no_colon c == space) ≡ false
    kept h = h

    skip_not : (b : Bool) → (no_colon c == space) ≡ false → skips b (no_colon c) ≡ false
    skip_not b h = ground arith

    skipped : (no_colon c == space) ≡ true → skips true (no_colon c) ≡ true
    skipped h = ground arith

    not_skipped : skips false (no_colon c) ≡ false
    not_skipped = ground arith

    again : (no_colon c == space) ≡ true → (no_colon (no_colon c) == space) ≡ true
    again h = ground arith

    gap :
        (b : Bool)
        → (no_colon c == space) ≡ true
        → (b ≡ true → w ≡ [])
        → words_from [] (squeeze true text) ≡ words_from [] text
        → words_from w (squeeze b (c ∷ text)) ≡ words_from w (c ∷ text)
    gap true o empty ih = rw (skipped o, o, empty refl) ih
    gap false o empty ih = rw (not_skipped, o, again o) (ap (◌++◌ (flush w)) ih)

-- `strip_spaces` on a line, in place: no colon is left and no space at the start or after another,
-- and the line has the words that it had, with colons and spaces between words.
pub strip_spaces_lem :
    (text tail : List ℕ)
    → NonZero text
    → (let line = c_str (strip_spaces (text ++ 0 ∷ tail)) in
        Tidy true line × (words_from [] line ≡ words_from [] text))
strip_spaces_lem text tail nz =
    rw (c_str-strip_spaces text tail nz)
      (squeeze-Tidy true text, words_from-squeeze true [] text (λ e. refl))
