-- ===== src/Nmon/Scan.antt =====
-- What src/vmp/vmp_nmon.c uses of the C library on strings without their NUL: `strncmp`, `atol` and
-- the conversions of `sscanf`, with white space between them.
use vmp_rl.Base.{
  ℕ, zero, suc, ◌+◌, ◌-◌, ◌*◌, ◌^◌, ◌≡◌, refl, Bool, true, false, ◌&&◌, ◌||◌, List, [], ◌∷◌, ◌++◌,
  Option, none, some, ℤ, leb, ltb, ◌==◌, if◌then◌else◌, arith, All,
}

abbrev pub is_dec : ℕ → Bool
is_dec c = leb b'0' c && leb c b'9'

-- `isspace`
abbrev pub is_space : ℕ → Bool
is_space c = c == b' ' || (leb 9 c && leb c 13)

unfoldable pub skip_space : List ℕ → List ℕ
skip_space [] = []
skip_space (c ∷ cs) = let rest = skip_space cs in if is_space c then rest else c ∷ cs

-- The number that a run of digits stands for, after digits worth `acc`, and what follows the run.
unfoldable pub read_digits : ℕ → List ℕ → ℕ × List ℕ
read_digits acc [] = (acc, [])
read_digits acc (c ∷ cs) =
    let more = read_digits (acc * 10 + (c - b'0')) cs in if is_dec c then more else (acc, c ∷ cs)

abbrev pub starts_dec : List ℕ → Bool
starts_dec [] = false
starts_dec (c ∷ cs) = is_dec c

-- The sign, and what follows it.
abbrev pub read_sign : List ℕ → Bool × List ℕ
read_sign [] = (false, [])
read_sign (c ∷ cs) =
    if c == b'-' then (true, cs) else if c == b'+' then (false, cs) else (false, c ∷ cs)

-- The sign and the digits of a number, if there is one.
unfoldable pub read_number : List ℕ → Option (Bool × ℕ × List ℕ)
read_number s =
    let signed = read_sign (skip_space s) in
    let number = read_digits 0 signed.1 in
    if starts_dec signed.1 then some (signed.0, number.0, number.1) else none

pub to_ℤ : Bool → ℕ → ℤ
to_ℤ false n = ℤ.pos n
to_ℤ true zero = ℤ.pos 0
to_ℤ true (suc n) = ℤ.negsuc n

-- `atol`, for numbers that a `long` holds.
unfoldable pub atol : List ℕ → ℤ
unfolding to_ℤ
atol s = elim (read_number s) [ none ↦ ℤ.pos 0 | some (neg, n, rest) ↦ to_ℤ neg n ]

-- One conversion of `%llu`: too large a number becomes the largest, a sign is a wrap-around.
abbrev pub as_unsigned : Bool → ℕ → ℕ
as_unsigned neg n = if leb (2 ^ 64) n then 2 ^ 64 - 1 else if neg && ltb 0 n then 2 ^ 64 - n else n

-- One conversion of `%lld`.
pub as_signed : Bool → ℕ → ℤ
unfolding to_ℤ
as_signed false n = if leb (2 ^ 63) n then ℤ.pos (2 ^ 63 - 1) else ℤ.pos n
as_signed true n = if ltb (2 ^ 63) n then ℤ.negsuc (2 ^ 63 - 1) else to_ℤ true n

-- At most so many conversions in a row; the first that fails ends the scan.
unfoldable pub scan_unsigned : ℕ → List ℕ → List ℕ
scan_unsigned zero s = []
scan_unsigned (suc n) s = elim (read_number s) [
  | none ↦ []
  | some (neg, k, rest) ↦ as_unsigned neg k ∷ scan_unsigned n rest
]

unfoldable pub scan_signed : ℕ → List ℕ → List ℤ
scan_signed zero s = []
scan_signed (suc n) s = elim (read_number s) [
  | none ↦ []
  | some (neg, k, rest) ↦ as_signed neg k ∷ scan_signed n rest
]

-- `%s`: a word up to white space, and what follows it.
unfoldable pub read_word : List ℕ → List ℕ × List ℕ
read_word [] = ([], [])
read_word (c ∷ cs) =
    let rest = read_word cs in if is_space c then ([], c ∷ cs) else (c ∷ rest.0, rest.1)

-- `strncmp(s, line, strlen(s)) == 0`
unfoldable pub starts_with : List ℕ → List ℕ → Bool
starts_with [] line = true
starts_with (c ∷ s) [] = false
starts_with (c ∷ s) (d ∷ line) = c == d && starts_with s line

pub starts_with-append : (s rest : List ℕ) → starts_with s (s ++ rest) ≡ true
unfolding starts_with
starts_with-append [] rest = refl
starts_with-append (c ∷ s) rest = ground (arith, starts_with-append s rest)

-- The value of digits, most significant first, after digits worth `acc`.
abbrev pub value : ℕ → List ℕ → ℕ
value acc [] = acc
value acc (c ∷ cs) = value (acc * 10 + (c - b'0')) cs

abbrev pub AllDigits : List ℕ → Type 0
AllDigits = All (λ c. is_dec c ≡ true)

pub read_digits-append :
    (acc : ℕ) (ds rest : List ℕ)
    → AllDigits ds
    → starts_dec rest ≡ false
    → read_digits acc (ds ++ rest) ≡ (value acc ds, rest)
unfolding read_digits
read_digits-append acc [] [] h e = refl
read_digits-append acc [] (c ∷ rest) h e = rw e
read_digits-append acc (d ∷ ds) rest h e =
    rw h.0 (read_digits-append (acc * 10 + (d - b'0')) ds rest h.1 e)
