-- ===== src/Rpc/Wire.antt =====
-- src/rpc/pbc/pbrpc-svc.c and pbrpc-clnt.c: the length prefix of a message.
use vmp_rl.Base.{
  ℕ, ◌+◌, ◌*◌, ◌/◌, ◌%◌, ◌^◌, ◌<◌, ◌≡◌, ap, List, [], ◌∷◌, ◌++◌, Option, none, some, arith, length,
}

-- `htobe64`, and the eight bytes that `memcpy` puts into the buffer.
abbrev pub be64 : ℕ → List ℕ
be64 n =
    n / 2 ^ 56 % 256
    ∷ n / 2 ^ 48 % 256
    ∷ n / 2 ^ 40 % 256
    ∷ n / 2 ^ 32 % 256
    ∷ n / 2 ^ 24 % 256
    ∷ n / 2 ^ 16 % 256
    ∷ n / 2 ^ 8 % 256
    ∷ n % 256
    ∷ []

-- `memcpy` of eight bytes and `be64toh`; fewer than eight bytes are a read out of bounds.
unfoldable pub read_be64 : List ℕ → Option ℕ
read_be64 (a ∷ b ∷ c ∷ d ∷ e ∷ f ∷ g ∷ h ∷ rest) =
    some
      (a * 2 ^ 56 + b * 2 ^ 48 + c * 2 ^ 40 + d * 2 ^ 32 + e * 2 ^ 24 + f * 2 ^ 16 + g * 2 ^ 8 + h)
read_be64 _ = none

pub read_be64-be64 : (n : ℕ) (rest : List ℕ) → n < 2 ^ 64 → read_be64 (be64 n ++ rest) ≡ some n
unfolding read_be64
read_be64-be64 n rest h = ap some (omega arith)

-- A message as `rpc_write_request` and `rpc_write_reply` lay it out.
unfoldable pub frame : List ℕ → List ℕ
frame payload = be64 (length payload) ++ payload

pub length-frame : (payload : List ℕ) → length (frame payload) ≡ 8 + length payload
unfolding frame
length-frame payload = omega arith
