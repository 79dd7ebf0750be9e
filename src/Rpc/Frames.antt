-- ===== src/Rpc/Frames.antt =====
-- src/rpc/pbc/pbrpc-svc.c: messages with their prefixes, one behind the other.
use mathlib.Core.List.{append_assoc}
use vmp_rl.Base.{
  ℕ, ◌+◌, ◌^◌, ◌≤◌, ◌<◌, ◌≡◌, refl, sym, ap, ◌∙◌, List, [], ◌∷◌, ◌++◌, some, arith, length,
  length-append, take, drop, All, take-append, drop-append, take-append_le, drop-append_le,
}
use vmp_rl.Rpc.Wire.{read_be64, read_be64-be64, frame, length-frame}

abbrev pub frames : List (List ℕ) → List ℕ
frames [] = []
frames (m ∷ ms) = frame m ++ frames ms

pub frames-append : (ms ns : List (List ℕ)) → frames (ms ++ ns) ≡ frames ms ++ frames ns
frames-append [] ns = refl
frames-append (m ∷ ms) ns =
    ap (◌++◌ (frame m)) (frames-append ms ns) ∙ sym (append_assoc (frame m) (frames ms) (frames ns))

-- Each message has a prefix, so there are fewer of them than bytes.
pub length-frames_le : (ms : List (List ℕ)) → length ms ≤ length (frames ms)
length-frames_le [] = omega arith
length-frames_le (m ∷ ms) =
    omega (arith, length-frames_le ms, length-append (frame m) (frames ms), length-frame m)

pub frames-nil : (ms : List (List ℕ)) → frames ms ≡ [] → ms ≡ []
frames-nil [] e = refl
frames-nil (m ∷ ms) e =
    absurd (omega (arith, ap length e, length-append (frame m) (frames ms), length-frame m))

-- The length of each message with its prefix fits a `size_t`.
abbrev pub Fits : List (List ℕ) → Type 0
Fits = All (λ m. 8 + length m < 2 ^ 64)

-- The prefix of a message that has begun to arrive.
module _ (src future m rest : List ℕ) (fits : 8 + length m < 2 ^ 64)
    (stream : src ++ future ≡ frame m ++ rest) where
  pub prefix-frame : 8 ≤ length src → read_be64 (take 8 src) ≡ some (length m)
  unfolding frame
  prefix-frame h =
      ap read_be64 (sym (take-append_le 8 src future h) ∙ ap (take 8) stream)
      ∙ read_be64-be64 (length m) [] (omega arith)

  pub take-frame : 8 + length m ≤ length src → take (8 + length m) src ≡ frame m
  take-frame h =
      sym (take-append_le (8 + length m) src future h)
      ∙ ap (take (8 + length m)) stream
      ∙ rw (← length-frame m) (take-append (frame m) rest)

  pub drop-frame : 8 + length m ≤ length src → drop (8 + length m) src ++ future ≡ rest
  drop-frame h =
      sym (drop-append_le (8 + length m) src future h)
      ∙ ap (drop (8 + length m)) stream
      ∙ rw (← length-frame m) (drop-append (frame m) rest)
