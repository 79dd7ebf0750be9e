-- ===== src/Rpc/Reading.antt =====
-- src/rpc/pbc/pbrpc-svc.c: `generic_read_cb` over whole messages, for either of its readers.
use mathlib.Core.Path.{subst}
use vmp_rl.Base.{
  ℕ, zero, suc, ◌+◌, ◌-◌, ◌^◌, ◌≤◌, ◌<◌, ◌≡◌, refl, sym, ◌∙◌, List, [], ◌∷◌, ◌++◌, some, Run, done,
  arith, length, drop, drop-append, length-append, u64, ◌==◌, true, false,
}
use vmp_rl.Rpc.Wire.{frame, length-frame}
use vmp_rl.Rpc.Frames.{frames, Fits}
use vmp_rl.Rpc.Server.{read_loop, generic_read_cb}

module _ {S : Type 0} (proc : S → List ℕ → Run (S × ℕ)) where
  -- The reader takes a message from the front of the buffer, and no byte behind it.
  pub record Takes (s : S) (m : List ℕ) (s' : S) : Type 0 where
    pub small : 8 + length m < 2 ^ 31
    pub taken : (rest : List ℕ) → proc s (frame m ++ rest) ≡ done (s', 8 + length m)

  -- Messages that the reader takes one after the other.
  pub data Handles : S → List (List ℕ) → S → Type 0 where
    stop : {s : S} → Handles s [] s
    one :
        {s t u : S} (m : List ℕ) {ms : List (List ℕ)}
        → Takes s m t
        → Handles t ms u
        → Handles s (m ∷ ms) u

  pub Handles-append :
      {s t u : S} {ms ns : List (List ℕ)} → Handles s ms t → Handles t ns u → Handles s (ms ++ ns) u
  Handles-append stop k = k
  Handles-append (one m t h) k = one m t (Handles-append h k)

  pub Handles-split :
      (ms : List (List ℕ)) {s u : S} {ns : List (List ℕ)}
      → Handles s (ms ++ ns) u
      → (t : S) × Handles s ms t × Handles t ns u
  Handles-split [] {s} h = (s, stop, h)
  Handles-split (m ∷ ms) (one _ t h) = let r = Handles-split ms h in (r.0, one m t r.1, r.2)

  pub Handles-Fits : {s t : S} {ms : List (List ℕ)} → Handles s ms t → Fits ms
  Handles-Fits stop = tt
  Handles-Fits (one m t h) = (omega (arith, t.small), Handles-Fits h)

  -- One round of the loop.
  read_loop-Takes :
      (fuel : ℕ) {s t : S} (m rest : List ℕ)
      → Takes s m t
      → 8 + length m + length rest < 2 ^ 64
      → read_loop proc (suc fuel) s (frame m ++ rest) (length (frame m ++ rest))
        ≡ read_loop proc fuel t rest (length rest)
  unfolding read_loop
  read_loop-Takes fuel m rest takes fits = rw (not_empty, takes.taken rest, dropped, left) refl
    where
      total : length (frame m ++ rest) ≡ 8 + length m + length rest
      total = omega (arith, length-append (frame m) rest, length-frame m)

      not_empty : (length (frame m ++ rest) == 0) ≡ false
      not_empty = ground (arith, total)

      dropped : drop (8 + length m) (frame m ++ rest) ≡ rest
      dropped = rw (← length-frame m) (drop-append (frame m) rest)

      left : u64 (length (frame m ++ rest) + 2 ^ 64 - (8 + length m)) ≡ length rest
      left = omega (arith, total)

  pub read_loop-Handles :
      (fuel : ℕ) {s t : S} (ms : List (List ℕ))
      → Handles s ms t
      → length ms ≤ fuel
      → length (frames ms) < 2 ^ 64
      → read_loop proc fuel s (frames ms) (length (frames ms)) ≡ done (some t)
  unfolding read_loop
  read_loop-Handles zero [] stop h fits = refl
  read_loop-Handles (suc fuel) [] stop h fits = refl
  read_loop-Handles zero (m ∷ ms) k h fits = absurd (omega arith)
  read_loop-Handles (suc fuel) (m ∷ ms) (one _ t k) h fits =
      let sizes : length (frame m ++ frames ms) ≡ 8 + length m + length (frames ms) =
        omega (arith, length-append (frame m) (frames ms), length-frame m) in
      read_loop-Takes fuel m (frames ms) t (omega arith)
      ∙ read_loop-Handles fuel ms k (omega arith) (omega arith)

  -- With a round for each message `generic_read_cb` takes every message of its buffer.
  pub generic_read_cb-Handles :
      (fuel : ℕ) {s t : S} (ms : List (List ℕ))
      → Handles s ms t
      → length ms ≤ fuel
      → length (frames ms) < 2 ^ 64
      → generic_read_cb proc fuel true s (frames ms) ≡ done (some t)
  unfolding generic_read_cb
  generic_read_cb-Handles fuel ms h enough fits = read_loop-Handles fuel ms h enough fits

  pub Handles-nil : {s t : S} → Handles s [] t → s ≡ t
  Handles-nil stop = refl

  Takes-same : {s t u : S} {m : List ℕ} → Takes s m t → Takes s m u → t ≡ u
  Takes-same {m = m} t u = let e = sym (t.taken []) ∙ u.taken [] in cc

  -- What the reader makes of messages is determined by them.
  pub Handles-same : {s t u : S} {ms : List (List ℕ)} → Handles s ms t → Handles s ms u → t ≡ u
  Handles-same stop k = Handles-nil k
  Handles-same {u = u} (one m {ms} t h) (one _ t' h') =
      Handles-same h (subst (λ s. Handles s ms u) (sym (Takes-same t t')) h')
