-- ===== src/Child/Waiting.antt =====
-- src/vmp/vmp_process.c: how long `vmp_waitpid` waits, and what it answers.
use vmp_rl.Base.{
  ℕ, zero, suc, ◌≤◌, ◌⊎◌, inl, inr, Bool-cases, ◌==◌, ◌≡◌, refl, ap, ◌∙◌, false, ℤ, minus_one,
  arith, if◌then◌else◌,
}
use vmp_rl.Child.Process.{Os, eqb_ℤ, wait_loop, vmp_waitpid}

ℤ-cases : (a : ℤ) → (a ≡ ℤ.pos 0) ⊎ (eqb_ℤ a (ℤ.pos 0) ≡ false)
ℤ-cases (ℤ.pos n) = elim (Bool-cases (n == 0)) [
  | inl e ↦ inl (ap ℤ.pos (ground (arith, e)))
  | inr e ↦ inr e
]
ℤ-cases (ℤ.negsuc n) = inr refl

module _ (os : Os) (pid : ℤ) where
  -- After n polls, each with the sleep behind it.
  abbrev pub after_polls : ℕ → os.S → os.S
  after_polls zero s = s
  after_polls (suc n) s = after_polls n (os.sleep (os.waitpid pid s).0)

  -- What the poll behind n others answers, and whether that is 0.
  abbrev pub poll : ℕ → os.S → os.S × ℤ
  poll n s = os.waitpid pid (after_polls n s)

  -- The first n polls answer 0.
  abbrev pub IsQuiet : ℕ → os.S → Type 0
  IsQuiet zero s = Unit
  IsQuiet (suc n) s = ((poll 0 s).1 ≡ ℤ.pos 0) × IsQuiet n (after_polls 1 s)

  wait_loop-next :
      (cnt : ℕ) (s : os.S)
      → (poll 0 s).1 ≡ ℤ.pos 0
      → wait_loop os pid (suc cnt) s ≡ wait_loop os pid cnt (after_polls 1 s)
  unfolding wait_loop
  wait_loop-next cnt s e =
      ap (λ r. if eqb_ℤ r (ℤ.pos 0) then wait_loop os pid cnt (after_polls 1 s) else poll 0 s) e

  -- The loop stops at the first poll that answers something else than 0, or behind the last.
  Stops : ℕ → os.S → os.S × ℤ → Type 0
  Stops cnt s r =
      (n : ℕ) × IsQuiet n s
      × (((n ≤ cnt) × (eqb_ℤ (poll n s).1 (ℤ.pos 0) ≡ false) × (r ≡ poll n s))
          ⊎ ((n ≡ suc cnt) × (r ≡ (after_polls n s, ℤ.pos 0))))

  wait_loop-Stops : (cnt : ℕ) (s : os.S) → Stops cnt s (wait_loop os pid cnt s)
  unfolding Stops wait_loop
  wait_loop-Stops zero s = elim (ℤ-cases (poll 0 s).1) [
    | inl e ↦ (
      1,
      (e, tt),
      inr (refl, ap (λ r. if eqb_ℤ r (ℤ.pos 0) then (after_polls 1 s, r) else poll 0 s) e),
    )
    | inr e ↦ (0, tt, inl (omega arith, e, rw e refl))
  ]
  wait_loop-Stops (suc cnt) s = elim (ℤ-cases (poll 0 s).1) [
    | inl e ↦
        let r = wait_loop-Stops cnt (after_polls 1 s) in
        (
          suc r.0,
          (e, r.1),
          elim r.2 [
            | inl (h, b, c) ↦ inl (omega (arith, h), b, wait_loop-next cnt s e ∙ c)
            | inr (h, c) ↦ inr (ap suc h, wait_loop-next cnt s e ∙ c)
          ],
        )
    | inr e ↦ (0, tt, inl (omega arith, e, rw e refl))
  ]

  -- `vmp_waitpid` ends after at most four polls, with a sleep behind each that answers 0. At the
  -- first that answers something else it ends, with 0 for the pid and -1 for anything else; behind
  -- a fourth that answers 0 it ends with 0 as well.
  pub vmp_waitpid_lem :
      (s : os.S)
      → (n : ℕ) × IsQuiet n s
        × (((n ≤ 3)
              × (eqb_ℤ (poll n s).1 (ℤ.pos 0) ≡ false)
              × (vmp_waitpid os pid s
                  ≡ ((poll n s).0, if eqb_ℤ (poll n s).1 pid then ℤ.pos 0 else minus_one)))
            ⊎ ((n ≡ 4) × (vmp_waitpid os pid s ≡ (after_polls n s, ℤ.pos 0))))
  unfolding Stops vmp_waitpid
  vmp_waitpid_lem s =
      let r = wait_loop-Stops 3 s in
      (
        r.0,
        r.1,
        elim r.2 [ inl (h, b, c) ↦ inl (h, b, rw (c, b) refl) | inr (h, c) ↦ inr (h, rw c refl) ],
      )
