-- ===== src/Ipc/Deadline.antt =====
-- src/ipcs/ipc_shared.c: when `ipc_shared_proc` gives its child up.
use native.Mathlib.Decide.{dec_le}
use vmp_rl.Base.{
  ℕ, ◌+◌, ◌≤◌, ◌<◌, ◌≡◌, refl, sym, ap, ◌∙◌, ◌⊎◌, inl, inr, true, false, List, [], ◌∷◌, ◌++◌, done,
  arith, length, Bool-cases,
}
use vmp_rl.Ipc.Segment.{ShmData, mapped, zeroed, ChildOp}
use vmp_rl.Ipc.Rounds.{
  has_feed, Silent, round, tick_lem, round-silent, next, watch_loop-stop, watch_loop-next, next-low,
}
use vmp_rl.Ipc.Watch.{
  Watch, Schedule, Outcome, watching, bitten, watch_loop, looped, ipc_shared_proc,
}

-- The rounds before `rest` end in a silence that used the allowance up.
pub record IsStarved (dog : ℕ) (sched rest : Schedule) : Type 0 where
  pub before : Schedule
  pub quiet : Schedule
  pub split : sched ≡ before ++ quiet ++ rest
  pub silent : Silent quiet
  pub enough : (59 ≤ length quiet) ⊎ ((before ≡ []) × (60 ≤ dog + length quiet))

module _ (ops : List ChildOp) (w : Watch) {dog : ℕ} {sched rest : Schedule}
    (e : dog ≡ round ops w) where
  -- A silent round before a silence that reaches back to it belongs to the silence.
  IsStarved-Silent :
      (quiet : Schedule)
      → has_feed ops ≡ false
      → sched ≡ quiet ++ rest
      → Silent quiet
      → 60 ≤ dog + length quiet
      → IsStarved w.seg.dog (ops ∷ sched) rest
  unfolding round
  IsStarved-Silent quiet none split silent enough = record {
    before = [];
    quiet = ops ∷ quiet;
    split = ap (◌∷◌ ops) split;
    silent = (none, silent);
    enough = inr (refl, ground (arith, e));
  }

  IsStarved-fed :
      (quiet : Schedule)
      → has_feed ops ≡ true
      → sched ≡ quiet ++ rest
      → Silent quiet
      → 60 ≤ dog + length quiet
      → IsStarved w.seg.dog (ops ∷ sched) rest
  unfolding round
  IsStarved-fed quiet fed split silent enough = record {
    before = ops ∷ [];
    quiet = quiet;
    split = ap (◌∷◌ ops) split;
    silent = silent;
    enough = inl (ground (arith, e));
  }

  IsStarved-cons : IsStarved dog sched rest → IsStarved w.seg.dog (ops ∷ sched) rest
  IsStarved-cons s = go s.enough
    where
      from_start : s.before ≡ [] → sched ≡ s.quiet ++ rest
      from_start b = s.split ∙ ap (λ (l : Schedule). l ++ s.quiet ++ rest) b

      go :
          (59 ≤ length s.quiet) ⊎ ((s.before ≡ []) × (60 ≤ dog + length s.quiet))
          → IsStarved w.seg.dog (ops ∷ sched) rest
      go (inl long) = record {
        before = ops ∷ s.before;
        quiet = s.quiet;
        split = ap (◌∷◌ ops) s.split;
        silent = s.silent;
        enough = inl long;
      }
      go (inr (b, long)) = elim (Bool-cases (has_feed ops)) [
        | inl fed ↦ IsStarved-fed s.quiet fed (from_start b) s.silent long
        | inr none ↦ IsStarved-Silent s.quiet none (from_start b) s.silent long
      ]

IsStarved-last :
    (ops : List ChildOp) (w : Watch) (rest : Schedule)
    → w.seg.dog < 60
    → 60 ≤ round ops w
    → IsStarved w.seg.dog (ops ∷ rest) rest
unfolding round
IsStarved-last ops w rest low high = record {
  before = [];
  quiet = ops ∷ [];
  split = refl;
  silent = (ground arith, tt);
  enough = inr (refl, ground arith);
}

bitten-injective : {w w' : Watch} {r r' : Schedule} → bitten w r ≡ bitten w' r' → r ≡ r'
bitten-injective h = cc

-- The loop gives up only after a silence of its whole allowance.
watch_loop-IsStarved :
    (sched : Schedule) (w : Watch) {w' : Watch} {rest : Schedule}
    → w.seg.dog < 60
    → watch_loop sched w ≡ bitten w' rest
    → IsStarved w.seg.dog sched rest
watch_loop-IsStarved [] w low h = unfold watch_loop in cc
watch_loop-IsStarved (ops ∷ sched) w {rest = rest} low h = elim (dec_le 60 (round ops w)) [
  | yes stop ↦
      let e : sched ≡ rest = bitten-injective (sym (watch_loop-stop ops sched w low stop) ∙ h) in
      rw e (IsStarved-last ops w rest low stop)
  | no go_on ↦
      let on : round ops w < 60 = omega arith in
      IsStarved-cons ops w (tick_lem ops w low).0 (
        watch_loop-IsStarved sched (next ops sched w low) (next-low ops sched w low on)
          (sym (watch_loop-next ops sched w low on) ∙ h))
]

-- The loop gives up within sixty silent rounds.
watch_loop_silence :
    (quiet post : Schedule) (w : Watch)
    → w.seg.dog < 60
    → Silent quiet
    → 60 ≤ w.seg.dog + length quiet
    → (w' : Watch) × (more : Schedule) × (watch_loop (quiet ++ post) w ≡ bitten w' (more ++ post))
watch_loop_silence [] post w low silent long = absurd (omega arith)
watch_loop_silence (ops ∷ quiet) post w low silent long = elim (dec_le 60 (round ops w)) [
  | yes stop ↦
      (next ops (quiet ++ post) w low, quiet, watch_loop-stop ops (quiet ++ post) w low stop)
  | no go_on ↦
      let on : round ops w < 60 = omega arith in
      let r =
        watch_loop_silence quiet post (next ops (quiet ++ post) w low)
          (next-low ops (quiet ++ post) w low on) silent.1
          (omega (arith, tick_lem ops w low, round-silent ops w silent.0)) in
      (r.0, r.1, watch_loop-next ops (quiet ++ post) w low on ∙ r.2)
]

watch_loop_gives_up :
    (before quiet post : Schedule) (w : Watch)
    → w.seg.dog < 60
    → Silent quiet
    → 60 ≤ length quiet
    → (w' : Watch) × (more : Schedule) × (watch_loop (before ++ quiet ++ post) w
        ≡ bitten w' (more ++ post))
watch_loop_gives_up [] quiet post w low silent long =
    watch_loop_silence quiet post w low silent (omega arith)
watch_loop_gives_up (ops ∷ before) quiet post w low silent long = elim (dec_le 60 (round ops w)) [
  | yes stop ↦ (
    next ops (before ++ quiet ++ post) w low,
    before ++ quiet,
    watch_loop-stop ops (before ++ quiet ++ post) w low stop,
  )
  | no go_on ↦
      let on : round ops w < 60 = omega arith in
      let sched = before ++ quiet ++ post in
      let r =
        watch_loop_gives_up before quiet post (next ops sched w low) (next-low ops sched w low on)
          silent long in
      (r.0, r.1, watch_loop-next ops sched w low on ∙ r.2)
]

-- A child that stays silent for sixty rounds is given up, at the latest in the sixtieth of them,
-- whatever it did before and does after.
pub ipc_shared_proc_gives_up :
    (d : ShmData) (vmon : ℕ) (before quiet post : Schedule)
    → Silent quiet
    → 60 ≤ length quiet
    → (w : Watch) × (more : Schedule) × (ipc_shared_proc mapped d vmon (before ++ quiet ++ post)
        ≡ done (looped (bitten w (more ++ post))))
unfolding ipc_shared_proc
ipc_shared_proc_gives_up d vmon before quiet post silent long =
    let r = watch_loop_gives_up before quiet post _ (omega arith) silent long in
    (r.0, r.1, ap (λ o. done (looped o)) r.2)

-- Among any fifty-nine rounds in a row there is one with a feeding.
abbrev pub WellFed : Schedule → Type 0
WellFed sched =
    (before quiet post : Schedule)
    → sched ≡ before ++ quiet ++ post
    → 59 ≤ length quiet
    → ¬ Silent quiet

-- A child that feeds the watchdog once in any fifty-nine rounds in a row is never given up.
pub ipc_shared_proc_keeps :
    (d : ShmData) (vmon : ℕ) (sched : Schedule)
    → WellFed sched
    → (w : Watch) × (ipc_shared_proc mapped d vmon sched ≡ done (looped (watching w)))
unfolding ipc_shared_proc
ipc_shared_proc_keeps d vmon sched fed = go _ refl
  where
    start : Watch
    start = record { seg = zeroed; vmon = vmon; cnt = 0; logs = [] }

    go :
        (o : Outcome)
        → watch_loop sched start ≡ o
        → (w : Watch) × (ipc_shared_proc mapped d vmon sched ≡ done (looped (watching w)))
    go (watching w) e = (w, ap (λ o. done (looped o)) e)
    go (bitten w rest) e =
        let s = watch_loop-IsStarved sched start (omega arith) e in
        absurd (fed s.before s.quiet rest s.split (ground (arith, s.enough)) s.silent)
