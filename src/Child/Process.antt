-- ===== src/Child/Process.antt =====
-- src/vmp/vmp_process.c: starting, killing and waiting for a process.
use vmp_rl.Base.{
  ℕ, zero, suc, Bool, false, List, Option, none, some, ℤ, minus_one, ◌==◌, if◌then◌else◌, codes,
}
use vmp_rl.Ipc.Device.{is_neg}

-- The operating system, in whose states time passes. `execv` answers only where it fails, and
-- `waitpid` is called with WNOHANG.
pub record Os : Type 1 where
  pub S : Type 0
  pub fork : S → S × ℤ
  pub execv : List ℕ → S → Option ℤ
  pub system_ex : List ℕ → ℕ → S → S × ℤ  -- vpk_system_ex
  pub waitpid : ℤ → S → S × ℤ
  pub sleep : S → S

-- A call of the daemon returns, ends the process, puts another program into its place, is at
-- work at the end of the schedule, or crashes.
pub data Flow {ℓ} (S P : Type 0) (A : Type ℓ) : Type ℓ where
  returned : A → Flow S P A
  exited : S → ℤ → Flow S P A
  replaced : S → Flow S P A
  unfinished : S → P → Flow S P A
  crashed : Flow S P A

infixl 5 ◌>>=◌
abbrev pub ◌>>=◌ {ℓ κ} :
    {S P : Type 0} {A : Type ℓ} {B : Type κ} → Flow S P A → (A → Flow S P B) → Flow S P B
returned a >>= f = f a
exited s n >>= f = exited s n
replaced s >>= f = replaced s
unfinished s p >>= f = unfinished s p
crashed >>= f = crashed

abbrev pub eqb_ℤ : ℤ → ℤ → Bool
eqb_ℤ (ℤ.pos a) (ℤ.pos b) = a == b
eqb_ℤ (ℤ.negsuc a) (ℤ.negsuc b) = a == b
eqb_ℤ _ _ = false

abbrev pub kill_command : List ℕ
kill_command = codes "killall -9 vmp-sa"

-- The answer of the command is not looked at.
unfoldable pub kill_app : (os : Os) → os.S → os.S × ℤ
kill_app os s = let r = os.system_ex kill_command 3 s in (r.0, ℤ.pos 0)

module _ (os : Os) {P : Type 0} where
  -- The child's side of the fork: what follows an `execv` that failed, if it did.
  unfoldable pub after_execv : Option ℤ → os.S → Flow os.S P (os.S × ℤ)
  after_execv none s = replaced s
  after_execv (some ret) s = if is_neg ret then exited s ret else returned (os.sleep s, ℤ.pos 0)

  unfoldable pub vmp_run_process : Option (List ℕ) → os.S → Flow os.S P (os.S × ℤ)
  unfolding kill_app after_execv
  vmp_run_process none s = returned (s, minus_one)
  vmp_run_process (some cmd) s =
      let forked = os.fork s in
      let killed = kill_app os forked.0 in
      if is_neg forked.1
      then exited killed.0 minus_one
      else if eqb_ℤ forked.1 (ℤ.pos 0)
      then after_execv (os.execv cmd forked.0) forked.0
      else returned (os.sleep forked.0, forked.1)

module _ (os : Os) (pid : ℤ) where
  -- The loop of `vmp_waitpid`, with `cnt`: the last `ret_pid`, and the state behind the last sleep.
  unfoldable pub wait_loop : (cnt : ℕ) → os.S → os.S × ℤ
  wait_loop zero s =
      let polled = os.waitpid pid s in
      if eqb_ℤ polled.1 (ℤ.pos 0) then (os.sleep polled.0, polled.1) else polled
  wait_loop (suc cnt) s =
      let polled = os.waitpid pid s in
      let rest = wait_loop cnt (os.sleep polled.0) in
      if eqb_ℤ polled.1 (ℤ.pos 0) then rest else polled

  unfoldable pub vmp_waitpid : os.S → os.S × ℤ
  unfolding wait_loop
  vmp_waitpid s =
      let r = wait_loop 3 s in
      (r.0, if eqb_ℤ r.1 (ℤ.pos 0) then ℤ.pos 0 else if eqb_ℤ r.1 pid then ℤ.pos 0 else minus_one)
