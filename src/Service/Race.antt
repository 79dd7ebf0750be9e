-- ===== src/Service/Race.antt =====
-- The threads of the tasks register without a lock: `pbrpc_svc_register` in steps that interleave.
use vmp_rl.Base.{
  ℕ, ◌≡◌, refl, ap, ◌∙◌, Bool, true, false, List, [], ◌∷◌, Option, none, some, done, ◌⊎◌, inl, inr,
  ℤ, pos, ◌==◌, if◌then◌else◌, Bool-cases, str_eq,
}
use vmp_rl.Rpc.Callouts.{Callout, Callouts, Found, pbrpc_svc_find}
use vmp_rl.Rpc.Server.{find_method}
use vmp_rl.Service.Register.{Kind, demo, vmon, node_state, same, prog, name, entry}
use vmp_rl.Service.Entries.{entries, mem, find_method-entries}

-- Where a thread stands: before the search, before it reads `svc_head` into `sc_next`, before it
-- writes `svc_head`, or behind the call.
pub data Local : Type 0 where
  searching : Local
  reading : Local
  writing : Callouts → Local
  returned : ℤ → Local

-- The end of the search.
unfoldable pub searched : Callout → Option Found → Local
searched s none = reading
searched s (some f) = returned (if f.entry.dispatch == s.dispatch then pos 0 else pos 1)

unfoldable pub advance : Callout → Local → Callouts → Local × Callouts
unfolding searched
advance s searching head = (searched s (pbrpc_svc_find head s.sc_prog s.sc_vers s.sc_name), head)
advance s reading head = (writing head, head)
advance s (writing sc_next) head = (returned (pos 0), s ∷ sc_next)
advance s (returned r) head = (returned r, head)

pub record Shared : Type 0 where
  pub svc_head : Callouts
  pub local : Kind → Local

-- A step of one thread.
unfoldable pub step : (Kind → ℕ) → Kind → Shared → Shared
unfolding advance
step args k st =
    let moved = advance (entry (args k) k) (st.local k) st.svc_head in
    record { svc_head = moved.1; local = λ j. if same k j then moved.0 else st.local j }

unfoldable pub schedule : (Kind → ℕ) → List Kind → Shared → Shared
unfolding step
schedule args [] st = st
schedule args (k ∷ ks) st = schedule args ks (step args k st)

abbrev pub at_first : Shared
at_first = record { svc_head = []; local = λ k. searching }

module _ (args : Kind → ℕ) where
  -- A list of entries of the daemon.
  abbrev IsOurs : Callouts → Type 0
  IsOurs head = (ks : List Kind) × (head ≡ entries args ks)

  abbrev IsFine : Local → Type 0
  IsFine searching = Unit
  IsFine reading = Unit
  IsFine (writing sc_next) = IsOurs sc_next
  IsFine (returned r) = Unit

  searched-IsFine : (s : Callout) (f : Option Found) → IsFine (searched s f)
  unfolding searched
  searched-IsFine s none = tt
  searched-IsFine s (some f) = tt

  advance-IsFine :
      (k : Kind) (l : Local) (head : Callouts)
      → IsFine l
      → IsOurs head
      → IsFine (advance (entry (args k) k) l head).0 × IsOurs (advance (entry (args k) k) l head).1
  unfolding advance
  advance-IsFine k searching head l h =
      (searched-IsFine (entry (args k) k) (pbrpc_svc_find head (prog k) 1 (some (name k))), h)
  advance-IsFine k reading head l h = (h, h)
  advance-IsFine k (writing sc_next) head (ks, e) h =
      (tt, (k ∷ ks, ap (λ t. entry (args k) k ∷ t) e))
  advance-IsFine k (returned r) head l h = (tt, h)

  choice-IsFine : (b : Bool) (l l' : Local) → IsFine l → IsFine l' → IsFine (if b then l else l')
  choice-IsFine true l l' f f' = f
  choice-IsFine false l l' f f' = f'

  schedule-IsOurs :
      (ks : List Kind) (st : Shared)
      → IsOurs st.svc_head
      → ((k : Kind) → IsFine (st.local k))
      → IsOurs (schedule args ks st).svc_head
  unfolding schedule
  schedule-IsOurs [] st ours fine = ours
  schedule-IsOurs (k ∷ ks) st ours fine =
      let (l, h) = advance-IsFine k (st.local k) st.svc_head (fine k) ours in
      schedule-IsOurs ks (step args k st) h
        (λ j. choice-IsFine (same k j) _ (st.local j) l (fine j))

  -- However the steps of the threads interleave, the name of a method reaches this method with its
  -- own handler, or no method at all.
  pub schedule-find_method :
      (ks : List Kind) (k : Kind)
      → (find_method (schedule args ks at_first).svc_head (name k) ≡ done none)
        ⊎ (find_method (schedule args ks at_first).svc_head (name k)
            ≡ done (some (entry (args k) k)))
  schedule-find_method ks k =
      let (js, e) = schedule-IsOurs ks at_first ([], refl) (λ j. tt) in
      let found = ap (λ head. find_method head (name k)) e ∙ find_method-entries args k js in
      elim (Bool-cases (mem k js)) [
        | inl here ↦
            inr (found ∙ ap (λ (b : Bool). done (if b then some (entry (args k) k) else none)) here)
        | inr absent ↦
            inl
              (found ∙ ap (λ (b : Bool). done (if b then some (entry (args k) k) else none)) absent)
      ]

-- Two threads that take their steps in turn both end with 0, and the method of the first is lost.
pub schedule_loses :
    (args : Kind → ℕ) (k j : Kind)
    → same k j ≡ false
    → let st = schedule args (k ∷ j ∷ k ∷ j ∷ k ∷ j ∷ []) at_first in
      (find_method st.svc_head (name k) ≡ done none)
      × (st.local k ≡ returned (pos 0))
      × (st.local j ≡ returned (pos 0))
unfolding schedule find_method str_eq pbrpc_svc_find
schedule_loses args demo demo h = cc
schedule_loses args vmon vmon h = cc
schedule_loses args node_state node_state h = cc
schedule_loses args demo vmon h = (refl, refl, refl)
schedule_loses args demo node_state h = (refl, refl, refl)
schedule_loses args vmon demo h = (refl, refl, refl)
schedule_loses args vmon node_state h = (refl, refl, refl)
schedule_loses args node_state demo h = (refl, refl, refl)
schedule_loses args node_state vmon h = (refl, refl, refl)
