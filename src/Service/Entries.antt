-- ===== src/Service/Entries.antt =====
-- src/rpc/service-*.c and src/load/load_*.c: what lookups find after the registrations of the tasks.
use vmp_rl.Base.{
  ℕ, ◌≡◌, refl, sym, ap, ◌∙◌, Bool, true, false, List, [], ◌∷◌, none, some, done, ◌||◌,
  if◌then◌else◌, ◌⊎◌, inl, inr, Bool-cases, ℤ, str_eq,
}
use vmp_rl.Rpc.Callouts.{
  Callouts, pbrpc_svc_register, pbrpc_svc_find, add_callout, matches, names_match, further, Found,
}
use vmp_rl.Rpc.Server.{find_method}
use vmp_rl.Service.Messages.{registry_sc_name}
use vmp_rl.Service.Register.{
  demo, vmon, node_state, Kind, same, prog, name, entry, service_register, load_register,
  load_registers,
}

abbrev pub entries : (Kind → ℕ) → List Kind → Callouts
entries args [] = []
entries args (k ∷ ks) = entry (args k) k ∷ entries args ks

abbrev pub mem : Kind → List Kind → Bool
mem k [] = false
mem k (j ∷ js) = same k j || mem k js

matches-entry : (k j : Kind) (a : ℕ) → matches (prog k) 1 (some (name k)) (entry a j) ≡ same k j
unfolding matches names_match str_eq
matches-entry demo demo a = refl
matches-entry demo vmon a = refl
matches-entry demo node_state a = refl
matches-entry vmon demo a = refl
matches-entry vmon vmon a = refl
matches-entry vmon node_state a = refl
matches-entry node_state demo a = refl
matches-entry node_state vmon a = refl
matches-entry node_state node_state a = refl

str_eq-name : (k j : Kind) → str_eq (name k) (name j) ≡ same k j
unfolding str_eq
str_eq-name demo demo = refl
str_eq-name demo vmon = refl
str_eq-name demo node_state = refl
str_eq-name vmon demo = refl
str_eq-name vmon vmon = refl
str_eq-name vmon node_state = refl
str_eq-name node_state demo = refl
str_eq-name node_state vmon = refl
str_eq-name node_state node_state = refl

find-entries :
    (args : Kind → ℕ) (k : Kind) (ks : List Kind)
    → ((f : Found) × (pbrpc_svc_find (entries args ks) (prog k) 1 (some (name k)) ≡ some f)
        × (mem k ks ≡ true))
      ⊎ ((pbrpc_svc_find (entries args ks) (prog k) 1 (some (name k)) ≡ none) × (mem k ks ≡ false))
unfolding pbrpc_svc_find further
find-entries args k [] = inr (refl, refl)
find-entries args k (j ∷ ks) = elim (Bool-cases (same k j)) [
  | inl is ↦ inl (
    record { before = []; entry = entry (args j) j; after = entries args ks },
    rw (matches-entry k j (args j), is) refl,
    rw is refl,
  )
  | inr not ↦ elim (find-entries args k ks) [
    | inl (f, e, m) ↦ inl (
      record f { before = entry (args j) j ∷ f.before },
      rw (matches-entry k j (args j), not, e) refl,
      rw not m,
    )
    | inr (e, m) ↦ inr (rw (matches-entry k j (args j), not, e) refl, rw not m)
  ]
]

same_sound : (k j : Kind) → same k j ≡ true → j ≡ k
same_sound demo demo h = refl
same_sound vmon vmon h = refl
same_sound node_state node_state h = refl
same_sound demo vmon h = cc
same_sound demo node_state h = cc
same_sound vmon demo h = cc
same_sound vmon node_state h = cc
same_sound node_state demo h = cc
same_sound node_state vmon h = cc

pub find_method-entries :
    (args : Kind → ℕ) (k : Kind) (ks : List Kind)
    → find_method (entries args ks) (name k)
      ≡ done (if mem k ks then some (entry (args k) k) else none)
unfolding find_method
find_method-entries args k [] = refl
find_method-entries args k (j ∷ ks) = elim (Bool-cases (same k j)) [
  | inl is ↦ rw (str_eq-name k j, is) (ap (λ i. done (some (entry (args i) i))) (same_sound k j is))
  | inr not ↦ rw (str_eq-name k j, not) (find_method-entries args k ks)
]

known-mem :
    (k : Kind) (js : List Kind) → mem k js ≡ true → (i : Kind) → mem i js ≡ (same i k || mem i js)
known-mem k js m i = elim (Bool-cases (same i k)) [
  | inl is ↦ rw is (ap (λ j. mem j js) (sym (same_sound i k is)) ∙ m)
  | inr not ↦ rw not refl
]

or_regroup : (a b c : Bool) → (b || (a || c)) ≡ ((a || b) || c)
or_regroup true true c = refl
or_regroup true false c = refl
or_regroup false b c = refl

or_false : (b : Bool) → (b || false) ≡ b
or_false true = refl
or_false false = refl

-- A registration of a method that is there already changes nothing.
load_register-entries :
    (args : Kind → ℕ) (k : Kind) (js : List Kind)
    → (js' : List Kind) × (load_register k (some (entries args js)) (some (args k)) true
        ≡ done (entries args js', ℤ.pos 0))
      × ((i : Kind) → mem i js' ≡ (same i k || mem i js))
unfolding load_register service_register pbrpc_svc_register add_callout
load_register-entries args k js = elim (find-entries args k js) [
  | inl (f, e, m) ↦ (js, rw e refl, λ i. known-mem k js m i)
  | inr (e, m) ↦ (k ∷ js, rw e refl, λ i. refl)
]

load_registers-entries :
    (args : Kind → ℕ) (ks js : List Kind)
    → (js' : List Kind) × (load_registers args ks (entries args js) ≡ done (entries args js'))
      × ((i : Kind) → mem i js' ≡ (mem i ks || mem i js))
unfolding load_registers
load_registers-entries args [] js = (js, refl, λ i. refl)
load_registers-entries args (k ∷ ks) js =
    let (js1, e, m) = load_register-entries args k js in
    let (js', e', m') = load_registers-entries args ks js1 in
    (
      js',
      rw e e',
      λ i. m' i ∙ ap (λ b. mem i ks || b) (m i) ∙ or_regroup (same i k) (mem i ks) (mem i js),
    )

-- Whatever the order in which the threads of the tasks register their methods, and however often,
-- none of it fails and each name finds the method and the handler of its task as soon as that task
-- has registered, and no method before.
pub load_registers_lem :
    (args : Kind → ℕ) (ks : List Kind)
    → (head : Callouts) × (load_registers args ks [] ≡ done head)
      × ((k : Kind)
          → find_method head (name k) ≡ done (if mem k ks then some (entry (args k) k) else none))
load_registers_lem args ks =
    let (js, e, m) = load_registers-entries args ks [] in
    (
      entries args js,
      e,
      λ k.
          find_method-entries args k js
          ∙ ap (λ (b : Bool). done (if b then some (entry (args k) k) else none))
              (m k ∙ or_false (mem k ks)),
    )

unknown-entries :
    (args : Kind → ℕ) (ks : List Kind) → find_method (entries args ks) registry_sc_name ≡ done none
unfolding find_method str_eq
unknown-entries args [] = refl
unknown-entries args (demo ∷ ks) = unknown-entries args ks
unknown-entries args (vmon ∷ ks) = unknown-entries args ks
unknown-entries args (node_state ∷ ks) = unknown-entries args ks

-- No registration of the tasks makes the method of the registry known.
pub registry_unknown :
    (args : Kind → ℕ) (ks : List Kind) (head : Callouts)
    → load_registers args ks [] ≡ done head
    → find_method head registry_sc_name ≡ done none
registry_unknown args ks head e =
    let (js, e', _) = load_registers-entries args ks [] in
    let same_head : head ≡ entries args js = cc in
    ap (λ h. find_method h registry_sc_name) same_head ∙ unknown-entries args js
