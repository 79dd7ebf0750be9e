-- ===== src/Rpc/Callouts.antt =====
-- src/rpc/pbc/pbrpc-svc.h and pbrpc-svc.c: the list of methods that a service answers.
use vmp_rl.Base.{
  ℕ, Bool, true, false, ◌&&◌, List, [], ◌∷◌, ◌++◌, Option, none, some, ℤ, minus_one, str_eq, ◌==◌,
  if◌then◌else◌,
}

-- `pbrpc_svc_callout` without its link: a name that may be null, and the address of a function.
pub record Callout : Type 0 where
  pub sc_prog : ℕ
  pub sc_vers : ℕ
  pub sc_name : Option (List ℕ)
  pub sc_args : ℕ
  pub dispatch : ℕ

-- The list behind `svc_head`.
abbrev pub Callouts : Type 0
Callouts = List Callout

-- A null name on either side stands for every name.
unfoldable pub names_match : Option (List ℕ) → Option (List ℕ) → Bool
names_match none _ = true
names_match (some n) none = true
names_match (some n) (some m) = str_eq n m

unfoldable pub matches : ℕ → ℕ → Option (List ℕ) → Callout → Bool
unfolding names_match
matches prog vers name s = (s.sc_prog == prog && s.sc_vers == vers) && names_match name s.sc_name

-- The entry that was found, between those before it (`*prev` is the last of them) and after it.
pub record Found : Type 0 where
  pub before : Callouts
  pub entry : Callout
  pub after : Callouts

unfoldable pub further : Callout → Option Found → Option Found
further c none = none
further c (some f) = some (record f { before = c ∷ f.before })

unfoldable pub pbrpc_svc_find : Callouts → ℕ → ℕ → Option (List ℕ) → Option Found
unfolding further
pbrpc_svc_find [] prog vers name = none
pbrpc_svc_find (s ∷ next) prog vers name =
    if matches prog vers name s
    then some (record { before = []; entry = s; after = next })
    else further s (pbrpc_svc_find next prog vers name)

-- `allocated` tells whether `calloc` gave a new entry.
unfoldable pub add_callout : Callouts → Callout → (allocated : Bool) → Option Found → Callouts × ℤ
add_callout head s allocated (some f) =
    (head, if f.entry.dispatch == s.dispatch then ℤ.pos 0 else ℤ.pos 1)
add_callout head s true none = (s ∷ head, ℤ.pos 0)
add_callout head s false none = (head, minus_one)

unfoldable pub pbrpc_svc_register : Callouts → Callout → (allocated : Bool) → Callouts × ℤ
unfolding add_callout
pbrpc_svc_register head s allocated =
    add_callout head s allocated (pbrpc_svc_find head s.sc_prog s.sc_vers s.sc_name)

unfoldable pub unlink : Callouts → Option Found → Callouts
unlink head none = head
unlink head (some f) = f.before ++ f.after

unfoldable pub pbrpc_svc_unregister : Callouts → ℕ → ℕ → Option (List ℕ) → Callouts
unfolding unlink
pbrpc_svc_unregister head prog vers name = unlink head (pbrpc_svc_find head prog vers name)
