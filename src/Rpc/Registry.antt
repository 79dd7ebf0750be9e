-- ===== src/Rpc/Registry.antt =====
-- src/rpc/pbc/pbrpc-svc.c: what registering does to the methods of a service.
use vmp_rl.Base.{
  ℕ, ◌≡◌, refl, ap, ◌⊎◌, inl, inr, Bool, true, false, List, [], ◌∷◌, ◌++◌, Option, none, some, ℤ,
  str_eq_self, str_eq_sound, arith, All, Bool-cases,
}
use vmp_rl.Rpc.Callouts.{
  Callout, Callouts, names_match, matches, Found, further, pbrpc_svc_find, add_callout,
  pbrpc_svc_register,
}

-- The lookup for a callout's own program, version and name.
abbrev pub find_like : Callouts → Callout → Option Found
find_like head s = pbrpc_svc_find head s.sc_prog s.sc_vers s.sc_name

names_match_self : (n : Option (List ℕ)) → names_match n n ≡ true
unfolding names_match
names_match_self none = refl
names_match_self (some n) = str_eq_self n

pub matches_self : (s : Callout) → matches s.sc_prog s.sc_vers s.sc_name s ≡ true
unfolding matches
matches_self s = ground (arith, names_match_self s.sc_name)

pub find-cons_hit :
    (s : Callout) (next : Callouts) (prog vers : ℕ) (name : Option (List ℕ))
    → matches prog vers name s ≡ true
    → pbrpc_svc_find (s ∷ next) prog vers name
      ≡ some (record { before = []; entry = s; after = next })
unfolding pbrpc_svc_find
find-cons_hit s next prog vers name h = rw h

-- A lookup splits the list at the first entry that matches, and fails if none does.
pub find_split :
    (head : Callouts) (prog vers : ℕ) (name : Option (List ℕ))
    → ((pbrpc_svc_find head prog vers name ≡ none)
        × All (λ c. matches prog vers name c ≡ false) head)
      ⊎ ((f : Found) × (pbrpc_svc_find head prog vers name ≡ some f)
          × (head ≡ f.before ++ f.entry ∷ f.after)
          × (matches prog vers name f.entry ≡ true)
          × All (λ c. matches prog vers name c ≡ false) f.before)
unfolding pbrpc_svc_find further
find_split [] prog vers name = inl (refl, tt)
find_split (s ∷ next) prog vers name = elim (Bool-cases (matches prog vers name s)) [
  | inl hit ↦ inr (
    record { before = []; entry = s; after = next },
    find-cons_hit s next prog vers name hit,
    refl,
    hit,
    tt,
  )
  | inr miss ↦ elim (find_split next prog vers name) [
    | inl (e, all) ↦ inl (rw (miss, e), (miss, all))
    | inr (f, e, split, hit, all) ↦
        inr (record f { before = s ∷ f.before }, rw (miss, e), ap (◌∷◌ s) split, hit, (miss, all))
  ]
]

-- A successful registration is found again: the lookup gives an entry with that function.
pub register-find :
    (head : Callouts) (s : Callout) (allocated : Bool)
    → (pbrpc_svc_register head s allocated).1 ≡ ℤ.pos 0
    → (f : Found) × (find_like (pbrpc_svc_register head s allocated).0 s ≡ some f)
      × (f.entry.dispatch ≡ s.dispatch)
unfolding pbrpc_svc_register add_callout
register-find head s allocated e = go allocated (find_like head s) refl e
  where
    go :
        (a : Bool) (o : Option Found)
        → find_like head s ≡ o
        → (add_callout head s a o).1 ≡ ℤ.pos 0
        → (f : Found) × (find_like (add_callout head s a o).0 s ≡ some f)
          × (f.entry.dispatch ≡ s.dispatch)
    go a (some f) there zero = (f, there, ground arith)
    go true none there zero = (
      record { before = []; entry = s; after = head },
      find-cons_hit s head s.sc_prog s.sc_vers s.sc_name (matches_self s),
      refl,
    )
    go false none there zero = cc

abbrev pub entry_of : Option Found → Option Callout
entry_of none = none
entry_of (some f) = some f.entry

entry_of-further : (s : Callout) (o : Option Found) → entry_of (further s o) ≡ entry_of o
unfolding further
entry_of-further s none = refl
entry_of-further s (some f) = refl

pub find-cons_miss :
    (s : Callout) (next : Callouts) (prog vers : ℕ) (name : Option (List ℕ))
    → matches prog vers name s ≡ false
    → entry_of (pbrpc_svc_find (s ∷ next) prog vers name)
      ≡ entry_of (pbrpc_svc_find next prog vers name)
unfolding pbrpc_svc_find
find-cons_miss s next prog vers name h =
    rw h (entry_of-further s (pbrpc_svc_find next prog vers name))

-- Registering a callout changes no lookup that the callout does not match.
pub register_others :
    (head : Callouts) (s : Callout) (allocated : Bool) (prog vers : ℕ) (name : Option (List ℕ))
    → matches prog vers name s ≡ false
    → entry_of (pbrpc_svc_find (pbrpc_svc_register head s allocated).0 prog vers name)
      ≡ entry_of (pbrpc_svc_find head prog vers name)
unfolding pbrpc_svc_register add_callout
register_others head s allocated prog vers name h = go allocated (find_like head s)
  where
    go :
        (a : Bool) (o : Option Found)
        → entry_of (pbrpc_svc_find (add_callout head s a o).0 prog vers name)
          ≡ entry_of (pbrpc_svc_find head prog vers name)
    go a (some f) = refl
    go true none = find-cons_miss s head prog vers name h
    go false none = refl

pub matches-key :
    (prog vers : ℕ) (n m : List ℕ) (c : Callout)
    → c.sc_name ≡ some m
    → matches prog vers (some n) c ≡ true
    → (c.sc_prog ≡ prog) × (c.sc_vers ≡ vers) × (c.sc_name ≡ some n)
unfolding matches names_match
matches-key prog vers n m c e h = ground (arith, str_eq_sound n m)

pub matches-named :
    (prog vers : ℕ) (n : List ℕ) (e c : Callout)
    → (e.sc_prog ≡ prog) × (e.sc_vers ≡ vers) × (e.sc_name ≡ some n)
    → matches prog vers (some n) c ≡ matches e.sc_prog e.sc_vers e.sc_name c
matches-named prog vers n e c (p, v, q) = rw (p, v, q)
