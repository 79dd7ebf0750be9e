-- ===== src/Rpc/Keys.antt =====
-- src/rpc/pbc/pbrpc-svc.c: the keys of the methods, and what unregistering does to them.
use vmp_rl.Base.{
  ℕ, ◌≡◌, refl, ◌∙◌, inl, inr, Bool, true, false, List, [], ◌∷◌, ◌++◌, Option, none, some, All,
  All-append, All-last, All-map, All-drop,
}
use vmp_rl.Rpc.Callouts.{
  Callout, Callouts, matches, Found, further, pbrpc_svc_find, add_callout, pbrpc_svc_register,
  unlink, pbrpc_svc_unregister,
}
use vmp_rl.Rpc.Registry.{
  find_like, matches_self, find-cons_hit, find_split, matches-key, matches-named,
}

-- Unregistering a callout that was new gives the list of methods back.
pub unregister-register :
    (head : Callouts) (s : Callout)
    → find_like head s ≡ none
    → pbrpc_svc_unregister (pbrpc_svc_register head s true).0 s.sc_prog s.sc_vers s.sc_name ≡ head
unfolding pbrpc_svc_register pbrpc_svc_unregister add_callout unlink
unregister-register head s absent =
    rw (absent, find-cons_hit s head s.sc_prog s.sc_vers s.sc_name (matches_self s))

-- No entry is found by the key of another that stands before it.
abbrev pub IsKeyed : Callouts → Type 0
IsKeyed [] = Unit
IsKeyed (s ∷ next) = All (λ c. matches s.sc_prog s.sc_vers s.sc_name c ≡ false) next × IsKeyed next

IsKeyed-without :
    (before : Callouts) (s : Callout) (after : Callouts)
    → IsKeyed (before ++ s ∷ after)
    → IsKeyed (before ++ after)
IsKeyed-without [] s after k = k.1
IsKeyed-without (b ∷ before) s after k =
    (All-drop _ before s after k.0, IsKeyed-without before s after k.1)

-- Registering keeps the keys apart, whatever it answers.
pub register-IsKeyed :
    (head : Callouts) (s : Callout) (allocated : Bool)
    → IsKeyed head
    → IsKeyed (pbrpc_svc_register head s allocated).0
unfolding pbrpc_svc_register add_callout
register-IsKeyed head s allocated k = go allocated (find_like head s) refl
  where
    go : (a : Bool) (o : Option Found) → find_like head s ≡ o → IsKeyed (add_callout head s a o).0
    go a (some f) e = k
    go false none e = k
    go true none e = elim (find_split head s.sc_prog s.sc_vers s.sc_name) [
      | inl (_, all) ↦ (all, k)
      | inr (f, there, split, hit, all) ↦ cc
    ]

pub unregister-IsKeyed :
    (head : Callouts) (prog vers : ℕ) (name : Option (List ℕ))
    → IsKeyed head
    → IsKeyed (pbrpc_svc_unregister head prog vers name)
unfolding pbrpc_svc_unregister unlink
unregister-IsKeyed head prog vers name k = elim (find_split head prog vers name) [
  | inl (e, all) ↦ rw e k
  | inr (f, e, split, hit, all) ↦ rw e (IsKeyed-without f.before f.entry f.after (rw split at k))
]

find-none :
    (head : Callouts) (prog vers : ℕ) (name : Option (List ℕ))
    → All (λ c. matches prog vers name c ≡ false) head
    → pbrpc_svc_find head prog vers name ≡ none
unfolding pbrpc_svc_find further
find-none [] prog vers name h = refl
find-none (s ∷ next) prog vers name h = rw (h.0, find-none next prog vers name h.1)

-- Every callout has a name, as those of the program have.
abbrev pub AllNamed : Callouts → Type 0
AllNamed = All (λ c. (n : List ℕ) × (c.sc_name ≡ some n))

IsKeyed-after :
    (before : Callouts) (s : Callout) (after : Callouts)
    → IsKeyed (before ++ s ∷ after)
    → All (λ c. matches s.sc_prog s.sc_vers s.sc_name c ≡ false) after
IsKeyed-after [] s after k = k.0
IsKeyed-after (b ∷ before) s after k = IsKeyed-after before s after k.1

-- In a list of named methods with distinct keys, a method that was unregistered by its key is
-- found no more.
pub unregister-find :
    (head : Callouts) (prog vers : ℕ) (n : List ℕ)
    → AllNamed head
    → IsKeyed head
    → pbrpc_svc_find (pbrpc_svc_unregister head prog vers (some n)) prog vers (some n) ≡ none
unfolding pbrpc_svc_unregister unlink
unregister-find head prog vers n named k = elim (find_split head prog vers (some n)) [
  | inl (e, all) ↦ rw (e, e)
  | inr (f, e, split, hit, all) ↦
      let (m, is_m) = All-last _ f.before f.entry f.after (rw split at named) in
      let key = matches-key prog vers n m f.entry is_m hit in
      let rest =
        All-map (λ c h. matches-named prog vers n f.entry c key ∙ h) f.after
          (IsKeyed-after f.before f.entry f.after (rw split at k)) in
      rw e (
        find-none (f.before ++ f.after) prog vers (some n) (All-append _ f.before f.after all rest))
]
