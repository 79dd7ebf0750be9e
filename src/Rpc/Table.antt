-- ===== src/Rpc/Table.antt =====
-- src/rpc/pbc/pbrpc-svc.c: the methods of a service as a table that forgets where they stand. The
-- methods of the program all have names, and so have the lookups of `rpc_invoke_call`.
pub mod Order
use mathlib.Core.Quot
use mathlib.Core.Quot.{Quot, Quot-set}
use vmp_rl.Base.{
  ℕ, ◌≡◌, refl, sym, ap, ◌∙◌, Bool, true, false, List, Option, none, some, if◌then◌else◌, inl, inr,
  Bool-cases,
}
use vmp_rl.Rpc.Callouts.{
  Callout, Callouts, matches, Found, pbrpc_svc_find, add_callout, pbrpc_svc_register,
}
use vmp_rl.Rpc.Registry.{find_like, find-cons_hit, entry_of, find-cons_miss}

-- A callout with a name.
pub record Named : Type 0 where
  pub prog : ℕ
  pub vers : ℕ
  pub name : List ℕ
  pub args : ℕ
  pub function : ℕ

abbrev pub callout : Named → Callout
callout c = record {
  sc_prog = c.prog;
  sc_vers = c.vers;
  sc_name = some c.name;
  sc_args = c.args;
  dispatch = c.function;
}

-- The entry that a lookup finds.
abbrev pub lookup : Callouts → ℕ → ℕ → List ℕ → Option Callout
lookup head prog vers name = entry_of (pbrpc_svc_find head prog vers (some name))

abbrev pub hits : ℕ → ℕ → List ℕ → Named → Bool
hits prog vers name c = matches prog vers (some name) (callout c)

-- Two lists answer every lookup alike.
abbrev pub SameLookups : Callouts → Callouts → Type 0
SameLookups l m =
    (prog vers : ℕ) (name : List ℕ) → lookup l prog vers name ≡ lookup m prog vers name

abbrev pub Table : Type 0
Table = Quot SameLookups

abbrev pub table_of : Callouts → Table
table_of = Quot.mk

Callout-set : IsSet Callout
Callout-set = hlevel

pub found-set : IsSet (Option Callout)
found-set = hlevel Callout-set

-- A table is looked up as the lists that it stands for are.
abbrev pub table_lookup : ℕ → ℕ → List ℕ → Table → Option Callout
table_lookup prog vers name =
    Quot.lift found-set (λ l. lookup l prog vers name) (λ l m h. h prog vers name)

-- What a lookup finds after a registration: from the entry that stood for the new callout's own
-- key, whether there is memory, whether the lookup hits the callout, and what it found before.
abbrev pub found_after : Option Callout → Bool → Bool → Callout → Option Callout → Option Callout
found_after (some e) allocated hit s old = old
found_after none false hit s old = old
found_after none true hit s old = if hit then some s else old

pub lookup-register :
    (head : Callouts) (c : Named) (allocated : Bool) (prog vers : ℕ) (name : List ℕ)
    → lookup (pbrpc_svc_register head (callout c) allocated).0 prog vers name
      ≡ found_after
          (lookup head c.prog c.vers c.name)
          allocated
          (hits prog vers name c)
          (callout c)
          (lookup head prog vers name)
unfolding pbrpc_svc_register add_callout
lookup-register head c allocated prog vers name = go (find_like head (callout c)) allocated
  where
    go :
        (o : Option Found) (a : Bool)
        → lookup (add_callout head (callout c) a o).0 prog vers name
          ≡ found_after
              (entry_of o)
              a
              (hits prog vers name c)
              (callout c)
              (lookup head prog vers name)
    go (some f) a = refl
    go none false = refl
    go none true = elim (Bool-cases (hits prog vers name c)) [
      | inl hit ↦
          ap entry_of (find-cons_hit (callout c) head prog vers (some name) hit)
          ∙ ap (λ b. if b then some (callout c) else lookup head prog vers name) (sym hit)
      | inr miss ↦
          find-cons_miss (callout c) head prog vers (some name) miss
          ∙ ap (λ b. if b then some (callout c) else lookup head prog vers name) (sym miss)
    ]

-- Registering respects the lookups, so it is an operation on tables.
pub register-SameLookups :
    (c : Named) (allocated : Bool) (l m : Callouts)
    → SameLookups l m
    → SameLookups
        (pbrpc_svc_register l (callout c) allocated).0
        (pbrpc_svc_register m (callout c) allocated).0
register-SameLookups c allocated l m h prog vers name =
    lookup-register l c allocated prog vers name
    ∙ ap
        (λ o. found_after o allocated (hits prog vers name c) (callout c) (lookup l prog vers name))
        (h c.prog c.vers c.name)
    ∙ ap (found_after (lookup m c.prog c.vers c.name) allocated (hits prog vers name c) (callout c))
        (h prog vers name)
    ∙ sym (lookup-register m c allocated prog vers name)

unfoldable pub table_register : Named → Bool → Table → Table
table_register c allocated =
    Quot.lift Quot-set (λ l. table_of (pbrpc_svc_register l (callout c) allocated).0)
      (λ l m h. Quot.sound (register-SameLookups c allocated l m h))
