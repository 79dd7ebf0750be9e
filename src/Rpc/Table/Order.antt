-- ===== src/Rpc/Table/Order.antt =====
-- src/rpc/pbc/pbrpc-svc.c: the order of registrations.
use mathlib.Core.Quot
use mathlib.Core.Quot.{Quot, Quot-set}
use mathlib.Core.Logic.{∥∥₁_elim}
use mathlib.Core.List.Permᴰ
use mathlib.Core.List.{Permᴰ, Perm, Pairwise, mem-cons_self}
use vmp_rl.Base.{ℕ, ◌≡◌, refl, sym, ap, ◌∙◌, Bool, true, false, List, [], ◌∷◌, Option, none, some}
use vmp_rl.Rpc.Callouts.{Callout, Callouts, pbrpc_svc_register}
use vmp_rl.Rpc.Registry.{matches-key, matches-named, register_others}
use vmp_rl.Rpc.Table.{
  Named, callout, lookup, hits, Table, table_of, table_lookup, found_after, lookup-register,
  table_register,
}

-- Neither callout is hit by a lookup for the other.
abbrev pub Apart : Named → Named → Type 0
Apart c d = (hits c.prog c.vers c.name d ≡ false) × (hits d.prog d.vers d.name c ≡ false)

-- A lookup that hits both of two callouts is a lookup for either.
hits-both :
    (c d : Named) (prog vers : ℕ) (name : List ℕ)
    → Apart c d
    → hits prog vers name c ≡ true
    → hits prog vers name d ≡ false
hits-both c d prog vers name apart hit =
    let key = matches-key prog vers name c.name (callout c) refl hit in
    matches-named prog vers name (callout c) (callout d) key ∙ apart.0

found_after_comm :
    (x y : Option Callout) (a b p q : Bool) (c d : Callout) (old : Option Callout)
    → (p ≡ true → q ≡ false)
    → found_after x a p c (found_after y b q d old) ≡ found_after y b q d (found_after x a p c old)
found_after_comm (some x) y a b p q c d old h = refl
found_after_comm none (some y) a b p q c d old h = refl
found_after_comm none none false b p q c d old h = refl
found_after_comm none none true false p q c d old h = refl
found_after_comm none none true true false q c d old h = refl
found_after_comm none none true true true q c d old h = rw (h refl) refl

-- Two registrations, one after the other.
abbrev register_two : Named → Bool → Named → Bool → Callouts → Callouts
register_two c a d b head =
    (pbrpc_svc_register (pbrpc_svc_register head (callout d) b).0 (callout c) a).0

lookup-register_two :
    (c d : Named) (a b : Bool) (head : Callouts) (prog vers : ℕ) (name : List ℕ)
    → Apart c d
    → lookup (register_two c a d b head) prog vers name
      ≡ found_after (lookup head c.prog c.vers c.name) a (hits prog vers name c) (callout c) (
          found_after
            (lookup head d.prog d.vers d.name)
            b
            (hits prog vers name d)
            (callout d)
            (lookup head prog vers name))
lookup-register_two c d a b head prog vers name apart =
    let first = (pbrpc_svc_register head (callout d) b).0 in
    lookup-register first c a prog vers name
    ∙ ap (λ o. found_after o a (hits prog vers name c) (callout c) (lookup first prog vers name))
        (register_others head (callout d) b c.prog c.vers (some c.name) apart.0)
    ∙ ap (found_after (lookup head c.prog c.vers c.name) a (hits prog vers name c) (callout c))
        (lookup-register head d b prog vers name)

register_comm :
    (c d : Named) (a b : Bool)
    → Apart c d
    → (t : Table)
    → table_register c a (table_register d b t) ≡ table_register d b (table_register c a t)
unfolding table_register
register_comm c d a b apart =
    Quot.ind (λ t. Quot-set _ _)
      (λ head. Quot.sound (λ prog vers name.
        lookup-register_two c d a b head prog vers name apart
        ∙ found_after_comm (lookup head c.prog c.vers c.name) (lookup head d.prog d.vers d.name) a b
            (hits prog vers name c) (hits prog vers name d) (callout c) (callout d)
            (lookup head prog vers name) (hits-both c d prog vers name apart)
        ∙ sym (lookup-register_two d c b a head prog vers name (apart.1, apart.0))))

-- `pbrpc_svc_register` for one callout after the other, while there is memory.
unfoldable pub register_all : List Named → Callouts → Callouts
register_all [] head = head
register_all (c ∷ cs) head = register_all cs (pbrpc_svc_register head (callout c) true).0

table_register_all : List Named → Table → Table
table_register_all [] t = t
table_register_all (c ∷ cs) t = table_register_all cs (table_register c true t)

table_of-register_all :
    (cs : List Named) (head : Callouts)
    → table_of (register_all cs head) ≡ table_register_all cs (table_of head)
unfolding register_all table_register_all table_register
table_of-register_all [] head = refl
table_of-register_all (c ∷ cs) head =
    table_of-register_all cs (pbrpc_svc_register head (callout c) true).0

Apart-prop : (c d : Named) → IsProp (Apart c d)
Apart-prop c d = hlevel

register_all-Permᴰ :
    {cs ds : List Named}
    → Permᴰ cs ds
    → Pairwise Apart cs
    → (t : Table) → table_register_all cs t ≡ table_register_all ds t
unfolding table_register_all
register_all-Permᴰ Permᴰ.nil apart t = refl
register_all-Permᴰ (Permᴰ.cons {b = d} {l₁ = cs} e p) (Pairwise.cons h rest) t =
    ap (λ c. table_register_all cs (table_register c true t)) e
    ∙ register_all-Permᴰ p rest (table_register d true t)
register_all-Permᴰ (Permᴰ.swap {a = c} {b = d} {b' = b} {l = cs} e f) (Pairwise.cons h rest) t =
    let apart = h d mem-cons_self in
    ap (table_register_all cs) (
      register_comm d c true true (apart.1, apart.0) t
      ∙ ap (λ x. table_register x true (table_register d true t)) e
      ∙ ap (λ x. table_register b true (table_register x true t)) f)
register_all-Permᴰ (Permᴰ.trans p q) apart t =
    register_all-Permᴰ p apart t
    ∙ register_all-Permᴰ q (Permᴰ.pairwise Apart-prop (λ c d a. (a.1, a.0)) p apart) t

table_of-Perm :
    {cs ds : List Named}
    → Perm cs ds
    → Pairwise Apart cs
    → (head : Callouts) → table_of (register_all cs head) ≡ table_of (register_all ds head)
table_of-Perm {cs} {ds} perm apart head = ∥∥₁_elim perm (Quot-set _ _) (λ p.
    table_of-register_all cs head
    ∙ register_all-Permᴰ p apart (table_of head)
    ∙ sym (table_of-register_all ds head))

-- Callouts that are apart may be registered in any order, into any list of methods: each lookup
-- with a name finds the same entry afterwards, or none.
pub register_all-Perm :
    {cs ds : List Named}
    → Perm cs ds
    → Pairwise Apart cs
    → (head : Callouts) (prog vers : ℕ) (name : List ℕ)
    → lookup (register_all cs head) prog vers name ≡ lookup (register_all ds head) prog vers name
register_all-Perm perm apart head prog vers name =
    ap (table_lookup prog vers name) (table_of-Perm perm apart head)
