-- ===== src/Rpc/Ids.antt =====
-- src/rpc/pbc/pbrpc-clnt.c: the ids of the outstanding calls.
use vmp_rl.Base.{
  ℕ, zero, suc, ◌^◌, ◌≤◌, ◌<◌, ◌≡◌, ◌≢◌, refl, ap, true, false, List, [], ◌∷◌, ◌++◌, none, some,
  ◌==◌, arith, length, All, All-snoc, All-last, extend32,
}
use vmp_rl.Rpc.Client.{Node, without, find_call}

-- Ids are distinct, and at most the last one given out, which still fits an `int32_t`.
abbrev pub Distinct : List Node → Type 0
Distinct [] = Unit
Distinct (n ∷ ns) = All (λ m. m.id ≢ n.id) ns × Distinct ns

pub record IsFresh (id_gen : ℕ) (ns : List Node) : Type 0 where
  pub small : id_gen < 2 ^ 31
  pub below : All (λ n. n.id ≤ id_gen) ns
  pub distinct : Distinct ns

pub Distinct-snoc :
    (ns : List Node) (n : Node) (bound : ℕ)
    → All (λ m. m.id ≤ bound) ns
    → bound < n.id
    → Distinct ns
    → Distinct (ns ++ n ∷ [])
Distinct-snoc [] n bound h k d = (tt, tt)
Distinct-snoc (m ∷ ns) n bound h k d =
    (All-snoc (λ l. l.id ≢ m.id) ns n d.0 (omega (arith, h.0)), Distinct-snoc ns n bound h.1 k d.1)

pub All-le : (ns : List Node) (a b : ℕ) → a ≤ b → All (λ m. m.id ≤ a) ns → All (λ m. m.id ≤ b) ns
All-le [] a b h k = tt
All-le (n ∷ ns) a b h k = (omega (arith, k.0), All-le ns a b h k.1)

pub All-without {κ} : (P : Node → Type κ) (i : ℕ) (ns : List Node) → All P ns → All P (without i ns)
All-without P i [] h = tt
All-without P zero (n ∷ ns) h = h.1
All-without P (suc i) (n ∷ ns) h = (h.0, All-without P i ns h.1)

pub Distinct-without : (i : ℕ) (ns : List Node) → Distinct ns → Distinct (without i ns)
Distinct-without i [] d = tt
Distinct-without zero (n ∷ ns) d = d.1
Distinct-without (suc i) (n ∷ ns) d =
    (All-without (λ m. m.id ≢ n.id) i ns d.0, Distinct-without i ns d.1)

pub IsFresh-without :
    {id_gen : ℕ} (i : ℕ) (ns : List Node) → IsFresh id_gen ns → IsFresh id_gen (without i ns)
IsFresh-without {id_gen} i ns f = record {
  small = f.small;
  below = All-without (λ n. n.id ≤ id_gen) i ns f.below;
  distinct = Distinct-without i ns f.distinct;
}

-- The walk stops at the call with the response's id.
pub find_call-at :
    (id_gen : ℕ) (before : List Node) (n : Node) (after : List Node)
    → IsFresh id_gen (before ++ n ∷ after)
    → find_call n.id (before ++ n ∷ after) ≡ some (length before, n)
unfolding find_call
find_call-at id_gen [] n after f = rw same
  where
    same : (extend32 n.id == n.id) ≡ true
    same = ground (arith, f.below.0, f.small)
find_call-at id_gen (m ∷ before) n after f = rw (
  other,
  find_call-at id_gen before n after
      (record { small = f.small; below = f.below.1; distinct = f.distinct.1 }),
)
  where
    apart : n.id ≢ m.id
    apart = All-last (λ k. k.id ≢ m.id) before n after f.distinct.0

    other : (extend32 m.id == n.id) ≡ false
    other = ground (arith, f.below.0, f.small, apart)

pub without-at :
    (before : List Node) (n : Node) (after : List Node)
    → without (length before) (before ++ n ∷ after) ≡ before ++ after
without-at [] n after = refl
without-at (m ∷ before) n after = ap (◌∷◌ m) (without-at before n after)

-- No call of such an id is outstanding.
pub find_call-none :
    (id : ℕ) (ns : List Node) → All (λ n. extend32 n.id ≢ id) ns → find_call id ns ≡ none
unfolding find_call
find_call-none id [] h = refl
find_call-none id (n ∷ ns) h = rw (other, find_call-none id ns h.1)
  where
    other : (extend32 n.id == id) ≡ false
    other = ground (arith, h.0)
