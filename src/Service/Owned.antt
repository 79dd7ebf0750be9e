-- ===== src/Service/Owned.antt =====
-- src/rpc/clnt_*.c: who owns the `PrivInfo` of a call.
use mathlib.Core.List.{map-append}
use vmp_rl.Base.{
  ℕ, Bool, ◌≡◌, refl, ap, ◌∙◌, true, false, ◌&&◌, List, [], ◌∷◌, ◌++◌, map, some, done, ℤ,
  minus_one, pos, if◌then◌else◌,
}
use vmp_rl.Rpc.Server.{Codec}
use vmp_rl.Rpc.Client.{NodeList, Clnt, Memory, pbrpc_clnt_call}
use vmp_rl.Rpc.Pending.{entries_of}
use vmp_rl.Service.Stubs.{Priv, Caller, Asked, rpc_clnt}

-- The contexts of the outstanding calls, and the addresses of the `PrivInfo`s.
abbrev pub contexts : {Q : Type 0} → NodeList Q → Clnt Q → List ℕ
contexts lib clnt = map (λ n. n.ctx) (entries_of lib clnt)

abbrev pub addresses : List Priv → List ℕ
addresses privs = map (λ p. p.address) privs

module _ {Q : Type 0} (lib : NodeList Q) (codec : Codec) where
  -- What a call leaves of the outstanding calls, and its result.
  abbrev Entered : Clnt Q → Memory → ℕ → Clnt Q × List ℕ × ℤ → Type 0
  Entered clnt memory address called =
      if memory.strdup && memory.entry
      then (called.2 ≡ pos 0) × (contexts lib called.0 ≡ contexts lib clnt ++ address ∷ [])
      else (called.2 ≡ minus_one) × (contexts lib called.0 ≡ contexts lib clnt)

  call-Entered :
      (clnt : Clnt Q) (name request : List ℕ) (cb address : ℕ) (memory : Memory)
      → Entered clnt memory address (pbrpc_clnt_call lib codec clnt name request cb address memory)
  unfolding pbrpc_clnt_call
  call-Entered clnt name request cb address memory = by_memory memory.strdup memory.entry
    where
      by_memory :
          (s e : Bool)
          → let m : Memory = record { strdup = s; entry = e; buffer = memory.buffer } in
            Entered clnt m address (pbrpc_clnt_call lib codec clnt name request cb address m)
      by_memory true true = (
        refl,
        ap (map (λ n. n.ctx)) (lib.entries_added _ clnt.outstanding)
            ∙ map-append (λ n. n.ctx) (entries_of lib clnt) (_ ∷ []),
      )
      by_memory true false = (refl, refl)
      by_memory false e = (refl, refl)

  -- A call that both allocations of pbrpc_clnt_call allow answers 0, and its `PrivInfo` is the
  -- context of the last outstanding call. Any other answers -1 and allocates a `PrivInfo` all the
  -- same, though no outstanding call is added whose reply would free it.
  pub rpc_clnt_lem :
      (name : List ℕ) (cb : ℕ) (request : List ℕ) (asked : Asked) (memory : Memory)
      (caller : Caller Q) (address : ℕ)
      → asked.priv ≡ some address
      → asked.cbuf ≡ true
      → (called : Caller Q) × (sent : List ℕ) × (code : ℤ) × (rpc_clnt lib codec name cb request
            asked memory caller
          ≡ done (called, sent, code))
        × (addresses called.privs ≡ addresses caller.privs ++ address ∷ [])
        × (if memory.strdup && memory.entry
            then (code ≡ pos 0)
              × (contexts lib called.clnt ≡ contexts lib caller.clnt ++ address ∷ [])
            else (code ≡ minus_one) × (contexts lib called.clnt ≡ contexts lib caller.clnt))
  unfolding rpc_clnt
  rpc_clnt_lem name cb request asked memory caller address there buffer =
      let called = pbrpc_clnt_call lib codec caller.clnt name request cb address memory in
      let priv : Priv = record {
        address = address;
        ctx = asked.ctx;
        pfn_callback = asked.pfn_callback;
      } in
      (
        record { clnt = called.0; privs = caller.privs ++ priv ∷ [] },
        called.1,
        called.2,
        rw (rpc_clnt, there, buffer) refl,
        map-append (λ p. p.address) caller.privs (priv ∷ []),
        call-Entered caller.clnt name request cb address memory,
      )
