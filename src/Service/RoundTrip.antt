-- ===== src/Service/RoundTrip.antt =====
-- src/rpc: a stub's call, the method of the daemon behind it, and the reply to the stub.
pub mod Daemon
use vmp_rl.Base.{
  ℕ, ◌+◌, ◌^◌, ◌<◌, ◌≡◌, refl, ap, true, false, List, [], ◌∷◌, ◌++◌, Option, none, some, Run, done,
  ℤ, pos, ◌==◌, arith, length, All, if◌then◌else◌,
}
use vmp_rl.Rpc.Callouts.{Callouts}
use vmp_rl.Rpc.Server.{response_init, Codec, Methods, rpc_invoke_call, process_request}
use vmp_rl.Rpc.Client.{NodeList, Clnt, Reply, pbrpc_clnt_call, process_response}
use vmp_rl.Rpc.Pending.{Fresh, entries_of}
use vmp_rl.Rpc.RoundTrip.{plenty, next_request, call_carried}
use vmp_rl.Service.Methods.{method}
use vmp_rl.Service.Stubs.{Priv, Caller, Asked, take_priv, rpc_clnt, reply_cb}

-- No `PrivInfo` stands at the address that `calloc` gives.
abbrev pub IsNew : ℕ → List Priv → Type 0
IsNew address = All (λ p. p.address == address ≡ false)

take_priv-append :
    (address : ℕ) (privs : List Priv) (p : Priv)
    → IsNew address privs
    → p.address ≡ address
    → take_priv address (privs ++ p ∷ []) ≡ some (p, privs)
unfolding take_priv
take_priv-append address [] p new at = ground (arith, at)
take_priv-append address (q ∷ privs) p (other, new) at =
    rw (other, take_priv-append address privs p new at) refl

-- What is known of a call: the ids are fresh, and both messages fit and are read as they were
-- written.
pub record IsClear {Q : Type 0} (lib : NodeList Q) (codec : Codec) (clnt : Clnt Q)
    (method params result : List ℕ) : Type 0 where
  pub fresh : Fresh lib clnt
  pub room : clnt.id_gen + 1 < 2 ^ 31
  pub asked :
      codec.unpack_request (codec.pack_request (next_request clnt method params))
      ≡ some (next_request clnt method params)
  pub asked_size : 8 + length (codec.pack_request (next_request clnt method params)) < 2 ^ 31
  pub answered :
      codec.unpack_response (codec.pack_response (record { id = clnt.id_gen + 1; result = result }))
      ≡ some (record { id = clnt.id_gen + 1; result = result })
  pub answered_size :
      8 + length (codec.pack_response (record { id = clnt.id_gen + 1; result = result })) < 2 ^ 31

module _ {Q M R : Type 0} (lib : NodeList Q) (codec : Codec) (unpack : List ℕ → Option M)
    (read : M → R) where
  -- From the stub through the server and back: what is sent, what is answered, what the caller is
  -- told, and that the stub's `PrivInfo` and the outstanding call are gone.
  abbrev pub Travels :
      (run : Methods) (head : Callouts) (caller : Caller Q) (asked : Asked) (cb : ℕ)
      → Run (Caller Q × List ℕ × ℤ)
      → R
      → Type 0
  Travels run head caller asked cb call info =
      (called : Caller Q) × (sent : List ℕ) × (reply : List ℕ) × (clnt : Clnt Q) × (arrived : Reply)
      × (after : Caller Q) × (call ≡ done (called, sent, pos 0))
      × (process_request codec run head true sent ≡ done (reply, length sent))
      × (process_response lib codec called.clnt reply ≡ done (clnt, some arrived, length reply))
      × (arrived.replymsg ≡ cb)
      × (reply_cb unpack read arrived.ctx arrived.result (pos 0) (record called { clnt = clnt })
          ≡ done (
            after,
            (if asked.pfn_callback
                then some (record { ctx = asked.ctx; msg = pos 0; arg = some info })
                else none),
            pos 0,
          ))
      × (entries_of lib after.clnt ≡ entries_of lib caller.clnt)
      × (after.privs ≡ caller.privs)

  stub-Travels :
      (run : Methods) (head : Callouts) (caller : Caller Q) (asked : Asked) (address cb : ℕ)
      (method params result : List ℕ) (rsp : M) (code : ℤ)
      → IsClear lib codec caller.clnt method params result
      → asked.priv ≡ some address
      → asked.cbuf ≡ true
      → IsNew address caller.privs
      → rpc_invoke_call run head (next_request caller.clnt method params) response_init
        ≡ done (record { id = caller.clnt.id_gen + 1; result = result }, code)
      → unpack result ≡ some rsp
      → Travels run head caller asked cb
          (rpc_clnt lib codec method cb params asked plenty caller)
          (read rsp)
  unfolding rpc_clnt reply_cb
  stub-Travels run head caller asked address cb method params result rsp code c there buffer new
        invoked decoded =
      let called = pbrpc_clnt_call lib codec caller.clnt method params cb address plenty in
      let priv : Priv = record {
        address = address;
        ctx = asked.ctx;
        pfn_callback = asked.pfn_callback;
      } in
      let (reply, clnt, served, came, entries, code_zero) =
        call_carried lib codec run head caller.clnt method params cb address
          (record { id = caller.clnt.id_gen + 1; result = result }) code c.fresh c.room c.asked
          c.asked_size invoked c.answered c.answered_size in
      (
        record { clnt = called.0; privs = caller.privs ++ priv ∷ [] },
        called.1,
        reply,
        clnt,
        record { replymsg = cb; ctx = address; result = result },
        record { clnt = clnt; privs = caller.privs },
        rw (rpc_clnt, there, buffer)
            (ap
              (λ z.
                done (record { clnt = called.0; privs = caller.privs ++ priv ∷ [] }, called.1, z))
              code_zero),
        served,
        came,
        refl,
        rw (reply_cb, take_priv-append address caller.privs priv new refl, decoded) refl,
        entries,
        refl,
      )
