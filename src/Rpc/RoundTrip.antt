-- ===== src/Rpc/RoundTrip.antt =====
-- src/rpc/pbc: a call from the client through the server and back.
use mathlib.Core.List.{append-nil}
use vmp_rl.Base.{
  ℕ, ◌+◌, ◌^◌, ◌<◌, ◌≡◌, refl, sym, ap, ◌∙◌, true, List, [], ◌++◌, Option, none, some, All, ◌∷◌,
  done, ◌>>=◌, >>=-eq-done, ℤ, arith, length, u32,
}
use vmp_rl.Rpc.Wire.{frame, length-frame}
use vmp_rl.Rpc.Callouts.{Callout, Callouts}
use vmp_rl.Rpc.Server.{
  Request, Response, response_init, Codec, Methods, find_method, call_method, rpc_invoke_call,
  process_request,
}
use vmp_rl.Rpc.Dispatch.{process_request-frame, OtherName, find_method-behind}
use vmp_rl.Rpc.Client.{
  Node, NodeList, Clnt, Reply, Memory, next_id, pbrpc_clnt_call, process_response,
}
use vmp_rl.Rpc.Pending.{Fresh, entries_of, pbrpc_clnt_call-Fresh, process_response_answered}

-- A request with parameters is answered under its own id.
call_method-id :
    (run : Methods) (s : Option Callout) (params : List ℕ) (rsp rsp' : Response) (code : ℤ)
    → call_method run s params rsp ≡ done (rsp', code)
    → rsp'.id ≡ rsp.id
unfolding call_method
call_method-id run none params rsp rsp' code e = cc
call_method-id run (some s) params rsp rsp' code e =
    let (r, _, e') = >>=-eq-done (run s.dispatch s.sc_args params) _ e in cc

invoke-id :
    (run : Methods) (head : Callouts) (req : Request) (params : List ℕ) (rsp : Response) (code : ℤ)
    → req.params ≡ some params
    → rpc_invoke_call run head req response_init ≡ done (rsp, code)
    → rsp.id ≡ req.id
unfolding rpc_invoke_call
invoke-id run head req params rsp code given e =
    let e' : (find_method head req.method >>= λ s.
    call_method run s params (record { id = req.id; result = [] }))
        ≡ done (rsp, code) =
      rw given at e in
    let (s, _, called) = >>=-eq-done (find_method head req.method) _ e' in
    call_method-id run s params _ rsp code called

-- The allocations that a call needs.
abbrev pub plenty : Memory
plenty = record { strdup = true; entry = true; buffer = true }

-- The request that the next call of a client sends.
abbrev pub next_request : {Q : Type 0} → Clnt Q → List ℕ → List ℕ → Request
next_request clnt method params = record {
  id = clnt.id_gen + 1;
  method = method;
  params = some params;
}

module _ {Q : Type 0} (lib : NodeList Q) (codec : Codec) (run : Methods) (head : Callouts) where
  -- A call that the service answers with `rsp` gets it back to its own callback and context.
  pub call_carried :
      (clnt : Clnt Q) (method params : List ℕ) (replymsg args : ℕ) (rsp : Response) (code : ℤ)
      → Fresh lib clnt
      → clnt.id_gen + 1 < 2 ^ 31
      → codec.unpack_request (codec.pack_request (next_request clnt method params))
        ≡ some (next_request clnt method params)
      → 8 + length (codec.pack_request (next_request clnt method params)) < 2 ^ 31
      → rpc_invoke_call run head (next_request clnt method params) response_init ≡ done (rsp, code)
      → codec.unpack_response (codec.pack_response rsp) ≡ some rsp
      → 8 + length (codec.pack_response rsp) < 2 ^ 31
      → (let called = pbrpc_clnt_call lib codec clnt method params replymsg args plenty in
          (reply : List ℕ) × (clnt' : Clnt Q) × (process_request codec run head true called.1
            ≡ done (reply, length called.1))
          × (process_response lib codec called.0 reply
              ≡ done (
                clnt',
                some (record { replymsg = replymsg; ctx = args; result = rsp.result }),
                length reply,
              ))
          × (entries_of lib clnt' ≡ entries_of lib clnt)
          × (called.2 ≡ ℤ.pos 0))
  unfolding pbrpc_clnt_call
  call_carried clnt method params replymsg args rsp code f room decoded small invoked back small' =
      (
        frame (codec.pack_response rsp),
        answered.0,
        served,
        answered.1
            ∙ ap (λ (n : ℕ). done (answered.0, some reply, n)) (sym (length-frame reply_bytes)),
        answered.2 ∙ append-nil (entries_of lib clnt),
        refl,
      )
    where
      reply_bytes : List ℕ
      reply_bytes = codec.pack_response rsp

      reply : Reply
      reply = record { replymsg = replymsg; ctx = args; result = rsp.result }

      called : Clnt Q × List ℕ × ℤ
      called = pbrpc_clnt_call lib codec clnt method params replymsg args plenty

      counted : next_id clnt.id_gen ≡ clnt.id_gen + 1
      counted = unfold next_id in omega arith

      sent : List ℕ
      sent = codec.pack_request (next_request clnt method params)

      sent_bytes : called.1 ≡ frame sent
      sent_bytes = rw counted

      served :
          process_request codec run head true called.1 ≡ done (frame reply_bytes, length called.1)
      served = rw sent_bytes (
          ap (process_request codec run head true) (sym (append-nil (frame sent)))
          ∙ process_request-frame codec run head sent [] small (next_request clnt method params)
              decoded invoked
          ∙ ap (λ (n : ℕ). done (frame reply_bytes, n)) (sym (length-frame sent)))

      entry : Node
      entry = record { id = u32 (next_id clnt.id_gen); replymsg = replymsg; ctx = args }

      own_id : rsp.id ≡ entry.id
      own_id = omega (
        arith,
        counted,
        invoke-id run head (next_request clnt method params) params rsp code refl invoked,
      )

      reached :
          (clnt' : Clnt Q) × (process_response lib codec called.0 (frame reply_bytes ++ [])
            ≡ done (clnt', some reply, 8 + length reply_bytes))
          × (entries_of lib clnt' ≡ entries_of lib clnt ++ [])
          × (clnt'.id_gen ≡ called.0.id_gen)
      reached =
          process_response_answered lib codec called.0 (entries_of lib clnt) [] entry rsp
            reply_bytes []
            (pbrpc_clnt_call-Fresh lib codec clnt method params replymsg args plenty room f)
            (lib.entries_added entry clnt.outstanding) back own_id small'

      answered :
          (clnt' : Clnt Q) × (process_response lib codec called.0 (frame reply_bytes)
            ≡ done (clnt', some reply, 8 + length reply_bytes))
          × (entries_of lib clnt' ≡ entries_of lib clnt ++ [])
      answered = (
        reached.0,
        ap (process_response lib codec called.0) (sym (append-nil (frame reply_bytes))) ∙ reached.1,
        reached.2,
      )

invoke-named :
    (run : Methods) (before after : Callouts) (s : Callout) (id : ℕ) (method params result : List ℕ)
    (code : ℤ)
    → All (OtherName method) before
    → s.sc_name ≡ some method
    → run s.dispatch s.sc_args params ≡ done (result, code)
    → rpc_invoke_call run
        (before ++ s ∷ after)
        (record { id = id; method = method; params = some params })
        response_init
      ≡ done (record { id = id; result = result }, code)
unfolding rpc_invoke_call call_method
invoke-named run before after s id method params result code others own answers =
    rw (find_method-behind before after s method others own, answers) refl

-- Where there is memory for a call and its reply, the ids are below 2 ^ 31 and both messages survive
-- the wire and are less than 2 ^ 31 bytes with their prefixes: a call reaches the first method of
-- its name on the server, wherever it stands among methods of other names, and the method's result
-- reaches the callback of that call, with its context; the other outstanding calls stay as they
-- were.
pub call_round_trip :
    {Q : Type 0} (lib : NodeList Q) (codec : Codec) (run : Methods) (before after : Callouts)
    (s : Callout) (clnt : Clnt Q) (method params : List ℕ) (replymsg args : ℕ) (result : List ℕ)
    (code : ℤ)
    → Fresh lib clnt
    → clnt.id_gen + 1 < 2 ^ 31
    → All (OtherName method) before
    → s.sc_name ≡ some method
    → run s.dispatch s.sc_args params ≡ done (result, code)
    → codec.unpack_request (codec.pack_request (next_request clnt method params))
      ≡ some (next_request clnt method params)
    → 8 + length (codec.pack_request (next_request clnt method params)) < 2 ^ 31
    → (let rsp : Response = record { id = clnt.id_gen + 1; result = result } in
        codec.unpack_response (codec.pack_response rsp) ≡ some rsp)
    → 8 + length (codec.pack_response (record { id = clnt.id_gen + 1; result = result })) < 2 ^ 31
    → (let called = pbrpc_clnt_call lib codec clnt method params replymsg args plenty in
        (reply : List ℕ) × (clnt' : Clnt Q) × (process_request codec run
            (before ++ s ∷ after)
            true
            called.1
          ≡ done (reply, length called.1))
        × (process_response lib codec called.0 reply
            ≡ done (
              clnt',
              some (record { replymsg = replymsg; ctx = args; result = result }),
              length reply,
            ))
        × (entries_of lib clnt' ≡ entries_of lib clnt)
        × (called.2 ≡ ℤ.pos 0))
call_round_trip lib codec run before after s clnt method params replymsg args result code f room
      others own answers decoded small back small' =
    let rsp : Response = record { id = clnt.id_gen + 1; result = result } in
    call_carried lib codec run (before ++ s ∷ after) clnt method params replymsg args rsp code f
      room decoded small
      (invoke-named run before after s (clnt.id_gen + 1) method params result code others own
        answers)
      back small'
