-- ===== src/Rpc/Server.antt =====
-- src/rpc/pbc/pbrpc-svc.c: reading a request, calling its method, writing the reply.
use vmp_rl.Base.{
  ℕ, zero, suc, ◌+◌, ◌-◌, ◌^◌, Bool, true, false, List, [], ◌∷◌, ◌++◌, Option, none, some, Run,
  done, fault, ◌>>=◌, ℤ, minus_one, str_eq, ◌==◌, ltb, if◌then◌else◌, length, take, drop, u32, u64,
  extend32,
}
use vmp_rl.Rpc.Wire.{read_be64, frame}
use vmp_rl.Rpc.Callouts.{Callout, Callouts}

-- `PbcRpcRequest`: `params` is absent when `has_params` is false.
pub record Request : Type 0 where
  pub id : ℕ
  pub method : List ℕ
  pub params : Option (List ℕ)

-- `PbcRpcResponse`. The program never sets its `error`.
pub record Response : Type 0 where
  pub id : ℕ
  pub result : List ℕ

-- `PBC_RPC_RESPONSE__INIT`
abbrev pub response_init : Response
response_init = record { id = 0; result = [] }

-- The generated packing functions of pbrpc.proto.
pub record Codec : Type 0 where
  pub pack_request : Request → List ℕ
  pub unpack_request : List ℕ → Option Request
  pub pack_response : Response → List ℕ
  pub unpack_response : List ℕ → Option Response

-- The functions behind the `dispatch` addresses, called with `sc_args` and the parameters.
abbrev pub Methods : Type 0
Methods = ℕ → ℕ → List ℕ → Run (List ℕ × ℤ)

-- `strcmp` reads through `sc_name`.
abbrev pub name_is : List ℕ → Option (List ℕ) → Run Bool
name_is method none = fault
name_is method (some n) = done (str_eq method n)

-- The search of `rpc_invoke_call`: by the name alone.
unfoldable pub find_method : Callouts → List ℕ → Run (Option Callout)
find_method [] method = done none
find_method (s ∷ next) method =
    let rest = find_method next method in
    name_is method s.sc_name >>= λ b. if b then done (some s) else rest

unfoldable pub call_method : Methods → Option Callout → List ℕ → Response → Run (Response × ℤ)
call_method run none params rsp = done (rsp, minus_one)
call_method run (some s) params rsp =
    run s.dispatch s.sc_args params >>= λ r. done (record rsp { result = r.0 }, r.1)

pub with_params : Methods → Callouts → Request → Option (List ℕ) → Response → Run (Response × ℤ)
unfolding call_method
with_params run head req none rsp = done (rsp, minus_one)
with_params run head req (some params) rsp =
    find_method head req.method >>= λ s. call_method run s params (record rsp { id = req.id })

unfoldable pub rpc_invoke_call : Methods → Callouts → Request → Response → Run (Response × ℤ)
unfolding with_params
rpc_invoke_call run head req rsp = with_params run head req req.params rsp

-- The payload that a length prefix announces, and the `*bytes_read` of both readers.
unfoldable pub payload_of : List ℕ → Option ℕ → Run (List ℕ × ℕ)
payload_of msg none = fault
payload_of msg (some proto_len) =
    if ltb (length (drop 8 msg)) proto_len
    then fault
    else done (take proto_len (drop 8 msg), u64 (proto_len + 8))

unfoldable pub read_payload : List ℕ → Run (List ℕ × ℕ)
unfolding payload_of
read_payload msg = payload_of msg (read_be64 msg)

unfoldable pub rpc_read_req : Codec → List ℕ → Run (Option Request × ℕ)
rpc_read_req codec msg = read_payload msg >>= λ p. done (codec.unpack_request p.0, p.1)

-- A reply that cannot be allocated makes `process_request` write from a null buffer.
unfoldable pub rpc_write_reply : Codec → (allocated : Bool) → Response → Run (List ℕ)
rpc_write_reply codec true rsp = done (frame (codec.pack_response rsp))
rpc_write_reply codec false rsp = fault

-- A null `reqhdr` is read all the same.
unfoldable pub answer : Codec → Methods → Callouts → Bool → Option Request → Run (List ℕ)
answer codec run head allocated none = fault
answer codec run head allocated (some req) =
    rpc_invoke_call run head req response_init >>= λ r. rpc_write_reply codec allocated r.0

-- The bytes written, and the `int` returned, as the caller takes it into a `uint64_t`.
unfoldable pub process_request : Codec → Methods → Callouts → Bool → List ℕ → Run (List ℕ × ℕ)
unfolding answer
process_request codec run head allocated msg = rpc_read_req codec msg >>= λ r.
    answer codec run head allocated r.0 >>= λ out. done (out, extend32 (u32 r.1))

-- The loop of `generic_read_cb` over what was read, with fuel; `none` means that it ran out.
unfoldable pub read_loop {ℓ} :
    {S : Type ℓ} → (S → List ℕ → Run (S × ℕ)) → ℕ → S → List ℕ → ℕ → Run (Option S)
read_loop proc zero s msg read = done (if read == 0 then some s else none)
read_loop proc (suc fuel) s msg read =
    let more =
      proc s msg >>= λ r. read_loop proc fuel r.0 (drop r.1 msg) (u64 (read + 2 ^ 64 - r.1)) in
    if read == 0 then done (some s) else more

-- `generic_read_cb` does nothing if it cannot allocate its buffer.
unfoldable pub generic_read_cb {ℓ} :
    {S : Type ℓ} → (S → List ℕ → Run (S × ℕ)) → ℕ → Bool → S → List ℕ → Run (Option S)
generic_read_cb proc fuel false s input = done (some s)
generic_read_cb proc fuel true s input = read_loop proc fuel s input (length input)

-- The reader of a service: what it has written is its state. `allocated` tells whether replies can
-- be allocated.
unfoldable pub svc_proc :
    Codec → Methods → Callouts → (allocated : Bool) → List ℕ → List ℕ → Run (List ℕ × ℕ)
svc_proc codec run head allocated sent msg =
    process_request codec run head allocated msg >>= λ r. done (sent ++ r.0, r.1)
