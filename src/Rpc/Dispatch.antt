-- ===== src/Rpc/Dispatch.antt =====
-- src/rpc/pbc/pbrpc-svc.c: which method a request reaches, and what a caller is told.
use vmp_rl.Base.{
  ℕ, ◌+◌, ◌^◌, ◌<◌, ◌≡◌, refl, sym, ap, ◌∙◌, ◌⊎◌, inl, inr, true, false, List, [], ◌∷◌, ◌++◌,
  Option, none, some, done, fault, ◌>>=◌, ℤ, minus_one, str_eq, str_eq_self, str_eq_sound, arith,
  length, All, Bool-cases, Option-cases, take-append, length-append, ltb, u32, u64, extend32,
}
use vmp_rl.Rpc.Wire.{read_be64-be64, frame}
use vmp_rl.Rpc.Callouts.{Callout, Callouts, pbrpc_svc_register, add_callout}
use vmp_rl.Rpc.Keys.{AllNamed}
use vmp_rl.Rpc.Registry.{find_like}
use vmp_rl.Rpc.Server.{
  Request, Response, response_init, Codec, Methods, find_method, rpc_invoke_call, read_payload,
  payload_of, rpc_read_req, rpc_write_reply, process_request,
}

-- The name of a callout is not the one that is asked for.
abbrev pub OtherName : List ℕ → Callout → Type 0
OtherName method c = (n : List ℕ) × (c.sc_name ≡ some n) × (str_eq method n ≡ false)

-- The search of `rpc_invoke_call` ends at the first callout of that name, whatever its program
-- and version, or finds that there is none.
pub find_method_split :
    (head : Callouts) (method : List ℕ)
    → AllNamed head
    → ((find_method head method ≡ done none) × All (OtherName method) head)
      ⊎ ((before : Callouts) × (c : Callout) × (after : Callouts) × (find_method head method
            ≡ done (some c))
          × (head ≡ before ++ c ∷ after)
          × (c.sc_name ≡ some method)
          × All (OtherName method) before)
unfolding find_method
find_method_split [] method named = inl (refl, tt)
find_method_split (s ∷ next) method ((n, e), named) = elim (Bool-cases (str_eq method n)) [
  | inl same ↦
      inr ([], s, next, rw (e, same), refl, e ∙ ap some (sym (str_eq_sound method n same)), tt)
  | inr other ↦ elim (find_method_split next method named) [
    | inl (r, all) ↦ inl (rw (e, other, r), ((n, e, other), all))
    | inr (before, c, after, r, split, is, all) ↦
        inr (s ∷ before, c, after, rw (e, other, r), ap (◌∷◌ s) split, is, ((n, e, other), all))
  ]
]

-- The first callout of a name is found behind those of other names.
pub find_method-behind :
    (before after : Callouts) (s : Callout) (method : List ℕ)
    → All (OtherName method) before
    → s.sc_name ≡ some method
    → find_method (before ++ s ∷ after) method ≡ done (some s)
unfolding find_method
find_method-behind [] after s method others own = rw (own, str_eq_self method) refl
find_method-behind (c ∷ before) after s method ((n, named, other), others) own =
    rw (named, other, find_method-behind before after s method others own) refl

find_method-cons :
    (s : Callout) (head : Callouts) (n : List ℕ)
    → s.sc_name ≡ some n
    → find_method (s ∷ head) n ≡ done (some s)
unfolding find_method
find_method-cons s head n e = rw (e, str_eq_self n)

-- A newly registered method takes the requests for its name, also from methods of the same name
-- that were registered before under another program or version.
pub register-invoke :
    (run : Methods) (head : Callouts) (s : Callout) (n params : List ℕ) (req : Request)
    → find_like head s ≡ none
    → s.sc_name ≡ some n
    → req.method ≡ n
    → req.params ≡ some params
    → rpc_invoke_call run (pbrpc_svc_register head s true).0 req response_init
      ≡ (run s.dispatch s.sc_args params >>= λ r. done (record { id = req.id; result = r.0 }, r.1))
unfolding rpc_invoke_call pbrpc_svc_register add_callout
register-invoke run head s n params req absent named asked given =
    rw (absent, asked, given, find_method-cons s head n named)

-- A whole message is read off the front of the buffer.
pub read_payload-frame :
    (payload rest : List ℕ)
    → 8 + length payload < 2 ^ 64
    → read_payload (frame payload ++ rest) ≡ done (payload, 8 + length payload)
unfolding read_payload frame payload_of
read_payload-frame payload rest fits =
    ap (payload_of (frame payload ++ rest))
      (read_be64-be64 (length payload) (payload ++ rest) (omega arith))
    ∙ announced
  where
    enough : ltb (length (payload ++ rest)) (length payload) ≡ false
    enough = ground (arith, length-append payload rest)

    counted : u64 (length payload + 8) ≡ 8 + length payload
    counted = omega arith

    announced :
        payload_of (frame payload ++ rest) (some (length payload))
        ≡ done (payload, 8 + length payload)
    announced = rw (enough, take-append payload rest, counted)

find_method-none :
    (head : Callouts) (method : List ℕ)
    → All (OtherName method) head
    → find_method head method ≡ done none
unfolding find_method
find_method-none [] method h = refl
find_method-none (s ∷ next) method ((n, e, other), all) =
    rw (e, other, find_method-none next method all)

-- The id under which a request is answered that reaches no method.
abbrev pub refused_id : ℕ → Option (List ℕ) → ℕ
refused_id id none = 0
refused_id id (some params) = id

invoke-refused :
    (run : Methods) (head : Callouts) (req : Request)
    → (req.params ≡ none) ⊎ All (OtherName req.method) head
    → rpc_invoke_call run head req response_init
      ≡ done (record { id = refused_id req.id req.params; result = [] }, minus_one)
unfolding rpc_invoke_call
invoke-refused run head req why = elim (Option-cases req.params) [
  | inl e ↦ rw e
  | inr (params, e) ↦ elim why [
    | inl absent ↦ cc
    | inr all ↦ rw (e, find_method-none head req.method all)
  ]
]

module _ (codec : Codec) (run : Methods) (head : Callouts) (payload rest : List ℕ)
    (fits : 8 + length payload < 2 ^ 31) where
  -- A message whose payload does not decode makes the server read through a null pointer,
  -- whatever methods it has.
  pub process_request_malformed :
      codec.unpack_request payload ≡ none
      → process_request codec run head true (frame payload ++ rest) ≡ fault
  unfolding process_request rpc_read_req
  process_request_malformed bad = rw (read_payload-frame payload rest (omega arith), bad)

  -- One request at the front of the buffer is answered by one reply, and all of it is consumed.
  pub process_request-frame :
      (req : Request) {rsp : Response} {code : ℤ}
      → codec.unpack_request payload ≡ some req
      → rpc_invoke_call run head req response_init ≡ done (rsp, code)
      → process_request codec run head true (frame payload ++ rest)
        ≡ done (frame (codec.pack_response rsp), 8 + length payload)
  unfolding process_request rpc_read_req rpc_write_reply
  process_request-frame req decoded invoked =
      rw (read_payload-frame payload rest (omega arith), decoded, invoked, width)
    where
      width : extend32 (u32 (8 + length payload)) ≡ 8 + length payload
      width = ground arith

  -- A request for a method that the server lacks, or without parameters, is answered all the same:
  -- by an empty result with no error, under the request's id or, without parameters, under id 0.
  pub process_request_refused :
      (req : Request)
      → codec.unpack_request payload ≡ some req
      → (req.params ≡ none) ⊎ All (OtherName req.method) head
      → process_request codec run head true (frame payload ++ rest)
        ≡ done (
          frame (codec.pack_response (record { id = refused_id req.id req.params; result = [] })),
          8 + length payload,
        )
  process_request_refused req decoded why =
      process_request-frame req decoded (invoke-refused run head req why)
