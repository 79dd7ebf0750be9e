-- ===== src/Rpc/Serving.antt =====
-- src/rpc/pbc/pbrpc-svc.c: `generic_read_cb` over a buffer of several requests.
use mathlib.Core.List.{append_assoc, append-nil}
use vmp_rl.Base.{
  map, ℕ, suc, ◌+◌, ◌^◌, ◌<◌, ◌≡◌, refl, sym, ap, List, [], ◌∷◌, ◌++◌, some, done, ℤ, arith, length,
  true,
}
use vmp_rl.Rpc.Wire.{frame}
use vmp_rl.Rpc.Frames.{frames}
use vmp_rl.Rpc.Reading.{Takes, Handles, stop, one, generic_read_cb-Handles}
use mathlib.Core.Path.{subst}
use vmp_rl.Rpc.Callouts.{Callouts}
use vmp_rl.Rpc.Server.{
  Request, Response, response_init, Codec, Methods, rpc_invoke_call, generic_read_cb, svc_proc,
}
use vmp_rl.Rpc.Dispatch.{process_request-frame}

-- A request as it stands in the buffer, with the answer that it is to get.
pub record Exchange : Type 0 where
  pub payload : List ℕ
  pub response : Response

abbrev pub payloads : List Exchange → List (List ℕ)
payloads = map (λ x. x.payload)

module _ (codec : Codec) (run : Methods) (head : Callouts) where
  abbrev pub replies : List Exchange → List (List ℕ)
  replies = map (λ x. codec.pack_response x.response)

  -- The payload decodes, and the method of the request comes through with the answer.
  pub record Answered (x : Exchange) : Type 0 where
    pub request : Request
    pub code : ℤ
    pub decoded : codec.unpack_request x.payload ≡ some request
    pub invoked : rpc_invoke_call run head request response_init ≡ done (x.response, code)
    pub small : 8 + length x.payload < 2 ^ 31

  abbrev pub AllAnswered : List Exchange → Type 0
  AllAnswered [] = Unit
  AllAnswered (x ∷ xs) = Answered x × AllAnswered xs

  Answered-Takes :
      (sent : List ℕ) (x : Exchange)
      → Answered x
      → Takes
          (svc_proc codec run head true)
          sent
          x.payload
          (sent ++ frame (codec.pack_response x.response))
  unfolding svc_proc
  Answered-Takes sent x a = record {
    small = a.small;
    taken = λ rest.
        rw
          (process_request-frame codec run head x.payload rest a.small a.request a.decoded
            a.invoked)
          refl;
  }

  pub AllAnswered-Handles :
      (sent : List ℕ) (xs : List Exchange)
      → AllAnswered xs
      → Handles (svc_proc codec run head true) sent (payloads xs) (sent ++ frames (replies xs))
  AllAnswered-Handles sent [] a =
      subst (Handles (svc_proc codec run head true) sent []) (sym (append-nil sent)) stop
  AllAnswered-Handles sent (x ∷ xs) a =
      let reply = frame (codec.pack_response x.response) in
      subst (Handles (svc_proc codec run head true) sent (x.payload ∷ payloads xs))
        (append_assoc sent reply (frames (replies xs)))
        (one x.payload (Answered-Takes sent x a.0) (AllAnswered-Handles (sent ++ reply) xs a.1))

  pub length-payloads : (xs : List Exchange) → length (payloads xs) ≡ length xs
  length-payloads [] = refl
  length-payloads (x ∷ xs) = ap suc (length-payloads xs)

  -- Requests that arrive together are answered one by one, in their order, and each byte of the
  -- buffer is consumed once: the loop ends by its own test, in as many rounds as there are requests.
  pub generic_read_cb-frames :
      (sent : List ℕ) (xs : List Exchange)
      → AllAnswered xs
      → length (frames (payloads xs)) < 2 ^ 64
      → generic_read_cb (svc_proc codec run head true) (length xs) true sent (frames (payloads xs))
        ≡ done (some (sent ++ frames (replies xs)))
  generic_read_cb-frames sent xs a fits =
      generic_read_cb-Handles (svc_proc codec run head true) (length xs) (payloads xs)
        (AllAnswered-Handles sent xs a) (omega (arith, length-payloads xs)) fits
