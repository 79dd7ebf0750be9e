-- ===== src/Rpc/Tests.antt =====
-- The theorems on src/rpc/pbc at concrete inputs.
pub mod Arrival
pub mod Calls
pub mod Tables
pub mod Connections
pub mod Sessions
pub mod Talking
use vmp_rl.Base.{
  ℕ, zero, suc, ◌-◌, ◌≡◌, refl, inr, true, List, [], ◌∷◌, ◌++◌, Option, none, some, done, fault, ℤ,
  arith, str_eq,
}
use vmp_rl.Rpc.Wire.{frame}
use vmp_rl.Rpc.Assembly
use vmp_rl.Rpc.Frames.{frames}
use vmp_rl.Rpc.Callouts.{
  Callout, Found, pbrpc_svc_find, pbrpc_svc_register, pbrpc_svc_unregister, matches, further,
}
use vmp_rl.Rpc.Registry
use vmp_rl.Rpc.Registry.{find_like, entry_of}
use vmp_rl.Rpc.Keys
use vmp_rl.Rpc.Keys.{IsKeyed}
use vmp_rl.Rpc.Server.{
  Request, Response, response_init, Codec, Methods, rpc_invoke_call, find_method, process_request,
  generic_read_cb, svc_proc,
}
use vmp_rl.Rpc.Dispatch
use vmp_rl.Rpc.Serving
use vmp_rl.Rpc.Serving.{Exchange, replies, payloads}
use vmp_rl.Rpc.Pending
use vmp_rl.Rpc.RoundTrip

-- Two methods of a service, and a third that is not registered yet.
abbrev pub demo_name : List ℕ
demo_name = 76 ∷ 100 ∷ []

abbrev vmon_name : List ℕ
vmon_name = 76 ∷ 118 ∷ []

abbrev pub demo_callout : Callout
demo_callout = record {
  sc_prog = 200001;
  sc_vers = 1;
  sc_name = some demo_name;
  sc_args = 40;
  dispatch = 1;
}

abbrev vmon_callout : Callout
vmon_callout = record {
  sc_prog = 200003;
  sc_vers = 1;
  sc_name = some vmon_name;
  sc_args = 50;
  dispatch = 2;
}

registered_found :
    (f : Found) × (find_like (pbrpc_svc_register [] demo_callout true).0 demo_callout ≡ some f)
    × (f.entry.dispatch ≡ 1)
unfolding pbrpc_svc_register pbrpc_svc_find
registered_found = Registry.register-find [] demo_callout true refl

others_kept :
    entry_of
      (pbrpc_svc_find (pbrpc_svc_register (demo_callout ∷ []) vmon_callout true).0 200001 1 none)
    ≡ entry_of (pbrpc_svc_find (demo_callout ∷ []) 200001 1 none)
unfolding matches
others_kept = Registry.register_others (demo_callout ∷ []) vmon_callout true 200001 1 none refl

registered_gone :
    pbrpc_svc_unregister
      (pbrpc_svc_register (demo_callout ∷ []) vmon_callout true).0
      200003
      1
      (some vmon_name)
    ≡ demo_callout ∷ []
unfolding pbrpc_svc_find matches further
registered_gone = Keys.unregister-register (demo_callout ∷ []) vmon_callout refl

two-IsKeyed : IsKeyed (vmon_callout ∷ demo_callout ∷ [])
unfolding matches
two-IsKeyed = ((refl, tt), (tt, tt))

register-IsKeyed_example :
    IsKeyed (pbrpc_svc_register (vmon_callout ∷ demo_callout ∷ []) vmon_callout true).0
register-IsKeyed_example =
    Keys.register-IsKeyed (vmon_callout ∷ demo_callout ∷ []) vmon_callout true two-IsKeyed

gone :
    pbrpc_svc_find
      (pbrpc_svc_unregister (vmon_callout ∷ demo_callout ∷ []) 200001 1 (some demo_name))
      200001
      1
      (some demo_name)
    ≡ none
gone =
    Keys.unregister-find (vmon_callout ∷ demo_callout ∷ []) 200001 1 demo_name
      ((vmon_name, refl), ((demo_name, refl), tt)) two-IsKeyed

-- Methods that answer with their argument before the parameters.
abbrev pub echo : Methods
echo address args params = done (args ∷ params, ℤ.pos 0)

abbrev demo_request : Request
demo_request = record { id = 9; method = demo_name; params = some (3 ∷ []) }

register-invoke_example :
    rpc_invoke_call echo
      (pbrpc_svc_register (vmon_callout ∷ []) demo_callout true).0
      demo_request
      response_init
    ≡ done (record { id = 9; result = 40 ∷ 3 ∷ [] }, ℤ.pos 0)
unfolding pbrpc_svc_find matches further
register-invoke_example =
    Dispatch.register-invoke echo (vmon_callout ∷ []) demo_callout demo_name (3 ∷ []) demo_request
      refl refl refl refl

-- A codec for the examples: the id, the method up to a 0, and the parameters if there are any.
split_params : List ℕ → List ℕ × Option (List ℕ)
split_params [] = ([], none)
split_params (b ∷ bs) = split_cons b bs (split_params bs)
  where
    split_cons : ℕ → List ℕ → List ℕ × Option (List ℕ) → List ℕ × Option (List ℕ)
    split_cons zero rest r = ([], some rest)
    split_cons (suc c) rest r = (suc c ∷ r.0, r.1)

unfoldable pub pack_params : Option (List ℕ) → List ℕ
pack_params none = []
pack_params (some ps) = 0 ∷ ps

unfoldable pub read_request : List ℕ → Option Request
unfolding split_params
read_request [] = none
read_request (b ∷ bs) =
    some (record { id = b; method = (split_params bs).0; params = (split_params bs).1 })

unfoldable pub read_response : List ℕ → Option Response
read_response [] = none
read_response (b ∷ bs) = some (record { id = b; result = bs })

abbrev pub toy_codec : Codec
toy_codec = record {
  pack_request = λ r. r.id ∷ (r.method ++ pack_params r.params);
  unpack_request = read_request;
  pack_response = λ r. r.id ∷ r.result;
  unpack_response = read_response;
}

malformed_message :
    process_request toy_codec echo (demo_callout ∷ []) true (frame [] ++ 1 ∷ []) ≡ fault
unfolding read_request
malformed_message =
    Dispatch.process_request_malformed toy_codec echo (demo_callout ∷ []) [] (1 ∷ []) (omega arith)
      refl

abbrev pub asked_bytes : List ℕ
asked_bytes = 9 ∷ 76 ∷ 100 ∷ 0 ∷ 3 ∷ []

unknown_method :
    process_request toy_codec echo (vmon_callout ∷ []) true (frame asked_bytes ++ [])
    ≡ done (frame (9 ∷ []), 13)
unfolding read_request str_eq
unknown_method =
    Dispatch.process_request_refused toy_codec echo (vmon_callout ∷ []) asked_bytes [] (omega arith)
      demo_request refl (inr ((vmon_name, refl, refl), tt))

abbrev pub demo_response : Response
demo_response = record { id = 9; result = 40 ∷ 3 ∷ [] }

abbrev pub demo_exchange : Exchange
demo_exchange = record { payload = asked_bytes; response = demo_response }

pub demo-Answered : Serving.Answered toy_codec echo (demo_callout ∷ []) demo_exchange
unfolding read_request rpc_invoke_call find_method str_eq
demo-Answered = record {
  request = demo_request;
  code = ℤ.pos 0;
  decoded = refl;
  invoked = refl;
  small = omega arith;
}

two_together :
    generic_read_cb
      (svc_proc toy_codec echo (demo_callout ∷ []) true)
      2
      true
      []
      (frames (payloads (demo_exchange ∷ demo_exchange ∷ [])))
    ≡ done (
        some (
          frames (replies toy_codec echo (demo_callout ∷ []) (demo_exchange ∷ demo_exchange ∷ []))))
unfolding frame
two_together =
    Serving.generic_read_cb-frames toy_codec echo (demo_callout ∷ []) []
      (demo_exchange ∷ demo_exchange ∷ []) (demo-Answered, (demo-Answered, tt)) (omega arith)
