-- ===== src/Rpc/Tests/Calls.antt =====
-- The theorems on the calling client at concrete inputs.
use vmp_rl.Base.{
  ℕ, ◌-◌, ◌≡◌, refl, true, List, [], ◌∷◌, ◌++◌, none, some, done, ℤ, arith, length, str_eq, ◌^◌,
}
use vmp_rl.Rpc.Wire.{frame}
use vmp_rl.Rpc.Callouts.{Callout}
use vmp_rl.Rpc.Dispatch.{OtherName}
use vmp_rl.Rpc.Server.{Response, process_request}
use vmp_rl.Rpc.Client.{Node, without, NodeList, Clnt, pbrpc_clnt_call, process_response}
use vmp_rl.Rpc.Pending
use vmp_rl.Rpc.Pending.{Fresh, entries_of}
use vmp_rl.Rpc.RoundTrip
use vmp_rl.Rpc.RoundTrip.{plenty}
use vmp_rl.Rpc.Tests.{
  demo_response, demo_response, demo_name, demo_callout, echo, toy_codec, read_request,
  read_response, pack_params,
}

-- Outstanding calls as a plain list.
abbrev pub node_list : NodeList (List Node)
node_list = record {
  entries = λ q. q;
  list_add_tail = λ n q. q ++ n ∷ [];
  list_del_init = λ i q. without i q;
  entries_added = λ n q. refl;
  entries_deleted = λ i q. refl;
}

abbrev pub first_call : Node
first_call = record { id = 8; replymsg = 70; ctx = 71 }

abbrev pub second_call : Node
second_call = record { id = 9; replymsg = 80; ctx = 81 }

abbrev pub waiting : Clnt (List Node)
waiting = record { id_gen = 9; outstanding = first_call ∷ second_call ∷ [] }

pub waiting-Fresh : Fresh node_list waiting
waiting-Fresh = record { small = omega arith; below = omega arith; distinct = omega arith }

pbrpc_clnt_call-Fresh_example :
    Fresh node_list (pbrpc_clnt_call node_list toy_codec waiting demo_name [] 90 91 plenty).0
pbrpc_clnt_call-Fresh_example =
    Pending.pbrpc_clnt_call-Fresh node_list toy_codec waiting demo_name [] 90 91 plenty
      (omega arith) waiting-Fresh

second_answered :
    (clnt' : Clnt (List Node)) × (process_response node_list toy_codec waiting
        (frame (9 ∷ 40 ∷ 3 ∷ []) ++ [])
      ≡ done (clnt', some (record { replymsg = 80; ctx = 81; result = 40 ∷ 3 ∷ [] }), 11))
    × (entries_of node_list clnt' ≡ first_call ∷ [])
    × (clnt'.id_gen ≡ 9)
unfolding read_response
second_answered =
    Pending.process_response_answered node_list toy_codec waiting (first_call ∷ []) [] second_call
      demo_response (9 ∷ 40 ∷ 3 ∷ []) [] waiting-Fresh refl refl refl (omega arith)

-- The first id that an `int32_t` cannot hold.
abbrev worn : Clnt (List Node)
worn = record { id_gen = 2 ^ 31 - 1; outstanding = first_call ∷ [] }

abbrev late_response : Response
late_response = record { id = 2 ^ 31; result = [] }

process_response_lost_example :
    (let called = (pbrpc_clnt_call node_list toy_codec worn demo_name [] 90 91 plenty).0 in
      (called.id_gen ≡ 2 ^ 31)
      × (process_response node_list toy_codec called (frame (2 ^ 31 ∷ []) ++ [])
          ≡ done (called, none, 9)))
unfolding read_response
process_response_lost_example =
    Pending.process_response_lost node_list toy_codec worn demo_name [] 90 91 late_response
      (2 ^ 31 ∷ []) [] (omega arith, tt) (omega arith) (omega arith) refl refl (omega arith)

-- The method stands behind one of another name.
abbrev other_callout : Callout
other_callout = record demo_callout { sc_name = some (1 ∷ []); dispatch = 2 }

other-OtherName : OtherName demo_name other_callout
unfolding str_eq
other-OtherName = (1 ∷ [], refl, refl)

call_round_trip_example :
    (let called = pbrpc_clnt_call node_list toy_codec waiting demo_name (3 ∷ []) 90 91 plenty in
      (reply : List ℕ) × (clnt' : Clnt (List Node)) × (process_request toy_codec echo
          (other_callout ∷ demo_callout ∷ [])
          true
          called.1
        ≡ done (reply, length called.1))
      × (process_response node_list toy_codec called.0 reply
          ≡ done (
            clnt',
            some (record { replymsg = 90; ctx = 91; result = 40 ∷ 3 ∷ [] }),
            length reply,
          ))
      × (entries_of node_list clnt' ≡ entries_of node_list waiting)
      × (called.2 ≡ ℤ.pos 0))
unfolding read_request read_response pack_params
call_round_trip_example =
    RoundTrip.call_round_trip node_list toy_codec echo (other_callout ∷ []) [] demo_callout waiting
      demo_name (3 ∷ []) 90 91 (40 ∷ 3 ∷ []) (ℤ.pos 0) waiting-Fresh (omega arith)
      (other-OtherName, tt) refl refl refl (omega arith) refl (omega arith)
