-- ===== src/Rpc/Tests/Talking.antt =====
-- The theorems on a client and a service of src/rpc/pbc at a concrete run.
use vmp_rl.Base.{ℕ, ◌+◌, ◌^◌, ◌<◌, ◌≡◌, refl, List, [], ◌∷◌, ℤ, arith, length, str_eq}
use vmp_rl.Rpc.Wire.{read_be64, frame}
use vmp_rl.Rpc.Buffer.{filter_pbrpc_messages}
use vmp_rl.Rpc.Server.{
  generic_read_cb, read_loop, svc_proc, process_request, rpc_invoke_call, find_method, rpc_read_req,
  read_payload, rpc_write_reply,
}
use vmp_rl.Rpc.Client.{process_response, find_call, pbrpc_clnt_call, next_id, rpc_write_request}
use vmp_rl.Rpc.Pending.{entries_of}
use vmp_rl.Rpc.Session
use vmp_rl.Rpc.Told.{clnt_proc}
use vmp_rl.Rpc.Calls.{Call, results, AreAnswered}
use vmp_rl.Rpc.Duplex.Progress
use vmp_rl.Rpc.Duplex.{Duplex, Step, Reach, IsTelling}
use vmp_rl.Rpc.Duplex.Progress.{called}
use vmp_rl.Rpc.Tests.{
  demo_callout, demo_name, echo, toy_codec, read_request, read_response, pack_params,
}
use vmp_rl.Rpc.Tests.Arrival.{list_buffer, pullup_list, remove_list}
use vmp_rl.Rpc.Tests.Calls.{node_list, waiting, waiting-Fresh}
use vmp_rl.Rpc.Tests.Sessions.{nothing_stuck}

abbrev demo_calls : List Call
demo_calls =
    record { method = demo_name; params = 3 ∷ []; replymsg = 90; args = 91; result = 40 ∷ 3 ∷ [] }
    ∷ []

demo_calls-AreAnswered : AreAnswered toy_codec echo (demo_callout ∷ []) 9 demo_calls
unfolding read_request read_response pack_params rpc_invoke_call find_method str_eq
demo_calls-AreAnswered = (
  record {
    carried = record { decoded = refl; small = omega arith; back = refl; back_small = omega arith };
    code = ℤ.pos 0;
    invoked = refl;
  },
  tt,
)

room : 9 + length demo_calls < 2 ^ 31
room = omega arith

abbrev Ends : Type 0
Ends = Duplex list_buffer node_list toy_codec echo (demo_callout ∷ [])

abbrev start : Ends
start =
    called list_buffer node_list toy_codec echo (demo_callout ∷ []) [] waiting demo_calls refl
      waiting-Fresh room demo_calls-AreAnswered

abbrev request : List ℕ
request = frame (10 ∷ 76 ∷ 100 ∷ 0 ∷ 3 ∷ [])

abbrev reply : List ℕ
reply = frame (10 ∷ 40 ∷ 3 ∷ [])

abbrev asked : Ends
asked = record start { svc = record (start.svc) { src = request; future = [] } }

abbrev moved : Ends
moved = record start { svc = record (start.svc) { dst = request; future = [] } }

abbrev replied : Ends
replied = record {
  svc = record (start.svc) { future = []; state = reply };
  clnt = record (start.clnt) { future = reply };
}

abbrev returned : Ends
returned = record replied { clnt = record (start.clnt) { src = reply } }

abbrev passed : Ends
passed = record replied { clnt = record (start.clnt) { dst = reply } }

abbrev finished : Ends
finished = record replied {
  clnt = record (start.clnt) { state = (record waiting { id_gen = 10 }, results demo_calls) };
}

asked_on : Step list_buffer node_list toy_codec echo (demo_callout ∷ []) start asked
unfolding frame pbrpc_clnt_call pack_params next_id rpc_write_request
asked_on = Step.at_svc [] (Session.arrive request request [] refl refl) refl

moved_on : Step list_buffer node_list toy_codec echo (demo_callout ∷ []) asked moved
unfolding frame filter_pbrpc_messages pullup_list remove_list read_be64
moved_on = Step.at_svc [] Session.filtered refl

replied_on : Step list_buffer node_list toy_codec echo (demo_callout ∷ []) moved replied
unfolding frame generic_read_cb read_loop svc_proc process_request read_request rpc_invoke_call
    find_method str_eq rpc_read_req read_payload read_be64 rpc_write_reply
replied_on = Step.at_svc reply (Session.read [] reply refl refl) refl

returned_on : Step list_buffer node_list toy_codec echo (demo_callout ∷ []) replied returned
unfolding frame
returned_on = Step.at_clnt (Session.arrive reply reply [] refl refl)

passed_on : Step list_buffer node_list toy_codec echo (demo_callout ∷ []) returned passed
unfolding frame filter_pbrpc_messages pullup_list remove_list read_be64
passed_on = Step.at_clnt Session.filtered

finished_on : Step list_buffer node_list toy_codec echo (demo_callout ∷ []) passed finished
unfolding frame generic_read_cb read_loop clnt_proc process_response read_response find_call
    read_payload read_be64 pbrpc_clnt_call next_id
finished_on = Step.at_clnt (Session.read [] finished.clnt.state refl refl)

replied-Reach : Reach list_buffer node_list toy_codec echo (demo_callout ∷ []) start replied
replied-Reach = Reach.later (Reach.later (Reach.later Reach.here asked_on) moved_on) replied_on

finished-Reach : Reach list_buffer node_list toy_codec echo (demo_callout ∷ []) start finished
finished-Reach =
    Reach.later (Reach.later (Reach.later replied-Reach returned_on) passed_on) finished_on

Reach-IsTelling_example :
    IsTelling list_buffer node_list toy_codec echo (demo_callout ∷ []) demo_calls replied
Reach-IsTelling_example =
    Progress.Reach-IsTelling list_buffer node_list toy_codec echo (demo_callout ∷ []) [] waiting
      demo_calls refl waiting-Fresh room demo_calls-AreAnswered replied-Reach

calls_told_example :
    (finished.clnt.state.1 ≡ results demo_calls)
    × (entries_of node_list finished.clnt.state.0 ≡ entries_of node_list waiting)
calls_told_example =
    Progress.calls_told list_buffer node_list toy_codec echo (demo_callout ∷ []) [] waiting
      demo_calls refl waiting-Fresh room demo_calls-AreAnswered finished-Reach refl nothing_stuck
      refl refl nothing_stuck refl
