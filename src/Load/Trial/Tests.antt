-- ===== src/Load/Trial/Tests.antt =====
-- The test mode of src/load/load_core.c at a concrete run.
use vmp_rl.Base.{
  minus_one, ℤ, done, ◌*◌, ℕ, ◌+◌, ◌^◌, ◌<◌, ◌≡◌, refl, List, [], ◌∷◌, none, some, arith, codes,
  str_eq, true, to_ulong, ◌-ℤ◌,
}
use vmp_rl.Rpc.Wire.{read_be64, frame}
use vmp_rl.Rpc.Frames.{frames}
use vmp_rl.Rpc.Buffer.{filter_pbrpc_messages}
use vmp_rl.Rpc.Server.{
  generic_read_cb, read_loop, svc_proc, process_request, rpc_invoke_call, find_method, call_method,
  rpc_read_req, read_payload, rpc_write_reply,
}
use vmp_rl.Rpc.Client.{
  Node, Reply, process_response, find_call, pbrpc_clnt_call, next_id, rpc_write_request,
}
use vmp_rl.Rpc.Pending.{Fresh, entries_of}
use vmp_rl.Rpc.RoundTrip.{plenty}
use vmp_rl.Rpc.Session
use vmp_rl.Rpc.Told.{clnt_proc}
use vmp_rl.Rpc.Calls.{AreCarried}
use vmp_rl.Rpc.Duplex.{Duplex, Step, Reach}
use vmp_rl.Rpc.Tests.{toy_codec, read_request, read_response, pack_params}
use vmp_rl.Rpc.Tests.Arrival.{list_buffer, pullup_list, remove_list}
use vmp_rl.Rpc.Tests.Calls.{node_list}
use vmp_rl.Rpc.Tests.Sessions.{nothing_stuck}
use vmp_rl.Load.Task.{live, ended}
use vmp_rl.Service.Messages.{Packing, RegistryReq, RegistryRsp}
use vmp_rl.Service.Handlers.{
  load_child_connection_get, demo_exec, vmon_exec, node_state_exec, sc_demo_func, sc_vmon_func,
  sc_node_state_func,
}
use vmp_rl.Load.System.Handle.{
  ls_uplink_get, ls_downlink_get, ls_cpu_get, ls_mem_total_get, ls_mem_free_get,
}
use vmp_rl.Service.Methods.{daemon_methods}
use vmp_rl.Service.Stubs.{Caller}
use vmp_rl.Service.Tests.{
  whole, toy_packings, toy_world, toy_args, order, toy_head, registered, published, unpack_id,
  unpack_demo, unpack_vmon, unpack_state,
}
use vmp_rl.Load.Trial.{RpcClnt, Grant, Trial, load_core_test}
use vmp_rl.Load.Trial.Calls
use vmp_rl.Load.Trial.Script.{IsGranted, Four, trial_calls}
use vmp_rl.Load.Trial.Replies.{
  Heard, heard_registry, heard_demo, heard_vmon, heard_node_state, replymsgs,
}
use vmp_rl.Load.Trial.Daemon
use vmp_rl.Load.Trial.Daemon.{daemon_results, trial_called}

abbrev toy_registry : Packing RegistryReq
toy_registry = record { pack = λ r. r.sid ∷ r.port ∷ []; unpack = λ bytes. none }

abbrev grant : ℕ → Grant
grant address = record { priv = some address; cbuf = true; memory = plenty }

abbrev new_caller : Caller (List Node)
new_caller = record { clnt = record { id_gen = 0; outstanding = [] }; privs = [] }

abbrev trial : Trial (List Node)
trial = record {
  calloc = true;
  create = true;
  ends = true;
  pbrpc_clnt_new = λ name port. some new_caller;
  registry_grant = grant 51;
  demo_grant = grant 52;
  vmon_grant = grant 53;
  node_state_grant = grant 54;
}

abbrev privs_at : Four ℕ
privs_at = record { registry = 51; demo = 52; vmon = 53; node_state = 54 }

granted : (address : ℕ) → IsGranted (grant address) address
granted address = record { priv = refl; cbuf = refl; memory = refl }

new-Fresh : Fresh node_list new_caller.clnt
new-Fresh = record { small = omega arith; below = omega arith; distinct = omega arith }

asked_1 : toy_packings.requests.unpack (1 ∷ []) ≡ some (record { id = 1 })
unfolding unpack_id
asked_1 = refl

room : 0 + 4 < 2 ^ 31
room = omega arith

abbrev given : Four (List ℕ)
given =
    daemon_results toy_codec whole toy_packings toy_registry toy_world toy_args order toy_head
      registered refl refl refl published refl asked_1

carried : AreCarried toy_codec 0 (trial_calls toy_packings.requests toy_registry privs_at given)
unfolding read_request read_response pack_params load_child_connection_get to_ulong ◌-ℤ◌
carried = (
  record { decoded = refl; small = omega arith; back = refl; back_small = omega arith },
  (
    record { decoded = refl; small = omega arith; back = refl; back_small = omega arith },
    (
      record { decoded = refl; small = omega arith; back = refl; back_small = omega arith },
      (record { decoded = refl; small = omega arith; back = refl; back_small = omega arith }, tt),
    ),
  ),
)

abbrev Ends : Type 0
Ends = Duplex list_buffer node_list toy_codec (daemon_methods whole toy_packings toy_world) toy_head

abbrev start : Ends
start =
    trial_called toy_codec whole toy_packings toy_registry toy_world toy_args order toy_head
      registered refl refl refl published refl asked_1 list_buffer node_list 7 trial new_caller
      privs_at refl refl refl (granted 51) (granted 52) (granted 53) (granted 54) [] refl new-Fresh
      room carried

abbrev replies : List Reply
replies =
    record { replymsg = 4; ctx = 51; result = given.registry }
    ∷ record { replymsg = 1; ctx = 52; result = given.demo }
    ∷ record { replymsg = 2; ctx = 53; result = given.vmon }
    ∷ record { replymsg = 3; ctx = 54; result = given.node_state }
    ∷ []

abbrev responses : List ℕ
responses =
    frames
      ((1 ∷ given.registry) ∷ (2 ∷ given.demo) ∷ (3 ∷ given.vmon) ∷ (4 ∷ given.node_state) ∷ [])

abbrev finished : Ends
finished = record {
  svc = record { src = []; dst = []; future = []; state = responses };
  clnt = record {
    src = [];
    dst = [];
    future = [];
    state = (record { id_gen = 4; outstanding = [] }, replies);
  };
}

abbrev Run : Ends → Type 0
Run =
    Reach list_buffer node_list toy_codec (daemon_methods whole toy_packings toy_world) toy_head
      start

abbrev asked : Ends
asked = record start { svc = record (start.svc) { src = start.svc.future; future = [] } }

abbrev moved : Ends
moved = record start { svc = record (start.svc) { dst = start.svc.future; future = [] } }

abbrev replied : Ends
replied = record {
  svc = record { src = []; dst = []; future = []; state = responses };
  clnt = record (start.clnt) { future = responses };
}

abbrev arrived : Ends
arrived = record replied { clnt = record (start.clnt) { src = responses; future = [] } }

abbrev passed : Ends
passed = record replied { clnt = record (start.clnt) { dst = responses; future = [] } }

moved-Run : Run moved
unfolding frame filter_pbrpc_messages pullup_list remove_list read_be64 pbrpc_clnt_call pack_params
    next_id rpc_write_request
moved-Run =
    let begun : Run asked =
      Reach.later Reach.here
        (Step.at_svc [] (Session.arrive start.svc.future start.svc.future [] refl refl) refl) in
    Reach.later
      (Reach.later
        (Reach.later (Reach.later begun (Step.at_svc [] Session.filtered refl))
          (Step.at_svc [] Session.filtered refl))
        (Step.at_svc [] Session.filtered refl))
      (Step.at_svc [] Session.filtered refl)

replied-Run : Run replied
unfolding frame generic_read_cb read_loop svc_proc process_request read_request rpc_invoke_call
    find_method call_method str_eq rpc_read_req read_payload read_be64 rpc_write_reply
    pbrpc_clnt_call pack_params next_id rpc_write_request daemon_methods unpack_id
    load_child_connection_get to_ulong ◌-ℤ◌ demo_exec vmon_exec node_state_exec sc_node_state_func
    ls_mem_total_get ls_uplink_get ls_downlink_get ls_mem_free_get ls_cpu_get sc_demo_func
    sc_vmon_func
replied-Run =
    Reach.later moved-Run (Step.at_svc responses (Session.read [] responses refl refl) refl)

passed-Run : Run passed
unfolding frame filter_pbrpc_messages pullup_list remove_list read_be64
passed-Run =
    let begun : Run arrived =
      Reach.later replied-Run (Step.at_clnt (Session.arrive responses responses [] refl refl)) in
    Reach.later
      (Reach.later
        (Reach.later (Reach.later begun (Step.at_clnt Session.filtered))
          (Step.at_clnt Session.filtered))
        (Step.at_clnt Session.filtered))
      (Step.at_clnt Session.filtered)

finished-Run : Run finished
unfolding frame generic_read_cb read_loop clnt_proc process_response read_response find_call
    read_payload read_be64 pbrpc_clnt_call next_id
finished-Run = Reach.later passed-Run (Step.at_clnt (Session.read [] finished.clnt.state refl refl))

load_core_test_told_example :
    (c : RpcClnt (List Node)) × (load_core_test node_list toy_codec toy_packings.requests
        toy_registry 7 trial
      ≡ ended (live c, start.svc.future))
    × (finished.clnt.state.1 ≡ replies)
    × (entries_of node_list finished.clnt.state.0 ≡ [])
load_core_test_told_example =
    Daemon.load_core_test_told toy_codec whole toy_packings toy_registry toy_world toy_args order
      toy_head registered refl refl refl published refl asked_1 list_buffer node_list 7 trial
      new_caller privs_at refl refl refl (granted 51) (granted 52) (granted 53) (granted 54) [] refl
      new-Fresh room carried finished-Run refl nothing_stuck refl refl nothing_stuck refl

abbrev toy_rsps : Packing RegistryRsp
toy_rsps = record { pack = λ r. r.sid ∷ []; unpack = λ bytes. none }

abbrev all_heard : List (Heard ℕ)
all_heard =
    heard_registry (record { ctx = 7; msg = minus_one; arg = none })
    ∷ heard_demo (record {
      ctx = 7;
      msg = ℤ.pos 0;
      arg = some (record { id = 1; count = 2; memory = 2 * 2 ^ 30 });
    })
    ∷ heard_vmon (record { ctx = 7; msg = ℤ.pos 0; arg = some (record { id = 1; count = 5 }) })
    ∷ heard_node_state (record {
      ctx = 7;
      msg = ℤ.pos 0;
      arg = some (record {
        id = 1;
        index = 0;
        name = codes "server local";
        count = 5;
        uplink = 12;
        downlink = 7;
        memory = 500;
        cpu = 7;
      });
    })
    ∷ []

load_core_test_heard_example :
    (c : RpcClnt (List Node)) × (asked : Caller (List Node)) × (load_core_test node_list toy_codec
        toy_packings.requests toy_registry 7 trial
      ≡ ended (live c, start.svc.future))
    × (c.clnt ≡ some asked)
    × (entries_of node_list finished.clnt.state.0 ≡ [])
    × (replymsgs toy_packings toy_rsps replies (record asked { clnt = finished.clnt.state.0 })
        ≡ done (record { clnt = finished.clnt.state.0; privs = [] }, all_heard))
unfolding unpack_demo unpack_vmon unpack_state load_child_connection_get to_ulong ◌-ℤ◌
load_core_test_heard_example =
    Daemon.load_core_test_heard toy_codec whole toy_packings toy_registry toy_world toy_args order
      toy_head registered refl refl refl published refl asked_1 list_buffer node_list 7 trial
      new_caller privs_at refl refl refl (granted 51) (granted 52) (granted 53) (granted 54) [] refl
      new-Fresh room carried toy_rsps tt tt tt tt refl refl refl refl finished-Run refl
      nothing_stuck refl refl nothing_stuck refl

-- The host cannot be reached.
abbrev unreachable : Trial (List Node)
unreachable = record trial { pbrpc_clnt_new = λ name port. none }

load_core_test_fails_example :
    load_core_test node_list toy_codec toy_packings.requests toy_registry 7 unreachable
    ≡ ended (
      live (record {
        cond = true;
        initialized = true;
        thread = true;
        req = record { base = none; ip = codes "localhost"; port = 9876 };
        event_base = none;
        clnt = none;
      }),
      [],
    )
load_core_test_fails_example =
    Calls.load_core_test_fails node_list toy_codec toy_packings.requests toy_registry 7 unreachable
