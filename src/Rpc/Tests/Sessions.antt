-- ===== src/Rpc/Tests/Sessions.antt =====
-- The theorems on the connections of src/rpc/pbc at concrete inputs.
use vmp_rl.Base.{
  true, ℕ, ◌^◌, ◌<◌, ◌≡◌, ◌≢◌, refl, List, [], ◌∷◌, arith, length, take, drop, str_eq,
}
use vmp_rl.Rpc.Wire.{read_be64, frame}
use vmp_rl.Rpc.Frames.{frames}
use vmp_rl.Rpc.Buffer.{bev_ok, filter_pbrpc_messages}
use vmp_rl.Rpc.Server.{
  generic_read_cb, read_loop, svc_proc, process_request, rpc_invoke_call, find_method, rpc_read_req,
  read_payload, rpc_write_reply,
}
use vmp_rl.Rpc.Pending.{entries_of}
use vmp_rl.Rpc.Serving.{Exchange, payloads, replies, AllAnswered}
use vmp_rl.Rpc.Session.{Conn, Step}
use vmp_rl.Rpc.Served
use vmp_rl.Rpc.Served.{Conns, update, Serves, IsServed, listening}
use vmp_rl.Rpc.Told
use vmp_rl.Rpc.Told.{clnt_proc, Incoming, Answers, replies_to, connected, incoming_payloads}
use vmp_rl.Rpc.Tests.{
  demo_callout, echo, toy_codec, read_request, read_response, demo_exchange, demo-Answered,
}
use vmp_rl.Rpc.Tests.Arrival.{list_buffer, pullup_list, remove_list}
use vmp_rl.Rpc.Tests.Calls.{node_list, first_call, second_call, waiting, waiting-Fresh}

-- Every connection is to bring one request.
abbrev asked : ℕ → List Exchange
asked i = demo_exchange ∷ []

asked-AllAnswered : (i : ℕ) → AllAnswered toy_codec echo (demo_callout ∷ []) (asked i)
asked-AllAnswered i = (demo-Answered, tt)

asked_fits : (i : ℕ) → length (frames (payloads (asked i))) < 2 ^ 64
unfolding frame
asked_fits i = omega arith

abbrev Line : Type 0
Line = Conn list_buffer (svc_proc toy_codec echo (demo_callout ∷ []) true)

abbrev Lines : Type 0
Lines = Conns list_buffer toy_codec echo (demo_callout ∷ [])

abbrev at_first : Lines
at_first = listening list_buffer toy_codec echo (demo_callout ∷ []) [] asked refl

abbrev asked_frame : List ℕ
asked_frame = frames (payloads (demo_exchange ∷ []))

abbrev begun : Line
begun = record { src = take 3 asked_frame; dst = []; future = drop 3 asked_frame; state = [] }

abbrev arrived : Line
arrived = record { src = asked_frame; dst = []; future = []; state = [] }

abbrev moved : Line
moved = record { src = []; dst = asked_frame; future = []; state = [] }

abbrev answered : Line
answered = record {
  src = [];
  dst = [];
  future = [];
  state = frames (replies toy_codec echo (demo_callout ∷ []) (demo_exchange ∷ []));
}

-- Connection 0 is answered while a part of a request has arrived on connection 1.
abbrev lines : Lines
lines = update list_buffer toy_codec echo (demo_callout ∷ []) 0 answered (
    update list_buffer toy_codec echo (demo_callout ∷ []) 0 moved (
      update list_buffer toy_codec echo (demo_callout ∷ []) 1 begun
        (update list_buffer toy_codec echo (demo_callout ∷ []) 0 arrived at_first)))

arrived_on :
    Step list_buffer (svc_proc toy_codec echo (demo_callout ∷ []) true) (at_first 0) arrived
unfolding frame
arrived_on = Step.arrive asked_frame asked_frame [] refl refl

begun_on : Step list_buffer (svc_proc toy_codec echo (demo_callout ∷ []) true) (at_first 1) begun
unfolding frame
begun_on = Step.arrive (take 3 asked_frame) (take 3 asked_frame) (drop 3 asked_frame) refl refl

moved_on : Step list_buffer (svc_proc toy_codec echo (demo_callout ∷ []) true) arrived moved
unfolding frame filter_pbrpc_messages pullup_list remove_list read_be64
moved_on = Step.filtered

answered_on : Step list_buffer (svc_proc toy_codec echo (demo_callout ∷ []) true) moved answered
unfolding frame generic_read_cb read_loop svc_proc process_request read_request rpc_invoke_call
    find_method str_eq rpc_read_req read_payload read_be64 rpc_write_reply
answered_on = Step.read [] answered.state refl refl

lines-Serves : Serves list_buffer toy_codec echo (demo_callout ∷ []) at_first lines
lines-Serves =
    Serves.on 0
      (Serves.on 0 (Serves.on 1 (Serves.on 0 Serves.at_start arrived_on) begun_on) moved_on)
      answered_on

Serves-IsServed_example :
    IsServed list_buffer toy_codec echo (demo_callout ∷ []) (demo_exchange ∷ []) (lines 1)
Serves-IsServed_example =
    Served.Serves-IsServed list_buffer toy_codec echo (demo_callout ∷ []) [] asked refl lines-Serves
      1 (asked-AllAnswered 1) (asked_fits 1)

pub nothing_stuck : (filter_pbrpc_messages list_buffer [] []).2 ≢ bev_ok
unfolding filter_pbrpc_messages pullup_list
nothing_stuck e = cc

Serves-all_example :
    answered.state ≡ frames (replies toy_codec echo (demo_callout ∷ []) (demo_exchange ∷ []))
Serves-all_example =
    Served.Serves-all list_buffer toy_codec echo (demo_callout ∷ []) [] asked refl lines-Serves 0
      (asked-AllAnswered 0) (asked_fits 0) refl nothing_stuck refl

-- The responses to the two outstanding calls, the later call first.
abbrev to_second : Incoming
to_second = record {
  payload = 9 ∷ 40 ∷ [];
  response = record { id = 9; result = 40 ∷ [] };
  call = second_call;
}

abbrev to_first : Incoming
to_first = record {
  payload = 8 ∷ 30 ∷ [];
  response = record { id = 8; result = 30 ∷ [] };
  call = first_call;
}

abbrev both : List Incoming
both = to_second ∷ to_first ∷ []

both-Answers : Answers toy_codec (entries_of node_list waiting) both []
unfolding read_response
both-Answers =
    Answers.next (first_call ∷ []) [] to_second refl refl refl (omega arith)
      (Answers.next [] [] to_first refl refl refl (omega arith) Answers.no_more)

both_fit : length (frames (incoming_payloads both)) < 2 ^ 64
unfolding frame
both_fit = omega arith

abbrev Caller : Type 0
Caller = Conn list_buffer (clnt_proc node_list toy_codec)

abbrev calling : Caller
calling =
    connected node_list toy_codec list_buffer [] waiting both [] refl waiting-Fresh both-Answers
      both_fit

abbrev both_frames : List ℕ
both_frames = frames (incoming_payloads both)

abbrev both_arrived : Caller
both_arrived = record calling { src = both_frames; future = [] }

abbrev second_moved : Caller
second_moved = record calling {
  src = frame to_first.payload;
  dst = frame to_second.payload;
  future = [];
}

abbrev both_moved : Caller
both_moved = record calling { src = []; dst = both_frames; future = [] }

abbrev both_told : Caller
both_told = record calling {
  future = [];
  state = (record waiting { outstanding = [] }, replies_to both);
}
