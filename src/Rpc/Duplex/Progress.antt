-- ===== src/Rpc/Duplex/Progress.antt =====
-- src/rpc/pbc: what a client that has made its calls is told, however the bytes go.
use mathlib.Core.List.{map-append, append_assoc, append-nil, append_cancel_left}
use mathlib.Core.Path.{subst}
use vmp_rl.Base.{
  true, ℕ, arith, ◌+◌, ◌^◌, ◌<◌, ◌≡◌, ◌≢◌, refl, sym, ap, ◌∙◌, List, [], ◌++◌, length, map-split,
}
use vmp_rl.Rpc.Frames.{frames}
use vmp_rl.Rpc.Buffer.{EvBuffer, bev_ok, filter_pbrpc_messages}
use vmp_rl.Rpc.Callouts.{Callouts}
use vmp_rl.Rpc.Server.{Codec, Methods, svc_proc}
use vmp_rl.Rpc.Serving.{payloads, AllAnswered}
use vmp_rl.Rpc.Client.{NodeList, Clnt}
use vmp_rl.Rpc.Pending.{Fresh, entries_of}
use vmp_rl.Rpc.Session
use vmp_rl.Rpc.Session.{Conn, accepted}
use vmp_rl.Rpc.Served.{IsServed-rest, Reach-IsServed, served_all}
use vmp_rl.Rpc.Told.{clnt_proc, Answers, Reach-IsTold, told_all, replies_to, incoming_payloads}
use vmp_rl.Rpc.Calls.{
  Call, results, exchanges, incoming, AreAnswered, exchanges-AllAnswered, incoming-Answers, Made,
  replies-exchanges, replies_to-incoming, make_calls, make_calls-Made, exchanges_size,
  incoming_size, carried_of,
}
use vmp_rl.Rpc.Duplex.{Duplex, Step, Reach, IsTelling, at_svc, at_clnt, here, later}

module _ {Buf : Type 0} (buf : EvBuffer Buf) {Q : Type 0} (lib : NodeList Q) (codec : Codec)
    (run : Methods) (head : Callouts) where
  -- The client with more bytes on their way to it.
  abbrev expecting : Conn buf (clnt_proc lib codec) → List ℕ → Conn buf (clnt_proc lib codec)
  expecting c rest = record c { future = c.future ++ rest }

  Step-expecting :
      {c c' : Conn buf (clnt_proc lib codec)} (rest : List ℕ)
      → Session.Step buf (clnt_proc lib codec) c c'
      → Session.Step buf (clnt_proc lib codec) (expecting c rest) (expecting c' rest)
  Step-expecting {c} rest (Session.arrive src' chunk behind e e') =
      Session.arrive src' chunk (behind ++ rest)
        (ap (λ l. l ++ rest) e ∙ append_assoc chunk behind rest) e'
  Step-expecting rest Session.filtered = Session.filtered
  Step-expecting rest (Session.read dst' state' e e') = Session.read dst' state' e e'
  Step-expecting rest (Session.unread state' e) = Session.unread state' e

  -- A client that has made the calls `cs`, each of which its method answers.
  module _ (empty : Buf) (clnt : Clnt Q) (cs : List Call) (none_there : buf.bytes empty ≡ [])
      (fresh : Fresh lib clnt) (room : clnt.id_gen + length cs < 2 ^ 31)
      (answered : AreAnswered codec run head clnt.id_gen cs) where
    -- The bytes of the requests are on their way.
    abbrev pub called : Duplex buf lib codec run head
    called =
        let made = make_calls codec lib clnt cs in
        record {
          svc = record { src = empty; dst = empty; future = made.1; state = [] };
          clnt = record { src = empty; dst = empty; future = []; state = (made.0, []) };
        }

    fits : length (frames (payloads (exchanges codec clnt.id_gen cs))) < 2 ^ 64
    fits = omega (
      arith,
      room,
      exchanges_size codec clnt.id_gen cs (carried_of codec run head clnt.id_gen cs answered),
    )

    back_fits : length (frames (incoming_payloads (incoming codec clnt.id_gen cs))) < 2 ^ 64
    back_fits = omega (
      arith,
      room,
      incoming_size codec clnt.id_gen cs (carried_of codec run head clnt.id_gen cs answered),
    )

    made : Made codec lib clnt cs (make_calls codec lib clnt cs)
    made = make_calls-Made codec lib clnt cs fresh room

    all : AllAnswered codec run head (exchanges codec clnt.id_gen cs)
    all = exchanges-AllAnswered codec run head clnt.id_gen cs answered

    answers :
        Answers codec
          (entries_of lib (make_calls codec lib clnt cs).0)
          (incoming codec clnt.id_gen cs)
          (entries_of lib clnt)
    answers =
        subst (λ ns. Answers codec ns (incoming codec clnt.id_gen cs) (entries_of lib clnt))
          (sym made.outstanding)
          (incoming-Answers codec run head (entries_of lib clnt) clnt.id_gen cs answered)

    -- Both ends as connections on which all requests, or all responses, are to arrive: `rest` are
    -- the bytes that the service has still to write.
    record IsUnderway (d : Duplex buf lib codec run head) : Type 0 where
      rest : List ℕ
      total : d.svc.state ++ rest ≡ frames (incoming_payloads (incoming codec clnt.id_gen cs))
      svc_reached :
          Session.Reach buf
            (svc_proc codec run head true)
            (accepted buf
              (svc_proc codec run head true)
              empty
              (payloads (exchanges codec clnt.id_gen cs))
              [])
            d.svc
      clnt_reached :
          Session.Reach buf
            (clnt_proc lib codec)
            (accepted buf
              (clnt_proc lib codec)
              empty
              (incoming_payloads (incoming codec clnt.id_gen cs))
              ((make_calls codec lib clnt cs).0, []))
            (expecting d.clnt rest)

    called-IsUnderway : IsUnderway called
    called-IsUnderway = record {
      rest = frames (incoming_payloads (incoming codec clnt.id_gen cs));
      total = refl;
      svc_reached =
          subst
            (λ bytes.
              Session.Reach buf (svc_proc codec run head true)
                (accepted buf (svc_proc codec run head true) empty
                  (payloads (exchanges codec clnt.id_gen cs)) [])
                (record { src = empty; dst = empty; future = bytes; state = [] }))
            (sym made.written) Session.here;
      clnt_reached = Session.here;
    }

    svc-IsUnderway :
        {d : Duplex buf lib codec run head} {c : Conn buf (svc_proc codec run head true)}
        (sent : List ℕ)
        → Session.Step buf (svc_proc codec run head true) d.svc c
        → c.state ≡ d.svc.state ++ sent
        → IsUnderway d
        → IsUnderway (record { svc = c; clnt = record (d.clnt) { future = d.clnt.future ++ sent } })
    svc-IsUnderway {d} {c} sent st wrote u =
        let reached = Session.later u.svc_reached st in
        let r = IsServed-rest buf codec run head (
          Reach-IsServed buf codec run head (exchanges codec clnt.id_gen cs) all empty none_there
            fits reached) in
        let total' = r.1 ∙ ap frames (replies-exchanges codec run head clnt.id_gen cs) in
        let same : u.rest ≡ sent ++ r.0 =
          append_cancel_left d.svc.state u.rest (sent ++ r.0)
            (u.total ∙ sym total' ∙ ap (λ l. l ++ r.0) wrote ∙ append_assoc d.svc.state sent r.0) in
        record {
          rest = r.0;
          total = total';
          svc_reached = reached;
          clnt_reached =
              subst
                (λ bytes.
                  Session.Reach buf (clnt_proc lib codec)
                    (accepted buf (clnt_proc lib codec) empty
                      (incoming_payloads (incoming codec clnt.id_gen cs))
                      ((make_calls codec lib clnt cs).0, []))
                    (record (d.clnt) { future = bytes }))
                (ap (◌++◌ (d.clnt.future)) same ∙ sym (append_assoc d.clnt.future sent r.0))
                u.clnt_reached;
        }

    Step-IsUnderway :
        {d e : Duplex buf lib codec run head}
        → Step buf lib codec run head d e
        → IsUnderway d
        → IsUnderway e
    Step-IsUnderway (at_svc sent st wrote) u = svc-IsUnderway sent st wrote u
    Step-IsUnderway (at_clnt st) u = record {
      rest = u.rest;
      total = u.total;
      svc_reached = u.svc_reached;
      clnt_reached = Session.later u.clnt_reached (Step-expecting u.rest st);
    }

    Reach-IsUnderway :
        {d : Duplex buf lib codec run head} → Reach buf lib codec run head called d → IsUnderway d
    Reach-IsUnderway here = called-IsUnderway
    Reach-IsUnderway (later r st) = Step-IsUnderway st (Reach-IsUnderway r)

    -- For calls whose ids stay below 2 ^ 31, which their methods answer, and whose messages fit and
    -- survive the wire, where calls and replies can be allocated: however the bytes of both
    -- directions are cut and the callbacks of both ends interleave, the callbacks of the first calls
    -- have been run, once each and in the order of the calls, with the result of the own method, no
    -- others have, and neither reader faults.
    pub Reach-IsTelling :
        {d : Duplex buf lib codec run head}
        → Reach buf lib codec run head called d
        → IsTelling buf lib codec run head cs d
    Reach-IsTelling r =
        let u = Reach-IsUnderway r in
        let served =
          Reach-IsServed buf codec run head (exchanges codec clnt.id_gen cs) all empty none_there
            fits u.svc_reached in
        let t =
          Reach-IsTold lib codec buf empty (make_calls codec lib clnt cs).0
            (incoming codec clnt.id_gen cs) (entries_of lib clnt) none_there made.fresh answers
            back_fits u.clnt_reached in
        let parts =
          map-split
            (λ (c : Call). record { replymsg = c.replymsg; ctx = c.args; result = c.result }) cs
            (replies_to t.before) (replies_to t.pending)
            (sym (replies_to-incoming codec clnt.id_gen cs)
              ∙ ap replies_to t.split
              ∙ map-append _ t.before t.pending) in
        record {
          answered = parts.0;
          pending = parts.1;
          split = parts.2;
          told = t.told ∙ sym parts.3;
          sent = served.sent;
          svc_reads = served.reads;
          next_state = t.next_state;
          clnt_reads = t.reads;
        }

    -- Under the same conditions, where nothing is left to arrive, to be moved or to be read at either
    -- end: every callback has been run once, in the order of the calls, with the result of the own
    -- method, and the calls outstanding are those from before.
    pub calls_told :
        {d : Duplex buf lib codec run head}
        → Reach buf lib codec run head called d
        → d.svc.future ≡ []
        → (filter_pbrpc_messages buf d.svc.src d.svc.dst).2 ≢ bev_ok
        → buf.bytes d.svc.dst ≡ []
        → d.clnt.future ≡ []
        → (filter_pbrpc_messages buf d.clnt.src d.clnt.dst).2 ≢ bev_ok
        → buf.bytes d.clnt.dst ≡ []
        → (d.clnt.state.1 ≡ results cs) × (entries_of lib d.clnt.state.0 ≡ entries_of lib clnt)
    calls_told {d} r svc_ended svc_stuck svc_read clnt_ended clnt_stuck clnt_read =
        let u = Reach-IsUnderway r in
        let written =
          served_all buf codec run head (exchanges codec clnt.id_gen cs) all empty none_there fits
            u.svc_reached svc_ended svc_stuck svc_read
          ∙ ap frames (replies-exchanges codec run head clnt.id_gen cs) in
        let none_left : u.rest ≡ [] =
          append_cancel_left d.svc.state u.rest []
            (u.total ∙ sym written ∙ sym (append-nil d.svc.state)) in
        let ended : d.clnt.future ++ u.rest ≡ [] = rw (none_left, clnt_ended) refl in
        let r' =
          told_all lib codec buf empty (make_calls codec lib clnt cs).0
            (incoming codec clnt.id_gen cs) (entries_of lib clnt) none_there made.fresh answers
            back_fits u.clnt_reached ended clnt_stuck clnt_read in
        (r'.0 ∙ replies_to-incoming codec clnt.id_gen cs, r'.1)
