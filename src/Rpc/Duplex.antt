-- ===== src/Rpc/Duplex.antt =====
-- src/rpc/pbc: a client and a service on one connection, with the bytes on their way in both
-- directions.
pub mod Progress
use vmp_rl.Base.{ℕ, ◌+◌, ◌≡◌, List, ◌++◌, some, done, length, true}
use vmp_rl.Rpc.Buffer.{EvBuffer}
use vmp_rl.Rpc.Callouts.{Callouts}
use vmp_rl.Rpc.Server.{Codec, Methods, svc_proc, generic_read_cb}
use vmp_rl.Rpc.Client.{NodeList, Clnt, Reply}
use vmp_rl.Rpc.Session
use vmp_rl.Rpc.Session.{Conn}
use vmp_rl.Rpc.Told.{clnt_proc}
use vmp_rl.Rpc.Calls.{Call, results}

module _ {Buf : Type 0} (buf : EvBuffer Buf) {Q : Type 0} (lib : NodeList Q) (codec : Codec)
    (run : Methods) (head : Callouts) where
  -- Both ends. What the service has written and has not arrived yet is the client's `future`.
  pub record Duplex : Type 0 where
    pub svc : Conn buf (svc_proc codec run head true)
    pub clnt : Conn buf (clnt_proc lib codec)

  pub data Step (d : Duplex) : Duplex → Type 0 where
    -- `sent` is what the callback of the service wrote.
    at_svc :
        {c : Conn buf (svc_proc codec run head true)} (sent : List ℕ)
        → Session.Step buf (svc_proc codec run head true) d.svc c
        → c.state ≡ d.svc.state ++ sent
        → Step d (record { svc = c; clnt = record (d.clnt) { future = d.clnt.future ++ sent } })
    at_clnt :
        {c : Conn buf (clnt_proc lib codec)}
        → Session.Step buf (clnt_proc lib codec) d.clnt c
        → Step d (record { svc = d.svc; clnt = c })

  pub data Reach (d : Duplex) : Duplex → Type 0 where
    here : Reach d d
    later : {e f : Duplex} → Reach d e → Step e f → Reach d f

  -- The callbacks of the first calls have been run, each once, in the order of the calls and with the
  -- result of its call's own method, and no others; the callbacks that read come through.
  pub record IsTelling (cs : List Call) (d : Duplex) : Type 0 where
    pub answered : List Call
    pub pending : List Call
    pub split : cs ≡ answered ++ pending
    pub told : d.clnt.state.1 ≡ results answered
    pub sent : List ℕ
    pub svc_reads :
        generic_read_cb
          (svc_proc codec run head true)
          (length (buf.bytes d.svc.dst))
          true
          d.svc.state
          (buf.bytes d.svc.dst)
        ≡ done (some sent)
    pub next_state : Clnt Q × List Reply
    pub clnt_reads :
        generic_read_cb
          (clnt_proc lib codec)
          (length (buf.bytes d.clnt.dst))
          true
          d.clnt.state
          (buf.bytes d.clnt.dst)
        ≡ done (some next_state)
