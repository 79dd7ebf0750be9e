-- ===== src/Rpc/Told.antt =====
-- src/rpc/pbc/pbrpc-clnt.c: a client and the stream of responses to it, from the bytes that arrive to
-- the callbacks that are run.
use mathlib.Core.List.{append_assoc, append-nil}
use mathlib.Core.Path.{subst}
use vmp_rl.Base.{
  ℕ, ◌+◌, ◌^◌, ◌<◌, ◌≡◌, ◌≢◌, refl, sym, ap, ◌∙◌, List, [], ◌∷◌, ◌++◌, map, map-split, Option, none,
  some, Run, done, ◌>>=◌, length, true,
}
use vmp_rl.Rpc.Frames.{frames}
use vmp_rl.Rpc.Buffer.{EvBuffer, bev_ok, filter_pbrpc_messages}
use vmp_rl.Rpc.Server.{Codec, Response, generic_read_cb}
use vmp_rl.Rpc.Client.{Node, NodeList, Clnt, Reply, process_response}
use vmp_rl.Rpc.Pending.{
  entries_of, Fresh, without_call, reply_to, process_response_at, without_call-entries,
  without_call-Fresh,
}
use vmp_rl.Rpc.Reading.{Takes, Handles, stop, one, Handles-same}
use vmp_rl.Rpc.Session.{Conn, Reach, IsHandled, accepted}
use vmp_rl.Rpc.Session.Progress.{cut-read, Reach-IsHandled, handled-all, accepted-IsHandled}

-- A callback that was run, behind those run before.
abbrev pub with_reply : List Reply → Option Reply → List Reply
with_reply told none = told
with_reply told (some r) = told ++ r ∷ []

-- The reader of a client: its state are the client and the callbacks run so far.
unfoldable pub clnt_proc :
    {Q : Type 0}
    → NodeList Q
    → Codec
    → Clnt Q × List Reply
    → List ℕ
    → Run ((Clnt Q × List Reply) × ℕ)
clnt_proc lib codec s msg =
    process_response lib codec s.0 msg >>= λ r. done ((r.0, with_reply s.1 r.1), r.2)

-- A response on its way, to a call.
pub record Incoming : Type 0 where
  pub payload : List ℕ
  pub response : Response
  pub call : Node

abbrev pub incoming_payloads : List Incoming → List (List ℕ)
incoming_payloads = map (λ r. r.payload)

abbrev pub replies_to : List Incoming → List Reply
replies_to =
    map (λ r. record { replymsg = r.call.replymsg; ctx = r.call.ctx; result = r.response.result })

-- Each response is to one of the calls that are outstanding then, wherever that stands in the list:
-- from the calls `ns` the responses leave `rest`.
pub data Answers (codec : Codec) : List Node → List Incoming → List Node → Type 0 where
  no_more : {ns : List Node} → Answers codec ns [] ns
  next :
      {ns rest : List Node} {rs : List Incoming} (before after : List Node) (a : Incoming)
      → ns ≡ before ++ a.call ∷ after
      → codec.unpack_response a.payload ≡ some a.response
      → a.response.id ≡ a.call.id
      → 8 + length a.payload < 2 ^ 31
      → Answers codec (before ++ after) rs rest
      → Answers codec ns (a ∷ rs) rest

module _ {Q : Type 0} (lib : NodeList Q) (codec : Codec) where
  -- The reader takes the response to an outstanding call.
  next-Takes :
      (clnt : Clnt Q) (told : List Reply) (before after : List Node) (a : Incoming)
      → Fresh lib clnt
      → entries_of lib clnt ≡ before ++ a.call ∷ after
      → codec.unpack_response a.payload ≡ some a.response
      → a.response.id ≡ a.call.id
      → 8 + length a.payload < 2 ^ 31
      → Takes
          (clnt_proc lib codec)
          (clnt, told)
          a.payload
          (without_call lib clnt before, told ++ reply_to lib a.call a.response ∷ [])
  unfolding clnt_proc
  next-Takes clnt told before after a f here decoded same small = record {
    small = small;
    taken = λ rest.
        rw
          (process_response_at lib codec clnt before after a.call a.response a.payload rest f here
            decoded same small)
          refl;
  }

  -- The client behind the responses: each callback has been run once, with the result for its call
  -- and in the order of the responses, and only the other calls are outstanding.
  pub Answers-Handles :
      (clnt : Clnt Q) (told : List Reply) {ns rest : List Node} (rs : List Incoming)
      → Fresh lib clnt
      → entries_of lib clnt ≡ ns
      → Answers codec ns rs rest
      → (clnt' : Clnt Q) × Handles
          (clnt_proc lib codec)
          (clnt, told)
          (incoming_payloads rs)
          (clnt', told ++ replies_to rs)
        × (entries_of lib clnt' ≡ rest)
        × (clnt'.id_gen ≡ clnt.id_gen)
  Answers-Handles clnt told [] f here no_more = (
    clnt,
    subst (λ t. Handles (clnt_proc lib codec) (clnt, told) [] (clnt, t)) (sym (append-nil told))
        stop,
    here,
    refl,
  )
  Answers-Handles clnt told (a ∷ rs) f here (next before after _ e decoded same small more) =
      let told' = told ++ reply_to lib a.call a.response ∷ [] in
      let r =
        Answers-Handles (without_call lib clnt before) told' rs
          (without_call-Fresh lib clnt before f)
          (without_call-entries lib clnt before after a.call (here ∙ e)) more in
      (
        r.0,
        subst
            (λ t.
              Handles (clnt_proc lib codec) (clnt, told) (a.payload ∷ incoming_payloads rs)
                (r.0, t))
            (append_assoc told (reply_to lib a.call a.response ∷ []) (replies_to rs))
            (one a.payload (next-Takes clnt told before after a f (here ∙ e) decoded same small)
              r.1),
        r.2,
        r.3,
      )

  -- The callbacks of the first responses have been run, each once and with the result for its call,
  -- in the order of the responses; the callback that reads comes through.
  pub record IsTold {Buf : Type 0} (buf : EvBuffer Buf) (rs : List Incoming)
      (c : Conn buf (clnt_proc lib codec)) : Type 0 where
    pub before : List Incoming
    pub pending : List Incoming
    pub split : rs ≡ before ++ pending
    pub told : c.state.1 ≡ replies_to before
    pub next_state : Clnt Q × List Reply
    pub reads :
        generic_read_cb
          (clnt_proc lib codec)
          (length (buf.bytes c.dst))
          true
          c.state
          (buf.bytes c.dst)
        ≡ done (some next_state)

  Answers-split :
      {ns rest : List Node} (rs0 bs : List Incoming)
      → Answers codec ns (rs0 ++ bs) rest
      → (ms : List Node) × Answers codec ns rs0 ms × Answers codec ms bs rest
  Answers-split {ns} [] bs h = (ns, no_more, h)
  Answers-split (a ∷ rs0) bs (next before after _ e d i s more) =
      let r = Answers-split rs0 bs more in (r.0, next before after a e d i s r.1, r.2)

  -- The client `clnt`, to which the responses `rs` are to come, leaving the calls `rest`.
  module _ {Buf : Type 0} (buf : EvBuffer Buf) (empty : Buf) (clnt : Clnt Q) (rs : List Incoming)
      (rest : List Node) (none_there : buf.bytes empty ≡ []) (fresh : Fresh lib clnt)
      (answers : Answers codec (entries_of lib clnt) rs rest)
      (fits : length (frames (incoming_payloads rs)) < 2 ^ 64) where
    last :
        (clnt' : Clnt Q) × Handles
          (clnt_proc lib codec)
          (clnt, [])
          (incoming_payloads rs)
          (clnt', replies_to rs)
        × (entries_of lib clnt' ≡ rest)
        × (clnt'.id_gen ≡ clnt.id_gen)
    last = Answers-Handles clnt [] rs fresh refl answers

    -- The connection at first.
    abbrev pub connected : Conn buf (clnt_proc lib codec)
    connected = accepted buf (clnt_proc lib codec) empty (incoming_payloads rs) (clnt, [])

    told-IsHandled :
        {c : Conn buf (clnt_proc lib codec)}
        → Reach buf (clnt_proc lib codec) connected c
        → IsHandled buf
            (clnt_proc lib codec)
            (clnt, [])
            (last.0, replies_to rs)
            (incoming_payloads rs)
            c
    told-IsHandled r =
        Reach-IsHandled buf (clnt_proc lib codec)
          (accepted-IsHandled buf (clnt_proc lib codec) empty none_there last.1 fits) r

    pub Reach-IsTold :
        {c : Conn buf (clnt_proc lib codec)}
        → Reach buf (clnt_proc lib codec) connected c
        → IsTold buf rs c
    Reach-IsTold {c} r =
        let h = told-IsHandled r in
        let parts = map-split (λ r. r.payload) rs h.before h.left h.split in
        let next = cut-read buf (clnt_proc lib codec) h in
        let front =
          (Answers-split parts.0 parts.1
            (subst (λ l. Answers codec (entries_of lib clnt) l rest) parts.2 answers)).1 in
        let made = Answers-Handles clnt [] parts.0 fresh refl front in
        let state = Handles-same (clnt_proc lib codec) h.handled (
          subst (λ l. Handles (clnt_proc lib codec) (clnt, []) l (made.0, replies_to parts.0))
            parts.3 made.1) in
        record {
          before = parts.0;
          pending = parts.1;
          split = parts.2;
          told = ap (λ (s : Clnt Q × List Reply). s.1) state;
          next_state = next.0;
          reads = next.1;
        }

    pub told_all :
        {c : Conn buf (clnt_proc lib codec)}
        → Reach buf (clnt_proc lib codec) connected c
        → c.future ≡ []
        → (filter_pbrpc_messages buf c.src c.dst).2 ≢ bev_ok
        → buf.bytes c.dst ≡ []
        → (c.state.1 ≡ replies_to rs) × (entries_of lib c.state.0 ≡ rest)
    told_all r ended stuck read =
        let e = (handled-all buf (clnt_proc lib codec) (told-IsHandled r) ended stuck read).0 in
        (
          ap (λ (s : Clnt Q × List Reply). s.1) e,
          ap (λ (s : Clnt Q × List Reply). entries_of lib s.0) e ∙ last.2,
        )
