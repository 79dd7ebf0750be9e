-- ===== src/Rpc/Served.antt =====
-- src/rpc/pbc/pbrpc-svc.c: a service and its connections, from the bytes of the requests to those of
-- the replies.
use mathlib.Core.List.{map-append}
use mathlib.Core.Path.{subst}
use vmp_rl.Base.{
  map, map-split, ℕ, ◌^◌, ◌<◌, ◌≡◌, ◌≢◌, sym, ap, ◌∙◌, List, [], ◌∷◌, ◌++◌, some, done, length,
  ◌==◌, true, arith, inl, inr, Bool-cases, if◌then◌else◌,
}
use vmp_rl.Rpc.Frames.{frames, frames-append}
use vmp_rl.Rpc.Buffer.{EvBuffer, bev_ok, filter_pbrpc_messages}
use vmp_rl.Rpc.Callouts.{Callouts}
use vmp_rl.Rpc.Server.{Codec, Methods, svc_proc, generic_read_cb}
use vmp_rl.Rpc.Serving.{Exchange, payloads, replies, AllAnswered, AllAnswered-Handles}
use vmp_rl.Rpc.Reading.{Handles, Handles-same}
use vmp_rl.Rpc.Session
use vmp_rl.Rpc.Session.{Conn, Step, Reach, IsHandled, accepted}
use vmp_rl.Rpc.Session.Progress.{cut-read, Reach-IsHandled, handled-all, accepted-IsHandled}

module _ {Buf : Type 0} (lib : EvBuffer Buf) (codec : Codec) (run : Methods) (head : Callouts) where
  -- The connections of a service, by their numbers; the state of each is what was written to it.
  abbrev pub Conns : Type 0
  Conns = ℕ → Conn lib (svc_proc codec run head true)

  abbrev pub update : ℕ → Conn lib (svc_proc codec run head true) → Conns → Conns
  update i c cs j = if j == i then c else cs j

  -- The callbacks of one connection after those of another, as `event_base_dispatch` calls them.
  pub data Serves (cs : Conns) : Conns → Type 0 where
    at_start : Serves cs cs
    on :
        (i : ℕ) {ds : Conns} {c : Conn lib (svc_proc codec run head true)}
        → Serves cs ds
        → Step lib (svc_proc codec run head true) (ds i) c
        → Serves cs (update i c ds)

  -- A connection goes its own way, whatever happens on the others.
  Serves-Reach :
      {cs ds : Conns}
      → Serves cs ds
      → (j : ℕ) → Reach lib (svc_proc codec run head true) (cs j) (ds j)
  Serves-Reach at_start j = Session.here
  Serves-Reach {cs} (on i {ds} {c} r st) j = elim (Bool-cases (j == i)) [
    | inl same ↦
        let e : j ≡ i = ground (arith, same) in
        rw same (
          Session.later (Serves-Reach r j)
            (subst (λ k. Step lib (svc_proc codec run head true) (ds k) c) (sym e) st))
    | inr other ↦ rw other (Serves-Reach r j)
  ]

  -- The replies to the first requests have been written, and nothing else; the callback that reads
  -- comes through.
  pub record IsServed (xs : List Exchange) (c : Conn lib (svc_proc codec run head true))
      : Type 0 where
    pub answered : List Exchange
    pub pending : List Exchange
    pub split : xs ≡ answered ++ pending
    pub written : c.state ≡ frames (replies codec run head answered)
    pub sent : List ℕ
    pub reads :
        generic_read_cb
          (svc_proc codec run head true)
          (length (lib.bytes c.dst))
          true
          c.state
          (lib.bytes c.dst)
        ≡ done (some sent)

  -- What is still to be written completes the replies.
  pub IsServed-rest :
      {xs : List Exchange} {c : Conn lib (svc_proc codec run head true)}
      → IsServed xs c
      → (rest : List ℕ) × (c.state ++ rest ≡ frames (replies codec run head xs))
  IsServed-rest {xs} {c} s =
      let f : Exchange → List ℕ = λ x. codec.pack_response x.response in
      (
        frames (map f s.pending),
        ap (λ l. l ++ frames (map f s.pending)) s.written
            ∙ sym (frames-append (map f s.answered) (map f s.pending))
            ∙ ap frames (sym (map-append f s.answered s.pending))
            ∙ ap (λ l. frames (map f l)) (sym s.split),
      )

  AllAnswered-front :
      (ys zs : List Exchange)
      → AllAnswered codec run head (ys ++ zs)
      → AllAnswered codec run head ys
  AllAnswered-front [] zs a = tt
  AllAnswered-front (y ∷ ys) zs a = (a.0, AllAnswered-front ys zs a.1)

  module _ (xs : List Exchange) (all : AllAnswered codec run head xs) where
    abbrev Handled : Conn lib (svc_proc codec run head true) → Type 0
    Handled c =
        IsHandled lib (svc_proc codec run head true) [] (frames (replies codec run head xs))
          (payloads xs) c

    Handled-IsServed : {c : Conn lib (svc_proc codec run head true)} → Handled c → IsServed xs c
    Handled-IsServed {c} h =
        let parts = map-split (λ x. x.payload) xs h.before h.left h.split in
        let front =
          AllAnswered-front parts.0 parts.1 (subst (AllAnswered codec run head) parts.2 all) in
        let next = cut-read lib (svc_proc codec run head true) h in
        record {
          answered = parts.0;
          pending = parts.1;
          split = parts.2;
          written = Handles-same (svc_proc codec run head true) h.handled (
              subst
                (λ l.
                  Handles (svc_proc codec run head true) [] l
                    (frames (replies codec run head parts.0)))
                parts.3 (AllAnswered-Handles codec run head [] parts.0 front));
          sent = next.0;
          reads = next.1;
        }

    -- A connection on which these requests are to arrive.
    module _ (empty : Buf) (none_there : lib.bytes empty ≡ [])
        (fits : length (frames (payloads xs)) < 2 ^ 64) where
      served-Handled :
          {c : Conn lib (svc_proc codec run head true)}
          → Reach lib
              (svc_proc codec run head true)
              (accepted lib (svc_proc codec run head true) empty (payloads xs) [])
              c
          → Handled c
      served-Handled r =
          Reach-IsHandled lib (svc_proc codec run head true)
            (accepted-IsHandled lib (svc_proc codec run head true) empty none_there
              (AllAnswered-Handles codec run head [] xs all) fits)
            r

      pub Reach-IsServed :
          {c : Conn lib (svc_proc codec run head true)}
          → Reach lib
              (svc_proc codec run head true)
              (accepted lib (svc_proc codec run head true) empty (payloads xs) [])
              c
          → IsServed xs c
      Reach-IsServed r = Handled-IsServed (served-Handled r)

      pub served_all :
          {c : Conn lib (svc_proc codec run head true)}
          → Reach lib
              (svc_proc codec run head true)
              (accepted lib (svc_proc codec run head true) empty (payloads xs) [])
              c
          → c.future ≡ []
          → (filter_pbrpc_messages lib c.src c.dst).2 ≢ bev_ok
          → lib.bytes c.dst ≡ []
          → c.state ≡ frames (replies codec run head xs)
      served_all r ended stuck read =
          (handled-all lib (svc_proc codec run head true) (served-Handled r) ended stuck read).0

  -- Connections on which the requests `xs` are to arrive.
  module _ (empty : Buf) (xs : ℕ → List Exchange) (none_there : lib.bytes empty ≡ []) where
    abbrev pub listening : Conns
    listening i = accepted lib (svc_proc codec run head true) empty (payloads (xs i)) []

    -- Where replies can be allocated, and the service answers all requests of a connection, each
    -- less than 2 ^ 31 bytes with its prefix and all together less than 2 ^ 64: in whatever pieces
    -- the requests of each connection arrive, and however the callbacks of all connections
    -- interleave, as long as no request of another connection ends the server, what was written to
    -- that connection are the replies to the first of its own requests, whole and in order, and its
    -- reader does not fault.
    pub Serves-IsServed :
        {cs : Conns}
        → Serves listening cs
        → (i : ℕ) → AllAnswered codec run head (xs i)
        → length (frames (payloads (xs i))) < 2 ^ 64
        → IsServed (xs i) (cs i)
    Serves-IsServed r i all fits =
        Reach-IsServed (xs i) all empty none_there fits (Serves-Reach r i)

    -- Under the same conditions, which concern the requests of this connection alone: a connection
    -- on which everything has arrived and nothing is left to be moved or read has had the replies
    -- to all its requests, in order, and nothing else.
    pub Serves-all :
        {cs : Conns}
        → Serves listening cs
        → (i : ℕ) → AllAnswered codec run head (xs i)
        → length (frames (payloads (xs i))) < 2 ^ 64
        → (cs i).future ≡ []
        → (filter_pbrpc_messages lib (cs i).src (cs i).dst).2 ≢ bev_ok
        → lib.bytes (cs i).dst ≡ []
        → (cs i).state ≡ frames (replies codec run head (xs i))
    Serves-all r i all fits = served_all (xs i) all empty none_there fits (Serves-Reach r i)
