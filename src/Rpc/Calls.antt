-- ===== src/Rpc/Calls.antt =====
-- src/rpc/pbc/pbrpc-clnt.c: several calls of a client one after the other, and the requests and
-- responses that belong to them.
use mathlib.Core.List.{append_assoc, append-nil}
use vmp_rl.Base.{
  ℕ, ◌+◌, ◌*◌, ◌^◌, ◌<◌, ◌≤◌, length-append, ◌≡◌, refl, sym, ap, ◌∙◌, List, [], ◌∷◌, ◌++◌, map,
  some, done, ℤ, arith, length, u32,
}
use vmp_rl.Rpc.Wire.{frame, length-frame}
use vmp_rl.Rpc.Frames.{frames}
use vmp_rl.Rpc.Callouts.{Callouts}
use vmp_rl.Rpc.Server.{Request, Response, response_init, Codec, Methods, rpc_invoke_call}
use vmp_rl.Rpc.Serving.{Exchange, payloads, replies, AllAnswered}
use vmp_rl.Rpc.Client.{Node, NodeList, Clnt, Reply, next_id, pbrpc_clnt_call}
use vmp_rl.Rpc.Pending.{Fresh, entries_of, pbrpc_clnt_call-Fresh}
use vmp_rl.Rpc.RoundTrip.{plenty}
use vmp_rl.Rpc.Told.{Incoming, incoming_payloads, replies_to, Answers, no_more, next}

-- The arguments of a `pbrpc_clnt_call`, with the result that the method is to give.
pub record Call : Type 0 where
  pub method : List ℕ
  pub params : List ℕ
  pub replymsg : ℕ
  pub args : ℕ
  pub result : List ℕ

-- The request, the response and the entry of a call by the id that it gets.
abbrev pub request_of : ℕ → Call → Request
request_of id c = record { id = id; method = c.method; params = some c.params }

abbrev pub response_of : ℕ → Call → Response
response_of id c = record { id = id; result = c.result }

abbrev pub node_of : ℕ → Call → Node
node_of id c = record { id = id; replymsg = c.replymsg; ctx = c.args }

-- What the callbacks of the calls are to be told.
abbrev pub results : List Call → List Reply
results = map (λ c. record { replymsg = c.replymsg; ctx = c.args; result = c.result })

-- The entries that the calls add behind the id `id`.
abbrev pub nodes : ℕ → List Call → List Node
nodes id [] = []
nodes id (c ∷ cs) = node_of (id + 1) c ∷ nodes (id + 1) cs

module _ (codec : Codec) where
  abbrev pub exchanges : ℕ → List Call → List Exchange
  exchanges id [] = []
  exchanges id (c ∷ cs) =
      record {
        payload = codec.pack_request (request_of (id + 1) c);
        response = response_of (id + 1) c;
      }
      ∷ exchanges (id + 1) cs

  abbrev pub incoming : ℕ → List Call → List Incoming
  incoming id [] = []
  incoming id (c ∷ cs) =
      record {
        payload = codec.pack_response (response_of (id + 1) c);
        response = response_of (id + 1) c;
        call = node_of (id + 1) c;
      }
      ∷ incoming (id + 1) cs

  -- The request and the response of a call survive the wire, and fit.
  pub record IsCarried (id : ℕ) (c : Call) : Type 0 where
    pub decoded :
        codec.unpack_request (codec.pack_request (request_of id c)) ≡ some (request_of id c)
    pub small : 8 + length (codec.pack_request (request_of id c)) < 2 ^ 31
    pub back :
        codec.unpack_response (codec.pack_response (response_of id c)) ≡ some (response_of id c)
    pub back_small : 8 + length (codec.pack_response (response_of id c)) < 2 ^ 31

  abbrev pub AreCarried : ℕ → List Call → Type 0
  AreCarried id [] = Unit
  AreCarried id (c ∷ cs) = IsCarried (id + 1) c × AreCarried (id + 1) cs

  module _ (run : Methods) (head : Callouts) where
    -- Besides, its method gives the result.
    pub record IsAnswered (id : ℕ) (c : Call) : Type 0 where
      pub carried : IsCarried id c
      pub code : ℤ
      pub invoked :
          rpc_invoke_call run head (request_of id c) response_init ≡ done (response_of id c, code)

    abbrev pub AreAnswered : ℕ → List Call → Type 0
    AreAnswered id [] = Unit
    AreAnswered id (c ∷ cs) = IsAnswered (id + 1) c × AreAnswered (id + 1) cs

    pub carried_of : (id : ℕ) (cs : List Call) → AreAnswered id cs → AreCarried id cs
    carried_of id [] a = tt
    carried_of id (c ∷ cs) a = (a.0.carried, carried_of (id + 1) cs a.1)

    pub exchanges-AllAnswered :
        (id : ℕ) (cs : List Call) → AreAnswered id cs → AllAnswered codec run head (exchanges id cs)
    exchanges-AllAnswered id [] a = tt
    exchanges-AllAnswered id (c ∷ cs) a = (
      record {
        request = request_of (id + 1) c;
        code = a.0.code;
        decoded = a.0.carried.decoded;
        invoked = a.0.invoked;
        small = a.0.carried.small;
      },
      exchanges-AllAnswered (id + 1) cs a.1,
    )

    -- The responses in the order of the calls leave the calls that were outstanding before.
    pub incoming-Answers :
        (ns : List Node) (id : ℕ) (cs : List Call)
        → AreAnswered id cs
        → Answers codec (ns ++ nodes id cs) (incoming id cs) ns
    incoming-Answers ns id [] a = rw (append-nil ns) no_more
    incoming-Answers ns id (c ∷ cs) a =
        next ns (nodes (id + 1) cs) _ refl a.0.carried.back refl a.0.carried.back_small
          (incoming-Answers ns (id + 1) cs a.1)

    pub replies-exchanges :
        (id : ℕ) (cs : List Call)
        → replies codec run head (exchanges id cs) ≡ incoming_payloads (incoming id cs)
    replies-exchanges id [] = refl
    replies-exchanges id (c ∷ cs) =
        ap (◌∷◌ (codec.pack_response (response_of (id + 1) c))) (replies-exchanges (id + 1) cs)

  -- Messages that fit by themselves fit together.
  pub exchanges_size :
      (id : ℕ) (cs : List Call)
      → AreCarried id cs
      → length (frames (payloads (exchanges id cs))) ≤ 2 ^ 31 * length cs
  exchanges_size id [] a = omega arith
  exchanges_size id (c ∷ cs) a =
      let payload = codec.pack_request (request_of (id + 1) c) in
      omega (
        arith,
        a.0.small,
        length-frame payload,
        length-append (frame payload) (frames (payloads (exchanges (id + 1) cs))),
        exchanges_size (id + 1) cs a.1,
      )

  pub incoming_size :
      (id : ℕ) (cs : List Call)
      → AreCarried id cs
      → length (frames (incoming_payloads (incoming id cs))) ≤ 2 ^ 31 * length cs
  incoming_size id [] a = omega arith
  incoming_size id (c ∷ cs) a =
      let payload = codec.pack_response (response_of (id + 1) c) in
      omega (
        arith,
        a.0.back_small,
        length-frame payload,
        length-append (frame payload) (frames (incoming_payloads (incoming (id + 1) cs))),
        incoming_size (id + 1) cs a.1,
      )

  pub replies_to-incoming : (id : ℕ) (cs : List Call) → replies_to (incoming id cs) ≡ results cs
  replies_to-incoming id [] = refl
  replies_to-incoming id (c ∷ cs) =
      ap (◌∷◌ (record { replymsg = c.replymsg; ctx = c.args; result = c.result }))
        (replies_to-incoming (id + 1) cs)

  module _ {Q : Type 0} (lib : NodeList Q) where
    abbrev pub call_with : Clnt Q → Call → Clnt Q × List ℕ × ℤ
    call_with clnt c = pbrpc_clnt_call lib codec clnt c.method c.params c.replymsg c.args plenty

    -- Calls one after the other: the client, and all bytes that were written.
    abbrev pub make_calls : Clnt Q → List Call → Clnt Q × List ℕ
    make_calls clnt [] = (clnt, [])
    make_calls clnt (c ∷ cs) =
        let called = call_with clnt c in
        let more = make_calls called.0 cs in (more.0, called.1 ++ more.1)

    -- What the calls leave behind in the client.
    pub record Made (clnt : Clnt Q) (cs : List Call) (made : Clnt Q × List ℕ) : Type 0 where
      pub fresh : Fresh lib made.0
      pub outstanding : entries_of lib made.0 ≡ entries_of lib clnt ++ nodes clnt.id_gen cs
      pub written : made.1 ≡ frames (payloads (exchanges clnt.id_gen cs))

    call_once :
        (clnt : Clnt Q) (c : Call)
        → clnt.id_gen + 1 < 2 ^ 31
        → let called = call_with clnt c in
          (called.0.id_gen ≡ clnt.id_gen + 1)
          × (entries_of lib called.0 ≡ entries_of lib clnt ++ node_of (clnt.id_gen + 1) c ∷ [])
          × (called.1 ≡ frame (codec.pack_request (request_of (clnt.id_gen + 1) c)))
    unfolding pbrpc_clnt_call
    call_once clnt c room = (
      counted,
      lib.entries_added _ clnt.outstanding
          ∙ ap (λ (i : ℕ). entries_of lib clnt ++ node_of i c ∷ []) narrow,
      ap (λ (i : ℕ). frame (codec.pack_request (request_of i c))) counted,
    )
      where
        counted : next_id clnt.id_gen ≡ clnt.id_gen + 1
        counted = unfold next_id in omega arith

        narrow : u32 (next_id clnt.id_gen) ≡ clnt.id_gen + 1
        narrow = omega (arith, counted)

    pub make_calls-Made :
        (clnt : Clnt Q) (cs : List Call)
        → Fresh lib clnt
        → clnt.id_gen + length cs < 2 ^ 31
        → Made clnt cs (make_calls clnt cs)
    make_calls-Made clnt [] f room = record {
      fresh = f;
      outstanding = sym (append-nil (entries_of lib clnt));
      written = refl;
    }
    make_calls-Made clnt (c ∷ cs) f room =
        let called = call_with clnt c in
        let once = call_once clnt c (omega arith) in
        let more =
          make_calls-Made called.0 cs
            (pbrpc_clnt_call-Fresh lib codec clnt c.method c.params c.replymsg c.args plenty
              (omega arith) f)
            (omega (arith, once.0)) in
        record {
          fresh = more.fresh;
          outstanding =
              more.outstanding
              ∙ ap (λ (i : ℕ). entries_of lib called.0 ++ nodes i cs) once.0
              ∙ ap (λ (ns : List Node). ns ++ nodes (clnt.id_gen + 1) cs) once.1
              ∙ append_assoc (entries_of lib clnt) (node_of (clnt.id_gen + 1) c ∷ [])
                  (nodes (clnt.id_gen + 1) cs);
          written =
              ap (λ (bs : List ℕ). called.1 ++ bs)
                (more.written ∙ ap (λ (i : ℕ). frames (payloads (exchanges i cs))) once.0)
              ∙ ap (λ (bs : List ℕ). bs ++ frames (payloads (exchanges (clnt.id_gen + 1) cs)))
                  once.2;
        }
