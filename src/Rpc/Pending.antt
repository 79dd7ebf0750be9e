-- ===== src/Rpc/Pending.antt =====
-- src/rpc/pbc/pbrpc-clnt.c: which callback a response reaches.
use mathlib.Core.Path.{subst}
use vmp_rl.Base.{
  ℕ, ◌+◌, ◌-◌, ◌^◌, ◌≤◌, ◌<◌, ◌≡◌, ◌≢◌, refl, ap, >>=-eq-done, ◌∙◌, ◌⊎◌, inl, inr, Bool, true,
  false, List, [], ◌∷◌, ◌++◌, Option, none, some, done, arith, length, All, u32, extend32, All-snoc,
}
use vmp_rl.Rpc.Wire.{frame}
use vmp_rl.Rpc.Server.{Response, Codec, read_payload}
use vmp_rl.Rpc.Dispatch.{read_payload-frame}
use vmp_rl.Rpc.Client.{
  Node, without, NodeList, Clnt, next_id, find_call, pbrpc_clnt_call, Reply, take_reply,
  on_response, process_response, Memory,
}
use vmp_rl.Rpc.Ids.{
  IsFresh, Distinct-snoc, All-le, IsFresh-without, find_call-at, without-at, find_call-none,
}

-- No 32 bits stand for an id between.
bits-other :
    (id : ℕ)
    → 2 ^ 31 ≤ id
    → id < 2 ^ 64 - 2 ^ 31
    → (ns : List Node) → All (λ n. n.id < 2 ^ 32) ns
    → All (λ n. extend32 n.id ≢ id) ns
bits-other id low high [] h = tt
bits-other id low high (n ∷ ns) h = (other, bits-other id low high ns h.1)
  where
    other : extend32 n.id ≢ id
    other = ground (arith, low, high, h.0)

module _ {Q : Type 0} (lib : NodeList Q) where
  abbrev pub entries_of : Clnt Q → List Node
  entries_of clnt = lib.entries clnt.outstanding

  abbrev pub Fresh : Clnt Q → Type 0
  Fresh clnt = IsFresh clnt.id_gen (entries_of clnt)

  -- A call whose id is below 2 ^ 31 keeps the ids of the outstanding calls distinct and at most the
  -- last id given out.
  pub pbrpc_clnt_call-Fresh :
      (codec : Codec) (clnt : Clnt Q) (method params : List ℕ) (replymsg args : ℕ) (memory : Memory)
      → clnt.id_gen + 1 < 2 ^ 31
      → Fresh clnt
      → Fresh (pbrpc_clnt_call lib codec clnt method params replymsg args memory).0
  unfolding pbrpc_clnt_call
  pbrpc_clnt_call-Fresh codec clnt method params replymsg args memory room f =
      go memory.strdup memory.entry
    where
      id : ℕ
      id = next_id clnt.id_gen

      same : id ≡ clnt.id_gen + 1
      same = unfold next_id in omega arith

      entry : Node
      entry = record { id = u32 id; replymsg = replymsg; ctx = args }

      is_id : u32 id ≡ clnt.id_gen + 1
      is_id = omega (arith, same)

      older : IsFresh id (entries_of clnt)
      older = record {
        small = omega (arith, same);
        below = All-le (entries_of clnt) clnt.id_gen id (omega (arith, same)) f.below;
        distinct = f.distinct;
      }

      added : IsFresh id (lib.entries (lib.list_add_tail entry clnt.outstanding))
      added = rw (lib.entries_added entry clnt.outstanding) (record {
        small = omega (arith, same);
        below =
            All-snoc (λ n. n.id ≤ id) (entries_of clnt) entry older.below
              (omega (arith, same, is_id));
        distinct =
            Distinct-snoc (entries_of clnt) entry clnt.id_gen f.below (omega (arith, is_id))
              f.distinct;
      })

      go :
          (strdup alloc : Bool)
          → Fresh
              (pbrpc_clnt_call lib codec clnt method params replymsg args
                (record { strdup = strdup; entry = alloc; buffer = memory.buffer })).0
      go false alloc = f
      go true false = older
      go true true = added

  on_response-Fresh :
      (clnt : Clnt Q) (rsp : Option Response) → Fresh clnt → Fresh (on_response lib clnt rsp).0
  unfolding on_response take_reply
  on_response-Fresh clnt none f = f
  on_response-Fresh clnt (some rsp) f = go (find_call rsp.id (entries_of clnt))
    where
      go : (o : Option (ℕ × Node)) → Fresh (take_reply lib clnt rsp o).0
      go none = f
      go (some (i, call)) =
          rw (lib.entries_deleted i clnt.outstanding) (IsFresh-without i (entries_of clnt) f)

  pub process_response-Fresh :
      (codec : Codec) (clnt clnt' : Clnt Q) (msg : List ℕ) (r : Option Reply) (n : ℕ)
      → Fresh clnt
      → process_response lib codec clnt msg ≡ done (clnt', r, n)
      → Fresh clnt'
  unfolding process_response
  process_response-Fresh codec clnt clnt' msg r n f e =
      let (p, _, e') = >>=-eq-done (read_payload msg) _ e in
      let o = on_response lib clnt (codec.unpack_response p.0) in
      let same : o.0 ≡ clnt' = cc in
      subst Fresh same (on_response-Fresh clnt (codec.unpack_response p.0) f)

  -- The client without the outstanding call behind `before`, and what the callback of a call gets.
  abbrev pub without_call : Clnt Q → List Node → Clnt Q
  without_call clnt before = record clnt {
    outstanding = lib.list_del_init (length before) clnt.outstanding;
  }

  abbrev pub reply_to : Node → Response → Reply
  reply_to call rsp = record { replymsg = call.replymsg; ctx = call.ctx; result = rsp.result }

  pub process_response_at :
      (codec : Codec) (clnt : Clnt Q) (before after : List Node) (call : Node) (rsp : Response)
      (payload rest : List ℕ)
      → Fresh clnt
      → entries_of clnt ≡ before ++ call ∷ after
      → codec.unpack_response payload ≡ some rsp
      → rsp.id ≡ call.id
      → 8 + length payload < 2 ^ 31
      → process_response lib codec clnt (frame payload ++ rest)
        ≡ done (without_call clnt before, some (reply_to call rsp), 8 + length payload)
  unfolding process_response on_response take_reply
  process_response_at codec clnt before after call rsp payload rest f here decoded same fits =
      rw (read_payload-frame payload rest (omega arith), decoded, found, width)
    where
      found : find_call rsp.id (entries_of clnt) ≡ some (length before, call)
      found = rw (same, here) (find_call-at clnt.id_gen before call after (rw here at f))

      width : extend32 (u32 (8 + length payload)) ≡ 8 + length payload
      width = ground arith

  pub without_call-entries :
      (clnt : Clnt Q) (before after : List Node) (call : Node)
      → entries_of clnt ≡ before ++ call ∷ after
      → entries_of (without_call clnt before) ≡ before ++ after
  without_call-entries clnt before after call here =
      lib.entries_deleted (length before) clnt.outstanding
      ∙ ap (without (length before)) here
      ∙ without-at before call after

  pub without_call-Fresh :
      (clnt : Clnt Q) (before : List Node) → Fresh clnt → Fresh (without_call clnt before)
  without_call-Fresh clnt before f =
      rw (lib.entries_deleted (length before) clnt.outstanding)
        (IsFresh-without (length before) (entries_of clnt) f)

  -- The response to an outstanding call runs the callback of that call, once, with the response's
  -- result, and takes the call and no other out of the list.
  pub process_response_answered :
      (codec : Codec) (clnt : Clnt Q) (before after : List Node) (call : Node) (rsp : Response)
      (payload rest : List ℕ)
      → Fresh clnt
      → entries_of clnt ≡ before ++ call ∷ after
      → codec.unpack_response payload ≡ some rsp
      → rsp.id ≡ call.id
      → 8 + length payload < 2 ^ 31
      → (clnt' : Clnt Q) × (process_response lib codec clnt (frame payload ++ rest)
          ≡ done (
            clnt',
            some (record { replymsg = call.replymsg; ctx = call.ctx; result = rsp.result }),
            8 + length payload,
          ))
        × (entries_of clnt' ≡ before ++ after)
        × (clnt'.id_gen ≡ clnt.id_gen)
  process_response_answered codec clnt before after call rsp payload rest f here decoded same fits =
      (
        without_call clnt before,
        process_response_at codec clnt before after call rsp payload rest f here decoded same fits,
        without_call-entries clnt before after call here,
        refl,
      )

  -- A response that does not decode, or whose id no outstanding call has, is consumed and changes
  -- nothing.
  pub process_response_dropped :
      (codec : Codec) (clnt : Clnt Q) (payload rest : List ℕ)
      → (codec.unpack_response payload ≡ none)
        ⊎ ((rsp : Response) × (codec.unpack_response payload ≡ some rsp)
            × All (λ n. extend32 n.id ≢ rsp.id) (entries_of clnt))
      → 8 + length payload < 2 ^ 31
      → process_response lib codec clnt (frame payload ++ rest)
        ≡ done (clnt, none, 8 + length payload)
  unfolding process_response on_response take_reply
  process_response_dropped codec clnt payload rest why fits = elim why [
    | inl bad ↦ rw (read_payload-frame payload rest (omega arith), bad, width)
    | inr (rsp, decoded, all) ↦ rw (
      read_payload-frame payload rest (omega arith),
      decoded,
      find_call-none rsp.id (entries_of clnt) all,
      width,
    )
  ]
    where
      width : extend32 (u32 (8 + length payload)) ≡ 8 + length payload
      width = ground arith

  -- The bits of a call's id say less than the id that is sent: from id 2 ^ 31 to 2 ^ 64 - 2 ^ 31 - 1
  -- the response to a call, for which there was memory, is dropped and the call stays in the list,
  -- whatever other calls are outstanding.
  pub process_response_lost :
      (codec : Codec) (clnt : Clnt Q) (method params : List ℕ) (replymsg args : ℕ) (rsp : Response)
      (payload rest : List ℕ)
      → All (λ n. n.id < 2 ^ 32) (entries_of clnt)
      → 2 ^ 31 ≤ clnt.id_gen + 1
      → clnt.id_gen + 1 < 2 ^ 64 - 2 ^ 31
      → codec.unpack_response payload ≡ some rsp
      → rsp.id ≡ clnt.id_gen + 1
      → 8 + length payload < 2 ^ 31
      → (let called =
            (pbrpc_clnt_call lib codec clnt method params replymsg args
              (record { strdup = true; entry = true; buffer = true })).0 in
          (called.id_gen ≡ clnt.id_gen + 1)
          × (process_response lib codec called (frame payload ++ rest)
              ≡ done (called, none, 8 + length payload)))
  unfolding pbrpc_clnt_call
  process_response_lost codec clnt method params replymsg args rsp payload rest bits low high
        decoded same fits =
      (
        counted,
        process_response_dropped codec _ payload rest
            (inr (
              rsp,
              decoded,
              rw (lib.entries_added entry clnt.outstanding) (
                  All-snoc (λ n. extend32 n.id ≢ rsp.id) (entries_of clnt) entry
                    (bits-other rsp.id (omega (arith, same)) (omega (arith, same)) (entries_of clnt)
                      bits)
                    (ground (arith, counted, same))),
            ))
            fits,
      )
    where
      counted : next_id clnt.id_gen ≡ clnt.id_gen + 1
      counted = unfold next_id in omega arith

      entry : Node
      entry = record { id = u32 (next_id clnt.id_gen); replymsg = replymsg; ctx = args }
