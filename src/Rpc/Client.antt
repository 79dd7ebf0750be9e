-- ===== src/Rpc/Client.antt =====
-- src/rpc/pbc/pbrpc-clnt.c: a caller, its outstanding calls, and the responses to them.
use vmp_rl.Base.{
  ℕ, zero, suc, ◌+◌, ◌≡◌, Bool, true, false, List, [], ◌∷◌, ◌++◌, Option, none, some, Run, done,
  ◌>>=◌, ℤ, minus_one, ◌==◌, if◌then◌else◌, u32, u64, extend32, length,
}
use vmp_rl.Rpc.Wire.{frame}
use vmp_rl.Rpc.Server.{Request, Response, Codec, read_payload}

-- `rpc_node_t`: the bits of its `int32_t` id, and the addresses of its callback and context.
pub record Node : Type 0 where
  pub id : ℕ
  pub replymsg : ℕ
  pub ctx : ℕ

-- The list without its entry at a position.
abbrev pub without : ℕ → List Node → List Node
without i [] = []
without zero (n ∷ ns) = ns
without (suc i) (n ∷ ns) = n ∷ without i ns

-- What the client uses of the list macros: the entries in order, `list_add_tail`, and
-- `list_del_init` at the place where a walk over the entries stands.
pub record NodeList (Q : Type 0) : Type 0 where
  pub entries : Q → List Node
  pub list_add_tail : Node → Q → Q
  pub list_del_init : ℕ → Q → Q
  pub entries_added : (n : Node) (q : Q) → entries (list_add_tail n q) ≡ entries q ++ n ∷ []
  pub entries_deleted : (i : ℕ) (q : Q) → entries (list_del_init i q) ≡ without i (entries q)

-- `pbrpc_clnt`, with the counter behind `next_id`.
pub record Clnt (Q : Type 0) : Type 0 where
  pub id_gen : ℕ
  pub outstanding : Q

unfoldable pub next_id : ℕ → ℕ
next_id id_gen = u64 (id_gen + 1)

-- Which allocations of a call succeed: the copy of the method's name, the entry, the buffer.
pub record Memory : Type 0 where
  pub strdup : Bool
  pub entry : Bool
  pub buffer : Bool

-- The bytes handed to `bufferevent_write`, and the length or -1.
unfoldable pub rpc_write_request : Codec → Bool → Request → List ℕ × ℤ
rpc_write_request codec true req =
    let bytes = frame (codec.pack_request req) in (bytes, ℤ.pos (length bytes))
rpc_write_request codec false req = ([], minus_one)

-- The walk over the outstanding calls: the entry and its position. `call->id` is an `int32_t` and
-- `rsp->id` a `uint64_t`, so the comparison extends the sign.
unfoldable pub find_call : ℕ → List Node → Option (ℕ × Node)
find_call id [] = none
find_call id (call ∷ rest) =
    if extend32 call.id == id
    then some (0, call)
    else elim (find_call id rest) [ none ↦ none | some (i, n) ↦ some (suc i, n) ]

-- The callback that is run: its address, its context and the result.
pub record Reply : Type 0 where
  pub replymsg : ℕ
  pub ctx : ℕ
  pub result : List ℕ

module _ {Q : Type 0} (lib : NodeList Q) where
  -- The new state, the bytes written, and the result.
  unfoldable pub pbrpc_clnt_call :
      Codec → Clnt Q → (method params : List ℕ) → (replymsg args : ℕ) → Memory → Clnt Q × List ℕ × ℤ
  unfolding next_id rpc_write_request
  pbrpc_clnt_call codec clnt method params replymsg args memory =
      let id = next_id clnt.id_gen in
      let entry : Node = record { id = u32 id; replymsg = replymsg; ctx = args } in
      let reqhdr : Request = record { id = id; method = method; params = some params } in
      if memory.strdup
      then if memory.entry
        then (
          record { id_gen = id; outstanding = lib.list_add_tail entry clnt.outstanding },
          (rpc_write_request codec memory.buffer reqhdr).0,
          ℤ.pos 0,
        )
        else (record clnt { id_gen = id }, [], minus_one)
      else (clnt, [], minus_one)

  unfoldable pub take_reply : Clnt Q → Response → Option (ℕ × Node) → Clnt Q × Option Reply
  take_reply clnt rsp none = (clnt, none)
  take_reply clnt rsp (some (i, call)) = (
    record clnt { outstanding = lib.list_del_init i clnt.outstanding },
    some (record { replymsg = call.replymsg; ctx = call.ctx; result = rsp.result }),
  )

  -- A response that does not decode is dropped.
  unfoldable pub on_response : Clnt Q → Option Response → Clnt Q × Option Reply
  unfolding take_reply
  on_response clnt none = (clnt, none)
  on_response clnt (some rsp) =
      take_reply clnt rsp (find_call rsp.id (lib.entries clnt.outstanding))

  unfoldable pub process_response : Codec → Clnt Q → List ℕ → Run (Clnt Q × Option Reply × ℕ)
  unfolding on_response
  process_response codec clnt msg = read_payload msg >>= λ p.
      let r = on_response clnt (codec.unpack_response p.0) in done (r.0, r.1, extend32 (u32 p.1))
