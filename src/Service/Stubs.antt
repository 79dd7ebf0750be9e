-- ===== src/Service/Stubs.antt =====
-- src/rpc/clnt_*.c: the stubs that call a method and take its reply.
use vmp_rl.Base.{
  ℕ, zero, suc, negsuc, Bool, List, [], ◌∷◌, ◌++◌, Option, none, some, Run, done, fault, ℤ,
  minus_one, pos, ◌==◌, if◌then◌else◌,
}
use vmp_rl.Rpc.Server.{Codec}
use vmp_rl.Rpc.Client.{NodeList, Clnt, Memory, pbrpc_clnt_call}
use vmp_rl.Service.Messages.{
  Packing, IdReq, DemoRsp, VmonRsp, NodeStateRsp, RegistryReq, RegistryRsp, demo_sc_name,
  vmon_sc_name, node_state_sc_name, registry_sc_name,
}

-- `PrivInfo` of a stub, at its address: the caller's context, and whether there is a callback.
pub record Priv : Type 0 where
  pub address : ℕ
  pub ctx : ℕ
  pub pfn_callback : Bool

-- The client and the `PrivInfo`s that are allocated.
pub record Caller (Q : Type 0) : Type 0 where
  pub clnt : Clnt Q
  pub privs : List Priv

-- A request of a caller, and what the allocations of the stub give: an address for the `PrivInfo`
-- and a buffer for the packed request.
pub record Asked : Type 0 where
  pub ctx : ℕ
  pub pfn_callback : Bool
  pub priv : Option ℕ
  pub cbuf : Bool

-- What the caller's callback is told: its context, a code, and the answer.
pub record Told {ℓ} (R : Type ℓ) : Type ℓ where
  pub ctx : ℕ
  pub msg : ℤ
  pub arg : Option R

-- The addresses of the reply callbacks.
abbrev pub demo_reply_cb_at : ℕ
demo_reply_cb_at = 1

abbrev pub vmon_reply_cb_at : ℕ
vmon_reply_cb_at = 2

abbrev pub node_state_reply_cb_at : ℕ
node_state_reply_cb_at = 3

abbrev pub registry_reply_cb_at : ℕ
registry_reply_cb_at = 4

module _ {Q : Type 0} (lib : NodeList Q) (codec : Codec) where
  -- `rpc_clnt_demo` and its likes: neither allocation is tested, and the `PrivInfo` of a call that
  -- fails is kept.
  unfoldable pub rpc_clnt :
      (name : List ℕ) (reply_cb : ℕ) (request : List ℕ)
      → Asked
      → Memory
      → Caller Q
      → Run (Caller Q × List ℕ × ℤ)
  rpc_clnt name reply_cb request asked memory caller = elim asked.priv [
    | none ↦ fault
    | some address ↦
        let priv : Priv = record {
          address = address;
          ctx = asked.ctx;
          pfn_callback = asked.pfn_callback;
        } in
        let called = pbrpc_clnt_call lib codec caller.clnt name request reply_cb address memory in
        if asked.cbuf
        then done
            (record { clnt = called.0; privs = caller.privs ++ priv ∷ [] }, called.1, called.2)
        else fault
  ]

  unfoldable pub rpc_clnt_demo :
      Packing IdReq → ℕ → Asked → Memory → Caller Q → Run (Caller Q × List ℕ × ℤ)
  rpc_clnt_demo reqs id asked memory caller =
      rpc_clnt demo_sc_name demo_reply_cb_at (reqs.pack (record { id = id })) asked memory caller

  unfoldable pub rpc_clnt_vmon :
      Packing IdReq → ℕ → Asked → Memory → Caller Q → Run (Caller Q × List ℕ × ℤ)
  rpc_clnt_vmon reqs id asked memory caller =
      rpc_clnt vmon_sc_name vmon_reply_cb_at (reqs.pack (record { id = id })) asked memory caller

  unfoldable pub rpc_clnt_node_state :
      Packing IdReq → ℕ → Asked → Memory → Caller Q → Run (Caller Q × List ℕ × ℤ)
  rpc_clnt_node_state reqs id asked memory caller =
      rpc_clnt node_state_sc_name node_state_reply_cb_at (reqs.pack (record { id = id })) asked
        memory caller

  unfoldable pub rpc_clnt_registry :
      Packing RegistryReq → RegistryReq → Asked → Memory → Caller Q → Run (Caller Q × List ℕ × ℤ)
  rpc_clnt_registry reqs req asked memory caller =
      rpc_clnt registry_sc_name registry_reply_cb_at (reqs.pack req) asked memory caller

-- `free` of the `PrivInfo` at an address, with what it held; no other is freed twice.
unfoldable pub take_priv : ℕ → List Priv → Option (Priv × List Priv)
take_priv address [] = none
take_priv address (p ∷ ps) =
    if p.address == address
    then some (p, ps)
    else elim (take_priv address ps) [ none ↦ none | some (q, qs) ↦ some (q, p ∷ qs) ]

-- What a stub tells its caller, where that has a callback.
abbrev pub tell {ℓ} : {R : Type ℓ} → Priv → ℤ → Option R → Option (Told R)
tell priv msg arg =
    if priv.pfn_callback then some (record { ctx = priv.ctx; msg = msg; arg = arg }) else none

module _ {Q : Type 0} {M R : Type 0} where
  -- `demo_reply_cb` and its likes, where `read` makes the answer of the message: the caller
  -- afterwards, what it is told, and the result. A `ret` other than 0 is not told.
  unfoldable pub reply_cb :
      (unpack : List ℕ → Option M) (read : M → R) (ctx : ℕ) (msg : List ℕ) (ret : ℤ)
      → Caller Q
      → Run (Caller Q × Option (Told R) × ℤ)
  reply_cb unpack read ctx msg ret caller = elim (take_priv ctx caller.privs) [
    | none ↦ fault
    | some (priv, rest) ↦
        let deleted : Caller Q = record { clnt = caller.clnt; privs = rest } in
        elim ret [
          | pos zero ↦ elim (unpack msg) [
            | none ↦ done (deleted, tell priv minus_one none, minus_one)
            | some rsp ↦ done (deleted, tell priv (pos 0) (some (read rsp)), pos 0)
          ]
          | pos (suc n) ↦ done (deleted, none, pos (suc n))
          | negsuc n ↦ done (deleted, none, negsuc n)
        ]
  ]

pub record ClntDemoRsp : Type 0 where
  pub id : ℕ
  pub count : ℕ
  pub memory : ℕ

abbrev pub demo_info : DemoRsp → ClntDemoRsp
demo_info rsp = record { id = rsp.id; count = rsp.video_cnt; memory = rsp.info_mem }

pub record ClntServerRegistryRsp : Type 0 where
  pub id : ℕ
  pub name : List ℕ
  pub index : ℕ
  pub num : ℕ

-- Without `has_num` the number stays 0.
abbrev pub registry_num : Option ℕ → ℕ
registry_num none = 0
registry_num (some num) = num

abbrev pub registry_info : RegistryRsp → ClntServerRegistryRsp
registry_info rsp = record {
  id = rsp.sid;
  name = rsp.name;
  index = rsp.index;
  num = registry_num rsp.num;
}

module _ {Q : Type 0} where
  unfoldable pub demo_reply_cb :
      Packing DemoRsp → ℕ → List ℕ → ℤ → Caller Q → Run (Caller Q × Option (Told ClntDemoRsp) × ℤ)
  unfolding reply_cb
  demo_reply_cb rsps ctx msg ret caller = reply_cb rsps.unpack demo_info ctx msg ret caller

  -- The answer has the fields of the message.
  unfoldable pub vmon_reply_cb :
      Packing VmonRsp → ℕ → List ℕ → ℤ → Caller Q → Run (Caller Q × Option (Told VmonRsp) × ℤ)
  unfolding reply_cb
  vmon_reply_cb rsps ctx msg ret caller = reply_cb rsps.unpack (λ r. r) ctx msg ret caller

  unfoldable pub node_state_reply_cb :
      {D : Type 0}
      → Packing (NodeStateRsp D)
      → ℕ
      → List ℕ
      → ℤ
      → Caller Q
      → Run (Caller Q × Option (Told (NodeStateRsp D)) × ℤ)
  unfolding reply_cb
  node_state_reply_cb rsps ctx msg ret caller = reply_cb rsps.unpack (λ r. r) ctx msg ret caller

  unfoldable pub registry_reply_cb :
      Packing RegistryRsp
      → ℕ
      → List ℕ
      → ℤ
      → Caller Q
      → Run (Caller Q × Option (Told ClntServerRegistryRsp) × ℤ)
  unfolding reply_cb
  registry_reply_cb rsps ctx msg ret caller = reply_cb rsps.unpack registry_info ctx msg ret caller
