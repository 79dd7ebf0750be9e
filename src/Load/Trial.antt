-- ===== src/Load/Trial.antt =====
-- src/rpc/rpc_clnt.c: the thread of a client, and src/load/load_core.c: the calls that the daemon
-- makes in its test mode.
pub mod Script
pub mod Calls
pub mod Replies
pub mod Daemon
pub mod Tests
use vmp_rl.Base.{
  ℕ, ◌*◌, ◌^◌, Bool, true, false, List, [], ◌++◌, Option, none, some, Run, done, fault, ℤ,
  minus_one, codes, if◌then◌else◌,
}
use vmp_rl.Rpc.Server.{Codec}
use vmp_rl.Rpc.Client.{NodeList, Memory}
use vmp_rl.Load.Task.{Ptr, null, live, freed, Life, ended, crashed, ◌>>=◌, join}
use vmp_rl.Service.Messages.{Packing, IdReq, RegistryReq}
use vmp_rl.Service.Stubs.{
  Caller, Asked, rpc_clnt_demo, rpc_clnt_vmon, rpc_clnt_node_state, rpc_clnt_registry,
}

-- A run that faults crashes.
abbrev pub life {ℓ} : {A : Type ℓ} → Run A → Life A
life (done a) = ended a
life fault = crashed

pub record RpclntReq : Type 0 where
  pub base : Option ℕ
  pub ip : List ℕ
  pub port : ℕ

-- `vmp_rpclnt_t` with its `PrivInfo`; `clnt` is null until the thread has connected, and `thread`
-- tells whether there is a thread to join.
pub record RpcClnt (Q : Type 0) : Type 0 where
  pub cond : Bool
  pub initialized : Bool
  pub thread : Bool
  pub req : RpclntReq
  pub event_base : Option ℕ
  pub clnt : Option (Caller Q)

module _ {Q : Type 0} where
  unfoldable pub vmp_rpclnt_create : Bool → Ptr (RpcClnt Q)
  vmp_rpclnt_create memory =
      if memory
      then live (record {
        cond = true;
        initialized = true;
        thread = false;
        req = record { base = none; ip = []; port = 0 };
        event_base = none;
        clnt = none;
      })
      else null

  unfoldable pub vmp_rpclnt_set : RpclntReq → Ptr (RpcClnt Q) → Life (Ptr (RpcClnt Q) × ℤ)
  vmp_rpclnt_set data' null = crashed
  vmp_rpclnt_set data' freed = crashed
  vmp_rpclnt_set data' (live t) = ended (live (record t { req = data' }), ℤ.pos 0)

  -- `rpc_clnt_thread` up to its event loop. `pbrpc_clnt_new` gives a client or null; the address
  -- and the port of the request are not used.
  unfoldable pub rpc_clnt_thread :
      (pbrpc_clnt_new : List ℕ → ℕ → Option (Caller Q)) → RpcClnt Q → RpcClnt Q
  rpc_clnt_thread pbrpc_clnt_new t = record t {
    event_base = elim (t.req.base) [ none ↦ t.event_base | some base ↦ some base ];
    clnt = pbrpc_clnt_new (codes "localhost") 9876;
  }

  -- The first argument tells whether the event loop of the thread ends.
  unfoldable pub rpc_clnt_stop : Bool → RpcClnt Q → Life (RpcClnt Q)
  rpc_clnt_stop ends t =
      let joined : RpcClnt Q = record t { cond = false; initialized = false; thread = false } in
      if t.initialized then join t.thread ends joined else ended (record t { cond = false })

  unfoldable pub vmp_rpclnt_destroy : Bool → Ptr (RpcClnt Q) → Life (Ptr (RpcClnt Q))
  vmp_rpclnt_destroy ends null = ended null
  vmp_rpclnt_destroy ends freed = crashed
  vmp_rpclnt_destroy ends (live t) =
      rpc_clnt_stop ends (record t { clnt = none }) >>= λ u. ended freed

  unfoldable pub vmp_rpclnt_start : Bool → Bool → Ptr (RpcClnt Q) → Life (Ptr (RpcClnt Q) × ℤ)
  vmp_rpclnt_start ends create null = ended (null, minus_one)
  vmp_rpclnt_start ends create freed = crashed
  vmp_rpclnt_start ends create (live t) =
      let started : RpcClnt Q = record t { thread = true } in
      if create
      then ended (live started, ℤ.pos 0)
      else vmp_rpclnt_destroy ends (live t) >>= λ q. ended (q, minus_one)

  -- `clnt_demo_call` and its likes around the call of a stub: nothing is called without a
  -- connection.
  unfoldable pub clnt_call :
      (Caller Q → Run (Caller Q × List ℕ × ℤ))
      → Ptr (RpcClnt Q)
      → Life (Ptr (RpcClnt Q) × List ℕ × ℤ)
  clnt_call stub null = ended (null, [], ℤ.pos 0)
  clnt_call stub freed = crashed
  clnt_call stub (live t) = elim (t.clnt) [
    | none ↦ ended (live t, [], ℤ.pos 0)
    | some caller ↦
        life (stub caller) >>= λ r. ended (live (record t { clnt = some r.0 }), r.1, r.2)
  ]

-- Four calls one after the other: the client, and all bytes written.
abbrev pub in_turn :
    {A : Type 0} (first second third fourth : A → Life (A × List ℕ × ℤ)) → A → Life (A × List ℕ)
in_turn first second third fourth t = first t >>= λ r.
    second r.0 >>= λ d. third d.0 >>= λ v. fourth v.0 >>= λ n. ended (n.0, r.1 ++ d.1 ++ v.1 ++ n.1)

-- The allocations of one call: those of the stub, and those of `pbrpc_clnt_call`.
pub record Grant : Type 0 where
  pub priv : Option ℕ
  pub cbuf : Bool
  pub memory : Memory

-- The request of a stub on behalf of the client at `thiz`, whose callback only logs.
abbrev pub asked_by : ℕ → Grant → Asked
asked_by thiz g = record { ctx = thiz; pfn_callback = true; priv = g.priv; cbuf = g.cbuf }

abbrev pub registry_request : RegistryReq
registry_request = record {
  sid = 1;
  name = codes "server1";
  system = codes "ubuntu";
  location = codes "chengdu";
  processor = codes "i7-5500U";
  bandwidth = 1000 * 1024 * 1024;
  memory = 8 * 2 ^ 30;
  ip = codes "localhost";
  port = 9876;
}

-- What the system answers to the test mode: `calloc` and `pthread_create` of the client, whether
-- its event loop ends, and `pbrpc_clnt_new`, as it has returned when the sleep is over.
pub record Trial (Q : Type 0) : Type 0 where
  pub calloc : Bool
  pub create : Bool
  pub ends : Bool
  pub pbrpc_clnt_new : List ℕ → ℕ → Option (Caller Q)
  pub registry_grant : Grant
  pub demo_grant : Grant
  pub vmon_grant : Grant
  pub node_state_grant : Grant

module _ {Q : Type 0} where
  -- The thread runs while the caller sleeps.
  unfoldable pub while_asleep : (List ℕ → ℕ → Option (Caller Q)) → Ptr (RpcClnt Q) → Ptr (RpcClnt Q)
  while_asleep pbrpc_clnt_new null = null
  while_asleep pbrpc_clnt_new freed = freed
  while_asleep pbrpc_clnt_new (live t) =
      if t.thread then live (rpc_clnt_thread pbrpc_clnt_new t) else live t

module _ {Q : Type 0} (lib : NodeList Q) (codec : Codec) (reqs : Packing IdReq)
    (registry : Packing RegistryReq) (thiz : ℕ) where
  abbrev pub clnt_demo_call : Grant → Ptr (RpcClnt Q) → Life (Ptr (RpcClnt Q) × List ℕ × ℤ)
  clnt_demo_call g = clnt_call (rpc_clnt_demo lib codec reqs 1 (asked_by thiz g) g.memory)

  abbrev pub clnt_vmon_call : Grant → Ptr (RpcClnt Q) → Life (Ptr (RpcClnt Q) × List ℕ × ℤ)
  clnt_vmon_call g = clnt_call (rpc_clnt_vmon lib codec reqs 1 (asked_by thiz g) g.memory)

  abbrev pub clnt_node_state_call : Grant → Ptr (RpcClnt Q) → Life (Ptr (RpcClnt Q) × List ℕ × ℤ)
  clnt_node_state_call g =
      clnt_call (rpc_clnt_node_state lib codec reqs 1 (asked_by thiz g) g.memory)

  abbrev pub load_registry_call : Grant → Ptr (RpcClnt Q) → Life (Ptr (RpcClnt Q) × List ℕ × ℤ)
  load_registry_call g =
      clnt_call (rpc_clnt_registry lib codec registry registry_request (asked_by thiz g) g.memory)

  -- The four calls in the order of the code.
  unfoldable pub test_calls :
      (registry_grant demo_grant vmon_grant node_state_grant : Grant)
      → Ptr (RpcClnt Q)
      → Life (Ptr (RpcClnt Q) × List ℕ)
  test_calls registry_grant demo_grant vmon_grant node_state_grant =
      in_turn (load_registry_call registry_grant) (clnt_demo_call demo_grant)
        (clnt_vmon_call vmon_grant) (clnt_node_state_call node_state_grant)

  -- `load_core_test` with `config->client`; the result of the start is not tested.
  unfoldable pub load_core_test : Trial Q → Life (Ptr (RpcClnt Q) × List ℕ)
  load_core_test w =
      let req : RpclntReq = record { base = none; ip = codes "localhost"; port = 9876 } in
      vmp_rpclnt_set req (vmp_rpclnt_create w.calloc) >>= λ set.
      vmp_rpclnt_start w.ends w.create set.0 >>= λ started.
      test_calls w.registry_grant w.demo_grant w.vmon_grant w.node_state_grant
        (while_asleep w.pbrpc_clnt_new started.0)
