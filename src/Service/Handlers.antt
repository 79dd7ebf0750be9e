-- ===== src/Service/Handlers.antt =====
-- src/rpc/service-*.c: the methods, and src/load/load_*.c: the functions behind them.
use vmp_rl.Base.{
  ℕ, ◌*◌, ◌^◌, Bool, List, [], Option, none, some, Run, done, fault, ◌>>=◌, ℤ, minus_one, codes,
  if◌then◌else◌, ◌-ℤ◌, to_ulong, Doubles,
}
use vmp_rl.Load.Task.{Ptr}
use vmp_rl.Load.System.{Info}
use vmp_rl.Load.System.Handle.{
  ls_uplink_get, ls_downlink_get, ls_cpu_get, ls_mem_total_get, ls_mem_free_get,
}
use vmp_rl.Service.Messages.{
  Packing, IdReq, DemoRsp, VmonRsp, NodeStateRsp, RegistryReq, RegistryRsp,
}

-- The end of a method: a reply that cannot be allocated stays empty.
abbrev pub replied : Bool → List ℕ → List ℕ × ℤ
replied allocated bytes = if allocated then (bytes, ℤ.pos 0) else ([], minus_one)

pub record ServiceDemoRsp : Type 0 where
  pub cnt : ℕ
  pub mem : ℕ

-- `load_child_connection_get`: the connections of a task that may be null.
unfoldable pub load_child_connection_get : Option ℕ → ℕ
load_child_connection_get none = 0
load_child_connection_get (some vmon) = vmon

unfoldable pub sc_demo_func : ℕ → ServiceDemoRsp
sc_demo_func id = record { cnt = 2; mem = 2 * 2 ^ 30 }

-- The `num` of the response.
unfoldable pub sc_vmon_func : Option ℕ → ℕ → ℕ
unfolding load_child_connection_get
sc_vmon_func process id = load_child_connection_get process

-- A request that does not decode is read through a null pointer.
unfoldable pub demo_exec :
    Packing IdReq → Packing DemoRsp → (ℕ → ServiceDemoRsp) → Bool → List ℕ → Run (List ℕ × ℤ)
demo_exec reqs rsps callback allocated params = elim (reqs.unpack params) [
  | none ↦ fault
  | some req ↦
      let svc_rsp = callback req.id in
      done (
        replied allocated
          (rsps.pack (record { id = req.id; video_cnt = svc_rsp.cnt; info_mem = svc_rsp.mem })))
]

unfoldable pub vmon_exec :
    Packing IdReq → Packing VmonRsp → (ℕ → ℕ) → Bool → List ℕ → Run (List ℕ × ℤ)
vmon_exec reqs rsps callback allocated params = elim (reqs.unpack params) [
  | none ↦ fault
  | some req ↦
      done (replied allocated (rsps.pack (record { id = req.id; count = callback req.id })))
]

-- The `id` of the service's answer; the name, the index and the number are left as they are at
-- first.
unfoldable pub registry_exec :
    Packing RegistryReq → Packing RegistryRsp → (ℕ → ℕ) → Bool → List ℕ → Run (List ℕ × ℤ)
registry_exec reqs rsps callback allocated params = elim (reqs.unpack params) [
  | none ↦ fault
  | some req ↦ done (
      replied allocated
        (rsps.pack (record { sid = callback req.sid; name = []; index = 0; num = none })))
]

-- Without `id`, which stays 0 and is not read.
pub record ServiceNodeStateRsp (D : Type 0) : Type 0 where
  pub index : ℕ
  pub name : List ℕ
  pub count : ℕ
  pub uplink : ℕ
  pub downlink : ℕ
  pub memory : ℕ
  pub cpu : D

module _ (arithmetic : Doubles) where
  open arithmetic use {D, floor_ulong}

  -- `unsigned long` fields take the rates without their fractions.
  unfoldable pub sc_node_state_func : Option ℕ → Ptr (Info D) → ℕ → Run (ServiceNodeStateRsp D)
  unfolding load_child_connection_get
  sc_node_state_func process system id = ls_mem_total_get arithmetic system >>= λ memtotal.
      ls_uplink_get arithmetic system >>= λ up. ls_downlink_get arithmetic system >>= λ down.
      ls_mem_free_get arithmetic system >>= λ free. ls_cpu_get arithmetic system >>= λ cpu.
      done (record {
        index = 0;
        name = codes "server local";
        count = load_child_connection_get process;
        uplink = floor_ulong up;
        downlink = floor_ulong down;
        memory = to_ulong (memtotal -ℤ free);
        cpu = cpu;
      })

  unfoldable pub node_state_exec :
      Packing IdReq
      → Packing (NodeStateRsp D)
      → (ℕ → Run (ServiceNodeStateRsp D))
      → Bool
      → List ℕ
      → Run (List ℕ × ℤ)
  node_state_exec reqs rsps callback allocated params = elim (reqs.unpack params) [
    | none ↦ fault
    | some req ↦ callback req.id >>= λ svc_rsp. done (
        replied allocated (
          rsps.pack (record {
            id = req.id;
            index = svc_rsp.index;
            name = svc_rsp.name;
            count = svc_rsp.count;
            uplink = svc_rsp.uplink;
            downlink = svc_rsp.downlink;
            memory = svc_rsp.memory;
            cpu = svc_rsp.cpu;
          })))
  ]
