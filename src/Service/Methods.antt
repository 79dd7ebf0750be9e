-- ===== src/Service/Methods.antt =====
-- src/rpc/service-*.c: the methods of the daemon behind their addresses.
use vmp_rl.Base.{ℕ, true, List, Option, Run, fault, ℤ, ◌==◌, if◌then◌else◌, Doubles}
use vmp_rl.Rpc.Server.{Methods}
use vmp_rl.Load.Task.{Ptr}
use vmp_rl.Load.System.{Info}
use vmp_rl.Service.Messages.{Packing, IdReq, DemoRsp, VmonRsp, NodeStateRsp}
use vmp_rl.Service.Handlers.{
  demo_exec, vmon_exec, node_state_exec, sc_demo_func, sc_vmon_func, sc_node_state_func,
}
use vmp_rl.Service.Register.{Kind, demo, vmon, node_state, exec}

-- The generated functions of the messages of these methods.
pub record Packings (D : Type 0) : Type 0 where
  pub requests : Packing IdReq
  pub demo : Packing DemoRsp
  pub vmon : Packing VmonRsp
  pub node_state : Packing (NodeStateRsp D)

-- What the functions behind the methods read: the connections of the child's task, if there is
-- one, and the monitor.
pub record World (D : Type 0) : Type 0 where
  pub process : Option ℕ
  pub system : Ptr (Info D)

module _ (arithmetic : Doubles) where
  open arithmetic use {D}

  unfoldable pub method : Kind → Packings D → World D → List ℕ → Run (List ℕ × ℤ)
  method demo packs w params = demo_exec packs.requests packs.demo sc_demo_func true params
  method vmon packs w params =
      vmon_exec packs.requests packs.vmon (sc_vmon_func w.process) true params
  method node_state packs w params =
      node_state_exec arithmetic packs.requests packs.node_state
        (sc_node_state_func arithmetic w.process w.system) true params

  -- A call through another address is a fault.
  unfoldable pub daemon_methods : Packings D → World D → Methods
  unfolding method
  daemon_methods packs w dispatch args params =
      if dispatch == exec demo
      then method demo packs w params
      else if dispatch == exec vmon
      then method vmon packs w params
      else if dispatch == exec node_state
      then method node_state packs w params
      else fault
