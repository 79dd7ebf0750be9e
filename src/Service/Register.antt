-- ===== src/Service/Register.antt =====
-- src/load/load_*.c: the registration of the daemon's methods, each in the thread of its task.
use vmp_rl.Base.{
  ℕ, Bool, true, false, List, [], ◌∷◌, Option, none, some, Run, done, fault, ◌>>=◌, ℤ,
}
use vmp_rl.Rpc.Callouts.{Callout, Callouts, pbrpc_svc_register}
use vmp_rl.Service.Messages.{
  demo_sc_prog, vmon_sc_prog, node_state_sc_prog, registry_sc_prog, registry_sc_name, demo_sc_name,
  vmon_sc_name, node_state_sc_name,
}

-- The methods that the tasks of the daemon register.
pub data Kind : Type 0 where
  demo vmon node_state : Kind

abbrev pub same : Kind → Kind → Bool
same demo demo = true
same vmon vmon = true
same node_state node_state = true
same _ _ = false

abbrev pub prog : Kind → ℕ
prog demo = demo_sc_prog
prog vmon = vmon_sc_prog
prog node_state = node_state_sc_prog

abbrev pub name : Kind → List ℕ
name demo = demo_sc_name
name vmon = vmon_sc_name
name node_state = node_state_sc_name

-- The address of the method, such as `demo_exec`.
abbrev pub exec : Kind → ℕ
exec demo = 1
exec vmon = 2
exec node_state = 3

-- What `service_demo_register` and its likes register; `args` is the address of the handler.
abbrev pub entry : ℕ → Kind → Callout
entry args k = record {
  sc_prog = prog k;
  sc_vers = 1;
  sc_name = some (name k);
  sc_args = args;
  dispatch = exec k;
}

unfoldable pub service_register : Kind → Callouts → ℕ → (memory : Bool) → Callouts × ℤ
service_register k head args memory = pbrpc_svc_register head (entry args k) memory

-- `load_demo_register` and its likes. The list of the service is null until the thread of the
-- server has made it, and the handler is null where `calloc` fails; both are used without a test,
-- and the result of the registration is dropped.
unfoldable pub load_register :
    Kind → Option Callouts → Option ℕ → (memory : Bool) → Run (Callouts × ℤ)
load_register k svc none memory = fault
load_register k none (some args) memory = fault
load_register k (some head) (some args) memory =
    done ((service_register k head args memory).0, ℤ.pos 0)

abbrev pub service_demo_register : Callouts → ℕ → (memory : Bool) → Callouts × ℤ
service_demo_register head args memory = service_register demo head args memory

abbrev pub load_demo_register : Option Callouts → Option ℕ → (memory : Bool) → Run (Callouts × ℤ)
load_demo_register svc handler memory = load_register demo svc handler memory

abbrev pub service_vmon_register : Callouts → ℕ → (memory : Bool) → Callouts × ℤ
service_vmon_register head args memory = service_register vmon head args memory

abbrev pub load_vmon_register : Option Callouts → Option ℕ → (memory : Bool) → Run (Callouts × ℤ)
load_vmon_register svc handler memory = load_register vmon svc handler memory

abbrev pub service_node_state_register : Callouts → ℕ → (memory : Bool) → Callouts × ℤ
service_node_state_register head args memory = service_register node_state head args memory

abbrev pub load_node_state_register :
    Option Callouts → Option ℕ → (memory : Bool) → Run (Callouts × ℤ)
load_node_state_register svc handler memory = load_register node_state svc handler memory

-- No task of the daemon calls it.
unfoldable pub service_registry_register : Callouts → ℕ → (memory : Bool) → Callouts × ℤ
service_registry_register head args memory =
    pbrpc_svc_register head
      (record {
        sc_prog = registry_sc_prog;
        sc_vers = 1;
        sc_name = some registry_sc_name;
        sc_args = args;
        dispatch = 4;
      })
      memory

-- Registrations one after the other, each with its handler; the service is there and nothing fails.
unfoldable pub load_registers : (Kind → ℕ) → List Kind → Callouts → Run Callouts
load_registers args [] head = done head
load_registers args (k ∷ ks) head =
    load_register k (some head) (some (args k)) true >>= λ r. load_registers args ks r.0
