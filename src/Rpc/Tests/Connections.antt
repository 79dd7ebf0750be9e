-- ===== src/Rpc/Tests/Connections.antt =====
-- The theorems on connecting and listening in src/rpc/pbc at concrete inputs.
use vmp_rl.Base.{none, ◌≡◌, refl, Bool, true, false, List, [], ◌∷◌, ◌++◌, some, done, if◌then◌else◌}
use vmp_rl.Rpc.RoundTrip.{plenty}
use vmp_rl.Rpc.Connect
use vmp_rl.Rpc.Connect.Closing
use vmp_rl.Rpc.Connect.Closing.{Act, called, answered, event, acts_steps, objects}
use vmp_rl.Rpc.Connect.{
  Step, filtered, socket, event_base, owner, listener, node, replay, Connecting, pbrpc_clnt_new,
  pbrpc_clnt_destroy, Listening, pbrpc_svc_new, pbrpc_svc_destroy,
}

-- The host cannot be reached.
abbrev unreachable : Connecting
unreachable = record {
  calloc = true;
  base_new = true;
  socket_new = true;
  connect = false;
  filter_new = true;
}

unreachable_host :
    (steps : List Step) × (ok : Bool) × (pbrpc_clnt_new unreachable ≡ done (steps, ok))
    × (ok ≡ false)
    × (replay steps [] ≡ some (if ok then filtered ∷ socket ∷ event_base ∷ owner ∷ [] else []))
unreachable_host = Connect.pbrpc_clnt_new_lem unreachable refl

-- The port is taken.
abbrev port_taken : Listening
port_taken = record { calloc = true; base_new = true; new_bind = false }

port_taken_leaves :
    let r = pbrpc_svc_new port_taken in
    (r.1 ≡ false)
    × (replay (r.0 ++ (if r.1 then pbrpc_svc_destroy else [])) []
        ≡ some (if r.1 then listener ∷ [] else event_base ∷ []))
port_taken_leaves = Connect.pbrpc_svc_new_leaks port_taken

-- A call that is answered, another, and the end of the connection.
abbrev cut_off : List Act
cut_off = called plenty ∷ answered ∷ called plenty ∷ event true false ∷ []

pbrpc_clnt_closed_example :
    (replay (acts_steps 0 cut_off) (objects false 0) ≡ some (node ∷ event_base ∷ owner ∷ []))
    × (replay (acts_steps 0 cut_off ++ pbrpc_clnt_destroy) (objects false 0) ≡ none)
pbrpc_clnt_closed_example = Closing.pbrpc_clnt_closed cut_off
