-- ===== src/Service/Tests.antt =====
-- The methods of the daemon and their stubs at concrete inputs.
use vmp_rl.Base.{
  ℕ, ◌-◌, ◌*◌, ◌/◌, ◌≡◌, ◌⊎◌, refl, true, false, List, [], ◌∷◌, Option, none, some, done, ℤ, pos,
  pos_part, codes, arith, if◌then◌else◌, Doubles, to_ulong, ◌-ℤ◌, minus_one,
}
use vmp_rl.Rpc.Callouts.{Callouts, pbrpc_svc_register, pbrpc_svc_find, matches}
use vmp_rl.Rpc.Server.{find_method}
use vmp_rl.Rpc.Client.{Node}
use vmp_rl.Rpc.Tests.{toy_codec, read_request, read_response, pack_params}
use vmp_rl.Rpc.Tests.Calls.{node_list, waiting, waiting-Fresh}
use vmp_rl.Rpc.RoundTrip.{plenty}
use vmp_rl.Load.Task.{live}
use vmp_rl.Load.System.{Info}
use vmp_rl.Service.Messages.{IdReq, DemoRsp, VmonRsp, NodeStateRsp}
use vmp_rl.Service.Handlers.{load_child_connection_get}
use vmp_rl.Service.Register.{
  Kind, demo, vmon, node_state, entry, name, load_registers, load_register, service_register,
}
use vmp_rl.Service.Entries
use vmp_rl.Service.Entries.{mem}
use vmp_rl.Service.Race
use vmp_rl.Service.Race.{schedule, at_first, returned}
use vmp_rl.Service.Methods.{Packings, World, daemon_methods}
use vmp_rl.Service.Stubs.{
  Caller, Asked, rpc_clnt, rpc_clnt_vmon, rpc_clnt_node_state, vmon_reply_cb_at,
  node_state_reply_cb_at,
}
use vmp_rl.Service.Owned
use vmp_rl.Service.Owned.{addresses, contexts}
use vmp_rl.Service.RoundTrip.{Travels}
use vmp_rl.Service.RoundTrip.Daemon

-- Whole numbers in place of doubles.
abbrev pub whole : Doubles
whole = record {
  D = ℕ;
  of_ℤ = pos_part;
  to_float = λ x. x;
  floor_ulong = λ x. x;
  sub = λ x y. x - y;
  mul = λ x y. x * y;
  div = λ x y. x / y;
}

unfoldable pub unpack_id : List ℕ → Option IdReq
unpack_id [] = none
unpack_id (id ∷ bytes) = some (record { id = id })

unfoldable pub unpack_vmon : List ℕ → Option VmonRsp
unpack_vmon (id ∷ count ∷ bytes) = some (record { id = id; count = count })
unpack_vmon bytes = none

unfoldable pub unpack_demo : List ℕ → Option DemoRsp
unpack_demo (id ∷ cnt ∷ mem ∷ bytes) = some (record { id = id; video_cnt = cnt; info_mem = mem })
unpack_demo bytes = none

unfoldable pub unpack_state : List ℕ → Option (NodeStateRsp ℕ)
unpack_state (id ∷ index ∷ count ∷ up ∷ down ∷ memory ∷ cpu ∷ text) = some (record {
  id = id;
  index = index;
  name = text;
  count = count;
  uplink = up;
  downlink = down;
  memory = memory;
  cpu = cpu;
})
unpack_state bytes = none

abbrev pub toy_packings : Packings ℕ
toy_packings = record {
  requests = record { pack = λ r. r.id ∷ []; unpack = unpack_id };
  demo = record { pack = λ r. r.id ∷ r.video_cnt ∷ r.info_mem ∷ []; unpack = unpack_demo };
  vmon = record { pack = λ r. r.id ∷ r.count ∷ []; unpack = unpack_vmon };
  node_state = record {
    pack = λ r. r.id ∷ r.index ∷ r.count ∷ r.uplink ∷ r.downlink ∷ r.memory ∷ r.cpu ∷ r.name;
    unpack = unpack_state;
  };
}

abbrev pub published : Info ℕ
published = record {
  interval = 1;
  uplink = 12;
  downlink = 7;
  cpu_idle = 93;
  mem_total = pos 800;
  mem_free = pos 300;
  cond = true;
  initialized = true;
}

abbrev pub toy_world : World ℕ
toy_world = record { process = some 5; system = live published }

abbrev pub toy_args : Kind → ℕ
toy_args demo = 41
toy_args vmon = 42
toy_args node_state = 43

abbrev pub order : List Kind
order = vmon ∷ node_state ∷ demo ∷ []

abbrev pub toy_head : Callouts
toy_head =
    entry (toy_args demo) demo
    ∷ entry (toy_args node_state) node_state
    ∷ entry (toy_args vmon) vmon
    ∷ []

load_registers_lem_example :
    (head : Callouts) × (load_registers toy_args order [] ≡ done head)
    × ((k : Kind)
        → find_method head (name k)
          ≡ done (if mem k order then some (entry (toy_args k) k) else none))
load_registers_lem_example = Entries.load_registers_lem toy_args order

pub registered : load_registers toy_args order [] ≡ done toy_head
unfolding load_registers load_register service_register pbrpc_svc_register pbrpc_svc_find matches
registered = refl

schedule-find_method_example :
    (find_method
        (schedule toy_args (vmon ∷ demo ∷ vmon ∷ vmon ∷ demo ∷ []) at_first).svc_head
        (name vmon)
      ≡ done none)
    ⊎ (find_method
          (schedule toy_args (vmon ∷ demo ∷ vmon ∷ vmon ∷ demo ∷ []) at_first).svc_head
          (name vmon)
        ≡ done (some (entry 42 vmon)))
schedule-find_method_example =
    Race.schedule-find_method toy_args (vmon ∷ demo ∷ vmon ∷ vmon ∷ demo ∷ []) vmon

schedule_loses_example :
    let st = schedule toy_args (vmon ∷ demo ∷ vmon ∷ demo ∷ vmon ∷ demo ∷ []) at_first in
    (find_method st.svc_head (name vmon) ≡ done none)
    × (st.local vmon ≡ returned (pos 0))
    × (st.local demo ≡ returned (pos 0))
schedule_loses_example = Race.schedule_loses toy_args vmon demo refl

abbrev toy_caller : Caller (List Node)
toy_caller = record {
  clnt = waiting;
  privs = record { address = 71; ctx = 1; pfn_callback = true } ∷ [];
}

abbrev toy_asked : Asked
toy_asked = record { ctx = 2; pfn_callback = true; priv = some 72; cbuf = true }

rpc_clnt_lem_example :
    (called : Caller (List Node)) × (sent : List ℕ) × (code : ℤ) × (rpc_clnt node_list toy_codec
        (name demo)
        1
        (3 ∷ [])
        toy_asked
        (record { strdup = true; entry = false; buffer = true })
        toy_caller
      ≡ done (called, sent, code))
    × (addresses called.privs ≡ 71 ∷ 72 ∷ [])
    × ((code ≡ minus_one) × (contexts node_list called.clnt ≡ contexts node_list waiting))
rpc_clnt_lem_example =
    Owned.rpc_clnt_lem node_list toy_codec (name demo) 1 (3 ∷ []) toy_asked
      (record { strdup = true; entry = false; buffer = true }) toy_caller 72 refl refl

vmon-Travels_example :
    Travels node_list toy_codec unpack_vmon
      (λ r. r)
      (daemon_methods whole toy_packings toy_world)
      toy_head
      toy_caller
      toy_asked
      vmon_reply_cb_at
      (rpc_clnt_vmon node_list toy_codec toy_packings.requests 3 toy_asked plenty toy_caller)
      (record { id = 3; count = 5 })
unfolding unpack_id unpack_vmon read_request read_response pack_params load_child_connection_get
vmon-Travels_example =
    Daemon.vmon-Travels node_list toy_codec whole toy_packings toy_world toy_args order toy_head
      registered toy_caller toy_asked 72 3 refl refl (refl, tt) refl refl refl
      (record {
        fresh = waiting-Fresh;
        room = omega arith;
        asked = refl;
        asked_size = omega arith;
        answered = refl;
        answered_size = omega arith;
      })

node_state-Travels_example :
    Travels node_list toy_codec unpack_state
      (λ r. r)
      (daemon_methods whole toy_packings toy_world)
      toy_head
      toy_caller
      toy_asked
      node_state_reply_cb_at
      (rpc_clnt_node_state node_list toy_codec toy_packings.requests 3 toy_asked plenty toy_caller)
      (record {
        id = 3;
        index = 0;
        name = codes "server local";
        count = 5;
        uplink = 12;
        downlink = 7;
        memory = 500;
        cpu = 7;
      })
unfolding unpack_id unpack_state read_request read_response pack_params load_child_connection_get
    to_ulong ◌-ℤ◌
node_state-Travels_example =
    Daemon.node_state-Travels node_list toy_codec whole toy_packings toy_world toy_args order
      toy_head registered toy_caller toy_asked 72 3 refl refl (refl, tt) refl published refl refl
      refl
      (record {
        fresh = waiting-Fresh;
        room = omega arith;
        asked = refl;
        asked_size = omega arith;
        answered = refl;
        answered_size = omega arith;
      })
