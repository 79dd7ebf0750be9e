-- ===== src/Service/Messages.antt =====
-- src/rpc/service: the messages of the methods, as their .proto files declare them, and the names
-- under which the methods are known.
use vmp_rl.Base.{ℕ, List, Option, codes}

-- The generated functions of one message.
pub record Packing {ℓ} (M : Type ℓ) : Type ℓ where
  pub pack : M → List ℕ
  pub unpack : List ℕ → Option M

-- All requests but that of the registry have an id only.
pub record IdReq : Type 0 where
  pub id : ℕ

pub record DemoRsp : Type 0 where
  pub id : ℕ
  pub video_cnt : ℕ
  pub info_mem : ℕ

pub record VmonRsp : Type 0 where
  pub id : ℕ
  pub count : ℕ

pub record NodeStateRsp (D : Type 0) : Type 0 where
  pub id : ℕ
  pub index : ℕ
  pub name : List ℕ
  pub count : ℕ
  pub uplink : ℕ
  pub downlink : ℕ
  pub memory : ℕ
  pub cpu : D

pub record RegistryReq : Type 0 where
  pub sid : ℕ
  pub name : List ℕ
  pub system : List ℕ
  pub location : List ℕ
  pub processor : List ℕ
  pub bandwidth : ℕ
  pub memory : ℕ
  pub ip : List ℕ
  pub port : ℕ

-- A null `name` packs like an empty one.
pub record RegistryRsp : Type 0 where
  pub sid : ℕ
  pub name : List ℕ
  pub index : ℕ
  pub num : Option ℕ

abbrev pub demo_sc_prog : ℕ
demo_sc_prog = 200001

abbrev pub registry_sc_prog : ℕ
registry_sc_prog = 200002

abbrev pub vmon_sc_prog : ℕ
vmon_sc_prog = 200003

abbrev pub node_state_sc_prog : ℕ
node_state_sc_prog = 200004

abbrev pub demo_sc_name : List ℕ
demo_sc_name = codes "Loader.demo"

abbrev pub registry_sc_name : List ℕ
registry_sc_name = codes "Loader.registry"

abbrev pub vmon_sc_name : List ℕ
vmon_sc_name = codes "Loader.vmon"

abbrev pub node_state_sc_name : List ℕ
node_state_sc_name = codes "Loader.node_state"
