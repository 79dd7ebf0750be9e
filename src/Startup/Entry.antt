-- ===== src/Startup/Entry.antt =====
-- src/support/globals.c and the functions load_init and load_done of src/load/load_core.c: the start
-- and the end of the daemon.
use vmp_rl.Base.{
  ℕ, ◌≡◌, ◌∙◌, refl, Bool, true, false, ◌&&◌, ◌||◌, inl, inr, Bool-cases, List, Option, some, ℤ,
  codes, if◌then◌else◌, not,
}
use vmp_rl.Load.Task.{Ptr, null, live, freed, Life, ended, crashed, ◌>>=◌, Pthread, mutex_ready}
use vmp_rl.Load.Core.{
  Core, new_core, load_core_init, load_core_start, load_core_done, load_core_stop,
}
use vmp_rl.Startup.Config.{
  Opt, Config, vmp_config_create, vmp_config_init, vmp_config_init_lem, set_client, asks_client,
}

-- `rt_load_t`.
pub record Load : Type 0 where
  pub core : Ptr Core

-- `g_globals`; without USE_ZLOG nothing sets `log`.
pub record Globals : Type 0 where
  pub config : Ptr Config
  pub load : Ptr Load
  pub argv : Option ℕ

abbrev pub global_set_config : Ptr Config → Globals → Globals
global_set_config config g = record g { config = config }

abbrev pub global_set_load : Ptr Load → Globals → Globals
global_set_load load g = record g { load = load }

abbrev pub global_set_argv : ℕ → Globals → Globals
global_set_argv argv g = record g { argv = some argv }

-- What the system answers to the start of the daemon.
pub record Init : Type 0 where
  pub config_memory : Bool
  pub load_memory : Bool
  pub core_memory : Bool
  pub pthread : Pthread

-- `load_core_init` in the load of the globals, which is not tested.
unfoldable pub core_init : Init → Ptr Load → Life (Ptr Load)
core_init a null = crashed
core_init a freed = crashed
core_init a (live l) =
    load_core_init a.core_memory a.pthread >>= λ core. ended (live (record { core = core }))

unfoldable pub load_init : Init → List Opt → ℕ → Globals → Life Globals
load_init a opts argv g =
    let config = vmp_config_create a.config_memory in
    vmp_config_init config opts >>= λ set.
    core_init a (if a.load_memory then live (record { core = null }) else null) >>= λ load.
    ended (global_set_load load (global_set_argv argv (global_set_config set.0 g)))

unfoldable pub load_done : Globals → Life Globals
load_done g = elim (g.load) [
  | null ↦ crashed
  | freed ↦ crashed
  | live l ↦ load_core_done l.core >>= λ core. ended (global_set_load null g)
]

abbrev pub core_of : Pthread → Core
core_of p = record new_core { thread = p.create }

core_started :
    (memory : Bool) (p : Pthread)
    → load_core_init memory p
      ≡ (if memory && mutex_ready p then ended (live (core_of p)) else crashed)
unfolding load_core_init load_core_start load_core_done load_core_stop
core_started memory p = elim (Bool-cases memory) [
  | inr missing ↦ rw missing refl
  | inl there ↦ elim (Bool-cases (mutex_ready p)) [
    | inl ready ↦ rw (there, load_core_start, ready) refl
    | inr failed ↦ rw (there, load_core_start, failed) refl
  ]
]

core_init_lem :
    (a : Init)
    → core_init a (if a.load_memory then live (record { core = null }) else null) ≡ (
        if a.load_memory && a.core_memory && mutex_ready a.pthread
        then ended (live (record { core = live (core_of a.pthread) }))
        else crashed)
unfolding core_init
core_init_lem a = elim (Bool-cases a.load_memory) [
  | inr missing ↦ rw missing refl
  | inl there ↦ elim (Bool-cases (a.core_memory && mutex_ready a.pthread)) [
    | inl ready ↦ rw (there, core_started a.core_memory a.pthread, ready) refl
    | inr failed ↦ rw (there, core_started a.core_memory a.pthread, failed) refl
  ]
]

-- The configuration behind the options.
abbrev pub config_of : Bool → List Opt → Ptr Config
config_of memory opts =
    if memory
    then live (record { client = asks_client opts; data_dir = codes "/tmp/vmp" })
    else null

configured :
    (memory : Bool) (opts : List Opt)
    → vmp_config_init (vmp_config_create memory) opts ≡ (
        if memory || not (asks_client opts)
        then ended (config_of memory opts, ℤ.pos 0)
        else crashed)
unfolding vmp_config_create set_client
configured memory opts =
    vmp_config_init_lem (vmp_config_create memory) opts ∙ by_memory memory (asks_client opts)
  where
    by_memory :
        (m c : Bool)
        → (if c
            then ◌>>=◌ {B = Ptr Config × ℤ}
                (set_client (vmp_config_create m))
                (λ set. ended (set, ℤ.pos 0))
            else ended (vmp_config_create m, ℤ.pos 0))
          ≡ (if m || not c
              then ended (
                (if m then live (record { client = c; data_dir = codes "/tmp/vmp" }) else null),
                ℤ.pos 0,
              )
              else crashed)
    by_memory true true = refl
    by_memory true false = refl
    by_memory false true = refl
    by_memory false false = refl

-- The start of the daemon comes through exactly where there is memory for the load and the core, the
-- mutex can be made, and there is memory for the configuration or the options do not ask for the
-- test mode; else it crashes. Behind it the configuration, where there is one, tells the test mode
-- just where the options asked for it, and the load holds a core that has been started.
pub load_init_lem :
    (a : Init) (opts : List Opt) (argv : ℕ) (g : Globals)
    → load_init a opts argv g ≡ (
        if (a.config_memory || not (asks_client opts))
          && (a.load_memory && a.core_memory && mutex_ready a.pthread)
        then ended (record {
          config = config_of a.config_memory opts;
          load = live (record { core = live (core_of a.pthread) });
          argv = some argv;
        })
        else crashed)
unfolding load_init
load_init_lem a opts argv g = elim (Bool-cases (a.config_memory || not (asks_client opts))) [
  | inr missing ↦ rw (configured a.config_memory opts, missing) refl
  | inl there ↦ elim (Bool-cases (a.load_memory && a.core_memory && mutex_ready a.pthread)) [
    | inl ready ↦ rw (configured a.config_memory opts, there, core_init_lem a, ready) refl
    | inr failed ↦ rw (configured a.config_memory opts, there, core_init_lem a, failed) refl
  ]
]
