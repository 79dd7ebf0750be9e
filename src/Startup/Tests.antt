-- ===== src/Startup/Tests.antt =====
-- The start of the daemon at concrete options.
use vmp_rl.Base.{◌≡◌, true, false, List, [], ◌∷◌, none, some, ℤ, codes, str_eq, if◌then◌else◌}
use vmp_rl.Load.Task.{null, live, ended, ◌>>=◌, Pthread}
use vmp_rl.Startup.Config
use vmp_rl.Startup.Config.{Opt, opt_c, opt_t, Config, vmp_config_init, set_client}
use vmp_rl.Startup.Entry
use vmp_rl.Startup.Entry.{Globals, Init, load_init, core_of}

-- Twice t: the last one counts.
abbrev client_opts : List Opt
client_opts =
    record { opt = opt_t; optarg = some (codes "server") }
    ∷ record { opt = opt_c; optarg = none }
    ∷ record { opt = opt_t; optarg = some (codes "client") }
    ∷ []

abbrev empty_config : Config
empty_config = record { client = false; data_dir = [] }

vmp_config_init_lem_example : vmp_config_init (live empty_config) client_opts ≡ (
    if true
    then (set_client (live empty_config) >>= λ set. ended (set, ℤ.pos 0))
    else ended (live empty_config, ℤ.pos 0))
unfolding str_eq
vmp_config_init_lem_example = Config.vmp_config_init_lem (live empty_config) client_opts

abbrev good : Pthread
good = record { attr_init = true; settype = true; mutex_init = true; create = true }

abbrev plenty : Init
plenty = record { config_memory = true; load_memory = true; core_memory = true; pthread = good }

abbrev at_first : Globals
at_first = record { config = null; load = null; argv = none }

load_init_lem_example :
    load_init plenty client_opts 7 at_first
    ≡ ended (record {
      config = live (record { client = true; data_dir = codes "/tmp/vmp" });
      load = live (record { core = live (core_of good) });
      argv = some 7;
    })
unfolding str_eq
load_init_lem_example = Entry.load_init_lem plenty client_opts 7 at_first
