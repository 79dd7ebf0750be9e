-- ===== src/Startup/Config.antt =====
-- src/support/module_config.c: the configuration and the options that set it.
use vmp_rl.Base.{
  ℕ, ◌≡◌, refl, Bool, true, false, not, ◌&&◌, ◌||◌, inl, inr, Bool-cases, List, [], ◌∷◌, Option,
  none, some, ℤ, codes, str_eq, arith, ◌==◌, if◌then◌else◌,
}
use vmp_rl.Load.Task.{Ptr, null, live, freed, Life, ended, crashed, ◌>>=◌}

-- What one call of `getopt` gives: the character of the option, and `optarg`.
pub record Opt : Type 0 where
  pub opt : ℕ
  pub optarg : Option (List ℕ)

abbrev pub opt_h : ℕ
opt_h = 104

abbrev pub opt_c : ℕ
opt_c = 99

abbrev pub opt_t : ℕ
opt_t = 116

-- `vmp_config_t`; nothing sets or reads `network`.
pub record Config : Type 0 where
  pub client : Bool
  pub data_dir : List ℕ

unfoldable pub vmp_config_create : Bool → Ptr Config
vmp_config_create memory =
    if memory then live (record { client = false; data_dir = codes "/tmp/vmp" }) else null

unfoldable pub vmp_config_load_file : Ptr Config → List ℕ → Ptr Config × ℤ
vmp_config_load_file thiz conf = (thiz, ℤ.pos 0)

unfoldable pub vmp_config_load : Ptr Config → List ℕ → Ptr Config × ℤ
unfolding vmp_config_load_file
vmp_config_load thiz conf = vmp_config_load_file thiz conf

-- `conf` and `type` of `vmp_config_init`.
pub record Given : Type 0 where
  pub conf : Option (List ℕ)
  pub type : Option (List ℕ)

-- The loop over the options; `none` where an option h ends the function.
unfoldable pub options : List Opt → Given → Option Given
options [] g = some g
options (o ∷ os) g =
    let next : Given =
      if o.opt == opt_c
      then record g { conf = o.optarg }
      else if o.opt == opt_t
      then record g { type = o.optarg }
      else g in
    let rest = options os next in if o.opt == opt_h then none else rest

abbrev pub is_client : Option (List ℕ) → Bool
is_client none = false
is_client (some type) = str_eq type (codes "client")

unfoldable pub set_client : Ptr Config → Life (Ptr Config)
set_client null = crashed
set_client freed = crashed
set_client (live c) = ended (live (record c { client = true }))

-- The end of `vmp_config_init`: the result of the load is dropped.
unfoldable pub loaded : Option (List ℕ) → Ptr Config → Life (Ptr Config × ℤ)
unfolding vmp_config_load
loaded none thiz = ended (thiz, ℤ.pos 0)
loaded (some conf) thiz = ended ((vmp_config_load thiz conf).0, ℤ.pos 0)

unfoldable pub vmp_config_init : Ptr Config → List Opt → Life (Ptr Config × ℤ)
unfolding options set_client loaded
vmp_config_init thiz opts = elim (options opts (record { conf = none; type = none })) [
  | none ↦ ended (thiz, ℤ.pos 0)
  | some g ↦ (if is_client g.type then set_client thiz else ended thiz) >>= loaded g.conf
]

-- The options read backwards: whether one is h, and the argument of the last t.
abbrev pub has_help : List Opt → Bool
has_help [] = false
has_help (o ∷ os) = o.opt == opt_h || has_help os

abbrev pub last_type : List Opt → Option (List ℕ) → Option (List ℕ)
last_type [] first = first
last_type (o ∷ os) first = last_type os (if o.opt == opt_t then o.optarg else first)

-- Whether the options ask for the test mode.
abbrev pub asks_client : List Opt → Bool
asks_client opts = not (has_help opts) && is_client (last_type opts none)

not_both : (n : ℕ) → n == opt_c ≡ true → n == opt_t ≡ false
not_both n c = ground (arith, c)

options-last :
    (os : List Opt) (g : Given)
    → (conf : Option (List ℕ)) × (options os g
        ≡ (if has_help os then none else some (record { conf = conf; type = last_type os g.type })))
unfolding options
options-last [] g = (g.conf, refl)
options-last (o ∷ os) g = elim (Bool-cases (o.opt == opt_h)) [
  | inl help ↦ (none, rw help refl)
  | inr other ↦ elim (Bool-cases (o.opt == opt_c)) [
    | inl c ↦
        let r = options-last os (record g { conf = o.optarg }) in
        (r.0, rw (other, c, not_both o.opt c) r.1)
    | inr d ↦ elim (Bool-cases (o.opt == opt_t)) [
      | inl t ↦
          let r = options-last os (record g { type = o.optarg }) in (r.0, rw (other, d, t) r.1)
      | inr u ↦ let r = options-last os g in (r.0, rw (other, d, u) r.1)
    ]
  ]
]

-- A configuration is set to the test mode exactly where no option is h and the last option t has the
-- argument client; a null one is written through then, and all else leaves it as it is.
pub vmp_config_init_lem :
    (thiz : Ptr Config) (opts : List Opt)
    → vmp_config_init thiz opts ≡ (
        if asks_client opts
        then (set_client thiz >>= λ set. ended (set, ℤ.pos 0))
        else ended (thiz, ℤ.pos 0))
unfolding vmp_config_init loaded vmp_config_load vmp_config_load_file
vmp_config_init_lem thiz opts =
    let (conf, e) = options-last opts (record { conf = none; type = none }) in
    elim (Bool-cases (has_help opts)) [
      | inl help ↦ rw (vmp_config_init, e, help) refl
      | inr other ↦
          rw (vmp_config_init, e, other) (by_type thiz conf (is_client (last_type opts none)))
    ]
  where
    by_type :
        (p : Ptr Config) (conf : Option (List ℕ)) (client : Bool)
        → ((if client then set_client p else ended p) >>= loaded conf)
          ≡ (if client then (set_client p >>= λ set. ended (set, ℤ.pos 0)) else ended (p, ℤ.pos 0))
    by_type p none true = refl
    by_type p none false = refl
    by_type p (some c) true = refl
    by_type p (some c) false = refl
