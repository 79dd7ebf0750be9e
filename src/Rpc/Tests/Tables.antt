-- ===== src/Rpc/Tests/Tables.antt =====
-- The theorem on the order of registrations in src/rpc/pbc/pbrpc-svc.c at a concrete input.
use mathlib.Core.List.Perm
use mathlib.Core.List.Memᴰ
use mathlib.Core.List.{Mem, Pairwise, not-mem-nil}
use mathlib.Core.Logic.{∥∥₁_elim}
use vmp_rl.Base.{◌≡◌, refl, [], ◌∷◌, codes}
use vmp_rl.Rpc.Callouts.{matches, names_match}
use vmp_rl.Rpc.Table.{Named, lookup}
use vmp_rl.Rpc.Table.Order
use vmp_rl.Rpc.Table.Order.{Apart, register_all}

abbrev demo_method : Named
demo_method = record {
  prog = 200001;
  vers = 1;
  name = codes "Loader.demo";
  args = 40;
  function = 1;
}

abbrev vmon_method : Named
vmon_method = record {
  prog = 200003;
  vers = 1;
  name = codes "Loader.vmon";
  args = 50;
  function = 2;
}

apart : (c : Named) → c ≡ vmon_method → Apart demo_method c
unfolding matches names_match
apart c e = rw e (refl, refl)

only_vmon : (c : Named) → Mem c (vmon_method ∷ []) → Apart demo_method c
only_vmon c m = ∥∥₁_elim m (hlevel) (λ d. apart c (Memᴰ.eq_of_singleton d))

methods-Apart : Pairwise Apart (demo_method ∷ vmon_method ∷ [])
methods-Apart = Pairwise.cons only_vmon (Pairwise.cons (λ c m. absurd (not-mem-nil m)) Pairwise.nil)

register_all-Perm_example :
    lookup (register_all (demo_method ∷ vmon_method ∷ []) []) 200003 1 (codes "Loader.vmon")
    ≡ lookup (register_all (vmon_method ∷ demo_method ∷ []) []) 200003 1 (codes "Loader.vmon")
register_all-Perm_example =
    Order.register_all-Perm (Perm.swap vmon_method demo_method []) methods-Apart [] 200003 1
      (codes "Loader.vmon")
