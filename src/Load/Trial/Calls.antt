-- ===== src/Load/Trial/Calls.antt =====
-- src/load/load_core.c and src/rpc/rpc_clnt.c: which calls the test mode makes.
use mathlib.Core.List.{append_assoc, append-nil}
use vmp_rl.Base.{
  ◌&&◌, inl, inr, Bool-cases, ℕ, ◌≡◌, refl, sym, ap, ◌∙◌, true, List, [], ◌∷◌, ◌++◌, Option, none,
  some, ℤ, codes, if◌then◌else◌,
}
use vmp_rl.Rpc.Server.{Codec}
use vmp_rl.Rpc.Client.{NodeList, pbrpc_clnt_call}
use vmp_rl.Rpc.Calls.{Call, call_with, make_calls}
use vmp_rl.Load.Task.{Ptr, live, Life, ended, crashed}
use vmp_rl.Service.Messages.{Packing, IdReq, RegistryReq}
use vmp_rl.Service.Stubs.{
  Caller, rpc_clnt, rpc_clnt_demo, rpc_clnt_vmon, rpc_clnt_node_state, rpc_clnt_registry,
}
use vmp_rl.Load.Trial.{
  vmp_rpclnt_destroy, rpc_clnt_stop, RpcClnt, vmp_rpclnt_create, vmp_rpclnt_set, vmp_rpclnt_start,
  rpc_clnt_thread, clnt_call, Grant, asked_by, in_turn, test_calls, Trial, while_asleep,
  load_core_test,
}
use vmp_rl.Load.Trial.Script.{
  IsGranted, Four, priv_at, registry_call, demo_call, vmon_call, node_state_call, trial_calls,
}

appended_four {ℓ} :
    {A : Type ℓ} (xs as1 as2 as3 as4 : List A)
    → xs ++ as1 ++ as2 ++ as3 ++ as4 ≡ xs ++ (as1 ++ (as2 ++ (as3 ++ as4)))
appended_four xs as1 as2 as3 as4 =
    append_assoc (xs ++ as1 ++ as2) as3 as4
    ∙ append_assoc (xs ++ as1) as2 (as3 ++ as4)
    ∙ append_assoc xs as1 (as2 ++ (as3 ++ as4))

module _ {Q : Type 0} (lib : NodeList Q) (codec : Codec) (reqs : Packing IdReq)
    (registry : Packing RegistryReq) (thiz : ℕ) where
  -- The caller behind a call of its stub, and the client that has it.
  abbrev next_caller : Call → Caller Q → Caller Q
  next_caller c caller = record {
    clnt = (call_with codec lib caller.clnt c).0;
    privs = caller.privs ++ priv_at thiz c.args ∷ [];
  }

  abbrev with_caller : RpcClnt Q → Caller Q → RpcClnt Q
  with_caller t caller = record t { clnt = some caller }

  abbrev stub_call : Grant → Call → Ptr (RpcClnt Q) → Life (Ptr (RpcClnt Q) × List ℕ × ℤ)
  stub_call g c =
      clnt_call (rpc_clnt lib codec c.method c.replymsg c.params (asked_by thiz g) g.memory)

  stub_call-granted :
      (g : Grant) (c : Call) (t : RpcClnt Q) (caller : Caller Q)
      → IsGranted g c.args
      → stub_call g c (live (with_caller t caller))
        ≡ ended (
          live (with_caller t (next_caller c caller)),
          (call_with codec lib caller.clnt c).1,
          ℤ.pos 0,
        )
  unfolding clnt_call rpc_clnt pbrpc_clnt_call
  stub_call-granted g c t caller granted = rw (granted.priv, granted.cbuf, granted.memory) refl

  -- Four calls one after the other are those of `make_calls`.
  four_calls :
      (g1 g2 g3 g4 : Grant) (c1 c2 c3 c4 : Call) (t : RpcClnt Q) (caller : Caller Q)
      → IsGranted g1 c1.args
      → IsGranted g2 c2.args
      → IsGranted g3 c3.args
      → IsGranted g4 c4.args
      → let made = make_calls codec lib caller.clnt (c1 ∷ c2 ∷ c3 ∷ c4 ∷ []) in
        in_turn
          (stub_call g1 c1)
          (stub_call g2 c2)
          (stub_call g3 c3)
          (stub_call g4 c4)
          (live (with_caller t caller))
        ≡ ended (
          live (
              with_caller t (record {
                clnt = made.0;
                privs =
                    caller.privs
                    ++ priv_at thiz c1.args
                      ∷ priv_at thiz c2.args
                      ∷ priv_at thiz c3.args
                      ∷ priv_at thiz c4.args
                      ∷ [];
              })),
          made.1,
        )
  four_calls g1 g2 g3 g4 c1 c2 c3 c4 t caller h1 h2 h3 h4 =
      let b1 = next_caller c1 caller in
      let b2 = next_caller c2 b1 in
      let b3 = next_caller c3 b2 in
      rw
        (
          stub_call-granted g1 c1 t caller h1,
          stub_call-granted g2 c2 t b1 h2,
          stub_call-granted g3 c3 t b2 h3,
          stub_call-granted g4 c4 t b3 h4,
        )
        (λ i. ended (
          live (
              with_caller t (record {
                clnt = (call_with codec lib b3.clnt c4).0;
                privs =
                    appended_four caller.privs (priv_at thiz c1.args ∷ [])
                      (priv_at thiz c2.args ∷ []) (priv_at thiz c3.args ∷ [])
                      (priv_at thiz c4.args ∷ []) i;
              })),
          written i,
        ))
    where
      written :
          (call_with codec lib caller.clnt c1).1
            ++ (call_with codec lib (next_caller c1 caller).clnt c2).1
            ++ (call_with codec lib (next_caller c2 (next_caller c1 caller)).clnt c3).1
            ++ (call_with codec lib
                (next_caller c3 (next_caller c2 (next_caller c1 caller))).clnt
                c4).1
          ≡ (make_calls codec lib caller.clnt (c1 ∷ c2 ∷ c3 ∷ c4 ∷ [])).1
      written =
          let b1 = next_caller c1 caller in
          let b2 = next_caller c2 b1 in
          let b3 = next_caller c3 b2 in
          let last = (call_with codec lib b3.clnt c4).1 in
          ap
            (λ (bs : List ℕ).
              (call_with codec lib caller.clnt c1).1
              ++ (call_with codec lib b1.clnt c2).1
              ++ (call_with codec lib b2.clnt c3).1
              ++ bs)
            (sym (append-nil last))
          ∙ append_assoc _ (call_with codec lib b2.clnt c3).1 (last ++ [])
          ∙ append_assoc _ (call_with codec lib b1.clnt c2).1 _

  -- The client when the sleep is over.
  abbrev pub started_with : Option (Caller Q) → RpcClnt Q
  started_with o = record {
    cond = true;
    initialized = true;
    thread = true;
    req = record { base = none; ip = codes "localhost"; port = 9876 };
    event_base = none;
    clnt = o;
  }

  trial_started :
      (w : Trial Q) (o : Option (Caller Q))
      → w.calloc ≡ true
      → w.create ≡ true
      → w.pbrpc_clnt_new (codes "localhost") 9876 ≡ o
      → load_core_test lib codec reqs registry thiz w
        ≡ test_calls lib codec reqs registry thiz w.registry_grant w.demo_grant w.vmon_grant
            w.node_state_grant
            (live (started_with o))
  unfolding load_core_test vmp_rpclnt_create vmp_rpclnt_set vmp_rpclnt_start while_asleep
      rpc_clnt_thread
  trial_started w o created ran connected = rw (created, ran, connected) refl

  test_calls_alone :
      (g1 g2 g3 g4 : Grant)
      → test_calls lib codec reqs registry thiz g1 g2 g3 g4 (live (started_with none))
        ≡ ended (live (started_with none), [])
  unfolding test_calls clnt_call
  test_calls_alone g1 g2 g3 g4 = refl

  -- The test mode behind the start of its client, by what `pbrpc_clnt_new` gives.
  abbrev pub with_client : Trial Q → Option (Caller Q) → Life (Ptr (RpcClnt Q) × List ℕ)
  with_client w none = ended (live (started_with none), [])
  with_client w (some c) =
      test_calls lib codec reqs registry thiz w.registry_grant w.demo_grant w.vmon_grant
        w.node_state_grant (live (started_with (some c)))

  trial_with_client :
      (w : Trial Q) (o : Option (Caller Q))
      → w.calloc ≡ true
      → w.create ≡ true
      → w.pbrpc_clnt_new (codes "localhost") 9876 ≡ o
      → load_core_test lib codec reqs registry thiz w ≡ with_client w o
  trial_with_client w none there ran alone =
      trial_started w none there ran alone
      ∙ test_calls_alone w.registry_grant w.demo_grant w.vmon_grant w.node_state_grant
  trial_with_client w (some c) there ran connected = trial_started w (some c) there ran connected

  -- Where the memory or the thread of the client is wanting the test mode crashes, whatever
  -- `pbrpc_clnt_new` would give: the client is set without a test whether there is one, and a start
  -- that fails joins a thread that was never created. Where both are there it makes its calls with
  -- the client that `pbrpc_clnt_new` gives for localhost and port 9876, and without one calls nothing
  -- and writes nothing.
  pub load_core_test_fails :
      (w : Trial Q)
      → load_core_test lib codec reqs registry thiz w ≡ (
          if w.calloc && w.create
          then with_client w (w.pbrpc_clnt_new (codes "localhost") 9876)
          else crashed)
  unfolding load_core_test vmp_rpclnt_create vmp_rpclnt_set vmp_rpclnt_start vmp_rpclnt_destroy
      rpc_clnt_stop
  load_core_test_fails w = elim (Bool-cases w.calloc) [
    | inr missing ↦ rw missing refl
    | inl there ↦ elim (Bool-cases w.create) [
      | inr missing ↦ rw (there, missing) refl
      | inl ran ↦
          trial_with_client w (w.pbrpc_clnt_new (codes "localhost") 9876) there ran refl
          ∙ rw (there, ran) refl
    ]
  ]

  -- A trial in which everything succeeds, and the thread has connected when the sleep is over.
  module _ (w : Trial Q) (caller : Caller Q) (at : Four ℕ) (created : w.calloc ≡ true)
      (ran : w.create ≡ true) (connected : w.pbrpc_clnt_new (codes "localhost") 9876 ≡ some caller)
      (registry_granted : IsGranted w.registry_grant at.registry)
      (demo_granted : IsGranted w.demo_grant at.demo)
      (vmon_granted : IsGranted w.vmon_grant at.vmon)
      (node_state_granted : IsGranted w.node_state_grant at.node_state) where
    -- The test mode makes the four calls, in the order of the list, each with its own callback and
    -- its own `PrivInfo` as the context.
    pub load_core_test_lem :
        (results : Four (List ℕ))
        → let made = make_calls codec lib caller.clnt (trial_calls reqs registry at results) in
          (t : RpcClnt Q) × (load_core_test lib codec reqs registry thiz w ≡ ended (live t, made.1))
          × (t.clnt
              ≡ some (record {
                clnt = made.0;
                privs =
                    caller.privs
                    ++ priv_at thiz at.registry
                      ∷ priv_at thiz at.demo
                      ∷ priv_at thiz at.vmon
                      ∷ priv_at thiz at.node_state
                      ∷ [];
              }))
    unfolding test_calls rpc_clnt_demo rpc_clnt_vmon rpc_clnt_node_state rpc_clnt_registry
    load_core_test_lem results = (
      _,
      trial_started w (some caller) created ran connected
          ∙ four_calls w.registry_grant w.demo_grant w.vmon_grant w.node_state_grant
              (registry_call registry at.registry results.registry)
              (demo_call reqs at.demo results.demo) (vmon_call reqs at.vmon results.vmon)
              (node_state_call reqs at.node_state results.node_state) (started_with none) caller
              registry_granted demo_granted vmon_granted node_state_granted,
      refl,
    )
