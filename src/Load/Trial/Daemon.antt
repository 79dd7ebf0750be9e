-- ===== src/Load/Trial/Daemon.antt =====
-- src/load/load_core.c: the daemon in its test mode, and another daemon that answers its calls.
use vmp_rl.Base.{
  ℕ, ◌+◌, ◌*◌, ◌^◌, ◌<◌, ◌≡◌, ◌≢◌, refl, true, List, [], ◌∷◌, none, some, done, ℤ, minus_one, codes,
  Doubles,
}
use vmp_rl.Rpc.Buffer.{EvBuffer, bev_ok, filter_pbrpc_messages}
use vmp_rl.Rpc.Callouts.{Callouts}
use vmp_rl.Rpc.Server.{Codec, Methods, rpc_invoke_call, response_init, find_method, call_method}
use vmp_rl.Rpc.Client.{NodeList}
use vmp_rl.Rpc.Pending.{Fresh, entries_of}
use vmp_rl.Rpc.Calls.{Call, AreCarried, AreAnswered}
use vmp_rl.Rpc.Duplex.{Duplex, Reach}
use vmp_rl.Rpc.Duplex.Progress.{called, calls_told}
use vmp_rl.Load.Task.{live, ended}
use vmp_rl.Load.System.{Info}
use vmp_rl.Service.Messages.{
  Packing, RegistryReq, RegistryRsp, registry_sc_name, demo_sc_name, vmon_sc_name,
  node_state_sc_name,
}
use vmp_rl.Service.Register.{Kind, demo, vmon, node_state, entry, load_registers}
use vmp_rl.Service.Entries.{mem, registry_unknown}
use vmp_rl.Service.Methods.{Packings, World, daemon_methods}
use vmp_rl.Service.Stubs.{
  Caller, registry_reply_cb_at, demo_reply_cb_at, vmon_reply_cb_at, node_state_reply_cb_at,
}
use vmp_rl.Service.RoundTrip.Daemon.{
  found, invoke-found, count_of, demo_of, node_of, demo_ran, vmon_ran, node_state_ran,
}
use vmp_rl.Service.RoundTrip.{IsNew}
use vmp_rl.Load.Trial.Replies.{
  heard_registry, heard_demo, heard_vmon, heard_node_state, replymsgs, replymsgs-four,
}
use vmp_rl.Load.Trial.{RpcClnt, Trial, load_core_test}
use vmp_rl.Load.Trial.Script.{IsGranted, Four, trial_calls}
use vmp_rl.Load.Trial.Calls.{load_core_test_lem}

-- A method that is not found leaves the response empty, under the id of the request.
invoke-unknown :
    (run : Methods) (head : Callouts) (id : ℕ) (method params : List ℕ)
    → find_method head method ≡ done none
    → rpc_invoke_call run head
        (record { id = id; method = method; params = some params })
        response_init
      ≡ done (record { id = id; result = [] }, minus_one)
unfolding rpc_invoke_call call_method
invoke-unknown run head id method params e = rw e refl

module _ (codec : Codec) (arithmetic : Doubles) (packs : Packings arithmetic.D)
    (registry : Packing RegistryReq) (w : World arithmetic.D) (args : Kind → ℕ) (ks : List Kind)
    (head : Callouts) (started : load_registers args ks [] ≡ done head)
    (demo_there : mem demo ks ≡ true) (vmon_there : mem vmon ks ≡ true)
    (node_state_there : mem node_state ks ≡ true) (info : Info arithmetic.D)
    (running : w.system ≡ live info)
    (request : packs.requests.unpack (packs.requests.pack (record { id = 1 }))
      ≡ some (record { id = 1 })) where
  -- What the daemon answers to the four calls; it does not know the registry.
  abbrev pub daemon_results : Four (List ℕ)
  daemon_results = record {
    registry = [];
    demo = packs.demo.pack (demo_of arithmetic packs w (args demo) 1 request);
    vmon =
        packs.vmon.pack
          (record { id = 1; count = count_of arithmetic packs w (args vmon) 1 request });
    node_state =
        packs.node_state.pack (node_of arithmetic packs w (args node_state) 1 request info);
  }

  trial_calls-AreAnswered :
      (id : ℕ) (at : Four ℕ)
      → AreCarried codec id (trial_calls packs.requests registry at daemon_results)
      → AreAnswered codec
          (daemon_methods arithmetic packs w)
          head
          id
          (trial_calls packs.requests registry at daemon_results)
  trial_calls-AreAnswered id at (carried1, (carried2, (carried3, (carried4, none_left)))) =
      let run = daemon_methods arithmetic packs w in
      let ask = packs.requests.pack (record { id = 1 }) in
      (
        record {
          carried = carried1;
          code = minus_one;
          invoked =
              invoke-unknown run head (id + 1) registry_sc_name _
                (registry_unknown args ks head started);
        },
        (
          record {
            carried = carried2;
            code = ℤ.pos 0;
            invoked =
                invoke-found run head (entry (args demo) demo) (id + 1 + 1) demo_sc_name ask
                  daemon_results.demo (ℤ.pos 0) (found args ks head demo started demo_there)
                  (demo_ran arithmetic packs w (args demo) 1 request);
          },
          (
            record {
              carried = carried3;
              code = ℤ.pos 0;
              invoked =
                  invoke-found run head (entry (args vmon) vmon) (id + 1 + 1 + 1) vmon_sc_name ask
                    daemon_results.vmon (ℤ.pos 0) (found args ks head vmon started vmon_there)
                    (vmon_ran arithmetic packs w (args vmon) 1 request);
            },
            (
              record {
                carried = carried4;
                code = ℤ.pos 0;
                invoked =
                    invoke-found run head (entry (args node_state) node_state) (id + 1 + 1 + 1 + 1)
                      node_state_sc_name ask daemon_results.node_state (ℤ.pos 0)
                      (found args ks head node_state started node_state_there)
                      (node_state_ran arithmetic packs w (args node_state) 1 request info running);
              },
              tt,
            ),
          ),
        ),
      )

  -- A trial against that daemon, in which everything succeeds and the thread has connected when the
  -- sleep is over, and the messages survive the wire and fit.
  module _ {Buf : Type 0} (buf : EvBuffer Buf) {Q : Type 0} (lib : NodeList Q) (thiz : ℕ)
      (t : Trial Q) (caller : Caller Q) (at : Four ℕ) (created : t.calloc ≡ true)
      (ran : t.create ≡ true) (connected : t.pbrpc_clnt_new (codes "localhost") 9876 ≡ some caller)
      (registry_granted : IsGranted t.registry_grant at.registry)
      (demo_granted : IsGranted t.demo_grant at.demo)
      (vmon_granted : IsGranted t.vmon_grant at.vmon)
      (node_state_granted : IsGranted t.node_state_grant at.node_state) (empty : Buf)
      (none_there : buf.bytes empty ≡ []) (fresh : Fresh lib caller.clnt)
      (room : caller.clnt.id_gen + 4 < 2 ^ 31)
      (carried : AreCarried codec caller.clnt.id_gen
        (trial_calls packs.requests registry at daemon_results)) where
    abbrev calls : List Call
    calls = trial_calls packs.requests registry at daemon_results

    pub answered :
        AreAnswered codec (daemon_methods arithmetic packs w) head caller.clnt.id_gen calls
    answered = trial_calls-AreAnswered caller.clnt.id_gen at carried

    -- Both ends, when the calls have been made.
    abbrev pub trial_called : Duplex buf lib codec (daemon_methods arithmetic packs w) head
    trial_called =
        called buf lib codec (daemon_methods arithmetic packs w) head empty caller.clnt calls
          none_there fresh room answered

    -- The test mode writes the requests of its four calls. However these and the replies are cut on
    -- their way and the callbacks of both daemons interleave, once nothing is left to arrive, to be
    -- moved or to be read, each callback has been run once, in the order of the calls: that of the
    -- registry with an empty result, since no task registers such a method, those of the demo, the
    -- connections and the node state with what the daemon's methods give; and no call of the trial
    -- is outstanding.
    pub load_core_test_told :
        {d : Duplex buf lib codec (daemon_methods arithmetic packs w) head}
        → Reach buf lib codec (daemon_methods arithmetic packs w) head trial_called d
        → d.svc.future ≡ []
        → (filter_pbrpc_messages buf d.svc.src d.svc.dst).2 ≢ bev_ok
        → buf.bytes d.svc.dst ≡ []
        → d.clnt.future ≡ []
        → (filter_pbrpc_messages buf d.clnt.src d.clnt.dst).2 ≢ bev_ok
        → buf.bytes d.clnt.dst ≡ []
        → (c : RpcClnt Q) × (load_core_test lib codec packs.requests registry thiz t
            ≡ ended (live c, trial_called.svc.future))
          × (d.clnt.state.1
              ≡ record { replymsg = registry_reply_cb_at; ctx = at.registry; result = [] }
                ∷ record {
                  replymsg = demo_reply_cb_at;
                  ctx = at.demo;
                  result = daemon_results.demo;
                }
                ∷ record {
                  replymsg = vmon_reply_cb_at;
                  ctx = at.vmon;
                  result = daemon_results.vmon;
                }
                ∷ record {
                  replymsg = node_state_reply_cb_at;
                  ctx = at.node_state;
                  result = daemon_results.node_state;
                }
                ∷ [])
          × (entries_of lib d.clnt.state.0 ≡ entries_of lib caller.clnt)
    load_core_test_told r svc_ended svc_stuck svc_read clnt_ended clnt_stuck clnt_read =
        let asked =
          load_core_test_lem lib codec packs.requests registry thiz t caller at created ran
            connected registry_granted demo_granted vmon_granted node_state_granted
            daemon_results in
        let told =
          calls_told buf lib codec (daemon_methods arithmetic packs w) head empty caller.clnt calls
            none_there fresh room answered r svc_ended svc_stuck svc_read clnt_ended clnt_stuck
            clnt_read in
        (asked.0, asked.1, told.0, told.1)

    -- The callbacks of the caller, for `PrivInfo`s at new addresses and answers that survive their
    -- packing; nothing unpacks from an empty result.
    module _ (rsps : Packing RegistryRsp) (new_registry : IsNew at.registry caller.privs)
        (new_demo : IsNew at.demo caller.privs) (new_vmon : IsNew at.vmon caller.privs)
        (new_node_state : IsNew at.node_state caller.privs) (no_registry : rsps.unpack [] ≡ none)
        (demo_unpacked : packs.demo.unpack daemon_results.demo
          ≡ some (demo_of arithmetic packs w (args demo) 1 request))
        (vmon_unpacked : packs.vmon.unpack daemon_results.vmon
          ≡ some (record { id = 1; count = count_of arithmetic packs w (args vmon) 1 request }))
        (node_state_unpacked : packs.node_state.unpack daemon_results.node_state
          ≡ some (node_of arithmetic packs w (args node_state) 1 request info)) where
      -- Under these conditions and when everything has arrived and been read, the callbacks that
      -- have been run tell the test mode, in this order: that the registry failed, with the code -1;
      -- the two connections and 2 GiB of the demo; the connections that the watch of the child last
      -- counted; and the state of the node that the monitor publishes. They free the `PrivInfo`s of
      -- the four calls and no others, and the calls outstanding are those from before the trial.
      pub load_core_test_heard :
          {d : Duplex buf lib codec (daemon_methods arithmetic packs w) head}
          → Reach buf lib codec (daemon_methods arithmetic packs w) head trial_called d
          → d.svc.future ≡ []
          → (filter_pbrpc_messages buf d.svc.src d.svc.dst).2 ≢ bev_ok
          → buf.bytes d.svc.dst ≡ []
          → d.clnt.future ≡ []
          → (filter_pbrpc_messages buf d.clnt.src d.clnt.dst).2 ≢ bev_ok
          → buf.bytes d.clnt.dst ≡ []
          → (c : RpcClnt Q) × (asked : Caller Q) × (load_core_test lib codec packs.requests registry
                thiz t
              ≡ ended (live c, trial_called.svc.future))
            × (c.clnt ≡ some asked)
            × (entries_of lib d.clnt.state.0 ≡ entries_of lib caller.clnt)
            × (replymsgs packs rsps d.clnt.state.1 (record asked { clnt = d.clnt.state.0 })
                ≡ done (
                  record { clnt = d.clnt.state.0; privs = caller.privs },
                  heard_registry (record { ctx = thiz; msg = minus_one; arg = none })
                      ∷ heard_demo (record {
                        ctx = thiz;
                        msg = ℤ.pos 0;
                        arg = some (record { id = 1; count = 2; memory = 2 * 2 ^ 30 });
                      })
                      ∷ heard_vmon (record {
                        ctx = thiz;
                        msg = ℤ.pos 0;
                        arg = some (record {
                          id = 1;
                          count = count_of arithmetic packs w (args vmon) 1 request;
                        });
                      })
                      ∷ heard_node_state (record {
                        ctx = thiz;
                        msg = ℤ.pos 0;
                        arg = some (node_of arithmetic packs w (args node_state) 1 request info);
                      })
                      ∷ [],
                ))
      load_core_test_heard {d} r svc_ended svc_stuck svc_read clnt_ended clnt_stuck clnt_read =
          let asked =
            load_core_test_lem lib codec packs.requests registry thiz t caller at created ran
              connected registry_granted demo_granted vmon_granted node_state_granted
              daemon_results in
          let told =
            load_core_test_told r svc_ended svc_stuck svc_read clnt_ended clnt_stuck clnt_read in
          (
            asked.0,
            _,
            asked.1,
            asked.2,
            told.3,
            rw told.2 (
                replymsgs-four packs rsps thiz at d.clnt.state.0 caller.privs daemon_results
                  new_registry new_demo new_vmon new_node_state
                  (demo_of arithmetic packs w (args demo) 1 request) _ _ no_registry demo_unpacked
                  vmon_unpacked node_state_unpacked),
          )
