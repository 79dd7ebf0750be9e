-- ===== src/Service/RoundTrip/Daemon.antt =====
-- src/rpc and src/load: what a caller is told by the methods of the running daemon.
use vmp_rl.Base.{
  ℕ, ◌+◌, ◌*◌, ◌^◌, ◌≡◌, refl, ap, ◌∙◌, true, List, [], some, done, ℤ, pos, codes, to_ulong, ◌-ℤ◌,
  Doubles,
}
use vmp_rl.Rpc.Callouts.{Callout, Callouts}
use vmp_rl.Rpc.Server.{Codec, Methods, find_method, call_method, rpc_invoke_call, response_init}
use vmp_rl.Rpc.Client.{NodeList}
use vmp_rl.Rpc.RoundTrip.{plenty}
use vmp_rl.Load.Task.{live}
use vmp_rl.Load.System.{Info}
use vmp_rl.Load.System.Handle.{
  ls_uplink_get, ls_downlink_get, ls_cpu_get, ls_mem_total_get, ls_mem_free_get,
}
use vmp_rl.Service.Messages.{DemoRsp, NodeStateRsp, vmon_sc_name, node_state_sc_name}
use vmp_rl.Service.Handlers.{
  load_child_connection_get, demo_exec, vmon_exec, node_state_exec, sc_demo_func, sc_vmon_func,
  sc_node_state_func,
}
use vmp_rl.Service.Register.{Kind, vmon, node_state, entry, name, load_registers}
use vmp_rl.Service.Entries.{mem, load_registers_lem}
use vmp_rl.Service.Methods.{Packings, World, method, daemon_methods}
use vmp_rl.Service.Stubs.{
  Caller, Asked, rpc_clnt_vmon, rpc_clnt_node_state, vmon_reply_cb_at, node_state_reply_cb_at,
}
use vmp_rl.Service.RoundTrip.{IsNew, IsClear, Travels, stub-Travels}

-- A method that has been registered is found by its name.
pub found :
    (args : Kind → ℕ) (ks : List Kind) (head : Callouts) (k : Kind)
    → load_registers args ks [] ≡ done head
    → mem k ks ≡ true
    → find_method head (name k) ≡ done (some (entry (args k) k))
found args ks head k e m =
    let (head', e', all) = load_registers_lem args ks in
    let same : head ≡ head' = cc in ap (λ h. find_method h (name k)) same ∙ all k ∙ rw m refl

-- A method that is found gives its result under the id of the request.
pub invoke-found :
    (run : Methods) (head : Callouts) (s : Callout) (id : ℕ) (method params result : List ℕ)
    (code : ℤ)
    → find_method head method ≡ done (some s)
    → run s.dispatch s.sc_args params ≡ done (result, code)
    → rpc_invoke_call run head
        (record { id = id; method = method; params = some params })
        response_init
      ≡ done (record { id = id; result = result }, code)
unfolding rpc_invoke_call call_method
invoke-found run head s id method params result code e ran = rw (e, ran) refl

-- What the methods of the running daemon give to a request with an id.
module _ (arithmetic : Doubles) (packs : Packings arithmetic.D) (w : World arithmetic.D) (args : ℕ)
    (id : ℕ)
    (request : packs.requests.unpack (packs.requests.pack (record { id = id }))
      ≡ some (record { id = id })) where
  open arithmetic use {D, of_ℤ, sub, floor_ulong}

  abbrev pub count_of : ℕ
  count_of = load_child_connection_get w.process

  abbrev pub demo_of : DemoRsp
  demo_of = record { id = id; video_cnt = 2; info_mem = 2 * 2 ^ 30 }

  -- The state of the node from what the monitor publishes.
  abbrev pub node_of : Info D → NodeStateRsp D
  node_of info = record {
    id = id;
    index = 0;
    name = codes "server local";
    count = count_of;
    uplink = floor_ulong info.uplink;
    downlink = floor_ulong info.downlink;
    memory = to_ulong (info.mem_total -ℤ info.mem_free);
    cpu = sub (of_ℤ (pos 100)) info.cpu_idle;
  }

  pub demo_ran :
      daemon_methods arithmetic packs w 1 args (packs.requests.pack (record { id = id }))
      ≡ done (packs.demo.pack demo_of, pos 0)
  unfolding daemon_methods demo_exec sc_demo_func
  demo_ran = rw (daemon_methods, method, demo_exec, request) refl

  pub vmon_ran :
      daemon_methods arithmetic packs w 2 args (packs.requests.pack (record { id = id }))
      ≡ done (packs.vmon.pack (record { id = id; count = count_of }), pos 0)
  unfolding daemon_methods vmon_exec sc_vmon_func
  vmon_ran = rw (daemon_methods, method, vmon_exec, request) refl

  pub node_state_ran :
      (info : Info D)
      → w.system ≡ live info
      → daemon_methods arithmetic packs w 3 args (packs.requests.pack (record { id = id }))
        ≡ done (packs.node_state.pack (node_of info), pos 0)
  unfolding daemon_methods node_state_exec sc_node_state_func ls_uplink_get ls_downlink_get
      ls_cpu_get ls_mem_total_get ls_mem_free_get
  node_state_ran info running =
      rw (daemon_methods, method, node_state_exec, request, sc_node_state_func, running) refl

module _ {Q : Type 0} (lib : NodeList Q) (codec : Codec) (arithmetic : Doubles)
    (packs : Packings arithmetic.D) (w : World arithmetic.D) (args : Kind → ℕ) (ks : List Kind)
    (head : Callouts) (started : load_registers args ks [] ≡ done head) (caller : Caller Q)
    (asked : Asked) (address id : ℕ) (there : asked.priv ≡ some address)
    (buffer : asked.cbuf ≡ true) (new : IsNew address caller.privs)
    (request : packs.requests.unpack (packs.requests.pack (record { id = id }))
      ≡ some (record { id = id })) where
  abbrev count : ℕ
  count = load_child_connection_get w.process

  -- Once the vmon task has registered its method, one task after the other in whatever order, a
  -- call of rpc_clnt_vmon all of whose allocations succeed, as that of its reply, whose id is below
  -- 2 ^ 31 and whose messages fit and survive the wire tells the callback of its caller, if one was
  -- given, its own id and the connections that the watch of the child last counted.
  pub vmon-Travels :
      mem vmon ks ≡ true
      → packs.vmon.unpack (packs.vmon.pack (record { id = id; count = count }))
        ≡ some (record { id = id; count = count })
      → IsClear lib codec caller.clnt vmon_sc_name
          (packs.requests.pack (record { id = id }))
          (packs.vmon.pack (record { id = id; count = count }))
      → Travels lib codec packs.vmon.unpack
          (λ r. r)
          (daemon_methods arithmetic packs w)
          head
          caller
          asked
          vmon_reply_cb_at
          (rpc_clnt_vmon lib codec packs.requests id asked plenty caller)
          (record { id = id; count = count })
  unfolding rpc_clnt_vmon
  vmon-Travels registered answer clear =
      stub-Travels lib codec packs.vmon.unpack (λ r. r) (daemon_methods arithmetic packs w) head
        caller asked address vmon_reply_cb_at vmon_sc_name
        (packs.requests.pack (record { id = id }))
        (packs.vmon.pack (record { id = id; count = count })) (record { id = id; count = count })
        (pos 0) clear there buffer new
        (invoke-found (daemon_methods arithmetic packs w) head (entry (args vmon) vmon)
          (caller.clnt.id_gen + 1) vmon_sc_name (packs.requests.pack (record { id = id }))
          (packs.vmon.pack (record { id = id; count = count })) (pos 0)
          (found args ks head vmon started registered)
          (vmon_ran arithmetic packs w (args vmon) id request))
        answer

  open arithmetic use {D}

  abbrev pub state_of : Info D → NodeStateRsp D
  state_of = node_of arithmetic packs w (args node_state) id request

  -- Once the node state task has registered its method, and while the monitor runs, a call of
  -- rpc_clnt_node_state under the same conditions tells the callback of its caller, if one was given,
  -- its own id, the connections, and what the monitor publishes: the rates as integers, the memory
  -- in use, and the share of the processor time that was not idle.
  pub node_state-Travels :
      (info : Info D)
      → w.system ≡ live info
      → mem node_state ks ≡ true
      → packs.node_state.unpack (packs.node_state.pack (state_of info)) ≡ some (state_of info)
      → IsClear lib codec caller.clnt node_state_sc_name
          (packs.requests.pack (record { id = id }))
          (packs.node_state.pack (state_of info))
      → Travels lib codec packs.node_state.unpack
          (λ r. r)
          (daemon_methods arithmetic packs w)
          head
          caller
          asked
          node_state_reply_cb_at
          (rpc_clnt_node_state lib codec packs.requests id asked plenty caller)
          (state_of info)
  unfolding rpc_clnt_node_state
  node_state-Travels info running registered answer clear =
      stub-Travels lib codec packs.node_state.unpack (λ r. r) (daemon_methods arithmetic packs w)
        head caller asked address node_state_reply_cb_at node_state_sc_name
        (packs.requests.pack (record { id = id })) (packs.node_state.pack (state_of info))
        (state_of info) (pos 0) clear there buffer new
        (invoke-found (daemon_methods arithmetic packs w) head (entry (args node_state) node_state)
          (caller.clnt.id_gen + 1) node_state_sc_name (packs.requests.pack (record { id = id }))
          (packs.node_state.pack (state_of info)) (pos 0)
          (found args ks head node_state started registered)
          (node_state_ran arithmetic packs w (args node_state) id request info running))
        answer
