-- ===== src/Load/Trial/Script.antt =====
-- src/load/load_core.c: the calls of the test mode, with what they are made with.
use vmp_rl.Base.{ℕ, ◌≡◌, true, List, [], ◌∷◌, some}
use vmp_rl.Rpc.RoundTrip.{plenty}
use vmp_rl.Rpc.Calls.{Call}
use vmp_rl.Service.Messages.{
  Packing, IdReq, RegistryReq, demo_sc_name, vmon_sc_name, node_state_sc_name, registry_sc_name,
}
use vmp_rl.Service.Stubs.{
  Priv, demo_reply_cb_at, vmon_reply_cb_at, node_state_reply_cb_at, registry_reply_cb_at,
}
use vmp_rl.Load.Trial.{Grant, registry_request}

-- All allocations of a call succeed, with a `PrivInfo` at the address.
pub record IsGranted (g : Grant) (address : ℕ) : Type 0 where
  pub priv : g.priv ≡ some address
  pub cbuf : g.cbuf ≡ true
  pub memory : g.memory ≡ plenty

-- The addresses of the four `PrivInfo`s, or what the four methods are to give.
pub record Four {ℓ} (A : Type ℓ) : Type ℓ where
  pub registry : A
  pub demo : A
  pub vmon : A
  pub node_state : A

-- The `PrivInfo` of a call on behalf of the client at `thiz`.
abbrev pub priv_at : (thiz address : ℕ) → Priv
priv_at thiz address = record { address = address; ctx = thiz; pfn_callback = true }

-- The calls, each with its callback and its context.
abbrev pub registry_call : Packing RegistryReq → (at : ℕ) (result : List ℕ) → Call
registry_call reqs at result = record {
  method = registry_sc_name;
  params = reqs.pack registry_request;
  replymsg = registry_reply_cb_at;
  args = at;
  result = result;
}

abbrev pub demo_call : Packing IdReq → (at : ℕ) (result : List ℕ) → Call
demo_call reqs at result = record {
  method = demo_sc_name;
  params = reqs.pack (record { id = 1 });
  replymsg = demo_reply_cb_at;
  args = at;
  result = result;
}

abbrev pub vmon_call : Packing IdReq → (at : ℕ) (result : List ℕ) → Call
vmon_call reqs at result = record {
  method = vmon_sc_name;
  params = reqs.pack (record { id = 1 });
  replymsg = vmon_reply_cb_at;
  args = at;
  result = result;
}

abbrev pub node_state_call : Packing IdReq → (at : ℕ) (result : List ℕ) → Call
node_state_call reqs at result = record {
  method = node_state_sc_name;
  params = reqs.pack (record { id = 1 });
  replymsg = node_state_reply_cb_at;
  args = at;
  result = result;
}

-- In the order of the code.
abbrev pub trial_calls : Packing IdReq → Packing RegistryReq → Four ℕ → Four (List ℕ) → List Call
trial_calls reqs registry at results =
    registry_call registry at.registry results.registry
    ∷ demo_call reqs at.demo results.demo
    ∷ vmon_call reqs at.vmon results.vmon
    ∷ node_state_call reqs at.node_state results.node_state
    ∷ []
