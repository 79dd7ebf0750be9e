-- ===== src/Load/Trial/Replies.antt =====
-- src/rpc/clnt_*.c and src/load/load_core.c: what the callbacks of the test mode are told.
use mathlib.Core.List.{append-nil}
use vmp_rl.Base.{
  ℕ, ◌≡◌, refl, List, [], ◌∷◌, ◌++◌, Option, none, some, Run, done, fault, ◌>>=◌, minus_one, pos,
  ◌==◌, arith, if◌then◌else◌,
}
use vmp_rl.Rpc.Client.{Clnt, Reply}
use vmp_rl.Service.Messages.{Packing, DemoRsp, VmonRsp, NodeStateRsp, RegistryRsp}
use vmp_rl.Service.Methods.{Packings}
use vmp_rl.Service.Stubs.{
  Priv, Caller, Told, take_priv, reply_cb, ClntDemoRsp, demo_info, ClntServerRegistryRsp,
  registry_info, demo_reply_cb, vmon_reply_cb, node_state_reply_cb, registry_reply_cb,
  demo_reply_cb_at, vmon_reply_cb_at, node_state_reply_cb_at, registry_reply_cb_at,
}
use vmp_rl.Service.RoundTrip.{IsNew}
use vmp_rl.Load.Trial.Script.{Four, priv_at}

-- What one of the four callbacks of the caller is told.
pub data Heard (D : Type 0) : Type 0 where
  heard_registry : Told ClntServerRegistryRsp → Heard D
  heard_demo : Told ClntDemoRsp → Heard D
  heard_vmon : Told VmonRsp → Heard D
  heard_node_state : Told (NodeStateRsp D) → Heard D

abbrev pub heard : {D R : Type 0} → (Told R → Heard D) → Option (Told R) → List (Heard D)
heard f none = []
heard f (some t) = f t ∷ []

module _ {Q D : Type 0} (packs : Packings D) (registry : Packing RegistryRsp) where
  -- `call->replymsg(call->ctx, &rsp->result, 0)`, by the address of the callback.
  unfoldable pub replymsg : Reply → Caller Q → Run (Caller Q × List (Heard D))
  replymsg r caller =
      if r.replymsg == demo_reply_cb_at
      then (demo_reply_cb packs.demo r.ctx r.result (pos 0) caller >>= λ t.
          done (t.0, heard heard_demo t.1))
      else if r.replymsg == vmon_reply_cb_at
      then (vmon_reply_cb packs.vmon r.ctx r.result (pos 0) caller >>= λ t.
          done (t.0, heard heard_vmon t.1))
      else if r.replymsg == node_state_reply_cb_at
      then (node_state_reply_cb packs.node_state r.ctx r.result (pos 0) caller >>= λ t.
          done (t.0, heard heard_node_state t.1))
      else if r.replymsg == registry_reply_cb_at
      then (registry_reply_cb registry r.ctx r.result (pos 0) caller >>= λ t.
          done (t.0, heard heard_registry t.1))
      else fault

  -- The callbacks of several replies, one after the other.
  unfoldable pub replymsgs : List Reply → Caller Q → Run (Caller Q × List (Heard D))
  unfolding replymsg
  replymsgs [] caller = done (caller, [])
  replymsgs (r ∷ rs) caller =
      replymsg r caller >>= λ t. replymsgs rs t.0 >>= λ u. done (u.0, t.1 ++ u.1)

take_priv-among :
    (address : ℕ) (before after : List Priv) (p : Priv)
    → IsNew address before
    → p.address ≡ address
    → take_priv address (before ++ p ∷ after) ≡ some (p, before ++ after)
unfolding take_priv
take_priv-among address [] after p new here = ground (arith, here)
take_priv-among address (q ∷ before) after p (other, new) here =
    rw (other, take_priv-among address before after p new here) refl

module _ {Q M R : Type 0} (unpack : List ℕ → Option M) (read : M → R) (thiz address : ℕ)
    (clnt : Clnt Q) (before after : List Priv) (new : IsNew address before) (msg : List ℕ) where
  abbrev owning : List Priv → Caller Q
  owning privs = record { clnt = clnt; privs = privs }

  pub reply_cb-read :
      (rsp : M)
      → unpack msg ≡ some rsp
      → reply_cb unpack read address msg (pos 0) (owning (before ++ priv_at thiz address ∷ after))
        ≡ done (
          owning (before ++ after),
          some (record { ctx = thiz; msg = pos 0; arg = some (read rsp) }),
          pos 0,
        )
  unfolding reply_cb
  reply_cb-read rsp e =
      rw (reply_cb, take_priv-among address before after (priv_at thiz address) new refl, e) refl

  pub reply_cb-unread :
      unpack msg ≡ none
      → reply_cb unpack read address msg (pos 0) (owning (before ++ priv_at thiz address ∷ after))
        ≡ done (
          owning (before ++ after),
          some (record { ctx = thiz; msg = minus_one; arg = none }),
          minus_one,
        )
  unfolding reply_cb
  reply_cb-unread e =
      rw (reply_cb, take_priv-among address before after (priv_at thiz address) new refl, e) refl

-- The four replies of a daemon that does not know the registry, to the callers of a client whose
-- `PrivInfo`s stand behind `privs`.
module _ {Q D : Type 0} (packs : Packings D) (registry : Packing RegistryRsp) (thiz : ℕ)
    (at : Four ℕ) (clnt : Clnt Q) (privs : List Priv) (results : Four (List ℕ))
    (new_registry : IsNew at.registry privs) (new_demo : IsNew at.demo privs)
    (new_vmon : IsNew at.vmon privs) (new_node_state : IsNew at.node_state privs)
    (demo_rsp : DemoRsp) (vmon_rsp : VmonRsp) (node_state_rsp : NodeStateRsp D)
    (no_registry : registry.unpack results.registry ≡ none)
    (demo_there : packs.demo.unpack results.demo ≡ some demo_rsp)
    (vmon_there : packs.vmon.unpack results.vmon ≡ some vmon_rsp)
    (node_state_there : packs.node_state.unpack results.node_state ≡ some node_state_rsp) where
  pub replymsgs-four :
      replymsgs packs registry
        (record { replymsg = registry_reply_cb_at; ctx = at.registry; result = results.registry }
          ∷ record { replymsg = demo_reply_cb_at; ctx = at.demo; result = results.demo }
          ∷ record { replymsg = vmon_reply_cb_at; ctx = at.vmon; result = results.vmon }
          ∷ record {
            replymsg = node_state_reply_cb_at;
            ctx = at.node_state;
            result = results.node_state;
          }
          ∷ [])
        (record {
          clnt = clnt;
          privs =
              privs
              ++ priv_at thiz at.registry
                ∷ priv_at thiz at.demo
                ∷ priv_at thiz at.vmon
                ∷ priv_at thiz at.node_state
                ∷ [];
        })
      ≡ done (
        record { clnt = clnt; privs = privs },
        heard_registry (record { ctx = thiz; msg = minus_one; arg = none })
            ∷ heard_demo (record { ctx = thiz; msg = pos 0; arg = some (demo_info demo_rsp) })
            ∷ heard_vmon (record { ctx = thiz; msg = pos 0; arg = some vmon_rsp })
            ∷ heard_node_state (record { ctx = thiz; msg = pos 0; arg = some node_state_rsp })
            ∷ [],
      )
  unfolding replymsgs replymsg demo_reply_cb vmon_reply_cb node_state_reply_cb registry_reply_cb
  replymsgs-four =
      let last3 = priv_at thiz at.demo ∷ priv_at thiz at.vmon ∷ priv_at thiz at.node_state ∷ [] in
      let last2 = priv_at thiz at.vmon ∷ priv_at thiz at.node_state ∷ [] in
      rw
        (
          reply_cb-unread registry.unpack registry_info thiz at.registry clnt privs last3
              new_registry results.registry no_registry,
          reply_cb-read packs.demo.unpack demo_info thiz at.demo clnt privs last2 new_demo
              results.demo demo_rsp demo_there,
          reply_cb-read packs.vmon.unpack (λ r. r) thiz at.vmon clnt privs
              (priv_at thiz at.node_state ∷ []) new_vmon results.vmon vmon_rsp vmon_there,
          reply_cb-read packs.node_state.unpack (λ r. r) thiz at.node_state clnt privs []
              new_node_state results.node_state node_state_rsp node_state_there,
          append-nil privs,
        )
        refl
