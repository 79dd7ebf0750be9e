-- ===== src/Rpc/Connect.antt =====
-- src/rpc/pbc/pbrpc-clnt.c and pbrpc-svc.c: the objects that connections and listeners are made of,
-- as the calls that make and release them.
pub mod Closing
use vmp_rl.Base.{
  ◌≡◌, refl, Bool, true, false, ◌&&◌, List, [], ◌∷◌, ◌++◌, Option, none, some, Run, done, fault,
  if◌then◌else◌,
}

-- `clnt` or `svc`, the objects of libevent, and an entry of the list of outstanding calls.
pub data Object : Type 0 where
  owner : Object
  event_base : Object
  socket : Object
  filtered : Object
  listener : Object
  node : Object

pub data Step : Type 0 where
  made : Object → Step
  used : Object → Step
  released : Object → Step

abbrev pub same_object : Object → Object → Bool
same_object owner owner = true
same_object event_base event_base = true
same_object socket socket = true
same_object filtered filtered = true
same_object listener listener = true
same_object node node = true
same_object _ _ = false

abbrev pub without : Object → List Object → Option (List Object)
without o [] = none
without o (x ∷ xs) =
    let rest = without o xs in
    if same_object x o then some xs else elim rest [ none ↦ none | some ys ↦ some (x ∷ ys) ]

abbrev pub is_some : Option (List Object) → Bool
is_some none = false
is_some (some xs) = true

-- The objects that are alive after some calls, if none of these uses or releases a dead one.
unfoldable pub replay : List Step → List Object → Option (List Object)
replay [] live = some live
replay (made o ∷ steps) live = replay steps (o ∷ live)
replay (used o ∷ steps) live =
    let rest = replay steps live in if is_some (without o live) then rest else none
replay (released o ∷ steps) live = elim (without o live) [
  | none ↦ none
  | some left ↦ replay steps left
]

-- Which of the calls of `pbrpc_clnt_new` succeed.
pub record Connecting : Type 0 where
  pub calloc : Bool
  pub base_new : Bool
  pub socket_new : Bool
  pub connect : Bool
  pub filter_new : Bool

-- Behind `err`, by what was made.
abbrev clnt_err : (bev base : Bool) → List Step
clnt_err bev base =
    released owner ∷ (if bev then released socket ∷ [] else [])
    ++ (if base then released event_base ∷ [] else [])

-- The steps, and whether there is a client. The filter is not tested; it takes the socket over.
unfoldable pub pbrpc_clnt_new : Connecting → Run (List Step × Bool)
pbrpc_clnt_new a =
    if a.calloc
    then if a.base_new
      then if a.socket_new
        then if a.connect
          then if a.filter_new
            then done (
              made owner
                  ∷ made event_base
                  ∷ made socket
                  ∷ used socket
                  ∷ made filtered
                  ∷ used filtered
                  ∷ [],
              true,
            )
            else fault
          else done
              (made owner ∷ made event_base ∷ made socket ∷ used socket ∷ clnt_err true true, false)
        else done (made owner ∷ made event_base ∷ clnt_err false true, false)
      else done (made owner ∷ clnt_err false false, false)
    else done ([], false)

-- `bufferevent_free` on the filter: it works on the event base, and releases the socket below, too
-- (BEV_OPT_CLOSE_ON_FREE).
abbrev pub bufferevent_free : List Step
bufferevent_free = used event_base ∷ released filtered ∷ released socket ∷ []

unfoldable pub pbrpc_clnt_destroy : List Step
pbrpc_clnt_destroy =
    used filtered
    ∷ used event_base
    ∷ released event_base
    ∷ (bufferevent_free ++ released owner ∷ [])

-- Which of the calls of `pbrpc_svc_new` succeed.
pub record Listening : Type 0 where
  pub calloc : Bool
  pub base_new : Bool
  pub new_bind : Bool

unfoldable pub pbrpc_svc_new : Listening → List Step × Bool
pbrpc_svc_new a =
    if a.calloc
    then if a.base_new
      then if a.new_bind
        then (made owner ∷ made event_base ∷ made listener ∷ used listener ∷ [], true)
        else (made owner ∷ made event_base ∷ released owner ∷ [], false)
      else (made owner ∷ released owner ∷ [], false)
    else ([], false)

unfoldable pub pbrpc_svc_destroy : List Step
pbrpc_svc_destroy = used listener ∷ used event_base ∷ released event_base ∷ released owner ∷ []

-- A new connection. Neither the socket nor the filter is tested.
unfoldable pub accept_conn_cb : (socket_new filter_new : Bool) → Run (List Step)
accept_conn_cb socket_new filter_new =
    if socket_new && filter_new
    then done (used listener ∷ made socket ∷ made filtered ∷ used filtered ∷ [])
    else fault

-- As long as the filter can be made, `pbrpc_clnt_new` uses and releases only what is alive. Where
-- it gives no client nothing of what it made is left.
pub pbrpc_clnt_new_lem :
    (a : Connecting)
    → a.filter_new ≡ true
    → (steps : List Step) × (ok : Bool) × (pbrpc_clnt_new a ≡ done (steps, ok))
      × (ok ≡ (a.calloc && a.base_new && a.socket_new && a.connect))
      × (replay steps [] ≡ some (if ok then filtered ∷ socket ∷ event_base ∷ owner ∷ [] else []))
unfolding pbrpc_clnt_new replay
pbrpc_clnt_new_lem a filter = rw filter (by_calls a.calloc a.base_new a.socket_new a.connect)
  where
    by_calls :
        (c b s n : Bool)
        → (steps : List Step) × (ok : Bool) × (pbrpc_clnt_new
              (record { calloc = c; base_new = b; socket_new = s; connect = n; filter_new = true })
            ≡ done (steps, ok))
          × (ok ≡ (c && b && s && n))
          × (replay steps []
              ≡ some (if ok then filtered ∷ socket ∷ event_base ∷ owner ∷ [] else []))
    by_calls true true true true = (_, _, refl, refl, refl)
    by_calls true true true false = (_, _, refl, refl, refl)
    by_calls true true false n = (_, _, refl, refl, refl)
    by_calls true false s n = (_, _, refl, refl, refl)
    by_calls false b s n = (_, _, refl, refl, refl)

-- `pbrpc_svc_new` leaves its event base behind where it can not listen, and a service that is made
-- and destroyed leaves its listener behind.
pub pbrpc_svc_new_leaks :
    (a : Listening)
    → (let r = pbrpc_svc_new a in
        (r.1 ≡ (a.calloc && a.base_new && a.new_bind))
        × (replay (r.0 ++ (if r.1 then pbrpc_svc_destroy else [])) []
            ≡ some (
                if r.1
                then listener ∷ []
                else if a.calloc && a.base_new
                then event_base ∷ []
                else [])))
unfolding pbrpc_svc_new pbrpc_svc_destroy replay
pbrpc_svc_new_leaks a = by_calls a.calloc a.base_new a.new_bind
  where
    by_calls :
        (c b n : Bool)
        → (let r = pbrpc_svc_new (record { calloc = c; base_new = b; new_bind = n }) in
            (r.1 ≡ (c && b && n))
            × (replay (r.0 ++ (if r.1 then pbrpc_svc_destroy else [])) []
                ≡ some (if r.1 then listener ∷ [] else if c && b then event_base ∷ [] else [])))
    by_calls true true true = (refl, refl)
    by_calls true true false = (refl, refl)
    by_calls true false n = (refl, refl)
    by_calls false b n = (refl, refl)
