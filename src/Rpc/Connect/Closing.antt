-- ===== src/Rpc/Connect/Closing.antt =====
-- src/rpc/pbc/pbrpc-clnt.c and pbrpc-svc.c: what calls, their responses and `generic_event_cb` do to
-- the objects of a client, and its end.
use mathlib.Core.List.{append-nil}
use vmp_rl.Base.{
  ap, sym, ℕ, zero, suc, ◌∙◌, ◌≡◌, refl, Bool, true, false, ◌&&◌, ◌||◌, List, [], ◌∷◌, ◌++◌, Option,
  none, some, if◌then◌else◌, inl, inr, Bool-cases,
}
use vmp_rl.Rpc.Client.{Memory}
use vmp_rl.Rpc.Connect.{
  Object, owner, event_base, socket, filtered, node, Step, same_object, made, used, released,
  without, replay, bufferevent_free, pbrpc_clnt_destroy,
}

-- By the bits of `events`.
unfoldable pub generic_event_cb : (eof error : Bool) → List Step
generic_event_cb eof error = if eof || error then bufferevent_free else []

-- Whether a `pbrpc_clnt_call` lists an entry, and whether it comes to `bufferevent_write`.
abbrev pub lists : Memory → Bool
lists m = m.strdup && m.entry

abbrev pub writes : Memory → Bool
writes m = lists m && m.buffer

-- What a `pbrpc_clnt_call` does with the objects of the client.
unfoldable pub call_steps : Memory → List Step
call_steps m = if lists m then made node ∷ (if m.buffer then used filtered ∷ [] else []) else []

-- What happens to a client between its making and its end; `answered` is a response to an
-- outstanding call, which frees the entry of it.
pub data Act : Type 0 where
  called : Memory → Act
  answered : Act
  event : (eof error : Bool) → Act

-- The steps of a client with that many outstanding calls.
unfoldable pub acts_steps : ℕ → List Act → List Step
unfolding generic_event_cb call_steps
acts_steps n [] = []
acts_steps n (called m ∷ acts) = call_steps m ++ acts_steps (if lists m then suc n else n) acts
acts_steps zero (answered ∷ acts) = acts_steps zero acts
acts_steps (suc n) (answered ∷ acts) = released node ∷ acts_steps n acts
acts_steps n (event eof error ∷ acts) = generic_event_cb eof error ++ acts_steps n acts

-- How many calls are outstanding afterwards.
abbrev pub waiting : ℕ → List Act → ℕ
waiting n [] = n
waiting n (called m ∷ acts) = waiting (if lists m then suc n else n) acts
waiting zero (answered ∷ acts) = waiting zero acts
waiting (suc n) (answered ∷ acts) = waiting n acts
waiting n (event eof error ∷ acts) = waiting n acts

-- Whether the connection is closed at some time.
abbrev pub is_closed : List Act → Bool
is_closed [] = false
is_closed (called m ∷ acts) = is_closed acts
is_closed (answered ∷ acts) = is_closed acts
is_closed (event eof error ∷ acts) = (eof || error) || is_closed acts

-- Whether a call writes to a connection, or an event closes one, that is closed already.
abbrev pub is_misused : (closed : Bool) → List Act → Bool
is_misused closed [] = false
is_misused closed (called m ∷ acts) = (closed && writes m) || is_misused closed acts
is_misused closed (answered ∷ acts) = is_misused closed acts
is_misused closed (event eof error ∷ acts) =
    (closed && (eof || error)) || is_misused (closed || (eof || error)) acts

abbrev pub nodes : ℕ → List Object
nodes zero = []
nodes (suc n) = node ∷ nodes n

-- The objects of a client with that many outstanding calls.
abbrev pub objects : (closed : Bool) → ℕ → List Object
objects true n = nodes n ++ event_base ∷ owner ∷ []
objects false n = nodes n ++ filtered ∷ socket ∷ event_base ∷ owner ∷ []

after_nodes : ℕ → Option (List Object) → Option (List Object)
after_nodes n none = none
after_nodes n (some xs) = some (nodes n ++ xs)

after-zero : (m : Option (List Object)) → m ≡ after_nodes zero m
unfolding after_nodes
after-zero none = refl
after-zero (some xs) = refl

-- `without` behind a first object that stays.
abbrev behind : Object → Option (List Object) → Option (List Object)
behind x m = elim m [ none ↦ none | some ys ↦ some (x ∷ ys) ]

after-suc :
    (n : ℕ) (m : Option (List Object)) → behind node (after_nodes n m) ≡ after_nodes (suc n) m
unfolding after_nodes
after-suc n none = refl
after-suc n (some xs) = refl

without-nodes :
    (o : Object) (n : ℕ) (xs : List Object)
    → same_object node o ≡ false
    → without o (nodes n ++ xs) ≡ after_nodes n (without o xs)
without-nodes o zero xs other = after-zero (without o xs)
without-nodes o (suc n) xs other =
    rw (other, without-nodes o n xs other) (after-suc n (without o xs))

-- What follows a call that writes, and an event that closes.
write-replay :
    (closed : Bool) (n : ℕ) (steps : List Step)
    → replay (used filtered ∷ steps) (objects closed n)
      ≡ (if closed then none else replay steps (objects closed n))
unfolding replay after_nodes
write-replay true n steps = rw (without-nodes filtered n (event_base ∷ owner ∷ []) refl) refl
write-replay false n steps =
    rw (without-nodes filtered n (filtered ∷ socket ∷ event_base ∷ owner ∷ []) refl) refl

close-replay :
    (closed : Bool) (n : ℕ) (steps : List Step)
    → replay (bufferevent_free ++ steps) (objects closed n)
      ≡ (if closed then none else replay steps (objects true n))
unfolding replay after_nodes
close-replay true n steps =
    rw
      (
        without-nodes event_base n (event_base ∷ owner ∷ []) refl,
        without-nodes filtered n (event_base ∷ owner ∷ []) refl,
      )
      refl
close-replay false n steps =
    rw
      (
        without-nodes event_base n (filtered ∷ socket ∷ event_base ∷ owner ∷ []) refl,
        without-nodes filtered n (filtered ∷ socket ∷ event_base ∷ owner ∷ []) refl,
        without-nodes socket n (socket ∷ event_base ∷ owner ∷ []) refl,
      )
      refl

-- The end uses the event base behind its release.
destroy-replay : (closed : Bool) (n : ℕ) → replay pbrpc_clnt_destroy (objects closed n) ≡ none
unfolding replay after_nodes pbrpc_clnt_destroy
destroy-replay true n = rw (without-nodes filtered n (event_base ∷ owner ∷ []) refl) refl
destroy-replay false n =
    rw
      (
        without-nodes filtered n (filtered ∷ socket ∷ event_base ∷ owner ∷ []) refl,
        without-nodes event_base n (filtered ∷ socket ∷ event_base ∷ owner ∷ []) refl,
        without-nodes event_base n (filtered ∷ socket ∷ owner ∷ []) refl,
      )
      refl

-- What a client leaves, if it comes through.
abbrev pub left_by : (closed : Bool) → ℕ → List Act → Option (List Object)
left_by closed n acts =
    if is_misused closed acts
    then none
    else some (objects (closed || is_closed acts) (waiting n acts))

-- The same behind further steps.
abbrev then_replay : List Step → Option (List Object) → Option (List Object)
then_replay more none = none
then_replay more (some live) = replay more live

acts-replay :
    (closed : Bool) (n : ℕ) (acts : List Act) (more : List Step)
    → replay (acts_steps n acts ++ more) (objects closed n)
      ≡ then_replay more (left_by closed n acts)
unfolding replay acts_steps call_steps generic_event_cb
acts-replay true n [] more = refl
acts-replay false n [] more = refl
acts-replay true n (called m ∷ acts) more = elim (Bool-cases (lists m)) [
  | inr missing ↦ rw missing (acts-replay true n acts more)
  | inl listed ↦ elim (Bool-cases m.buffer) [
    | inr missing ↦ rw (listed, missing) (acts-replay true (suc n) acts more)
    | inl there ↦ rw (listed, there) (write-replay true (suc n) (acts_steps (suc n) acts ++ more))
  ]
]
acts-replay false n (called m ∷ acts) more = elim (Bool-cases (lists m)) [
  | inr missing ↦ rw missing (acts-replay false n acts more)
  | inl listed ↦ elim (Bool-cases m.buffer) [
    | inr missing ↦ rw (listed, missing) (acts-replay false (suc n) acts more)
    | inl there ↦
        rw (listed, there)
          (write-replay false (suc n) (acts_steps (suc n) acts ++ more)
            ∙ acts-replay false (suc n) acts more)
  ]
]
acts-replay true zero (answered ∷ acts) more = acts-replay true zero acts more
acts-replay false zero (answered ∷ acts) more = acts-replay false zero acts more
acts-replay true (suc n) (answered ∷ acts) more = acts-replay true n acts more
acts-replay false (suc n) (answered ∷ acts) more = acts-replay false n acts more
acts-replay true n (event true error ∷ acts) more = close-replay true n (acts_steps n acts ++ more)
acts-replay false n (event true error ∷ acts) more =
    close-replay false n (acts_steps n acts ++ more) ∙ acts-replay true n acts more
acts-replay true n (event false true ∷ acts) more = close-replay true n (acts_steps n acts ++ more)
acts-replay false n (event false true ∷ acts) more =
    close-replay false n (acts_steps n acts ++ more) ∙ acts-replay true n acts more
acts-replay true n (event false false ∷ acts) more = acts-replay true n acts more
acts-replay false n (event false false ∷ acts) more = acts-replay false n acts more

then_replay-nil : (m : Option (List Object)) → then_replay [] m ≡ m
unfolding replay
then_replay-nil none = refl
then_replay-nil (some live) = refl

left-faults :
    (closed : Bool) (n : ℕ) (acts : List Act)
    → then_replay pbrpc_clnt_destroy (left_by closed n acts) ≡ none
left-faults closed n acts = elim (Bool-cases (is_misused closed acts)) [
  | inl bad ↦ rw bad refl
  | inr good ↦ rw good (destroy-replay (closed || is_closed acts) (waiting n acts))
]

-- A client on which calls are made, responses come in and events come: unless a call writes to its
-- connection, or an event closes it, behind its close, all comes through, and what is left are its
-- objects, with an entry for each call that no response has reached. The end of a client never
-- comes through: it frees the connection behind the event base that this works on.
pub pbrpc_clnt_closed :
    (acts : List Act)
    → (replay (acts_steps 0 acts) (objects false 0) ≡ (
        if is_misused false acts then none else some (objects (is_closed acts) (waiting 0 acts))))
      × (replay (acts_steps 0 acts ++ pbrpc_clnt_destroy) (objects false 0) ≡ none)
pbrpc_clnt_closed acts = (
  ap (λ steps. replay steps (objects false 0)) (sym (append-nil (acts_steps 0 acts)))
      ∙ acts-replay false 0 acts []
      ∙ then_replay-nil (left_by false 0 acts),
  acts-replay false 0 acts pbrpc_clnt_destroy ∙ left-faults false 0 acts,
)
