-- ===== src/Rpc/Session.antt =====
-- src/rpc/pbc/pbrpc-svc.c: a connection, from the bytes that arrive to the messages that its reader
-- has taken. The filter and the reader of `accept_conn_cb` and of `pbrpc_clnt_new` are called in
-- any order, and the bytes arrive in pieces of any size.
pub mod Progress
use vmp_rl.Base.{ℕ, ◌+◌, ◌^◌, ◌<◌, ◌≡◌, List, [], ◌++◌, Run, some, done, arith, length, true, false}
use vmp_rl.Rpc.Frames.{frames}
use vmp_rl.Rpc.Buffer.{EvBuffer, filter_pbrpc_messages}
use vmp_rl.Rpc.Assembly
use vmp_rl.Rpc.Assembly.{Stream, IsCut}
use vmp_rl.Rpc.Server.{generic_read_cb}
use vmp_rl.Rpc.Reading.{Handles}

module _ {Buf : Type 0} (lib : EvBuffer Buf) {S : Type 0} (proc : S → List ℕ → Run (S × ℕ)) where
  -- The buffers below and above the filter, what is still to arrive, and the reader's state.
  pub record Conn : Type 0 where
    pub src : Buf
    pub dst : Buf
    pub future : List ℕ
    pub state : S

  pub data Step (c : Conn) : Conn → Type 0 where
    arrive :
        (src' : Buf) (chunk later : List ℕ)
        → c.future ≡ chunk ++ later
        → lib.bytes src' ≡ lib.bytes c.src ++ chunk
        → Step c (record c { src = src'; future = later })
    filtered : Step c (record c {
      src = (filter_pbrpc_messages lib c.src c.dst).0;
      dst = (filter_pbrpc_messages lib c.src c.dst).1;
    })
    -- `bufferevent_read` empties the buffer.
    read :
        (dst' : Buf) (state' : S)
        → lib.bytes dst' ≡ []
        → generic_read_cb proc (length (lib.bytes c.dst)) true c.state (lib.bytes c.dst)
          ≡ done (some state')
        → Step c (record c { dst = dst'; state = state' })
    -- `generic_read_cb` cannot allocate its buffer.
    unread :
        (state' : S)
        → generic_read_cb proc (length (lib.bytes c.dst)) false c.state (lib.bytes c.dst)
          ≡ done (some state')
        → Step c (record c { state = state' })

  pub data Reach (c : Conn) : Conn → Type 0 where
    here : Reach c c
    later : {d e : Conn} → Reach c d → Step d e → Reach c e

  -- The buffers of a connection as a stream of which the reader has taken nothing.
  abbrev pub stream : Conn → Stream lib
  stream c = record { src = c.src; dst = c.dst; future = c.future; got = [] }

  -- Of the messages `ms`, the first ones have been handled, from `start` on; the rest, from which
  -- the reader gets to `end`, stands whole and in order in the buffers and on the way.
  pub record IsHandled (start end : S) (ms : List (List ℕ)) (c : Conn) : Type 0 where
    pub before : List (List ℕ)
    pub left : List (List ℕ)
    pub split : ms ≡ before ++ left
    pub handled : Handles proc start before c.state
    pub handles : Handles proc c.state left end
    pub cut : IsCut lib left (stream c)
    pub fits : length (frames left) < 2 ^ 64

  -- A connection on which `ms` is to arrive.
  abbrev pub accepted : Buf → List (List ℕ) → S → Conn
  accepted empty ms s = record { src = empty; dst = empty; future = frames ms; state = s }
