-- ===== src/Rpc/Session/Progress.antt =====
-- src/rpc/pbc/pbrpc-svc.c: what a connection has handled, however its bytes arrive.
use mathlib.Core.List.{append_assoc, append-nil}
use mathlib.Core.Path.{subst}
use vmp_rl.Base.{
  Option, ℕ, ◌^◌, ◌<◌, ◌≡◌, ◌≢◌, refl, sym, ap, ◌∙◌, List, [], ◌++◌, Run, some, done, arith, length,
  length-append, true,
}
use vmp_rl.Rpc.Frames.{frames, frames-append, length-frames_le, frames-nil}
use vmp_rl.Rpc.Buffer.{EvBuffer, bev_ok, filter_pbrpc_messages}
use vmp_rl.Rpc.Assembly
use vmp_rl.Rpc.Assembly.{Step-IsCut, stuck-passed}
use vmp_rl.Rpc.Server.{generic_read_cb}
use vmp_rl.Rpc.Reading.{
  Handles, Handles-append, Handles-split, Handles-Fits, Handles-nil, stop, generic_read_cb-Handles,
}
use vmp_rl.Rpc.Session.{
  Conn, Step, arrive, filtered, read, unread, Reach, here, later, stream, IsHandled, accepted,
}

some-injective :
    {A : Type 0} {a b : A} → ◌≡◌ {A = Run (Option A)} (done (some a)) (done (some b)) → a ≡ b
some-injective e = cc

module _ {Buf : Type 0} (lib : EvBuffer Buf) {S : Type 0} (proc : S → List ℕ → Run (S × ℕ)) where
  module _ {start end : S} {ms : List (List ℕ)} where
    -- What a callback reads at any time, and what it makes of it.
    pub cut-read :
        {c : Conn lib proc} (h : IsHandled lib proc start end ms c)
        → (t : S) × (generic_read_cb proc (length (lib.bytes c.dst)) true c.state (lib.bytes c.dst)
            ≡ done (some t))
          × Handles proc c.state h.cut.passed t
          × Handles proc t h.cut.coming end
    cut-read {c} h =
        let cut = h.cut in
        let halves =
          Handles-split proc cut.passed
            (subst (λ l. Handles proc c.state l end) cut.split h.handles) in
        let sizes : length (frames cut.passed) < 2 ^ 64 = omega (
          arith,
          h.fits,
          ap (λ (l : List (List ℕ)). length (frames l)) cut.split,
          ap length (frames-append cut.passed cut.coming),
          length-append (frames cut.passed) (frames cut.coming),
        ) in
        (
          halves.0,
          rw cut.through (
              generic_read_cb-Handles proc (length (frames cut.passed)) cut.passed halves.1
                (length-frames_le cut.passed) sizes),
          halves.1,
          halves.2,
        )

    read-IsHandled :
        {c : Conn lib proc} (h : IsHandled lib proc start end ms c) (dst' : Buf) (state' : S)
        → lib.bytes dst' ≡ []
        → generic_read_cb proc (length (lib.bytes c.dst)) true c.state (lib.bytes c.dst)
          ≡ done (some state')
        → IsHandled lib proc start end ms (record c { dst = dst'; state = state' })
    read-IsHandled {c} h dst' state' empty e =
        let cut = h.cut in
        let r = cut-read h in
        let same : r.0 ≡ state' = some-injective (sym r.1 ∙ e) in
        record {
          before = h.before ++ cut.passed;
          left = cut.coming;
          split =
              h.split
              ∙ ap (◌++◌ h.before) cut.split
              ∙ sym (append_assoc h.before cut.passed cut.coming);
          handled =
              subst (Handles proc start (h.before ++ cut.passed)) same
                (Handles-append proc h.handled r.2);
          handles = subst (λ s. Handles proc s cut.coming end) same r.3;
          cut = record {
            passed = [];
            coming = cut.coming;
            split = refl;
            through = empty;
            waiting = cut.waiting;
            fits = cut.fits;
          };
          fits = omega (
            arith,
            h.fits,
            ap (λ (l : List (List ℕ)). length (frames l)) cut.split,
            ap length (frames-append cut.passed cut.coming),
            length-append (frames cut.passed) (frames cut.coming),
          );
        }

    moved-IsHandled :
        {c d : Conn lib proc} (h : IsHandled lib proc start end ms c)
        → c.state ≡ d.state
        → Assembly.Step lib (stream lib proc c) (stream lib proc d)
        → IsHandled lib proc start end ms d
    moved-IsHandled h same st = record {
      before = h.before;
      left = h.left;
      split = h.split;
      handled = subst (Handles proc start h.before) same h.handled;
      handles = subst (λ s. Handles proc s h.left end) same h.handles;
      cut = Step-IsCut lib st h.cut;
      fits = h.fits;
    }

    pub Step-IsHandled :
        {c d : Conn lib proc}
        → Step lib proc c d
        → IsHandled lib proc start end ms c
        → IsHandled lib proc start end ms d
    unfolding generic_read_cb
    Step-IsHandled (arrive src' chunk rest e f) h =
        moved-IsHandled h refl (Assembly.arrive src' chunk rest e f)
    Step-IsHandled filtered h = moved-IsHandled h refl Assembly.filtered
    Step-IsHandled (read dst' state' empty e) h = read-IsHandled h dst' state' empty e
    Step-IsHandled {c} (unread state' e) h =
        let same : c.state ≡ state' = some-injective e in
        subst (λ s. IsHandled lib proc start end ms (record c { state = s })) same h

    pub Reach-IsHandled :
        {c d : Conn lib proc}
        → IsHandled lib proc start end ms c
        → Reach lib proc c d
        → IsHandled lib proc start end ms d
    Reach-IsHandled h here = h
    Reach-IsHandled h (later r st) = Step-IsHandled st (Reach-IsHandled h r)

    -- Where everything has arrived, the filter moves nothing more and the reader has emptied its
    -- buffer, no message is left.
    pub handled-all :
        {c : Conn lib proc}
        → IsHandled lib proc start end ms c
        → c.future ≡ []
        → (filter_pbrpc_messages lib c.src c.dst).2 ≢ bev_ok
        → lib.bytes c.dst ≡ []
        → (c.state ≡ end) × Handles proc start ms end
    handled-all {c} h ended stuck empty =
        let cut = h.cut in
        let coming : cut.coming ≡ [] =
          stuck-passed lib (stream lib proc c) cut.passed cut.coming cut.through
            (sym (ap (◌++◌ (lib.bytes c.src)) ended) ∙ cut.waiting) ended cut.fits stuck in
        let passed : cut.passed ≡ [] = frames-nil cut.passed (sym cut.through ∙ empty) in
        let left : h.left ≡ [] = cut.split ∙ ap (◌++◌ cut.passed) coming ∙ append-nil _ ∙ passed in
        let ended' : c.state ≡ end =
          Handles-nil proc (subst (λ l. Handles proc c.state l end) left h.handles) in
        (
          ended',
          subst (λ l. Handles proc start l end) (sym h.split)
              (Handles-append proc h.handled h.handles),
        )

    pub accepted-IsHandled :
        (empty : Buf)
        → lib.bytes empty ≡ []
        → Handles proc start ms end
        → length (frames ms) < 2 ^ 64
        → IsHandled lib proc start end ms (accepted lib proc empty ms start)
    accepted-IsHandled empty e h fits = record {
      before = [];
      left = ms;
      split = refl;
      handled = stop;
      handles = h;
      cut = record {
        passed = [];
        coming = ms;
        split = refl;
        through = e;
        waiting = ap (λ (l : List ℕ). l ++ frames ms) e;
        fits = Handles-Fits proc h;
      };
      fits = fits;
    }
