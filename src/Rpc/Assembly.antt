-- ===== src/Rpc/Assembly.antt =====
-- src/rpc/pbc/pbrpc-svc.c: `filter_pbrpc_messages` on a stream that arrives in pieces of any size.
use mathlib.Core.List.{append_assoc, append-nil}
use native.Mathlib.Decide.{dec_lt}
use vmp_rl.Base.{
  ℕ, ◌+◌, ◌^◌, ◌≤◌, ◌<◌, ◌≡◌, ◌≢◌, refl, sym, ap, ◌∙◌, List, [], ◌∷◌, ◌++◌, arith, length, take,
  length-append,
}
use vmp_rl.Rpc.Wire.{frame, length-frame}
use vmp_rl.Rpc.Buffer.{
  EvBuffer, FilterResult, bev_ok, bev_error, bev_need_more, filter_pbrpc_messages, filter-short,
  filter-wait, filter-move,
}
use vmp_rl.Rpc.Frames.{frames, frames-append, Fits, prefix-frame, take-frame, drop-frame}

module _ {Buf : Type 0} (lib : EvBuffer Buf) where
  -- `future` is still to arrive; `got` is what the reader has taken out of `dst`.
  pub record Stream : Type 0 where
    pub src : Buf
    pub dst : Buf
    pub future : List ℕ
    pub got : List ℕ

  pub data Step (s : Stream) : Stream → Type 0 where
    arrive :
        (src' : Buf) (chunk later : List ℕ)
        → s.future ≡ chunk ++ later
        → lib.bytes src' ≡ lib.bytes s.src ++ chunk
        → Step s (record s { src = src'; future = later })
    filtered : Step s (record s {
      src = (filter_pbrpc_messages lib s.src s.dst).0;
      dst = (filter_pbrpc_messages lib s.src s.dst).1;
    })
    read :
        (dst' : Buf)
        → lib.bytes dst' ≡ []
        → Step s (record s { dst = dst'; got = s.got ++ lib.bytes s.dst })

  pub data Reach (s : Stream) : Stream → Type 0 where
    here : Reach s s
    later : {t u : Stream} → Reach s t → Step t u → Reach s u

  -- The messages fall into those that came through, whole and in order, and those on the way.
  pub record IsCut (ms : List (List ℕ)) (s : Stream) : Type 0 where
    pub passed : List (List ℕ)
    pub coming : List (List ℕ)
    pub split : ms ≡ passed ++ coming
    pub through : s.got ++ lib.bytes s.dst ≡ frames passed
    pub waiting : lib.bytes s.src ++ s.future ≡ frames coming
    pub fits : Fits coming

  -- What the filter does with the next message, `m`.
  module _ (s : Stream) (m : List ℕ) (rest : List (List ℕ)) (passed : List (List ℕ)) where
    filtered-through :
        (fits : 8 + length m < 2 ^ 64)
        → s.got ++ lib.bytes s.dst ≡ frames passed
        → lib.bytes s.src ++ s.future ≡ frames (m ∷ rest)
        → 8 + length m ≤ length (lib.bytes s.src)
        → (let r = filter_pbrpc_messages lib s.src s.dst in
            (s.got ++ lib.bytes r.1 ≡ frames (passed ++ m ∷ []))
            × (lib.bytes r.0 ++ s.future ≡ frames rest)
            × (r.2 ≡ bev_ok))
    filtered-through fits through waiting all =
        let src = lib.bytes s.src in
        let has : 8 ≤ length src = omega arith in
        let r =
          filter-move lib s.src s.dst (length m) has
            (prefix-frame src s.future m (frames rest) fits waiting has) fits all in
        (
          ap (◌++◌ s.got) r.1
              ∙ sym (append_assoc s.got (lib.bytes s.dst) (take (8 + length m) src))
              ∙ ap (λ (l : List ℕ). l ++ take (8 + length m) src) through
              ∙ ap (◌++◌ (frames passed)) (take-frame src s.future m (frames rest) fits waiting all)
              ∙ sym (ap (◌++◌ (frames passed)) (append-nil (frame m)))
              ∙ sym (frames-append passed (m ∷ [])),
          ap (λ (l : List ℕ). l ++ s.future) r.0
              ∙ drop-frame src s.future m (frames rest) fits waiting all,
          r.2,
        )

    filtered-wait :
        (fits : 8 + length m < 2 ^ 64)
        → lib.bytes s.src ++ s.future ≡ frames (m ∷ rest)
        → 8 ≤ length (lib.bytes s.src)
        → length (lib.bytes s.src) < 8 + length m
        → filter_pbrpc_messages lib s.src s.dst ≡ (s.src, s.dst, bev_need_more)
    filtered-wait fits waiting has short =
        filter-wait lib s.src s.dst (length m) has
          (prefix-frame (lib.bytes s.src) s.future m (frames rest) fits waiting has) fits short

  abbrev after_filter : Stream → Stream
  after_filter s = record s {
    src = (filter_pbrpc_messages lib s.src s.dst).0;
    dst = (filter_pbrpc_messages lib s.src s.dst).1;
  }

  kept-IsCut :
      {ms : List (List ℕ)} (s : Stream) (r : FilterResult)
      → filter_pbrpc_messages lib s.src s.dst ≡ (s.src, s.dst, r)
      → IsCut ms s
      → IsCut ms (after_filter s)
  kept-IsCut s r e c = rw e c

  filtered-IsCut :
      {ms : List (List ℕ)} (s : Stream) (passed coming : List (List ℕ))
      → ms ≡ passed ++ coming
      → s.got ++ lib.bytes s.dst ≡ frames passed
      → lib.bytes s.src ++ s.future ≡ frames coming
      → Fits coming
      → 8 ≤ length (lib.bytes s.src)
      → IsCut ms (after_filter s)
  filtered-IsCut s passed [] split through waiting fits has =
      absurd (omega (arith, length-append (lib.bytes s.src) s.future, ap length waiting))
  filtered-IsCut s passed (m ∷ rest) split through waiting fits has =
      elim (dec_lt (length (lib.bytes s.src)) (8 + length m)) [
        | yes short ↦
            kept-IsCut s bev_need_more (filtered-wait s m rest passed fits.0 waiting has short)
              (record {
                passed = passed;
                coming = m ∷ rest;
                split = split;
                through = through;
                waiting = waiting;
                fits = fits;
              })
        | no full ↦
            let r = filtered-through s m rest passed fits.0 through waiting (omega arith) in
            record {
              passed = passed ++ m ∷ [];
              coming = rest;
              split = split ∙ sym (append_assoc passed (m ∷ []) rest);
              through = r.0;
              waiting = r.1;
              fits = fits.1;
            }
      ]

  pub Step-IsCut : {ms : List (List ℕ)} {s t : Stream} → Step s t → IsCut ms s → IsCut ms t
  Step-IsCut {s = s} (arrive src' chunk rest e f) c = record {
    passed = c.passed;
    coming = c.coming;
    split = c.split;
    through = c.through;
    waiting =
        ap (λ (l : List ℕ). l ++ rest) f
        ∙ append_assoc (lib.bytes s.src) chunk rest
        ∙ ap (◌++◌ (lib.bytes s.src)) (sym e)
        ∙ c.waiting;
    fits = c.fits;
  }
  Step-IsCut {s = s} filtered c = elim (dec_lt (length (lib.bytes s.src)) 8) [
    | yes short ↦ kept-IsCut s bev_error (filter-short lib s.src s.dst short) c
    | no long ↦ filtered-IsCut s c.passed c.coming c.split c.through c.waiting c.fits (omega arith)
  ]
  Step-IsCut {s = s} (read dst' e) c = record {
    passed = c.passed;
    coming = c.coming;
    split = c.split;
    through = ap (◌++◌ (s.got ++ lib.bytes s.dst)) e ∙ append-nil _ ∙ c.through;
    waiting = c.waiting;
    fits = c.fits;
  }

  Reach-IsCut : {ms : List (List ℕ)} {s t : Stream} → IsCut ms s → Reach s t → IsCut ms t
  Reach-IsCut c here = c
  Reach-IsCut c (later r st) = Step-IsCut st (Reach-IsCut c r)

  abbrev pub opening : Buf → List (List ℕ) → Stream
  opening empty ms = record { src = empty; dst = empty; future = frames ms; got = [] }

  -- Messages `ms`, sent one after the other and arriving in pieces of any size: whatever the order
  -- of arrivals, filter calls and reads, what has passed the filter are the first of the messages,
  -- whole and in their order, and what has not is the rest of the stream.
  pub Reach-opening-IsCut :
      (empty : Buf) (ms : List (List ℕ)) {t : Stream}
      → lib.bytes empty ≡ []
      → Fits ms
      → Reach (opening empty ms) t
      → IsCut ms t
  Reach-opening-IsCut empty ms e fits r =
      Reach-IsCut
        (record {
          passed = [];
          coming = ms;
          split = refl;
          through = e;
          waiting = ap (λ (l : List ℕ). l ++ frames ms) e;
          fits = fits;
        })
        r

  -- With the whole stream there, a filter that moves nothing more has passed every message.
  pub stuck-passed :
      (s : Stream) (passed coming : List (List ℕ))
      → s.got ++ lib.bytes s.dst ≡ frames passed
      → lib.bytes s.src ++ [] ≡ frames coming
      → s.future ≡ []
      → Fits coming
      → (filter_pbrpc_messages lib s.src s.dst).2 ≢ bev_ok
      → coming ≡ []
  stuck-passed s passed [] through waiting ended fits stuck = refl
  stuck-passed s passed (m ∷ rest) through waiting ended fits stuck = absurd (
      stuck
        (filtered-through s m rest passed fits.0 through
          (ap (◌++◌ (lib.bytes s.src)) ended ∙ waiting)
          (omega (
            arith,
            ap length waiting,
            length-append (lib.bytes s.src) [],
            length-append (frame m) (frames rest),
            length-frame m,
          ))).2)

  -- Once everything has arrived and the filter moves nothing more, all messages are through.
  pub Reach-opening-passed :
      (empty : Buf) (ms : List (List ℕ)) {t : Stream}
      → lib.bytes empty ≡ []
      → Fits ms
      → Reach (opening empty ms) t
      → t.future ≡ []
      → (filter_pbrpc_messages lib t.src t.dst).2 ≢ bev_ok
      → t.got ++ lib.bytes t.dst ≡ frames ms
  Reach-opening-passed empty ms {t} e fits r ended stuck =
      let c = Reach-opening-IsCut empty ms e fits r in
      let all : c.coming ≡ [] =
        stuck-passed t c.passed c.coming c.through
          (sym (ap (◌++◌ (lib.bytes t.src)) ended) ∙ c.waiting) ended c.fits stuck in
      c.through ∙ ap frames (sym (append-nil c.passed) ∙ ap (◌++◌ c.passed) (sym all) ∙ sym c.split)
