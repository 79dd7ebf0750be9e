-- ===== src/Rpc/Buffer.antt =====
-- src/rpc/pbc/pbrpc-svc.c: `filter_pbrpc_messages`, over the buffers of libevent.
use vmp_rl.Base.{
  ℕ, ◌+◌, ◌^◌, ◌≤◌, ◌<◌, ◌≡◌, refl, ◌∙◌, List, ◌++◌, Option, none, some, arith, length, take, drop,
  u64, ltb, ◌==◌, if◌then◌else◌,
}
use vmp_rl.Rpc.Wire.{read_be64}

-- What `filter_pbrpc_messages` calls of libevent, and what libevent's manual says of it.
pub record EvBuffer (Buf : Type 0) : Type 0 where
  pub bytes : Buf → List ℕ
  pub pullup : Buf → ℕ → Option (List ℕ)
  pub get_length : Buf → ℕ
  pub remove_buffer : Buf → Buf → ℕ → Buf × Buf × ℕ
  pub pullup_enough :
      (b : Buf) (n : ℕ) → n ≤ length (bytes b) → pullup b n ≡ some (take n (bytes b))
  pub pullup_short : (b : Buf) (n : ℕ) → length (bytes b) < n → pullup b n ≡ none
  pub get_length_bytes : (b : Buf) → get_length b ≡ length (bytes b)
  pub removed_src :
      (src dst : Buf) (n : ℕ)
      → n ≤ length (bytes src)
      → bytes (remove_buffer src dst n).0 ≡ drop n (bytes src)
  pub removed_dst :
      (src dst : Buf) (n : ℕ)
      → n ≤ length (bytes src)
      → bytes (remove_buffer src dst n).1 ≡ bytes dst ++ take n (bytes src)
  pub removed_count :
      (src dst : Buf) (n : ℕ) → n ≤ length (bytes src) → (remove_buffer src dst n).2 ≡ n

-- `enum bufferevent_filter_result`
pub data FilterResult : Type 0 where
  bev_ok : FilterResult
  bev_need_more : FilterResult
  bev_error : FilterResult

u64_fits : (n : ℕ) → n < 2 ^ 64 → u64 n ≡ n
u64_fits n h = omega arith

module _ {Buf : Type 0} (lib : EvBuffer Buf) where
  -- The length prefix has been read: `expected_len` is a `size_t`.
  move_message : Buf → Buf → ℕ → Buf × Buf × FilterResult
  move_message src dst message_len =
      let expected_len = u64 (8 + message_len) in
      let moved = lib.remove_buffer src dst expected_len in
      if ltb (lib.get_length src) expected_len
      then (src, dst, bev_need_more)
      else (moved.0, moved.1, if moved.2 == expected_len then bev_ok else bev_error)

  with_length : Buf → Buf → Option ℕ → Buf × Buf × FilterResult
  unfolding move_message
  with_length src dst none = (src, dst, bev_error)
  with_length src dst (some message_len) = move_message src dst message_len

  with_prefix : Buf → Buf → Option (List ℕ) → Buf × Buf × FilterResult
  unfolding with_length
  with_prefix src dst none = (src, dst, bev_error)
  with_prefix src dst (some lenbuf) = with_length src dst (read_be64 lenbuf)

  unfoldable pub filter_pbrpc_messages : Buf → Buf → Buf × Buf × FilterResult
  unfolding with_prefix
  filter_pbrpc_messages src dst = with_prefix src dst (lib.pullup src 8)

  -- Fewer than eight bytes are answered with an error, not with a call for more.
  pub filter-short :
      (src dst : Buf)
      → length (lib.bytes src) < 8
      → filter_pbrpc_messages src dst ≡ (src, dst, bev_error)
  unfolding filter_pbrpc_messages
  filter-short src dst h = rw (lib.pullup_short src 8 h)

  -- With the prefix there, the filter waits for the message or moves exactly the message.
  module _ (src dst : Buf) (message_len : ℕ) (has : 8 ≤ length (lib.bytes src))
      (prefix : read_be64 (take 8 (lib.bytes src)) ≡ some message_len)
      (fits : 8 + message_len < 2 ^ 64) where
    with_prefix_known : filter_pbrpc_messages src dst ≡ move_message src dst message_len
    unfolding filter_pbrpc_messages
    with_prefix_known = rw (lib.pullup_enough src 8 has, prefix)

    pub filter-wait :
        length (lib.bytes src) < 8 + message_len
        → filter_pbrpc_messages src dst ≡ (src, dst, bev_need_more)
    unfolding move_message
    filter-wait h = with_prefix_known ∙ ground (arith, lib.get_length_bytes src)

    move_all :
        8 + message_len ≤ length (lib.bytes src)
        → (let moved = lib.remove_buffer src dst (8 + message_len) in
            move_message src dst message_len ≡ (moved.0, moved.1, bev_ok))
    unfolding move_message
    move_all h =
        rw (u64_fits (8 + message_len) fits)
          (ground (arith, lib.get_length_bytes src, lib.removed_count src dst (8 + message_len) h))

    pub filter-move :
        8 + message_len ≤ length (lib.bytes src)
        → (lib.bytes (filter_pbrpc_messages src dst).0 ≡ drop (8 + message_len) (lib.bytes src))
          × (lib.bytes (filter_pbrpc_messages src dst).1
              ≡ lib.bytes dst ++ take (8 + message_len) (lib.bytes src))
          × ((filter_pbrpc_messages src dst).2 ≡ bev_ok)
    filter-move h =
        rw (with_prefix_known, move_all h)
          (
            lib.removed_src src dst (8 + message_len) h,
            lib.removed_dst src dst (8 + message_len) h,
            refl,
          )
