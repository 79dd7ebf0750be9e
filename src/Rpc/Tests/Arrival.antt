-- ===== src/Rpc/Tests/Arrival.antt =====
-- The theorems on the stream of messages at a concrete input.
use vmp_rl.Base.{
  ℕ, ◌≤◌, ◌<◌, ◌≡◌, ◌≢◌, refl, List, [], ◌∷◌, ◌++◌, Option, none, some, arith, length, take, drop,
  if◌then◌else◌, leb,
}
use vmp_rl.Rpc.Wire.{read_be64, frame}
use vmp_rl.Rpc.Buffer.{EvBuffer, bev_ok, filter_pbrpc_messages}
use vmp_rl.Rpc.Assembly
use vmp_rl.Rpc.Frames.{frames}
use vmp_rl.Rpc.Assembly.{Stream, Step, Reach, IsCut, opening}

-- A buffer that is its bytes.
unfoldable pub pullup_list : List ℕ → ℕ → Option (List ℕ)
pullup_list b n = if leb n (length b) then some (take n b) else none

unfoldable pub remove_list : List ℕ → List ℕ → ℕ → List ℕ × List ℕ × ℕ
remove_list src dst n =
    (drop n src, dst ++ take n src, if leb n (length src) then n else length src)

pub pullup_list_enough : (b : List ℕ) (n : ℕ) → n ≤ length b → pullup_list b n ≡ some (take n b)
unfolding pullup_list
pullup_list_enough b n h = ground arith

pub pullup_list_short : (b : List ℕ) (n : ℕ) → length b < n → pullup_list b n ≡ none
unfolding pullup_list
pullup_list_short b n h = ground arith

pub remove_list_src :
    (src dst : List ℕ) (n : ℕ) → n ≤ length src → (remove_list src dst n).0 ≡ drop n src
unfolding remove_list
remove_list_src src dst n h = refl

pub remove_list_dst :
    (src dst : List ℕ) (n : ℕ) → n ≤ length src → (remove_list src dst n).1 ≡ dst ++ take n src
unfolding remove_list
remove_list_dst src dst n h = refl

pub remove_list_count : (src dst : List ℕ) (n : ℕ) → n ≤ length src → (remove_list src dst n).2 ≡ n
unfolding remove_list
remove_list_count src dst n h = ground arith

abbrev pub list_buffer : EvBuffer (List ℕ)
list_buffer = record {
  bytes = λ b. b;
  pullup = pullup_list;
  get_length = λ b. length b;
  remove_buffer = remove_list;
  pullup_enough = pullup_list_enough;
  pullup_short = pullup_list_short;
  get_length_bytes = λ b. refl;
  removed_src = remove_list_src;
  removed_dst = remove_list_dst;
  removed_count = remove_list_count;
}

-- Two messages, of which the first and a part of the second have arrived and been filtered.
abbrev two_messages : List (List ℕ)
two_messages = (5 ∷ 6 ∷ []) ∷ (7 ∷ []) ∷ []

abbrev first_chunk : List ℕ
first_chunk = take 13 (frames two_messages)

abbrev second_chunk : List ℕ
second_chunk = drop 13 (frames two_messages)

abbrev half_way : Stream list_buffer
half_way = record { src = first_chunk; dst = []; future = second_chunk; got = [] }

abbrev all_there : Stream list_buffer
all_there = record { src = frames two_messages; dst = []; future = []; got = [] }

abbrev drained : Stream list_buffer
drained = record { src = []; dst = frames two_messages; future = []; got = [] }

half_way_reached : Reach list_buffer (opening list_buffer [] two_messages) half_way
unfolding frame
half_way_reached =
    Reach.later Reach.here (Step.arrive first_chunk first_chunk second_chunk refl refl)

half_way-IsCut : IsCut list_buffer two_messages half_way
half_way-IsCut =
    Assembly.Reach-opening-IsCut list_buffer [] two_messages refl (omega arith) half_way_reached

drained_reached : Reach list_buffer (opening list_buffer [] two_messages) drained
unfolding frame filter_pbrpc_messages pullup_list remove_list read_be64
drained_reached =
    let arrival : Step list_buffer (opening list_buffer [] two_messages) all_there =
      Step.arrive (frames two_messages) (frames two_messages) [] refl refl in
    let one_through : Stream list_buffer = record {
      src = frame (7 ∷ []);
      dst = frame (5 ∷ 6 ∷ []);
      future = [];
      got = [];
    } in
    let first : Step list_buffer all_there one_through = Step.filtered in
    let second : Step list_buffer one_through drained = Step.filtered in
    Reach.later (Reach.later (Reach.later Reach.here arrival) first) second

drained_stuck : (filter_pbrpc_messages list_buffer [] (frames two_messages)).2 ≢ bev_ok
unfolding filter_pbrpc_messages pullup_list
drained_stuck e = cc

all_passed : frames two_messages ≡ frames two_messages
all_passed =
    Assembly.Reach-opening-passed list_buffer [] two_messages refl (omega arith) drained_reached
      refl drained_stuck
