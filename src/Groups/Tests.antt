-- ===== src/Groups/Tests.antt =====
-- basegroup.go: the theorems on groups at concrete members.
use xm.Base.{
  ℕ, ◌≡◌, refl, true, some, List, [], ◌∷◌, ◌++◌, map, length, Bytes, lookup, insert, bytes_eq,
}
use xm.Settings.{int_type}
use xm.Groups.Calls.{int64_attribute, msg_call, boring_call}
use xm.Groups.Spans.{Member, Script, follow}
use xm.Groups.Requests.{start_requests-first, first_by_id, first_with, request_of}
use xm.Groups.Final.{
  turn, runs, flush_events, begin_flush, FlushesAll, flush_events-FlushesAll, Flushing,
  final_after_loop, final_after_loop-replicate,
}
use xm.Groups.{start_requests, grouped}

-- A member that notes how much it was told.
abbrev noting : Member (List ℕ) (List ℕ) (List ℕ) (List ℕ)
noting = record {
  call = λ c s. 1 ∷ s;
  span = λ t name code s. length name ∷ s;
  id = λ s. s;
  no_prefill = λ s. s;
  start_prefill = λ s. 0 ∷ s;
  prefill = λ a p. 2 ∷ p;
  prefill_complete = λ text p. text ++ p;
  start_line = λ level t frames d. level ∷ d;
  line = λ c n. 3 ∷ n;
}

abbrev script : Script
script = record {
  before = boring_call true ∷ [];
  time = record { wall = 5; ext = 6; loc = 0 };
  name = b'c' ∷ b'h' ∷ b'i' ∷ b'l' ∷ b'd' ∷ [];
  code = b'A' ∷ [];
  after = [];
  attributes = int64_attribute (b'n' ∷ []) 4 int_type ∷ [];
  text = b'p' ∷ [];
  level = 8;
  frames = [];
  calls = msg_call (b'd' ∷ b'o' ∷ []) ∷ [];
}

-- The noted calls of a member, newest first.
followed : follow noting script [] ≡ 3 ∷ 8 ∷ 112 ∷ 2 ∷ 0 ∷ 5 ∷ 1 ∷ []
unfolding follow
followed = refl

abbrev first_ids : List (Bytes × ℕ)
first_ids = ((b'a' ∷ []), 1) ∷ ((b'b' ∷ []), 2) ∷ ((b'a' ∷ []), 3) ∷ []

start_requests-first_example :
    ((start_requests (λ l. l.0) (λ l. l.1) first_ids).0
      ≡ grouped (map (λ (l : Bytes × ℕ). l.1) (first_by_id (λ l. l.0) (λ l. l.1) [] first_ids)))
    × (lookup (b'a' ∷ []) (start_requests (λ l. l.0) (λ l. l.1) first_ids).1
        ≡ request_of (λ l. l.0) (λ l. l.1) (first_with (λ l. l.0) (λ l. l.1) (b'a' ∷ []) first_ids))
start_requests-first_example =
    start_requests-first (λ l. l.0) (λ l. l.1) ((b'a' ∷ []), 1) ((b'b' ∷ []), 2)
      (((b'a' ∷ []), 3) ∷ []) (b'a' ∷ [])

-- The third logger has the id of the first.
started : (start_requests (λ (l : Bytes × ℕ). l.0) (λ l. l.1) first_ids).0 ≡ grouped (1 ∷ 2 ∷ [])
unfolding start_requests lookup insert bytes_eq
started = refl

abbrev flushed_out_of_order : Flushing ℕ
flushed_out_of_order = record { rest = []; waiting = []; count = 0; flushed = 4 ∷ 7 ∷ [] }

flush_events-FlushesAll_example : FlushesAll (4 ∷ 7 ∷ []) flushed_out_of_order
unfolding flush_events begin_flush
flush_events-FlushesAll_example =
    flush_events-FlushesAll (4 ∷ 7 ∷ []) (turn ∷ turn ∷ runs 0 ∷ runs 0 ∷ []) flushed_out_of_order
      refl

final_after_loop-replicate_example :
    final_after_loop {R = ℕ} (4 ∷ 7 ∷ [])
    ≡ some (record { rest = []; variable = some 7; waiting = 0; finished = 7 ∷ 7 ∷ [] })
final_after_loop-replicate_example = final_after_loop-replicate (4 ∷ []) 7
