-- ===== src/Counter/Tests.antt =====
-- xoputil/counter.go: the theorem on numbers at a counter in use.
use xm.Base.{◌≡◌, refl, true, false, [], ◌∷◌, lookup, insert, bytes_eq}
use xm.Counter.{RequestCounter, new_request_counter, get_number, after_calls}
use xm.Counter.Stable.{get_number-get_number}

-- Two traces, the first with two requests.
abbrev used : RequestCounter
unfolding after_calls new_request_counter
used = after_calls ((1 ∷ [], 5 ∷ []) ∷ (2 ∷ [], 5 ∷ []) ∷ (1 ∷ [], 6 ∷ []) ∷ []) new_request_counter

-- The third request of the first trace.
third :
    (get_number (1 ∷ []) (7 ∷ []) used).0
    ≡ record { trace_number = 1; request_number = 3; is_new = true }
unfolding get_number lookup used insert bytes_eq
third = refl

get_number-get_number_example :
    (get_number
      (1 ∷ [])
      (7 ∷ [])
      (after_calls ((3 ∷ [], 7 ∷ []) ∷ []) (get_number (1 ∷ []) (7 ∷ []) used).1)).0
    ≡ record {
      trace_number = (get_number (1 ∷ []) (7 ∷ []) used).0.trace_number;
      request_number = (get_number (1 ∷ []) (7 ∷ []) used).0.request_number;
      is_new = false;
    }
get_number-get_number_example = get_number-get_number (1 ∷ []) (7 ∷ []) ((3 ∷ [], 7 ∷ []) ∷ []) used
