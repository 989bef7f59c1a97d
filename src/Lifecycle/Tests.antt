-- ===== src/Lifecycle/Tests.antt =====
-- logger.go: the theorems about loggers at concrete states.
use mathlib.Core.List.{Memᴰ}
use mathlib.Core.List.Memᴰ.{head}
use xm.Base.{ℕ, ◌≡◌, refl, sym, true, false, Option, none, some, [], ◌∷◌, arith, All}
use xm.Lifecycle.{
  step_write, step_has_activity, step_start_flusher, State, flush, request_flush, call_done, write,
  text, base_done, span_of, new_request, new_child_log, sub_logger, run, step, step_recursive_done,
  step_done, step_close, step_flush, delete, insert, add_myself_as_dependent, close, recursive_done,
}
use xm.Lifecycle.Run.{Leads, here, next}
use xm.Lifecycle.Quiet.{IsRooted, IsPlain, IsQuiet, is_request_flush, request_flush-IsQuiet}
use xm.Lifecycle.Endless.{IsIdleSubLogger, write_endless}
use xm.Lifecycle.Told.{done_reaches, flush_finalizes}
use xm.Lifecycle.Revived.{write_finalizes}
use xm.Lifecycle.Finish.{IsReady, IsOver, request_done}

-- A request with two forks, at 1 and 2.
abbrev forked : State
forked =
    new_child_log 0 2 2 false 7 true (new_child_log 0 1 1 false 7 true (new_request 7 true true))

forked-IsReady : IsReady ((1, 1) ∷ (2, 2) ∷ []) forked
unfolding new_child_log new_request add_myself_as_dependent insert
forked-IsReady = record {
  own_parent = refl;
  own_span = refl;
  synchronous = refl;
  attached = refl;
  not_done = refl;
  dependents = refl;
  no_detached = refl;
  leaves = (
    record {
      other = omega arith;
      of_request = refl;
      apart = omega arith;
      attached = refl;
      alone = refl;
      not_done = refl;
      numbered = refl;
    },
    (
      record {
        other = omega arith;
        of_request = refl;
        apart = omega arith;
        attached = refl;
        alone = refl;
        not_done = refl;
        numbered = refl;
      },
      tt,
    ),
  );
  apart = ((omega arith, tt), (tt, tt));
}

request_done_example :
    (k : ℕ) × (u : State) × (run k (call_done 0 ∷ []) forked ≡ some u)
    × IsOver ((1, 1) ∷ (2, 2) ∷ []) forked u
request_done_example = request_done ((1, 1) ∷ (2, 2) ∷ []) forked forked-IsReady

forked_member : Memᴰ (1, 1) (span_of 0 forked).active_dependents
unfolding new_child_log new_request add_myself_as_dependent insert
forked_member = head refl

abbrev state_of : Option State → State
state_of none = forked
state_of (some s) = s

abbrev ended : State
ended = state_of (run 20 (call_done 0 ∷ []) forked)

ends : run 20 (call_done 0 ∷ []) forked ≡ some ended
unfolding run step step_recursive_done step_done step_close step_flush new_child_log new_request
    add_myself_as_dependent insert delete
ends = refl

done_reaches_example :
    Memᴰ (base_done (forked.loggers 0).span true) ended.events
    × All
        (λ (d : ℕ × ℕ). Memᴰ (base_done (forked.loggers d.1).span true) ended.events)
        (span_of 0 forked).active_dependents
done_reaches_example =
    done_reaches 0 20 forked ended
      (unfold new_child_log new_request add_myself_as_dependent in refl) ends

abbrev flushed : State
flushed = state_of (run 20 (flush ∷ []) forked)

flush_ends : run 20 (flush ∷ []) forked ≡ some flushed
unfolding run step step_recursive_done step_done step_close step_flush new_child_log new_request
    add_myself_as_dependent insert delete
flush_ends = refl

flush_finalizes_example : Memᴰ (base_done (forked.loggers 1).span true) flushed.events
flush_finalizes_example =
    flush_finalizes 1 1 20 forked flushed
      (unfold new_child_log new_request add_myself_as_dependent in refl) forked_member flush_ends

abbrev lone : State
lone = new_request 7 true true

lone-IsRooted : IsRooted lone
unfolding new_request
lone-IsRooted l e = sym e

-- The state in which Done of a lone request asks for the flush.
abbrev asking : State
asking = (step (close 0) (step (recursive_done 0 true) lone).1).1

asks : Leads (call_done 0 ∷ []) lone (request_flush ∷ []) asking
unfolding step step_recursive_done step_done step_close new_request
asks = next (next (next (next (next here))))

request_flush-IsQuiet_example : IsQuiet asking
request_flush-IsQuiet_example =
    request_flush-IsQuiet (call_done 0 ∷ []) [] lone asking lone-IsRooted
      (unfold IsPlain is_request_flush in (refl, tt)) asks

-- A request with a sub-logger at 1, flushed and not done.
abbrev idle : State
idle = (step (recursive_done 0 false) (sub_logger 0 1 7 true lone).1).1

idle-IsIdleSubLogger : IsIdleSubLogger 1 idle
unfolding step step_recursive_done sub_logger new_request
idle-IsIdleSubLogger = record {
  other = omega arith;
  same_span = refl;
  of_request = refl;
  attached = refl;
  idle = refl;
  alone = refl;
  not_done = refl;
}

write_endless_example : run 1000000 (write 1 11 (text 0) ∷ []) idle ≡ none
write_endless_example = write_endless 1 11 (text 0) idle idle-IsIdleSubLogger 1000000

-- A request that was flushed, and on which Done was not called.
abbrev unfinished : State
unfinished = (step (recursive_done 0 false) lone).1

abbrev revived : State
revived = state_of (run 20 (write 0 11 (text 0) ∷ []) unfinished)

revives : run 20 (write 0 11 (text 0) ∷ []) unfinished ≡ some revived
unfolding run step step_recursive_done step_done step_close step_flush step_write step_has_activity
    step_start_flusher new_request add_myself_as_dependent insert delete
revives = refl

write_finalizes_example : Memᴰ (base_done (unfinished.loggers 0).span true) revived.events
write_finalizes_example =
    write_finalizes 0 11 20 (text 0) unfinished revived
      (unfold step step_recursive_done new_request in refl) revives
