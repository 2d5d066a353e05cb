-- ===== src/Lifecycle/Trace.antt =====
-- What holds of the variables of the replay between two passes: the events are a path of the state
-- machine that ends in the status, and the instants of the result agree with the status.
use ai_trading_platform.Prelude.{
  ◌≡◌, true, Option, none, some, List, [], ◌∷◌, ◌++◌, arith, refl, ok, is_some, inl, inr,
  Bool-cases, ◌==◌,
}
use ai_trading_platform.Timeframe.{Datetime}
use ai_trading_platform.Lifecycle.Schema.{
  Status, waiting, active, tp_hit, sl_hit, Candidate, StructuralInvalidation, Event, is_terminal,
  needs_activation, forbids_activation, new_result,
}
use ai_trading_platform.Lifecycle.Events.{Run, append_event}
use ai_trading_platform.Lifecycle.Replay.{start_run, result_of}

-- The transitions of a signal.
pub data Transition : Status → Status → Type 0 where
  enters : Transition waiting active
  cancels : Transition waiting Status.cancelled
  enters_unclear : Transition waiting Status.ambiguous
  takes_profit : Transition active tp_hit
  stops : Transition active sl_hit
  exits_unclear : Transition active Status.ambiguous

-- The events start with the creation, each starts where the one before it ends, and the last
-- one ends in the status.
pub data Trace : List Event → Status → Type 0 where
  start : (e : Event) → e.from_status ≡ none → e.to_status ≡ waiting → Trace (e ∷ []) waiting
  extend :
      {es : List Event} {s t : Status} (e : Event)
      → Trace es s
      → e.from_status ≡ some s
      → e.to_status ≡ t
      → Transition s t
      → Trace (es ++ e ∷ []) t

pub record IsConsistent (run : Run) : Type 0 where
  pub terminal : is_terminal run.status ≡ is_some run.terminal_at
  pub activated : needs_activation run.status ≡ true → is_some run.activated_at ≡ true
  pub not_activated : forbids_activation run.status ≡ true → run.activated_at ≡ none
  pub trace : Trace run.events run.status

pub new_result-of_IsConsistent :
    (signal : Candidate) (run : Run)
    → IsConsistent run
    → new_result (result_of signal run) ≡ ok (result_of signal run)
unfolding new_result
new_result-of_IsConsistent signal run c = ground arith

pub start_run-IsConsistent :
    (signal : Candidate) (invalidation : Option StructuralInvalidation)
    → IsConsistent (start_run signal invalidation)
unfolding start_run
start_run-IsConsistent signal none = record {
  terminal = refl;
  activated = λ h. cc;
  not_activated = λ h. refl;
  trace = Trace.start _ refl refl;
}
start_run-IsConsistent signal (some i) = elim (Bool-cases (i.confirmed_at == signal.created_at)) [
  | inl e ↦ rw e (record {
    terminal = refl;
    activated = λ h. cc;
    not_activated = λ h. refl;
    trace = Trace.extend _ (Trace.start _ refl refl) refl refl Transition.cancels;
  })
  | inr e ↦ rw e (record {
    terminal = refl;
    activated = λ h. cc;
    not_activated = λ h. refl;
    trace = Trace.start _ refl refl;
  })
]

-- A run that ends in `s` by the event `e`.
abbrev pub ended : Run → Status → Datetime → Datetime → Event → Run
ended run s at last e =
    append_event (record run { status = s; terminal_at = some at; last_evaluated_at = last }) e

pub ended-IsConsistent :
    (run : Run) (s : Status) (at last : Datetime) (e : Event)
    → IsConsistent run
    → e.from_status ≡ some run.status
    → e.to_status ≡ s
    → Transition run.status s
    → is_terminal s ≡ true
    → (needs_activation s ≡ true → is_some run.activated_at ≡ true)
    → (forbids_activation s ≡ true → run.activated_at ≡ none)
    → IsConsistent (ended run s at last e)
ended-IsConsistent run s at last e c from to step t needs forbids = record {
  terminal = t;
  activated = needs;
  not_activated = forbids;
  trace = Trace.extend e c.trace from to step;
}
