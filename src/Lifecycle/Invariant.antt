-- ===== src/Lifecycle/Invariant.antt =====
-- Every pass of the replay keeps the events a path that ends in the status.
use ai_trading_platform.Prelude.{
  ◌+◌, ◌≡◌, Bool, true, false, ◌&&◌, ◌||◌, not, Option, none, some, List, [], ◌∷◌, arith, refl,
  Ensures, Ensures->>=, Ensures-ok, Ensures-if, inl, inr, Bool-cases, leb, ltb, ◌==◌,
}
use ai_trading_platform.Timeframe.{Datetime, Timedelta}
use ai_trading_platform.Candle.{Candle, Price}
use ai_trading_platform.Lifecycle.Schema.{
  Status, waiting, active, tp_hit, sl_hit, LifecycleConfig, Candidate, StructuralInvalidation,
  Event, is_terminal, is_waiting, needs_activation, forbids_activation, SameCandlePolicy,
}
use ai_trading_platform.Lifecycle.Events.{Run, EntryEvidence, EntryResolver}
use ai_trading_platform.Lifecycle.Replay.{
  resolve_exit, activate, activated_run, enter, step_waiting, step_bar, replay_bars,
}
use ai_trading_platform.Lifecycle.Trace.{Transition, Trace, IsConsistent, ended, ended-IsConsistent}

module _ (signal : Candidate) (config : LifecycleConfig) (bar : Candle) (bar_close : Datetime) where
  -- An exit of an active trade, by its status and its event.
  exit-IsConsistent :
      (run : Run) (s : Status) (e : Event)
      → run.status ≡ active
      → IsConsistent run
      → e.from_status ≡ some active
      → e.to_status ≡ s
      → Transition active s
      → is_terminal s ≡ true
      → forbids_activation s ≡ false
      → IsConsistent (ended run s bar_close bar_close e)
  exit-IsConsistent run s e a c from to step t f =
      ended-IsConsistent run s bar_close bar_close e c (rw a from) to (rw a step) t
        (λ n. c.activated (rw a)) (λ n. cc)

  pub resolve_exit-IsConsistent :
      (tp sl : Bool) (run : Run)
      → run.status ≡ active
      → IsConsistent run
      → IsConsistent (resolve_exit signal config bar bar_close tp sl run)
  unfolding resolve_exit
  resolve_exit-IsConsistent true true run a c = policy config.same_candle_policy
    where
      policy :
          (p : SameCandlePolicy)
          → IsConsistent
              (resolve_exit signal (record { same_candle_policy = p }) bar bar_close true true run)
      policy SameCandlePolicy.ambiguous =
          exit-IsConsistent run Status.ambiguous _ a c refl refl Transition.exits_unclear refl refl
      policy SameCandlePolicy.conservative_stop_first =
          exit-IsConsistent run sl_hit _ a c refl refl Transition.stops refl refl
  resolve_exit-IsConsistent true false run a c =
      exit-IsConsistent run tp_hit _ a c refl refl Transition.takes_profit refl refl
  resolve_exit-IsConsistent false true run a c =
      exit-IsConsistent run sl_hit _ a c refl refl Transition.stops refl refl
  resolve_exit-IsConsistent false false run a c = record {
    terminal = c.terminal;
    activated = c.activated;
    not_activated = c.not_activated;
    trace = c.trace;
  }

  activated_run-IsConsistent :
      (executed_at : Datetime) (price : Price) (run : Run)
      → run.status ≡ waiting
      → IsConsistent run
      → IsConsistent (activated_run bar bar_close executed_at price run)
  activated_run-IsConsistent executed_at price run w c = record {
    terminal = ground (arith, c.terminal);
    activated = λ n. refl;
    not_activated = λ n. cc;
    trace = Trace.extend _ c.trace (rw w) refl (rw w Transition.enters);
  }

  activate-IsConsistent :
      (tp sl : Bool) (executed_at : Datetime) (price : Price) (run : Run)
      → run.status ≡ waiting
      → IsConsistent run
      → IsConsistent (activate signal config bar bar_close tp sl executed_at price run)
  unfolding activate
  activate-IsConsistent tp sl executed_at price run w c =
      let s = activated_run bar bar_close executed_at price run in
      let k = activated_run-IsConsistent executed_at price run w c in
      elim (Bool-cases ((tp || sl) && not (executed_at == bar.timestamp))) [
        | inl e ↦ rw e (
            exit-IsConsistent s Status.ambiguous _ refl k refl refl Transition.exits_unclear refl
              refl)
        | inr e ↦ rw e (elim (Bool-cases (not (tp || sl))) [
          | inl n ↦ rw n k
          | inr n ↦ rw n (resolve_exit-IsConsistent tp sl s refl k)
        ])
      ]

  enter-IsConsistent :
      (tp sl executed : Bool) (executed_at : Option Datetime) (price : Option Price) (run : Run)
      → run.status ≡ waiting
      → IsConsistent run
      → Ensures IsConsistent
          (enter signal config bar bar_close tp sl executed executed_at price run)
  unfolding enter
  enter-IsConsistent tp sl false executed_at price run w c = record {
    terminal = c.terminal;
    activated = c.activated;
    not_activated = c.not_activated;
    trace = c.trace;
  }
  enter-IsConsistent tp sl true none price run w c = tt
  enter-IsConsistent tp sl true (some t) none run w c = tt
  enter-IsConsistent tp sl true (some t) (some price) run w c =
      Ensures-if IsConsistent (ltb 0 price) _ _ (λ e. activate-IsConsistent tp sl t price run w c)
        (λ e. tt)

  -- A signal that leaves the waiting state without an entry, or with one of unknown order.
  leave-IsConsistent :
      (run : Run) (s : Status) (at last : Datetime) (e : Event)
      → run.status ≡ waiting
      → IsConsistent run
      → e.from_status ≡ some waiting
      → e.to_status ≡ s
      → Transition waiting s
      → is_terminal s ≡ true
      → needs_activation s ≡ false
      → IsConsistent (ended run s at last e)
  leave-IsConsistent run s at last e w c from to step t n =
      ended-IsConsistent run s at last e c (rw w from) to (rw w step) t (λ y. cc)
        (λ y. c.not_activated (rw w))

  step_waiting-IsConsistent :
      (invalidation : Option StructuralInvalidation) (e : EntryEvidence) (run : Run)
      → run.status ≡ waiting
      → IsConsistent run
      → Ensures IsConsistent (step_waiting signal config invalidation bar bar_close e run)
  unfolding step_waiting
  step_waiting-IsConsistent none e run w c =
      enter-IsConsistent _ _ e.executed e.executed_at e.executed_entry_price run w c
  step_waiting-IsConsistent (some i) e run w c =
      Ensures-if IsConsistent (leb i.confirmed_at bar.timestamp) _ _
        (λ before.
          leave-IsConsistent run Status.cancelled _ _ _ w c refl refl Transition.cancels refl refl)
        λ later.
          Ensures-if IsConsistent (leb i.confirmed_at bar_close) _ _
            (λ inside.
              Ensures-if IsConsistent e.executed _ _
                (λ entered.
                  leave-IsConsistent run Status.ambiguous _ _ _ w c refl refl
                    Transition.enters_unclear refl refl)
                (λ stayed.
                  leave-IsConsistent run Status.cancelled _ _ _ w c refl refl Transition.cancels
                    refl refl))
            (λ after.
              enter-IsConsistent _ _ e.executed e.executed_at e.executed_entry_price run w c)

module _ (signal : Candidate) (duration : Timedelta) (config : LifecycleConfig)
    (resolver : EntryResolver) (invalidation : Option StructuralInvalidation) where
  not_terminal : (s : Status) → is_terminal s ≡ false → is_waiting s ≡ false → s ≡ active
  not_terminal s t w = ground arith

  pub step_bar-IsConsistent :
      (previous : Option Candle) (bar : Candle) (run : Run)
      → is_terminal run.status ≡ false
      → IsConsistent run
      → Ensures IsConsistent
          (step_bar signal duration config resolver invalidation previous bar run)
  unfolding step_bar
  step_bar-IsConsistent previous bar run t c =
      let bar_close = bar.timestamp + duration in
      Ensures-if IsConsistent (ltb bar.timestamp signal.created_at) _ _ (λ early. c)
        λ ready.
          Ensures-if IsConsistent (is_waiting run.status) _ _
            (λ w. Ensures->>= IsConsistent (resolver signal bar previous bar_close) _ λ e resolved.
              step_waiting-IsConsistent signal config bar bar_close invalidation e run
                (ground arith) c)
            λ w.
              resolve_exit-IsConsistent signal config bar bar_close _ _ run
                (not_terminal run.status t w) c

  pub replay_bars-IsConsistent :
      (previous : Option Candle) (bars : List Candle) (run : Run)
      → IsConsistent run
      → Ensures IsConsistent
          (replay_bars signal duration config resolver invalidation previous bars run)
  unfolding replay_bars
  replay_bars-IsConsistent previous [] run c = c
  replay_bars-IsConsistent previous (bar ∷ bars) run c =
      Ensures-if IsConsistent (is_terminal run.status) _ _ (λ t. c)
        λ t.
          Ensures->>= IsConsistent
            (step_bar signal duration config resolver invalidation previous bar run) _
            λ later stepped.
              replay_bars-IsConsistent (some bar) bars later (
                Ensures-ok IsConsistent _ later (step_bar-IsConsistent previous bar run t c)
                  stepped)
