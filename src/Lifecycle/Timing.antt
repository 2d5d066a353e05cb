-- ===== src/Lifecycle/Timing.antt =====
-- What a pass of the loop does to the instants of a run.
use ai_trading_platform.Prelude.{
  ◌≤◌, ◌≡◌, Bool, true, false, Option, none, some, arith, ok, Ensures, Ensures-if, leb, ltb,
}
use ai_trading_platform.Timeframe.{Datetime}
use ai_trading_platform.Candle.{Candle, Price}
use ai_trading_platform.Lifecycle.Schema.{LifecycleConfig, Candidate, StructuralInvalidation}
use ai_trading_platform.Lifecycle.Events.{EntryEvidence, EntryResolver, Run, predates}
use ai_trading_platform.Lifecycle.Replay.{
  resolve_exit, activate, enter, step_waiting, activated_run,
}

-- Between the creation of the signal and its last evaluation.
abbrev pub Within : Datetime → Datetime → Option Datetime → Type 0
Within lo hi none = Unit
Within lo hi (some t) = (lo ≤ t) × (t ≤ hi)

-- An entry comes no later than the end.
abbrev pub Ordered : Option Datetime → Option Datetime → Type 0
Ordered (some a) (some t) = a ≤ t
Ordered a t = Unit

pub record IsTimed (created_at limit : Datetime) (run : Run) : Type 0 where
  pub evaluated : created_at ≤ run.last_evaluated_at
  pub limited : run.last_evaluated_at ≤ limit
  pub activated : Within created_at run.last_evaluated_at run.activated_at
  pub terminal : Within created_at run.last_evaluated_at run.terminal_at
  pub order : Ordered run.activated_at run.terminal_at

pub IsTimed-mono : (lo h k : Datetime) (run : Run) → h ≤ k → IsTimed lo h run → IsTimed lo k run
IsTimed-mono lo h k run le c = record {
  evaluated = c.evaluated;
  limited = omega arith;
  activated = c.activated;
  terminal = c.terminal;
  order = c.order;
}

-- Every entry is executed in its candle.
abbrev pub IsPunctual : EntryResolver → Type 0
IsPunctual resolver =
    (signal : Candidate) (bar : Candle) (previous : Option Candle) (bar_close : Datetime)
    (e : EntryEvidence)
    → bar.timestamp ≤ bar_close
    → resolver signal bar previous bar_close ≡ ok e
    → Within bar.timestamp bar_close e.executed_at

pub Within-mono :
    (lo hi top : Datetime) (o : Option Datetime) → hi ≤ top → Within lo hi o → Within lo top o
Within-mono lo hi top none h w = tt
Within-mono lo hi top (some t) h w = (w.0, omega arith)

pub Ordered-of_Within :
    (lo hi t : Datetime) (o : Option Datetime) → hi ≤ t → Within lo hi o → Ordered o (some t)
Ordered-of_Within lo hi t none h w = tt
Ordered-of_Within lo hi t (some a) h w = omega arith

module _ (signal : Candidate) (config : LifecycleConfig) (bar : Candle) (bar_close : Datetime) where
  abbrev pub Timed : Run → Type 0
  Timed = IsTimed signal.created_at bar_close

  pub resolve_exit-Timed :
      (tp sl : Bool) (run : Run)
      → run.terminal_at ≡ none
      → Timed run
      → Timed (resolve_exit signal config bar bar_close tp sl run)
  unfolding resolve_exit
  resolve_exit-Timed tp sl run n c =
      let later =
        Within-mono signal.created_at run.last_evaluated_at bar_close run.activated_at c.limited
          c.activated in
      let before =
        Ordered-of_Within signal.created_at run.last_evaluated_at bar_close run.activated_at
          c.limited c.activated in
      ground arith

  activate-Timed :
      (tp sl : Bool) (executed_at : Datetime) (price : Price) (run : Run)
      → run.terminal_at ≡ none
      → signal.created_at ≤ executed_at
      → executed_at ≤ bar_close
      → Timed run
      → Timed (activate signal config bar bar_close tp sl executed_at price run)
  unfolding activate
  activate-Timed tp sl executed_at price run n l u c =
      let s = activated_run bar bar_close executed_at price run in
      let k : Timed s = record {
        evaluated = omega arith;
        limited = omega arith;
        activated = omega arith;
        terminal = rw n tt;
        order = rw n tt;
      } in
      ground (arith, resolve_exit-Timed tp sl s n k)

  enter-Timed :
      (tp sl executed : Bool) (executed_at : Option Datetime) (price : Option Price) (run : Run)
      → run.terminal_at ≡ none
      → signal.created_at ≤ bar.timestamp
      → Within bar.timestamp bar_close executed_at
      → Timed run
      → Ensures Timed (enter signal config bar bar_close tp sl executed executed_at price run)
  unfolding enter
  enter-Timed tp sl false executed_at price run n ready w c = record {
    evaluated = omega arith;
    limited = omega arith;
    activated =
        Within-mono signal.created_at run.last_evaluated_at bar_close run.activated_at c.limited
          c.activated;
    terminal = rw n tt;
    order = c.order;
  }
  enter-Timed tp sl true none price run n ready w c = tt
  enter-Timed tp sl true (some t) none run n ready w c = tt
  enter-Timed tp sl true (some t) (some price) run n ready w c =
      Ensures-if Timed (ltb 0 price) _ _
        (λ e. activate-Timed tp sl t price run n (omega arith) w.1 c) (λ e. tt)

  pub step_waiting-Timed :
      (invalidation : Option StructuralInvalidation) (e : EntryEvidence) (run : Run)
      → run.terminal_at ≡ none
      → run.activated_at ≡ none
      → signal.created_at ≤ bar.timestamp
      → bar.timestamp ≤ bar_close
      → predates signal invalidation ≡ false
      → Within bar.timestamp bar_close e.executed_at
      → Timed run
      → Ensures Timed (step_waiting signal config invalidation bar bar_close e run)
  unfolding step_waiting
  step_waiting-Timed none e run n a ready closing later w c =
      enter-Timed _ _ e.executed e.executed_at e.executed_entry_price run n ready w c
  step_waiting-Timed (some i) e run n a ready closing later w c =
      Ensures-if Timed (leb i.confirmed_at bar.timestamp) _ _ (λ before. ground (arith, n, a))
        λ after.
          Ensures-if Timed (leb i.confirmed_at bar_close) _ _
            (λ inside.
              Ensures-if Timed e.executed _ _ (λ entered. ground (arith, n, a))
                (λ stayed. ground (arith, n, a)))
            (λ beyond.
              enter-Timed _ _ e.executed e.executed_at e.executed_entry_price run n ready w c)
