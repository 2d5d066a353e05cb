-- ===== src/Lifecycle/Profit.antt =====
-- When a replay records a profit: never from a candle that also touched the stop.
use ai_trading_platform.Prelude.{
  ◌+◌, ◌≤◌, ◌≡◌, Bool, true, false, Option, none, some, List, [], ◌∷◌, arith, refl, ok, Ensures,
  Ensures->>=, Ensures-ok, Ensures-if, Ensures-map, ◌≢◌, ◌⊎◌, inl, inr, leb, ltb, Any,
}
use ai_trading_platform.Timeframe.{Timeframe, Datetime, Timedelta, timeframe_duration}
use ai_trading_platform.Candle.{Candle, Price}
use ai_trading_platform.Lifecycle.Schema.{
  Status, waiting, active, tp_hit, LifecycleConfig, Candidate, StructuralInvalidation,
  LifecycleResult, is_terminal, is_waiting,
}
use ai_trading_platform.Lifecycle.Events.{
  EntryEvidence, EntryResolver, Run, take_profit_touched, stop_loss_touched,
}
use ai_trading_platform.Lifecycle.Replay.{
  start_run, resolve_exit, activate, enter, step_waiting, step_bar, replay_bars,
  replay_signal_lifecycle, activated_run,
}
use ai_trading_platform.Lifecycle.Outcome.{replayed, replay-Behind}

-- A candle that pays: it is not older than the signal, it touches the target and not the stop, and
-- it closes at the instant given.
abbrev pub Pays : Candidate → Timedelta → Option Datetime → Candle → Type 0
Pays signal duration terminal_at bar =
    (signal.created_at ≤ bar.timestamp)
    × (take_profit_touched signal bar ≡ true)
    × (stop_loss_touched signal bar ≡ false)
    × (terminal_at ≡ some (bar.timestamp + duration))

-- What a pass shows of a run that is at its target.
abbrev Paid : Bool → Bool → Datetime → Run → Type 0
Paid tp sl bar_close run =
    run.status ≡ tp_hit → (tp ≡ true) × (sl ≡ false) × (run.terminal_at ≡ some bar_close)

resolve_exit-Paid :
    (signal : Candidate) (config : LifecycleConfig) (bar : Candle) (bar_close : Datetime)
    (tp sl : Bool) (run : Run)
    → run.status ≡ active
    → Paid tp sl bar_close (resolve_exit signal config bar bar_close tp sl run)
unfolding resolve_exit
resolve_exit-Paid signal config bar bar_close tp sl run a h = ground arith

activate-Paid :
    (signal : Candidate) (config : LifecycleConfig) (bar : Candle) (bar_close : Datetime)
    (tp sl : Bool) (executed_at : Datetime) (price : Price) (run : Run)
    → Paid tp sl bar_close (activate signal config bar bar_close tp sl executed_at price run)
unfolding activate
activate-Paid signal config bar bar_close tp sl executed_at price run h = ground (
  arith,
  resolve_exit-Paid signal config bar bar_close tp sl
      (activated_run bar bar_close executed_at price run) refl,
)

enter-Paid :
    (signal : Candidate) (config : LifecycleConfig) (bar : Candle) (bar_close : Datetime)
    (tp sl executed : Bool) (executed_at : Option Datetime) (price : Option Price) (run : Run)
    → run.status ≡ waiting
    → Ensures
        (Paid tp sl bar_close)
        (enter signal config bar bar_close tp sl executed executed_at price run)
unfolding enter
enter-Paid signal config bar bar_close tp sl false executed_at price run w = λ h. ground arith
enter-Paid signal config bar bar_close tp sl true none price run w = tt
enter-Paid signal config bar bar_close tp sl true (some t) none run w = tt
enter-Paid signal config bar bar_close tp sl true (some t) (some price) run w =
    Ensures-if (Paid tp sl bar_close) (ltb 0 price) _ _
      (λ e. activate-Paid signal config bar bar_close tp sl t price run) (λ e. tt)

module _ (signal : Candidate) (duration : Timedelta) (config : LifecycleConfig)
    (resolver : EntryResolver) (invalidation : Option StructuralInvalidation) where
  abbrev PaidBy : Candle → Run → Type 0
  PaidBy bar =
      Paid (take_profit_touched signal bar) (stop_loss_touched signal bar)
        (bar.timestamp + duration)

  step_waiting-Paid :
      (i : Option StructuralInvalidation) (bar : Candle) (e : EntryEvidence) (run : Run)
      → run.status ≡ waiting
      → Ensures (PaidBy bar) (step_waiting signal config i bar (bar.timestamp + duration) e run)
  unfolding step_waiting
  step_waiting-Paid none bar e run w =
      enter-Paid signal config bar _ _ _ e.executed e.executed_at e.executed_entry_price run w
  step_waiting-Paid (some i) bar e run w =
      Ensures-if (PaidBy bar) (leb i.confirmed_at bar.timestamp) _ _ (λ before h. cc)
        λ later.
          Ensures-if (PaidBy bar) (leb i.confirmed_at (bar.timestamp + duration)) _ _
            (λ inside. Ensures-if (PaidBy bar) e.executed _ _ (λ entered h. cc) (λ stayed h. cc))
            (λ after.
              enter-Paid signal config bar _ _ _ e.executed e.executed_at e.executed_entry_price run
                w)

  abbrev PaysAt : Candle → Run → Type 0
  PaysAt bar run = run.status ≡ tp_hit → Pays signal duration run.terminal_at bar

  step_bar-PaysAt :
      (previous : Option Candle) (bar : Candle) (run : Run)
      → is_terminal run.status ≡ false
      → Ensures
          (PaysAt bar)
          (step_bar signal duration config resolver invalidation previous bar run)
  unfolding step_bar
  step_bar-PaysAt previous bar run t =
      Ensures-if (PaysAt bar) (ltb bar.timestamp signal.created_at) _ _ (λ early h. ground arith)
        λ ready.
          Ensures-if (PaysAt bar) (is_waiting run.status) _ _
            (λ w.
              Ensures->>= (PaysAt bar) (resolver signal bar previous (bar.timestamp + duration)) _
                λ e resolved.
                  Ensures-map (PaidBy bar) (PaysAt bar) _
                    (λ later p h. (ground arith, (p h).0, (p h).1, (p h).2))
                    (step_waiting-Paid invalidation bar e run (ground arith)))
            λ w h.
              let (t, s, at) =
                resolve_exit-Paid signal config bar (bar.timestamp + duration) _ _ run
                  (ground arith) h in
              (ground arith, t, s, at)

  pub replay_bars-of_terminal :
      (previous : Option Candle) (bars : List Candle) (run : Run)
      → is_terminal run.status ≡ true
      → replay_bars signal duration config resolver invalidation previous bars run ≡ ok run
  unfolding replay_bars
  replay_bars-of_terminal previous [] run t = refl
  replay_bars-of_terminal previous (bar ∷ bars) run t = rw t

  Status-cases : (s : Status) → (s ≡ tp_hit) ⊎ (s ≢ tp_hit)
  Status-cases s = ground arith

  replay_bars-Pays :
      (previous : Option Candle) (bars : List Candle) (run : Run)
      → run.status ≢ tp_hit
      → Ensures
          (λ last. last.status ≡ tp_hit → Any (Pays signal duration last.terminal_at) bars)
          (replay_bars signal duration config resolver invalidation previous bars run)
  unfolding replay_bars
  replay_bars-Pays previous [] run n = λ h. absurd (n h)
  replay_bars-Pays previous (bar ∷ bars) run n =
      let Q : Run → Type 0 =
        λ last. last.status ≡ tp_hit → Any (Pays signal duration last.terminal_at) (bar ∷ bars) in
      let pass = step_bar signal duration config resolver invalidation previous bar run in
      Ensures-if Q (is_terminal run.status) _ _ (λ t h. absurd (n h))
        λ t. Ensures->>= Q pass _ λ later stepped. elim (Status-cases later.status) [
          | inl paid ↦ rw (replay_bars-of_terminal (some bar) bars later (rw paid)) (λ h.
              inl
                (Ensures-ok (PaysAt bar) pass later (step_bar-PaysAt previous bar run t) stepped h))
          | inr unpaid ↦
              Ensures-map _ Q _ (λ last found h. inr (found h))
                (replay_bars-Pays (some bar) bars later unpaid)
        ]

start_run-not_paid :
    (signal : Candidate) (invalidation : Option StructuralInvalidation)
    → (start_run signal invalidation).status ≢ tp_hit
unfolding start_run
start_run-not_paid signal invalidation = ground arith

-- A result with status TP_HIT is of a candle of the replay that opened at or after the creation of
-- the signal, touched the take profit, did not touch the stop loss, and closed at `terminal_at`:
-- under every policy for a candle that touches both, such a candle is never a profit.
pub profit_needs_untouched_stop :
    (signal : Candidate) (candles : List Candle) (timeframe : Timeframe) (config : LifecycleConfig)
    (resolver : EntryResolver) (invalidation : Option StructuralInvalidation) (r : LifecycleResult)
    → replay_signal_lifecycle signal candles timeframe config resolver invalidation ≡ ok r
    → r.status ≡ tp_hit
    → Any (Pays signal (timeframe_duration timeframe) r.terminal_at) candles
profit_needs_untouched_stop signal candles timeframe config resolver invalidation r h paid =
    let (run, e, same) = replay-Behind signal candles timeframe config resolver invalidation r h in
    rw same (
      Ensures-ok _ (replayed signal candles timeframe config resolver invalidation) run
        (replay_bars-Pays signal (timeframe_duration timeframe) config resolver invalidation none
          candles (start_run signal invalidation) (start_run-not_paid signal invalidation))
        e (rw same at paid))
