-- ===== src/Lib.antt =====
-- A model of the decision core of the trading platform's Python backend (backend/app): candles and
-- their time grid, market structure, candle range theory confirmations, the replay of a signal's
-- lifecycle, the execution of paper orders, and two pieces of the service round them, request admission
-- and background evaluations.
--
-- The parts and their files:
-- - Timeframe: schemas/types.py and market_data/timeframes.py, the timeframes and the UTC buckets. The
--   rounding of `datetime.timestamp()` to a float is part of it.
-- - Candle: schemas/candle.py, a candle and its validator.
-- - Normalize: market_data/normalization.py, the sort and the checks of provider rows, with or
--   without a session calendar (Grid, Sessions).
-- - Resampling: market_data/resampling.py, candles of a longer timeframe. It filters by the cutoff,
--   calls Normalize, groups by the buckets of Timeframe, and builds each candle through Candle.
-- - Structure: engines/structure/primitives.py and schemas/structure.py. `detect_swings` finds the
--   swings of a candle list, and `detect_structure_breaks` runs over the candles with the swings that
--   were confirmed by the opening of each; `analyze_market_structure` composes the two.
-- - Crt: engines/crt/detector.py and schemas/crt.py, from grouped sweep evidence to confirmations.
-- - Gaps: engines/smc/fvg.py and schemas/fvg.py. Zones has a zone and its update by a candle,
--   Analysis the loop over the candles, which forms gaps and updates the active zones. Archive,
--   Paths and Total, Growth and Repaint are about that loop.
-- - Signal, Lifecycle: schemas/signal.py, schemas/signal_lifecycle.py and engines/signal/lifecycle.py.
--   `replay_signal_lifecycle` is a fold of `step_bar` over the candles from `start_run`; the entry
--   resolver is a function that the caller gives, as in the source.
-- - Score: engines/signal/score.py and schemas/signal_score.py, the weighted score of evidence, the
--   confirmation that Crt gives included.
-- - Admission: core/admission.py, the fixed-window budget and the guard round an admission backend.
-- - Jobs: services/evaluation_jobs.py and schemas/evaluation_job.py. Each piece of code between two
--   awaits is a function on the registry (Operations), but for `cancel`, which is one with the await of
--   the task that it has cancelled; Steps puts them into runs.
-- - Execution: execution/models.py, accounting.py, repository.py, gateway.py and adapters/paper.py.
--   Accounting books a fill on an account (`apply_fill`); Ledger holds the rows of an account and
--   admits a fill against its order; Orders submits, answers and cancels orders, each database
--   transaction being one function; Replay rebuilds an account from its fills; Paper proposes fills
--   on a candle, and Observation shows the candles to the open orders. Steps puts the transactions
--   into runs, with what the provider answers as an argument. Filling, Books and Trades are about the
--   books of an account, Clock, Bindings, History and Snapshots about the replay, Cursor, Kept, Showing
--   and Gapless about the observation of candles that leave no gap.
-- - Prelude: the names, tests, lists and results that the others share.
-- A path above is from backend/app. A definition has the name of the function or the class that it
-- stands for; a piece of a long function has a name of its own and says which piece it is.
--
-- Representation:
-- - An instant is the number of microseconds since 0001-01-01T00:00Z, a duration a number of them.
-- - Prices, volumes and the tick size are natural multiples of one unit, small enough for all the
--   decimals of a run. The code here only compares and adds them, so no rounding is lost; a
--   comparison with a difference has the subtrahend moved to its other side. Execution multiplies
--   prices with quantities as well: money is counted in the product of their units, so this is exact,
--   as it is in the code. Its rounded share of a basis and its fee rate are arguments.
-- - An exception is an error value of `Result`; an optional value is an `Option`. A dict is a list in
--   insertion order; Python's stable sort is `sorted`.
-- - Texts that explain (the detail of a lifecycle event, error messages) are left out. Ids that are
--   only compared are numbers, and the id of a swing is the pair that its text is made of.
-- - Clock readings, fresh ids and what a service returns are arguments of the operation that reads
--   them.
--
-- Recursion is structural, except for the two eviction loops of Jobs, `make_room` and `make_space`:
-- their fuel is the number of jobs, which is enough because each turn removes one job.
--
-- Not modelled: the support and resistance zones of the structure engine, the other engines (order
-- blocks, displacement, liquidity, entries), indicators and risk sizes, whose decimal division
-- rounds, the valuation of an account, the backtest runner, and everything whose work is a database, HTTP,
-- a provider, a worker process or a hash. The lock of the budget and the event loop appear only in
-- that one operation is one step.
pub mod Prelude
pub mod Timeframe
pub mod Candle
pub mod Normalize
pub mod Signal
pub mod Lifecycle
pub mod Admission
pub mod Jobs
pub mod Structure
pub mod Crt
pub mod Resampling
pub mod Execution
pub mod Gaps
pub mod Score
