-- ===== src/Execution/Net/Moves.antt =====
-- The position after a fill of execution/accounting.py opens, adds to or reduces one.
use ai_trading_platform.Prelude.{
  ℕ, ◌+◌, ◌-◌, ◌≤◌, ◌≡◌, refl, true, false, Option, none, some, List, ltb, ◌==◌, pos, ◌+ℤ◌, ℤ,
  amounts, if◌then◌else◌, arith, Bool-cases, Option-cases, inl, inr, Ensures,
}
use ai_trading_platform.Execution.Models.{
  ExecutionEvent, Account, InstrumentProfile, Position, Direction, long, short,
}
use ai_trading_platform.Execution.Accounting.{
  Step, find_position, find_trade, open_step, add_step, reduce_step, open_position, has_funds,
  fill_step, same_direction, side_direction,
}
use ai_trading_platform.Execution.Net.Exposure.{signed, exposure, find_position-symbol}

-- The position of a step, of the event's symbol, moves by the event's quantity.
pub record IsMoved (a : Account) (e : ExecutionEvent) (s : Step) : Type 0 where
  pub symbol : s.position.position_symbol ≡ e.event_symbol
  pub moved :
      signed s.position.direction s.position.held
      ≡ exposure e.event_symbol a.positions +ℤ signed (side_direction e.side) e.quantity

signed-add :
    (d c : Direction) (n q : ℕ)
    → same_direction d c ≡ true
    → signed d (n + q) ≡ signed d n +ℤ signed c q
signed-add long long n q h = omega amounts
signed-add short short n q h = omega amounts
signed-add long short n q h = cc
signed-add short long n q h = cc

signed-reduce :
    (d c : Direction) (n q : ℕ)
    → same_direction d c ≡ false
    → ltb n q ≡ false
    → signed d (n - q) ≡ signed d n +ℤ signed c q
signed-reduce long long n q h enough = cc
signed-reduce short short n q h enough = cc
signed-reduce long short n q h enough =
    let le : q ≤ n = ground (arith, enough) in omega (amounts, le)
signed-reduce short long n q h enough =
    let le : q ≤ n = ground (arith, enough) in omega (amounts, le)

open_position-found : (o : Option Position) (p : Position) → open_position o ≡ some p → o ≡ some p
unfolding open_position
open_position-found none p h = cc
open_position-found (some q) p h = ground (arith, h)

open_position-closed :
    (o : Option Position) (p : Position) → open_position o ≡ none → o ≡ some p → p.held ≡ 0
unfolding open_position
open_position-closed none p h e = cc
open_position-closed (some q) p h e = ground (arith, h, e)

signed-zero : (d : Direction) (n : ℕ) → n ≡ 0 → signed d n ≡ pos 0
signed-zero long n h = omega (amounts, h)
signed-zero short n h = omega (amounts, h)

exposure-closed :
    (k : ℕ) (ps : List Position) → open_position (find_position k ps) ≡ none → exposure k ps ≡ pos 0
unfolding exposure
exposure-closed k ps h = elim (Option-cases (find_position k ps)) [
  | inl missing ↦ rw (exposure, missing) refl
  | inr (p, there) ↦
      rw (exposure, there) (signed-zero p.direction p.held (open_position-closed _ p h there))
]

add_step-IsMoved :
    (a : Account) (e : ExecutionEvent) (p : InstrumentProfile) (current : Position)
    → find_position e.event_symbol a.positions ≡ some current
    → same_direction current.direction (side_direction e.side) ≡ true
    → Ensures (IsMoved a e) (add_step a e p current)
unfolding add_step exposure
add_step-IsMoved a e p current here along =
    elim (Bool-cases (current.position_instrument == p.reference)) [
      | inr changed ↦ rw changed tt
      | inl same ↦ elim (Option-cases (find_trade current.position_trade a.trades)) [
        | inl missing ↦ rw (same, missing) tt
        | inr (t, found) ↦
            rw (same, found)
              (record {
                symbol = find_position-symbol e.event_symbol current a.positions here;
                moved =
                    rw (exposure, here)
                      (signed-add current.direction (side_direction e.side) current.held e.quantity
                        along);
              })
      ]
    ]

reduce_step-IsMoved :
    (allocate : ℕ → ℕ → ℕ → ℕ) (a : Account) (e : ExecutionEvent) (current : Position)
    → find_position e.event_symbol a.positions ≡ some current
    → same_direction current.direction (side_direction e.side) ≡ false
    → Ensures (IsMoved a e) (reduce_step allocate a e current)
unfolding reduce_step exposure
reduce_step-IsMoved allocate a e current here against =
    let allocated =
      if e.quantity == current.held
      then current.remaining_cost_basis
      else allocate current.remaining_cost_basis current.held e.quantity in
    elim (Bool-cases (ltb current.held e.quantity)) [
      | inl over ↦ rw over tt
      | inr enough ↦ elim (Option-cases (find_trade current.position_trade a.trades)) [
        | inl missing ↦ rw (enough, missing) tt
        | inr (t, found) ↦ elim (Bool-cases (ltb current.remaining_cost_basis allocated)) [
          | inl below ↦ rw (enough, found, below) tt
          | inr covered ↦
              rw (enough, found, covered)
                (record {
                  symbol = find_position-symbol e.event_symbol current a.positions here;
                  moved =
                      rw (exposure, here)
                        (signed-reduce current.direction (side_direction e.side) current.held
                          e.quantity against enough);
                })
        ]
      ]
    ]

zero_plus : (d : Direction) (n : ℕ) → signed d (0 + n) ≡ pos 0 +ℤ signed d n
zero_plus long n = omega amounts
zero_plus short n = omega amounts

pub plus_zero : (x : ℤ) → x ≡ x +ℤ pos 0
plus_zero x = omega amounts

open_step-IsMoved :
    (a : Account) (e : ExecutionEvent) (p : InstrumentProfile) (plan : Option ℕ)
    → open_position (find_position e.event_symbol a.positions) ≡ none
    → IsMoved a e (open_step a e p plan)
open_step-IsMoved a e p plan flat =
    let closed = exposure-closed e.event_symbol a.positions flat in
    record { symbol = refl; moved = rw closed (zero_plus (side_direction e.side) e.quantity) }

pub fill_step-IsMoved :
    (allocate : ℕ → ℕ → ℕ → ℕ) (a : Account) (e : ExecutionEvent) (p : InstrumentProfile)
    (plan : Option ℕ)
    → Ensures (IsMoved a e) (fill_step allocate a e p plan)
unfolding fill_step
fill_step-IsMoved allocate a e p plan =
    elim (Option-cases (open_position (find_position e.event_symbol a.positions))) [
      | inl flat ↦ elim (Bool-cases (has_funds a e)) [
        | inl funds ↦ rw (fill_step, flat, funds) (open_step-IsMoved a e p plan flat)
        | inr broke ↦ rw (fill_step, flat, broke) tt
      ]
      | inr (current, open_there) ↦
          let here = open_position-found _ current open_there in
          elim (Bool-cases (same_direction current.direction (side_direction e.side))) [
            | inr against ↦
                rw (fill_step, open_there, against)
                  (reduce_step-IsMoved allocate a e current here against)
            | inl along ↦ elim (Bool-cases (has_funds a e)) [
              | inl funds ↦
                  rw (fill_step, open_there, along, funds)
                    (add_step-IsMoved a e p current here along)
              | inr broke ↦ rw (fill_step, open_there, along, broke) tt
            ]
          ]
    ]
