-- ===== src/Execution/Net/Exposure.antt =====
-- What an account of execution/accounting.py holds of a symbol, and what its fills bought and sold.
use ai_trading_platform.Prelude.{
  ℕ, ◌≡◌, refl, none, some, List, [], ◌∷◌, ◌++◌, ◌==◌, pos, ◌+ℤ◌, ◌-ℤ◌, ℤ, amounts, eq_parts,
  if◌then◌else◌, arith,
}
use ai_trading_platform.Execution.Models.{ExecutionEvent, Position, Direction, long, short}
use ai_trading_platform.Execution.Accounting.{find_position, put_position, side_direction}

abbrev pub signed : Direction → ℕ → ℤ
signed long n = pos n
signed short n = pos 0 -ℤ pos n

-- What the account holds of a symbol, below zero where it is short.
unfoldable pub exposure : ℕ → List Position → ℤ
exposure k ps = elim (find_position k ps) [ none ↦ pos 0 | some p ↦ signed p.direction p.held ]

-- What a fill moves the position of a symbol by.
abbrev pub moved_by : ℕ → ExecutionEvent → ℤ
moved_by k e = if e.event_symbol == k then signed (side_direction e.side) e.quantity else pos 0

-- What the fills of a symbol bought, less what they sold.
unfoldable pub net_of : ℕ → List ExecutionEvent → ℤ
net_of k [] = pos 0
net_of k (f ∷ fs) = moved_by k f +ℤ net_of k fs

pub net_of-append :
    (k : ℕ) (e : ExecutionEvent) (fs : List ExecutionEvent)
    → net_of k (fs ++ e ∷ []) ≡ net_of k fs +ℤ moved_by k e
unfolding net_of
net_of-append k e [] = omega amounts
net_of-append k e (f ∷ fs) = omega (amounts, eq_parts _ _ (net_of-append k e fs))

pub find_position-symbol :
    (k : ℕ) (p : Position) (ps : List Position)
    → find_position k ps ≡ some p
    → p.position_symbol ≡ k
unfolding find_position
find_position-symbol k p [] h = cc
find_position-symbol k p (q ∷ qs) h = ground (arith, h, find_position-symbol k p qs)

pub find_position-put_position :
    (k : ℕ) (n : Position) (ps : List Position)
    → find_position k (put_position n ps)
      ≡ (if n.position_symbol == k then some n else find_position k ps)
unfolding find_position put_position
find_position-put_position k n [] = refl
find_position-put_position k n (q ∷ qs) = ground (arith, find_position-put_position k n qs)
