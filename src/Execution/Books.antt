-- ===== src/Execution/Books.antt =====
-- What the lists of trades and positions of an account keep under the writes of a fill.
use ai_trading_platform.Prelude.{
  ℕ, ◌+◌, ◌≡◌, refl, none, some, List, [], ◌∷◌, ◌++◌, ◌==◌, ◌+ℤ◌, amounts, eq_parts, is_some,
  if◌then◌else◌, All, arith, Bool-cases, inl, inr,
}
use mathlib.Core.Path.{subst}
use ai_trading_platform.Execution.Models.{Position, Trade, realized_pnl, paid_fees}
use ai_trading_platform.Execution.Accounting.{
  find_position, find_trade, replace_trade, put_position,
}

-- No two trades have one id.
abbrev pub IsDistinct : List Trade → Type 0
IsDistinct [] = Unit
IsDistinct (t ∷ ts) = (find_trade t.trade_id ts ≡ none) × IsDistinct ts

replace_trade-absent :
    (n : Trade) (ts : List Trade) → find_trade n.trade_id ts ≡ none → replace_trade n ts ≡ ts
unfolding find_trade replace_trade
replace_trade-absent n [] h = refl
replace_trade-absent n (t ∷ ts) h = ground (arith, replace_trade-absent n ts)

pub find_trade-replace_trade :
    (k : ℕ) (n : Trade) (ts : List Trade)
    → is_some (find_trade k (replace_trade n ts)) ≡ is_some (find_trade k ts)
unfolding find_trade replace_trade
find_trade-replace_trade k n [] = refl
find_trade-replace_trade k n (t ∷ ts) = ground (arith, find_trade-replace_trade k n ts)

find_trade-replace_trade-none :
    (k : ℕ) (n : Trade) (ts : List Trade)
    → find_trade k ts ≡ none
    → find_trade k (replace_trade n ts) ≡ none
unfolding find_trade replace_trade
find_trade-replace_trade-none k n [] h = refl
find_trade-replace_trade-none k n (t ∷ ts) h = ground (arith, find_trade-replace_trade-none k n ts)

pub IsDistinct-replace_trade :
    (n : Trade) (ts : List Trade) → IsDistinct ts → IsDistinct (replace_trade n ts)
unfolding replace_trade
IsDistinct-replace_trade n [] d = tt
IsDistinct-replace_trade n (t ∷ ts) d = elim (Bool-cases (t.trade_id == n.trade_id)) [
  | inl e ↦ rw e (
    find_trade-replace_trade-none n.trade_id n ts (ground (arith, e, d.0)),
    IsDistinct-replace_trade n ts d.1,
  )
  | inr e ↦
      rw e (find_trade-replace_trade-none t.trade_id n ts d.0, IsDistinct-replace_trade n ts d.1)
]

pub find_trade-id :
    (k : ℕ) (t : Trade) (ts : List Trade) → find_trade k ts ≡ some t → t.trade_id ≡ k
unfolding find_trade
find_trade-id k t [] h = cc
find_trade-id k t (x ∷ xs) h = ground (arith, h, find_trade-id k t xs)

-- The sums after one trade is replaced.
pub replace_trade-sums :
    (n old : Trade) (ts : List Trade)
    → IsDistinct ts
    → find_trade n.trade_id ts ≡ some old
    → (realized_pnl (replace_trade n ts) +ℤ old.gross_pnl ≡ realized_pnl ts +ℤ n.gross_pnl)
      × (paid_fees (replace_trade n ts) + old.total_fees ≡ paid_fees ts + n.total_fees)
unfolding find_trade replace_trade realized_pnl paid_fees
replace_trade-sums n old [] d h = cc
replace_trade-sums n old (t ∷ ts) d h = elim (Bool-cases (t.trade_id == n.trade_id)) [
  | inl e ↦
      let same : t ≡ old = ground (arith, e, h) in
      let rest = replace_trade-absent n ts (ground (arith, e, d.0)) in
      rw (e, rest, same) (omega amounts, omega arith)
  | inr e ↦
      let rest = replace_trade-sums n old ts d.1 (ground (arith, e, h)) in
      rw e (omega (amounts, eq_parts _ _ rest.0), omega (arith, rest.1))
]

-- The sums after a trade with no profit and no fees is added.
pub append_trade-sums :
    (n : Trade) (ts : List Trade)
    → (realized_pnl (ts ++ n ∷ []) ≡ realized_pnl ts +ℤ n.gross_pnl)
      × (paid_fees (ts ++ n ∷ []) ≡ paid_fees ts + n.total_fees)
unfolding realized_pnl paid_fees
append_trade-sums n [] = (omega amounts, omega arith)
append_trade-sums n (t ∷ ts) =
    let rest = append_trade-sums n ts in
    (omega (amounts, eq_parts _ _ rest.0), omega (arith, rest.1))

pub find_trade-append :
    (k : ℕ) (n : Trade) (ts : List Trade)
    → find_trade k (ts ++ n ∷ [])
      ≡ elim (find_trade k ts) [ some t ↦ some t | none ↦ if n.trade_id == k then some n else none ]
unfolding find_trade
find_trade-append k n [] = refl
find_trade-append k n (t ∷ ts) = ground (arith, find_trade-append k n ts)

pub IsDistinct-append :
    (n : Trade) (ts : List Trade)
    → find_trade n.trade_id ts ≡ none
    → IsDistinct ts
    → IsDistinct (ts ++ n ∷ [])
unfolding find_trade
IsDistinct-append n [] h d = (refl, tt)
IsDistinct-append n (t ∷ ts) h d = (
  ground (arith, h, d.0, find_trade-append t.trade_id n ts),
  IsDistinct-append n ts (ground (arith, h)) d.1,
)

-- A property of every position, through the write of one.
pub All-put_position :
    (P : Position → Type 0) (n : Position) (ps : List Position)
    → P n
    → All P ps
    → All P (put_position n ps)
unfolding put_position
All-put_position P n [] p a = (p, tt)
All-put_position P n (q ∷ ps) p a = elim (Bool-cases (q.position_symbol == n.position_symbol)) [
  | inl e ↦ rw e (p, a.1)
  | inr e ↦ rw e (a.0, All-put_position P n ps p a.1)
]

pub All-find_position :
    (P : Position → Type 0) (s : ℕ) (p : Position) (ps : List Position)
    → All P ps
    → find_position s ps ≡ some p
    → P p
unfolding find_position
All-find_position P s p [] a h = cc
All-find_position P s p (q ∷ ps) a h = elim (Bool-cases (q.position_symbol == s)) [
  | inl e ↦ subst P (ground (arith, e, h)) a.0
  | inr e ↦ All-find_position P s p ps a.1 (ground (arith, e, h))
]

pub All-map :
    {A : Type 0} (P Q : A → Type 0) (xs : List A) → ((x : A) → P x → Q x) → All P xs → All Q xs
All-map P Q [] f a = tt
All-map P Q (x ∷ xs) f a = (f x a.0, All-map P Q xs f a.1)
