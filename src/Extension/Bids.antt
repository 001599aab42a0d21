-- ===== src/Extension/Bids.antt =====
-- Winner selection (go/internal/extension/winner.go): `Bid`, `pickWinner` and `better`.
pub mod Ranking
pub mod Selection
pub mod Reordering
use sealed_auction_fce.Prelude.{
  ℕ, Bool, true, false, not, ◌&&◌, Option, none, some, List, [], ◌∷◌, ℤ, pos, cmp, ltb_ℤ,
  is_nonpositive, Ordering, ltb, ◌==◌, if◌then◌else◌,
}
use sealed_auction_fce.Extension.Types.{Address}

pub record Bid : Type 0 where
  pub bidder : Address
  pub contract_addr : Address
  pub amount : Option ℤ  -- *big.Int
  pub timestamp : ℕ  -- uint64
  pub seq : ℕ  -- uint64

-- The comparison of `better` once the amounts are compared.
unfoldable pub better_by : Ordering → Bid → Bid → Bool
better_by Ordering.gt a b = true
better_by Ordering.lt a b = false
better_by Ordering.eq a b =
    if not (a.timestamp == b.timestamp) then ltb a.timestamp b.timestamp else ltb a.seq b.seq

-- `none` is the panic of `Cmp` at a nil amount.
unfoldable pub better : Bid → Bid → Option Bool
unfolding better_by
better a b = elim a.amount [
  | none ↦ none
  | some x ↦ elim b.amount [ none ↦ none | some y ↦ some (better_by (cmp x y) a b) ]
]

-- `!(b.Amount == nil || b.Amount.Sign() <= 0 || b.Amount.Cmp(reserve) < 0)`
abbrev amount_qualifies : Option ℤ → ℤ → Bool
amount_qualifies none reserve = false
amount_qualifies (some a) reserve = not (is_nonpositive a) && not (ltb_ℤ a reserve)

-- The two `continue` tests of the loop, both negative.
unfoldable pub qualifies : Address → ℤ → Bid → Bool
qualifies contract_addr reserve b =
    b.contract_addr == contract_addr && amount_qualifies b.amount reserve

-- `if best == nil || better(b, best) { best = b }`
unfoldable pub challenge : Bid → Option Bid → Option (Option Bid)
challenge b none = some (some b)
challenge b (some best) = elim (better b best) [
  | none ↦ none
  | some wins ↦ some (some (if wins then b else best))
]

unfoldable pub pick_step : Address → ℤ → Bid → Option Bid → Option (Option Bid)
pick_step contract_addr reserve b best =
    if qualifies contract_addr reserve b then challenge b best else some best

-- The loop of `pickWinner`; `none` is a panic.
unfoldable pub pick_loop : Address → ℤ → List Bid → Option Bid → Option (Option Bid)
pick_loop contract_addr reserve [] best = some best
pick_loop contract_addr reserve (b ∷ bids) best = elim (pick_step contract_addr reserve b best) [
  | none ↦ none
  | some best' ↦ pick_loop contract_addr reserve bids best'
]

abbrev pub reserve_or_zero : Option ℤ → ℤ
reserve_or_zero none = pos 0
reserve_or_zero (some reserve) = reserve

-- The return statements; `Set` of a nil amount panics.
unfoldable pub winner_of : Option Bid → Option (Address × ℤ × Bool)
winner_of none = some (0, pos 0, false)
winner_of (some best) = elim best.amount [ none ↦ none | some a ↦ some (best.bidder, a, true) ]

-- The winner, the clearing price, and whether a bid qualifies.
unfoldable pub pick_winner : List Bid → Address → Option ℤ → Option (Address × ℤ × Bool)
pick_winner bids contract_addr reserve =
    elim (pick_loop contract_addr (reserve_or_zero reserve) bids none) [
      | none ↦ none
      | some best ↦ winner_of best
    ]
