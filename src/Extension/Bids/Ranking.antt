-- ===== src/Extension/Bids/Ranking.antt =====
-- The order that winner selection (go/internal/extension/winner.go) is meant to follow, stated with
-- numbers, and the code's tests against it.
use sealed_auction_fce.Prelude.{
  ℕ, ◌≤◌, ◌<◌, ◌≡◌, ◌⊎◌, true, false, none, some, ℤ, pos, ◌≤ℤ◌, pos_part, arith,
}
use sealed_auction_fce.Extension.Types.{Address}
use sealed_auction_fce.Extension.Bids.{Bid, better, qualifies}

-- The amount in wei.
abbrev pub wei : Bid → ℕ
wei b = elim b.amount [ none ↦ 0 | some a ↦ pos_part a ]

-- The bid is for the contract, its amount is positive and reaches the reserve.
pub record Qualifies (contract_addr : Address) (reserve : ℤ) (b : Bid) : Type 0 where
  pub same_contract : b.contract_addr ≡ contract_addr
  pub amount_wei : b.amount ≡ some (pos (wei b))
  pub positive : 0 < wei b
  pub reaches_reserve : reserve ≤ℤ pos (wei b)

-- `a` does not rank above `b`: it offers less, or as much and later.
abbrev pub AtMost : Bid → Bid → Type 0
AtMost a b =
    (wei a < wei b)
    ⊎ (wei a ≡ wei b)
      × ((b.timestamp < a.timestamp) ⊎ (a.timestamp ≡ b.timestamp) × (b.seq ≤ a.seq))

pub qualifies→Qualifies : (c : Address) (r : ℤ) (b : Bid) → qualifies c r b ≡ true → Qualifies c r b
unfolding qualifies
qualifies→Qualifies c r b h = ground arith

pub Qualifies→qualifies : (c : Address) (r : ℤ) (b : Bid) → Qualifies c r b → qualifies c r b ≡ true
unfolding qualifies
Qualifies→qualifies c r b h = ground arith

pub AtMost-refl : (a : Bid) → AtMost a a
AtMost-refl a = omega arith

pub AtMost-trans : (a b c : Bid) → AtMost a b → AtMost b c → AtMost a c
AtMost-trans a b c h k = ground arith

-- Between qualified bids `better` does not panic, and picks the one that ranks at least as high.
pub better-AtMost :
    (c : Address) (r : ℤ) (a b : Bid)
    → Qualifies c r a
    → Qualifies c r b
    → ((better a b ≡ some true) × AtMost b a) ⊎ (better a b ≡ some false) × AtMost a b
unfolding better
better-AtMost c r a b h k = ground arith
