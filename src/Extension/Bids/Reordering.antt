-- ===== src/Extension/Bids/Reordering.antt =====
-- The winner of `pickWinner` (go/internal/extension/winner.go) does not depend on the order in which
-- the bids are stored.
use mathlib.Core.List.{Memᴰ, Perm, Permᴰ}
use mathlib.Core.Logic.{∥∥₁_elim}
use sealed_auction_fce.Prelude.{
  ◌≡◌, sym, ap, ◌∙◌, inl, inr, Bool, Option, some, List, ℤ, pos, true, arith,
}
use sealed_auction_fce.Extension.Types.{Address}
use sealed_auction_fce.Extension.Bids.{Bid, reserve_or_zero, pick_winner}
use sealed_auction_fce.Extension.Bids.Ranking.{wei, AtMost}
use sealed_auction_fce.Extension.Bids.Selection.{IsBest, pick_winner_best}

-- No two different bids have the same sequence number.
abbrev pub SeqsDistinct : List Bid → Type 0
SeqsDistinct bids = (a b : Bid) → Memᴰ a bids → Memᴰ b bids → a.seq ≡ b.seq → a ≡ b

mem_of_permᴰ : {xs ys : List Bid} {a : Bid} → Permᴰ xs ys → Memᴰ a xs → Memᴰ a ys
mem_of_permᴰ Permᴰ.nil m = m
mem_of_permᴰ (Permᴰ.cons e p) (Memᴰ.head f) = Memᴰ.head (f ∙ e)
mem_of_permᴰ (Permᴰ.cons e p) (Memᴰ.tail m) = Memᴰ.tail (mem_of_permᴰ p m)
mem_of_permᴰ (Permᴰ.swap e f) (Memᴰ.head g) = Memᴰ.tail (Memᴰ.head (g ∙ e))
mem_of_permᴰ (Permᴰ.swap e f) (Memᴰ.tail (Memᴰ.head g)) = Memᴰ.head (g ∙ f)
mem_of_permᴰ (Permᴰ.swap e f) (Memᴰ.tail (Memᴰ.tail m)) = Memᴰ.tail (Memᴰ.tail m)
mem_of_permᴰ (Permᴰ.trans p q) m = mem_of_permᴰ q (mem_of_permᴰ p m)

permᴰ_symm : {xs ys : List Bid} → Permᴰ xs ys → Permᴰ ys xs
permᴰ_symm Permᴰ.nil = Permᴰ.nil
permᴰ_symm (Permᴰ.cons e p) = Permᴰ.cons (sym e) (permᴰ_symm p)
permᴰ_symm (Permᴰ.swap e f) = Permᴰ.swap (sym f) (sym e)
permᴰ_symm (Permᴰ.trans p q) = Permᴰ.trans (permᴰ_symm q) (permᴰ_symm p)

seq_of_AtMost : (a b : Bid) → AtMost a b → AtMost b a → a.seq ≡ b.seq
seq_of_AtMost a b h k = omega arith

Result-set : IsSet (Option (Address × ℤ × Bool))
Result-set = hlevel

module _ (c : Address) (reserve : Option ℤ) {xs ys : List Bid} (distinct : SeqsDistinct xs) where
  best_unique :
      Permᴰ xs ys
      → (v w : Bid) → IsBest c (reserve_or_zero reserve) xs v
      → IsBest c (reserve_or_zero reserve) ys w
      → v ≡ w
  best_unique p v w h k =
      let w_in = mem_of_permᴰ (permᴰ_symm p) k.member in
      distinct v w h.member w_in (
        seq_of_AtMost v w (k.top v (mem_of_permᴰ p h.member) h.qualified)
          (h.top w w_in k.qualified))

  pick_winner-permᴰ : Permᴰ xs ys → pick_winner xs c reserve ≡ pick_winner ys c reserve
  pick_winner-permᴰ p = elim (pick_winner_best xs c reserve) [
    | inl (v, best, e) ↦ elim (pick_winner_best ys c reserve) [
      | inl (w, best', e') ↦
          e
          ∙ ap (λ (u : Bid). some (u.bidder, pos (wei u), true)) (best_unique p v w best best')
          ∙ sym e'
      | inr (no_bid, e') ↦ absurd (no_bid v (mem_of_permᴰ p best.member) best.qualified)
    ]
    | inr (no_bid, e) ↦ elim (pick_winner_best ys c reserve) [
      | inl (w, best', e') ↦
          absurd (no_bid w (mem_of_permᴰ (permᴰ_symm p) best'.member) best'.qualified)
      | inr (no_bid', e') ↦ e ∙ sym e'
    ]
  ]

  -- When no two bids share a sequence number, any reordering of the bids gives the same winner and
  -- the same price.
  pub pick_winner-perm : Perm xs ys → pick_winner xs c reserve ≡ pick_winner ys c reserve
  pick_winner-perm p = ∥∥₁_elim p (Result-set _ _) pick_winner-permᴰ
