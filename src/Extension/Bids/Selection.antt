-- ===== src/Extension/Bids/Selection.antt =====
-- `pickWinner` (go/internal/extension/winner.go) returns the best qualified bid.
use mathlib.Core.List.{Memᴰ}
use mathlib.Core.Option.{some-injective}
use mathlib.Core.Path.{subst⁻¹, ◌∙◌}
use sealed_auction_fce.Prelude.{
  ℕ, ◌≡◌, refl, sym, ◌⊎◌, inl, inr, Bool, Bool-cases, true, false, Option, none, some, List, [],
  ◌∷◌, ℤ, pos, arith,
}
use sealed_auction_fce.Extension.Types.{Address}
use sealed_auction_fce.Extension.Bids.{
  Bid, qualifies, challenge, pick_step, pick_loop, reserve_or_zero, winner_of, pick_winner,
}
use sealed_auction_fce.Extension.Bids.Ranking.{
  wei, Qualifies, AtMost, qualifies→Qualifies, Qualifies→qualifies, AtMost-refl, AtMost-trans,
  better-AtMost,
}

-- `w` is one of the bids, qualifies, and no qualified bid ranks above it.
pub record IsBest (c : Address) (r : ℤ) (bids : List Bid) (w : Bid) : Type 0 where
  pub member : Memᴰ w bids
  pub qualified : Qualifies c r w
  pub top : (b : Bid) → Memᴰ b bids → Qualifies c r b → AtMost b w

module _ (c : Address) (r : ℤ) where
  abbrev Good : Option Bid → Type 0
  Good none = Unit
  Good (some w) = Qualifies c r w

  abbrev Below : Bid → Option Bid → Type 0
  Below b none = ⊥
  Below b (some w) = AtMost b w

  abbrev Above : Option Bid → Option Bid → Type 0
  Above none res = Unit
  Above (some b) res = Below b res

  abbrev Origin : List Bid → Option Bid → Option Bid → Type 0
  Origin bids best none = best ≡ none
  Origin bids best (some w) = (best ≡ some w) ⊎ Memᴰ w bids

  Below-trans : (b : Bid) (best res : Option Bid) → Below b best → Above best res → Below b res
  Below-trans b none res h k = absurd h
  Below-trans b (some x) none h k = absurd k
  Below-trans b (some x) (some w) h k = AtMost-trans b x w h k

  Origin-self : (best : Option Bid) → Origin [] best best
  Origin-self none = refl
  Origin-self (some w) = inl refl

  -- What one round does to the best bid so far.
  record Round (b : Bid) (best res : Option Bid) : Type 0 where
    step : pick_step c r b best ≡ some res
    good : Good res
    above : Above best res
    origin : (res ≡ best) ⊎ (res ≡ some b)
    covers : Qualifies c r b → Below b res

  Above-self : (best : Option Bid) → Above best best
  Above-self none = tt
  Above-self (some x) = AtMost-refl x

  Round-skip :
      (b : Bid) (best : Option Bid) → Good best → qualifies c r b ≡ false → Round b best best
  unfolding pick_step
  Round-skip b best h q = record {
    step = rw q;
    good = h;
    above = Above-self best;
    origin = inl refl;
    covers = λ fits. absurd (cc (Qualifies→qualifies c r b fits));
  }

  Round-first : (b : Bid) → qualifies c r b ≡ true → Round b none (some b)
  unfolding pick_step challenge
  Round-first b q = record {
    step = rw q;
    good = qualifies→Qualifies c r b q;
    above = tt;
    origin = inr refl;
    covers = λ _. AtMost-refl b;
  }

  Round-challenge :
      (b x : Bid)
      → Qualifies c r x
      → qualifies c r b ≡ true
      → (res : Option Bid) × Round b (some x) res
  unfolding pick_step challenge
  Round-challenge b x h q =
      let fits = qualifies→Qualifies c r b q in
      elim (better-AtMost c r b x fits h) [
        | inl (wins, below) ↦ (
          some b,
          record {
            step = rw (q, challenge, wins);
            good = fits;
            above = below;
            origin = inr refl;
            covers = λ _. AtMost-refl b;
          },
        )
        | inr (loses, below) ↦ (
          some x,
          record {
            step = rw (q, challenge, loses);
            good = h;
            above = AtMost-refl x;
            origin = inl refl;
            covers = λ _. below;
          },
        )
      ]

  pick_step-Round :
      (b : Bid) (best : Option Bid) → Good best → (res : Option Bid) × Round b best res
  pick_step-Round b none h = elim (Bool-cases (qualifies c r b)) [
    | inl q ↦ (some b, Round-first b q)
    | inr q ↦ (none, Round-skip b none h q)
  ]
  pick_step-Round b (some x) h = elim (Bool-cases (qualifies c r b)) [
    | inl q ↦ Round-challenge b x h q
    | inr q ↦ (some x, Round-skip b (some x) h q)
  ]

  -- What the loop does to the best bid so far.
  record Chosen (bids : List Bid) (best res : Option Bid) : Type 0 where
    result : pick_loop c r bids best ≡ some res
    good : Good res
    above : Above best res
    origin : Origin bids best res
    covers : (b : Bid) → Memᴰ b bids → Qualifies c r b → Below b res

  Above-trans : (a b d : Option Bid) → Above a b → Above b d → Above a d
  Above-trans none b d h k = tt
  Above-trans (some x) b d h k = Below-trans x b d h k

  Origin-head :
      (b : Bid) (bids : List Bid) (best mid : Option Bid) (res : Option Bid)
      → (mid ≡ best) ⊎ (mid ≡ some b)
      → Origin bids mid res
      → Origin (b ∷ bids) best res
  Origin-head b bids best mid none (inl e) o = sym e ∙ o
  Origin-head b bids best mid none (inr e) o = absurd (cc)
  Origin-head b bids best mid (some w) (inl e) (inl f) = inl (sym e ∙ f)
  Origin-head b bids best mid (some w) (inr e) (inl f) =
      inr (Memᴰ.head (some-injective w b (sym f ∙ e)))
  Origin-head b bids best mid (some w) e (inr m) = inr (Memᴰ.tail m)

  covers_head :
      (b a : Bid) (bids : List Bid) (mid res : Option Bid)
      → (Qualifies c r b → Below b mid)
      → Above mid res
      → ((d : Bid) → Memᴰ d bids → Qualifies c r d → Below d res)
      → Memᴰ a (b ∷ bids)
      → Qualifies c r a
      → Below a res
  covers_head b a bids mid res first up rest (Memᴰ.head e) q =
      Below-trans a mid res (subst⁻¹ (λ d. Qualifies c r d → Below d mid) e first q) up
  covers_head b a bids mid res first up rest (Memᴰ.tail m) q = rest a m q

  pick_loop-Chosen :
      (bids : List Bid) (best : Option Bid) → Good best → (res : Option Bid) × Chosen bids best res
  unfolding pick_loop
  pick_loop-Chosen [] best h = (
    best,
    record {
      result = refl;
      good = h;
      above = Above-self best;
      origin = Origin-self best;
      covers = λ b m. elim m [ ];
    },
  )
  pick_loop-Chosen (b ∷ bids) best h =
      let (mid, first) = pick_step-Round b best h in
      let (res, rest) = pick_loop-Chosen bids mid first.good in
      (
        res,
        record {
          result = rw (first.step, pick_loop) rest.result;
          good = rest.good;
          above = Above-trans best mid res first.above rest.above;
          origin = Origin-head b bids best mid res first.origin rest.origin;
          covers = λ a m q. covers_head b a bids mid res first.covers rest.above rest.covers m q;
        },
      )

-- The bid `w` wins, and the code returns its bidder and its own amount as the price.
abbrev pub Sold : Address → ℤ → List Bid → Option (Address × ℤ × Bool) → Type 0
Sold c r bids result = (w : Bid) × IsBest c r bids w × (result ≡ some (w.bidder, pos (wei w), true))

-- No bid qualifies, and the code returns the zero address.
abbrev pub Unsold : Address → ℤ → List Bid → Option (Address × ℤ × Bool) → Type 0
Unsold c r bids result =
    ((b : Bid) → Memᴰ b bids → ¬ Qualifies c r b) × (result ≡ some (0, pos 0, false))

winner_of-some :
    (w : Bid) (n : ℕ) → w.amount ≡ some (pos n) → winner_of (some w) ≡ some (w.bidder, pos n, true)
unfolding winner_of
winner_of-some w n h = ground arith

Sold-of_Chosen :
    (c : Address) (r : ℤ) (bids : List Bid) (w : Bid)
    → Chosen c r bids none (some w)
    → Sold c r bids (winner_of (some w))
Sold-of_Chosen c r bids w h = (
  w,
  record {
    member = elim h.origin [ inl e ↦ absurd (cc) | inr m ↦ m ];
    qualified = h.good;
    top = h.covers;
  },
  winner_of-some w (wei w) h.good.amount_wei,
)

pick_loop_cases :
    (bids : List Bid) (c : Address) (r : ℤ) (res : Option Bid)
    → Chosen c r bids none res
    → Sold c r bids (winner_of res) ⊎ Unsold c r bids (winner_of res)
unfolding winner_of
pick_loop_cases bids c r none h = inr (h.covers, refl)
pick_loop_cases bids c r (some w) h = inl (Sold-of_Chosen c r bids w h)

-- `pickWinner` does not panic: it returns the bidder and the amount of a best qualified bid, or the
-- zero address, price 0 and false when no bid qualifies.
pub pick_winner_best :
    (bids : List Bid) (c : Address) (reserve : Option ℤ)
    → Sold c (reserve_or_zero reserve) bids (pick_winner bids c reserve)
      ⊎ Unsold c (reserve_or_zero reserve) bids (pick_winner bids c reserve)
unfolding pick_winner
pick_winner_best bids c reserve =
    let (res, chosen) = pick_loop-Chosen c (reserve_or_zero reserve) bids none tt in
    rw (chosen.result, pick_winner) (pick_loop_cases bids c (reserve_or_zero reserve) res chosen)
