-- ===== src/Extension/Store/Access.antt =====
-- What is read after a write to the state of go/internal/extension/extension.go.

use sealed_auction_fce.Prelude.{
  ℕ, ◌+◌, ◌≡◌, ◌≢◌, refl, true, false, List, [], ◌∷◌, ◌++◌, String, length, length-append, map_get,
  map_set, map_get-map_set, str_eq, str_eq_iff, str_eq_refl, arith, Bool-cases, inl, inr,
}
use sealed_auction_fce.Extension.Types.{BidPayload}
use sealed_auction_fce.Extension.Bids.{Bid}
use sealed_auction_fce.Extension.Store.{
  Extension, or_empty, bids_at, is_closed, next_seq, bid_of, store_bid, mark_closed, count_bids,
}

pub str_ne : (j k : String) → j ≢ k → str_eq j k ≡ false
str_ne j k h = elim (Bool-cases (str_eq j k)) [
  | inl e ↦ absurd (h ((str_eq_iff j k).0 e))
  | inr e ↦ e
]

pub is_closed_same :
    (e e' : Extension) (key : String) → e'.closed ≡ e.closed → is_closed e' key ≡ is_closed e key
unfolding is_closed
is_closed_same e e' key h = rw h

pub bids_at_same :
    (e e' : Extension) (key : String) → e'.bids ≡ e.bids → bids_at e' key ≡ bids_at e key
unfolding bids_at
bids_at_same e e' key h = rw h

module _ (e : Extension) (key : String) (p : BidPayload) (t : ℕ) where
  pub bids_at-store_bid :
      bids_at (store_bid e key p t) key ≡ bids_at e key ++ bid_of p t (next_seq e.seq) ∷ []
  unfolding bids_at store_bid
  bids_at-store_bid = rw (map_get-map_set, str_eq_refl)

  pub bids_at-store_bid_ne : (j : String) → key ≢ j → bids_at (store_bid e key p t) j ≡ bids_at e j
  unfolding bids_at store_bid
  bids_at-store_bid_ne j h = rw (map_get-map_set, str_ne key j h)

  pub is_closed-store_bid : (j : String) → is_closed (store_bid e key p t) j ≡ is_closed e j
  unfolding is_closed store_bid
  is_closed-store_bid j = refl

module _ (e : Extension) (key : String) where
  pub bids_at-mark_closed : (j : String) → bids_at (mark_closed e key) j ≡ bids_at e j
  unfolding bids_at mark_closed
  bids_at-mark_closed j = refl

  pub is_closed-mark_closed : is_closed (mark_closed e key) key ≡ true
  unfolding is_closed mark_closed
  is_closed-mark_closed = rw (map_get-map_set, str_eq_refl)

  -- Closing an auction never opens one.
  pub is_closed-mark_closed_mono :
      (j : String) → is_closed e j ≡ true → is_closed (mark_closed e key) j ≡ true
  unfolding is_closed mark_closed
  is_closed-mark_closed_mono j h = elim (Bool-cases (str_eq key j)) [
    | inl same ↦ rw (map_get-map_set, same)
    | inr other ↦ rw (map_get-map_set, other) h
  ]

count_bids-map_set :
    (key : String) (bs : List Bid) (m : List (String × List Bid))
    → count_bids (map_set m key bs) + length (or_empty (map_get m key)) ≡ count_bids m + length bs
unfolding count_bids map_set map_get
count_bids-map_set key bs [] = omega arith
count_bids-map_set key bs ((j, v) ∷ m) = elim (Bool-cases (str_eq j key)) [
  | inl same ↦ rw same (omega arith)
  | inr other ↦ rw other (omega (arith, count_bids-map_set key bs m))
]

-- Storing a bid adds one to the bids counted.
pub count_bids-store_bid :
    (e : Extension) (key : String) (p : BidPayload) (t : ℕ)
    → count_bids (store_bid e key p t).bids ≡ count_bids e.bids + 1
unfolding store_bid bids_at
count_bids-store_bid e key p t =
    let one = bid_of p t (next_seq e.seq) ∷ [] in
    omega (
      arith,
      count_bids-map_set key (bids_at e key ++ one) e.bids,
      length-append (bids_at e key) one,
    )
