-- ===== src/Extension/Runs/House/Obeyed.antt =====
-- What a stored bid and a close are for the abstract auction house (go/internal/extension/extension.go).

use sealed_auction_fce.Prelude.{
  ℕ, ◌+◌, ◌<◌, ◌^◌, ◌≡◌, ◌≢◌, refl, ap, sym, ◌∙◌, Bool-cases, true, false, inl, inr, [], ◌∷◌, ◌++◌,
  ℤ, pos, negsuc, eq_ℤ, to_string, to_string_injective, if◌then◌else◌, arith, str_eq_iff,
  map_get-map_set,
}
use sealed_auction_fce.Extension.Types.{BidPayload}
use sealed_auction_fce.Extension.Store.{
  Extension, bids_at, is_closed, next_seq, bid_of, store_bid, mark_closed,
}
use sealed_auction_fce.Extension.Store.Access.{
  bids_at-store_bid, bids_at-store_bid_ne, is_closed-store_bid, bids_at-mark_closed, str_ne,
}
use sealed_auction_fce.Extension.Runs.House.{House, bid, close, obey, house_of}

eq_ℤ_iff : (a b : ℤ) → eq_ℤ a b ≡ true → a ≡ b
eq_ℤ_iff (pos a) (pos b) h = ap pos (ground (arith, h))
eq_ℤ_iff (pos a) (negsuc b) h = absurd (cc h)
eq_ℤ_iff (negsuc a) (pos b) h = absurd (cc h)
eq_ℤ_iff (negsuc a) (negsuc b) h = ap negsuc (ground (arith, h))

eq_ℤ_refl : (a : ℤ) → eq_ℤ a a ≡ true
eq_ℤ_refl (pos a) = ground arith
eq_ℤ_refl (negsuc a) = ground arith

eq_ℤ_ne : (a b : ℤ) → eq_ℤ a b ≡ false → a ≢ b
eq_ℤ_ne a b h e = absurd (cc (eq_ℤ_refl a, h, e))

house_eq :
    (h k : House)
    → ((j : ℤ) → h.bids j ≡ k.bids j)
    → ((j : ℤ) → h.closed j ≡ k.closed j)
    → h.placed ≡ k.placed
    → h ≡ k
house_eq h k same_bids same_closed same_placed i = record {
  bids = λ j. same_bids j i;
  closed = λ j. same_closed j i;
  placed = same_placed i;
}

key_ne : (j id : ℤ) → eq_ℤ j id ≡ false → to_string id ≢ to_string j
key_ne j id h same = eq_ℤ_ne j id h (sym (to_string_injective id j same))

next_seq_small : (n : ℕ) → n + 1 < 2 ^ 64 → next_seq n ≡ n + 1
next_seq_small n room = omega arith

stored_bids :
    (e : Extension) (id : ℤ) (p : BidPayload) (t : ℕ)
    → e.seq + 1 < 2 ^ 64
    → (j : ℤ)
    → bids_at (store_bid e (to_string id) p t) (to_string j) ≡ (
        if eq_ℤ j id
        then bids_at e (to_string j) ++ bid_of p t (e.seq + 1) ∷ []
        else bids_at e (to_string j))
stored_bids e id p t room j = elim (Bool-cases (eq_ℤ j id)) [
  | inl same ↦ rw same (
      ap (λ k. bids_at (store_bid e (to_string id) p t) (to_string k)) (eq_ℤ_iff j id same)
      ∙ bids_at-store_bid e (to_string id) p t
      ∙ ap (λ n. bids_at e (to_string id) ++ bid_of p t n ∷ []) (next_seq_small e.seq room)
      ∙ ap (λ k. bids_at e (to_string k) ++ bid_of p t (e.seq + 1) ∷ []) (sym (eq_ℤ_iff j id same)))
  | inr other ↦
      rw other (bids_at-store_bid_ne e (to_string id) p t (to_string j) (key_ne j id other))
]

pub store_bid-obey :
    (e : Extension) (id : ℤ) (p : BidPayload) (t : ℕ)
    → e.seq + 1 < 2 ^ 64
    → is_closed e (to_string id) ≡ false
    → house_of (store_bid e (to_string id) p t) ≡ obey (house_of e) (bid id p t)
unfolding store_bid
store_bid-obey e id p t room is_open = rw is_open (
    house_eq _ _ (stored_bids e id p t room)
      (λ j. is_closed-store_bid e (to_string id) p t (to_string j)) (next_seq_small e.seq room))

pub too_late :
    (e : Extension) (id : ℤ) (p : BidPayload) (t : ℕ)
    → is_closed e (to_string id) ≡ true
    → obey (house_of e) (bid id p t) ≡ house_of e
too_late e id p t over = rw over refl

marked :
    (e : Extension) (id j : ℤ)
    → is_closed (mark_closed e (to_string id)) (to_string j)
      ≡ (if eq_ℤ j id then true else is_closed e (to_string j))
unfolding is_closed mark_closed
marked e id j = elim (Bool-cases (eq_ℤ j id)) [
  | inl same ↦
      let same_key =
        (str_eq_iff (to_string id) (to_string j)).1 (ap to_string (sym (eq_ℤ_iff j id same))) in
      rw (map_get-map_set, same_key, same) refl
  | inr other ↦
      rw (map_get-map_set, str_ne (to_string id) (to_string j) (key_ne j id other), other) refl
]

pub mark_closed-obey :
    (e : Extension) (id : ℤ)
    → house_of (mark_closed e (to_string id)) ≡ obey (house_of e) (close id)
unfolding mark_closed
mark_closed-obey e id =
    house_eq _ _ (λ j. bids_at-mark_closed e (to_string id) (to_string j)) (marked e id) refl
