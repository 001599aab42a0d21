-- ===== src/Extension/Runs/Sequence.antt =====
-- Arrival numbers (`e.seq`, go/internal/extension/extension.go): no two bids of one auction share one, so
-- the winner does not depend on the order in which the bids are stored.
use mathlib.Core.List.{Memᴰ, Perm}
use sealed_auction_fce.Prelude.{
  ℕ, ◌+◌, ◌^◌, ◌≤◌, ◌<◌, ◌≡◌, refl, ap, inl, inr, some, Option, ℤ, List, [], ◌∷◌, ◌++◌, String,
  Result, str_eq, str_eq_iff, Bool-cases, length, mem-append_last, arith, map_get,
}
use sealed_auction_fce.Extension.Types.{Address, Bytes, Codec, Action, BidPayload}
use sealed_auction_fce.Extension.Bids.{Bid, pick_winner}
use sealed_auction_fce.Extension.Bids.Reordering.{SeqsDistinct, pick_winner-perm}
use sealed_auction_fce.Extension.Store.{Extension, new, bids_at, next_seq, bid_of}
use sealed_auction_fce.Extension.Handlers.Effects.{Appended}
use sealed_auction_fce.Extension.Runs.{Request, run}
use sealed_auction_fce.Extension.Runs.Steps.{Change, process_action-Answers}
use sealed_auction_fce.Extension.Store.Access.{bids_at_same}

-- The bids of each auction have different numbers, none above the counter.
pub record IsNumbered (e : Extension) : Type 0 where
  pub distinct : (key : String) → SeqsDistinct (bids_at e key)
  pub bounded : (key : String) (b : Bid) → Memᴰ b (bids_at e key) → b.seq ≤ e.seq

new-IsNumbered : IsNumbered new
unfolding new bids_at map_get
new-IsNumbered = record { distinct = λ key a b m. elim m [ ]; bounded = λ key b m. elim m [ ] }

distinct_last :
    (bids : List Bid) (b : Bid) (n : ℕ)
    → SeqsDistinct bids
    → ((a : Bid) → Memᴰ a bids → a.seq ≤ n)
    → n < b.seq
    → SeqsDistinct (bids ++ b ∷ [])
distinct_last bids b n distinct bounded above x y in_x in_y same =
    elim (mem-append_last bids x b in_x) [
      | inl old ↦ elim (mem-append_last bids y b in_y) [
        | inl old' ↦ distinct x y old old' same
        | inr e ↦ absurd (omega (arith, bounded x old, ap (λ (u : Bid). u.seq) e))
      ]
      | inr e ↦ elim (mem-append_last bids y b in_y) [
        | inl old' ↦ absurd (omega (arith, bounded y old', ap (λ (u : Bid). u.seq) e))
        | inr e' ↦ cc
      ]
    ]

module _ {e e' : Extension} {key : String} {p : BidPayload} {t : ℕ}
    (room : e.seq + 1 < 2 ^ 64) where
  distinct-Appended :
      Appended e e' key p t → IsNumbered e → (j : String) → SeqsDistinct (bids_at e' j)
  distinct-Appended a v j = elim (Bool-cases (str_eq key j)) [
    | inl same ↦ rw (← (str_eq_iff key j).0 same) (
        rw a.here (
          distinct_last (bids_at e key) (bid_of p t (next_seq e.seq)) e.seq (v.distinct key)
            (v.bounded key) (omega arith)))
    | inr other ↦
        rw (a.elsewhere j (λ (same : key ≡ j). cc ((str_eq_iff key j).1 same, other)))
          (v.distinct j)
  ]

  bounded-Appended :
      Appended e e' key p t
      → IsNumbered e
      → (j : String) (b : Bid) → Memᴰ b (bids_at e' j)
      → b.seq ≤ e'.seq
  bounded-Appended a v j b m = elim (Bool-cases (str_eq key j)) [
    | inl same ↦
        elim (mem-append_last (bids_at e key) b (bid_of p t (next_seq e.seq))
          (rw a.here at (rw (← (str_eq_iff key j).0 same) at m))) [
            | inl old ↦ omega (arith, v.bounded key b old, a.counted)
            | inr last ↦ omega (arith, ap (λ (u : Bid). u.seq) last, a.counted)
          ]
    | inr other ↦
        let old : b.seq ≤ e.seq =
          v.bounded j b
            (rw (a.elsewhere j (λ (same : key ≡ j). cc ((str_eq_iff key j).1 same, other))) at m) in
        omega (arith, a.counted)
  ]

module _ (codec : Codec) where
  -- A request keeps the numbers in order, and raises the counter by one at most.
  Change-IsNumbered :
      {decrypt : Bytes → Result Bytes} {e e' : Extension} {action : Action}
      → e.seq + 1 < 2 ^ 64
      → Change codec decrypt e action e'
      → IsNumbered e
      → IsNumbered e' × (e'.seq ≤ e.seq + 1)
  Change-IsNumbered room (Change.unchanged same) v = rw same (v, omega arith)
  Change-IsNumbered room (Change.placed df w id plain p parsed accepts appended) v = (
    record {
      distinct = distinct-Appended room appended v;
      bounded = bounded-Appended room appended v;
    },
    omega (arith, appended.counted),
  )
  Change-IsNumbered {e = e} {e' = e'} room
        (Change.closed df req id parsed asked same seq marked mono) v =
      (
        record {
          distinct = λ key. rw (bids_at_same e e' key same) (v.distinct key);
          bounded = λ key b m. rw seq (v.bounded key b (rw (bids_at_same e e' key same) at m));
        },
        omega (arith, seq),
      )

  run-IsNumbered :
      (qs : List Request) (e e' : Extension)
      → run codec e qs ≡ some e'
      → e.seq + length qs < 2 ^ 64
      → IsNumbered e
      → IsNumbered e'
  unfolding run
  run-IsNumbered [] e e' h room v = let same : e' ≡ e = cc in rw same v
  run-IsNumbered (q ∷ qs) e e' h room v =
      let (mid, response, answered, change) = process_action-Answers codec q.decrypt e q.action in
      let (numbered, counter) = Change-IsNumbered (omega arith) change v in
      run-IsNumbered qs mid e' (rw (answered, run) at h) (omega arith) numbered

  seq-new : new.seq ≡ 0
  unfolding new
  seq-new = refl

  -- After fewer than 2 ^ 64 requests to a fresh process, any reordering of the bids of an auction gives
  -- the same winner and price.
  pub run_order_irrelevant :
      (qs : List Request) (e : Extension) (key : String) (bids : List Bid) (c : Address)
      (reserve : Option ℤ)
      → run codec new qs ≡ some e
      → length qs < 2 ^ 64
      → Perm (bids_at e key) bids
      → pick_winner (bids_at e key) c reserve ≡ pick_winner bids c reserve
  run_order_irrelevant qs e key bids c reserve h room p =
      let v = run-IsNumbered qs new e h (omega (arith, seq-new)) new-IsNumbered in
      pick_winner-perm c reserve (v.distinct key) p
