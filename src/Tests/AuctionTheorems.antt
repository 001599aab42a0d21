-- ===== src/Tests/AuctionTheorems.antt =====
-- The theorems about the extension, each applied to the auction of `Auction`.
use mathlib.Core.List.{Memᴰ, Permᴰ}
use sealed_auction_fce.Prelude.{◌≡◌, ◌⊎◌, refl, true, none, some, [], ◌∷◌, pos, arith}
use sealed_auction_fce.Extension.Types.{DataFixed, ActionResult, CloseMessage}
use sealed_auction_fce.Extension.Bids.{pick_winner}
use sealed_auction_fce.Extension.Bids.Selection.{Sold, Unsold, pick_winner_best}
use sealed_auction_fce.Extension.Store.{Extension, new, bids_at, is_closed, state_handler}
use sealed_auction_fce.Extension.Handlers.{process_place_bid, process_close_auction, action_handler}
use sealed_auction_fce.Extension.Handlers.Effects.{Refused, Stored, process_place_bid_outcome}
use sealed_auction_fce.Extension.Handlers.Secrecy.{place_bid_reveals_nothing}
use sealed_auction_fce.Extension.Handlers.Close.{
  CloseRefused, Closed, process_close_auction_outcome,
}
use sealed_auction_fce.Extension.Runs.{Request, run}
use sealed_auction_fce.Extension.Runs.Status.{Replies, action_handler-Replies}
use sealed_auction_fce.Extension.Runs.Reclose.{SameAnswer, reclose_same}
use sealed_auction_fce.Extension.Runs.Sequence.{run_order_irrelevant}
use sealed_auction_fce.Extension.Runs.Provenance.{Authorises, bid_authorised}
use sealed_auction_fce.Extension.Interleaving.{Pending, System, Reach, Step, start_bid}
use sealed_auction_fce.Extension.Interleaving.Quiescent.{Quiescent, Reach-Quiescent}
use sealed_auction_fce.Extension.Interleaving.LateBid.{Announced, late_bid_changes_winner}
use sealed_auction_fce.Tests.Auction.{
  extension_code, codec, decrypt, action_of, df_of, alice, bob, alice_message, bob_message,
  close_message, alice_bid, bob_bid, two_bids, closed_two_bids, two_bids-run, close_result,
  close_run,
}

pick_winner_best_example :
    Sold 170
      (pos 60)
      (alice_bid ∷ bob_bid ∷ [])
      (pick_winner (alice_bid ∷ bob_bid ∷ []) 170 (some (pos 60)))
    ⊎ Unsold 170
        (pos 60)
        (alice_bid ∷ bob_bid ∷ [])
        (pick_winner (alice_bid ∷ bob_bid ∷ []) 170 (some (pos 60)))
pick_winner_best_example = pick_winner_best (alice_bid ∷ bob_bid ∷ []) 170 (some (pos 60))

process_place_bid_outcome_example :
    let (e', r) = process_place_bid codec decrypt new (action_of []) (df_of 2 100 alice_message) in
    Refused codec decrypt new (df_of 2 100 alice_message) e' r
    ⊎ Stored codec decrypt new (df_of 2 100 alice_message) e' r
process_place_bid_outcome_example =
    process_place_bid_outcome codec decrypt new (df_of 2 100 alice_message) (action_of [])

place_bid_reveals_nothing_example :
    let (after, result) =
      process_place_bid codec decrypt new (action_of []) (df_of 2 100 alice_message) in
    let (after', result') =
      process_place_bid codec decrypt new (action_of []) (df_of 2 101 bob_message) in
    (result ≡ result') × (state_handler codec after ≡ state_handler codec after')
unfolding extension_code
place_bid_reveals_nothing_example =
    place_bid_reveals_nothing codec decrypt decrypt new (action_of []) (df_of 2 100 alice_message)
      (df_of 2 101 bob_message)
      (record { auction_id = some (pos 5); bidder = 11; ciphertext = 5 ∷ 170 ∷ 11 ∷ 50 ∷ [] })
      (record { auction_id = some (pos 5); bidder = 12; ciphertext = 5 ∷ 170 ∷ 12 ∷ 70 ∷ [] })
      (pos 5) refl refl refl refl refl refl

process_close_auction_outcome_example :
    CloseRefused codec two_bids (action_of []) (df_of 3 102 close_message)
    ⊎ Closed codec two_bids (action_of []) (df_of 3 102 close_message)
process_close_auction_outcome_example =
    process_close_auction_outcome codec two_bids (action_of []) (df_of 3 102 close_message)

action_handler-Replies_example :
    Replies two_bids (action_handler codec decrypt two_bids close_message)
action_handler-Replies_example = action_handler-Replies codec decrypt two_bids close_message

abbrev close_req : CloseMessage
close_req = record {
  auction_id = some (pos 5);
  contract_addr = 170;
  reserve_price = some (pos 60);
  deadline = 1000;
}

-- Alice tries again between the two closes.
late_request : run codec closed_two_bids (alice ∷ []) ≡ some closed_two_bids
unfolding extension_code
late_request = refl

reclose_same_example :
    (last : Extension) × (r' : ActionResult) × (process_close_auction codec closed_two_bids
        (action_of [])
        (df_of 3 200 close_message)
      ≡ some (last, r'))
    × SameAnswer close_result r'
unfolding extension_code
reclose_same_example =
    reclose_same codec two_bids closed_two_bids closed_two_bids (action_of []) (action_of [])
      (df_of 3 102 close_message) (df_of 3 200 close_message) close_req (pos 5) close_result
      (alice ∷ []) refl close_run late_request refl

run_order_irrelevant_example :
    pick_winner (bids_at two_bids "5") 170 none ≡ pick_winner (bob_bid ∷ alice_bid ∷ []) 170 none
unfolding extension_code
run_order_irrelevant_example =
    run_order_irrelevant codec (alice ∷ bob ∷ []) two_bids "5" (bob_bid ∷ alice_bid ∷ []) 170 none
      two_bids-run (omega arith) ∣ Permᴰ.swap refl refl ∣₁

bid_authorised_example : (q : Request) × Memᴰ q (alice ∷ bob ∷ []) × Authorises codec "5" bob_bid q
unfolding extension_code
bid_authorised_example =
    bid_authorised codec (alice ∷ bob ∷ []) two_bids "5" bob_bid two_bids-run
      (Memᴰ.tail (Memᴰ.head refl))

-- Auction 5 is closed; a bid on auction 6 starts.
abbrev quiet : System
quiet = record { ext = closed_two_bids; pending = [] }

abbrev other_pending : Pending
other_pending = record {
  decrypt = decrypt;
  action = action_of [];
  df = df_of 2 100 (6 ∷ 11 ∷ 6 ∷ 170 ∷ 11 ∷ 50 ∷ []);
  wrapper = record { auction_id = some (pos 6); bidder = 11; ciphertext = 6 ∷ 170 ∷ 11 ∷ 50 ∷ [] };
  auction_id = pos 6;
}

abbrev started : System
started = record { ext = closed_two_bids; pending = other_pending ∷ [] }

quiet-Quiescent : Quiescent "5" (alice_bid ∷ bob_bid ∷ []) quiet
unfolding extension_code
quiet-Quiescent = record { marked = refl; holds = refl; none_pending = tt }

Reach-Quiescent_example : Quiescent "5" (alice_bid ∷ bob_bid ∷ []) started
unfolding extension_code start_bid
Reach-Quiescent_example =
    Reach-Quiescent codec "5" (alice_bid ∷ bob_bid ∷ []) quiet-Quiescent
      (Reach.next Reach.here (Step.start quiet other_pending refl))

-- Bob's handler has read `closed` when the close of Alice's auction runs.
abbrev alice_only : Extension
alice_only = record { bids = ("5", alice_bid ∷ []) ∷ []; closed = []; seq = 1 }

abbrev bob_pending : Pending
bob_pending = record {
  decrypt = decrypt;
  action = action_of [];
  df = df_of 2 101 bob_message;
  wrapper = record { auction_id = some (pos 5); bidder = 12; ciphertext = 5 ∷ 170 ∷ 12 ∷ 70 ∷ [] };
  auction_id = pos 5;
}

abbrev low_close : DataFixed
low_close = df_of 3 102 (5 ∷ 170 ∷ 40 ∷ 1000 ∷ [])

abbrev low_req : CloseMessage
low_req = record close_req { reserve_price = some (pos 40) }

late_bid_changes_winner_example :
    (t u : System) × (v : Extension) × Reach codec
      (record { ext = alice_only; pending = bob_pending ∷ [] })
      t
    × Announced codec alice_only bob_pending [] low_close low_req alice_only t.ext 11 50
    × (is_closed t.ext "5" ≡ true)
    × Reach codec t u
    × (is_closed u.ext "5" ≡ true)
    × Announced codec alice_only bob_pending [] low_close low_req u.ext v 12 70
unfolding extension_code
late_bid_changes_winner_example =
    late_bid_changes_winner codec alice_only bob_pending [] low_close low_req
      (record {
        auction_id = some (pos 5);
        contract_addr = 170;
        bidder = 12;
        amount_wei = some (pos 70);
        salt = 0;
      })
      11 50 70 true refl refl refl refl (omega arith) (omega arith) refl
