-- ===== src/Commands/RunTest/Passed.antt =====
-- What a run of run-test that ends without an error has seen (tools/cmd/run-test/main.go).
use mathlib.Core.Path.{subst}
use sealed_auction_fce.Prelude.{
  ℤ, pos, negsuc, pos_part, eq_ℤ, refl, arith, true, Option, ◌++◌, Result, ok_injective, ℕ, ◌≡◌, ap,
  sym, ◌∙◌, Bool, true, false, inl, inr, some, List, [], ◌∷◌, ok, Bool-cases, Result-cases, ◌==◌,
  ==_iff,
}
use sealed_auction_fce.Extension.Types.{Address, Hash}
use sealed_auction_fce.Chain.Market.{balance_of, owner_of, close_auction}
use sealed_auction_fce.Chain.Journal.{Added-trans, perform-Only, wrap-Only}
use sealed_auction_fce.Commands.RunTest.Grows.{
  Any, Later, operation-Grows, place_bids-Grows, wait_deadline-Grows,
}
use sealed_auction_fce.Commands.RunTest.Seen.{
  fail_if_passes, try_same, token_balance_seen, nft_owner_seen, Settled, settle_of_seen,
}
use sealed_auction_fce.Utils.Operations.{run_operation, allowance, payment}
use sealed_auction_fce.Chain.{Call, Outside, World, perform, view, sleep}
use sealed_auction_fce.Chain.Returned.{andthen_ok}
use sealed_auction_fce.Registration.{Library, Support}
use sealed_auction_fce.Utils.{MarketLibrary}
use sealed_auction_fce.Utils.Instructions.{settle_of, close_auction_of}
use sealed_auction_fce.Utils.Asked.{Instructed, requested, requested-Instructed, close}
use sealed_auction_fce.Utils.Tokens.{approve_token, token_balance, nft_owner}
use sealed_auction_fce.Commands.RunTest.{
  ActionResponse, TestLibrary, Flags, Sale, deployer, pay_token_of, check_balance, configure,
  fund_seller, create_sale,
}
use sealed_auction_fce.Commands.RunTest.Flow.{
  place_bids, wait_deadline, response_of, settlement_of, Summary, expected_result, close_sale,
  settle_sale, finish_sale, run_test,
}

-- An amount that equals a natural number is its positive part.
eq_pos : (n : ℕ) (b : ℤ) → eq_ℤ (pos n) b ≡ true → (n ≡ pos_part b) × (b ≡ pos (pos_part b))
eq_pos n (pos k) h = (ground (arith, h), refl)
eq_pos n (negsuc k) h = absurd (cc h)

module _ (lib : Library) (m : MarketLibrary) (t : TestLibrary) (out : Outside) (s : Support) where
  module _ (f : Flags) (sale : Sale) where
    -- The response is a success whose data names the deployer as the winner, at the bid.
    abbrev pub Won : ActionResponse → Type 0
    Won response =
        (response.status ≡ 1)
        × (a : Address) × (b : ℕ) × (t.unpack_result response.content
            ≡ ok (a, b, deployer lib m t out s f, pos_part f.bid_wei))
        × (f.bid_wei ≡ pos (pos_part f.bid_wei))

    expected_result_ok :
        (response r : ActionResponse) (winner : Address) (price : ℕ)
        → expected_result lib m t out s f sale response ≡ ok (r, winner, price)
        → Won response
          × (r ≡ response)
          × (winner ≡ deployer lib m t out s f)
          × (price ≡ pos_part f.bid_wei)
    unfolding expected_result
    expected_result_ok response r winner price = elim (Bool-cases (response.status == 1)) [
      | inr other ↦ rw (expected_result, other) (λ h. absurd (cc h))
      | inl fine ↦ elim (Result-cases (t.unpack_result response.content)) [
        | inr (e, unread) ↦ rw (expected_result, fine, unread) (λ h. absurd (cc h))
        | inl ((a, b, won, paid), read) ↦ elim (Bool-cases (won == deployer lib m t out s f)) [
          | inr other ↦ rw (expected_result, fine, read, other) (λ h. absurd (cc h))
          | inl ours ↦ elim (Bool-cases (eq_ℤ (pos paid) f.bid_wei)) [
            | inr other ↦ rw (expected_result, fine, read, ours, other) (λ h. absurd (cc h))
            | inl exact ↦
                rw (expected_result, fine, read, ours, exact)
                  (λ h.
                    let same = ok_injective (response, won, paid) (r, winner, price) h in
                    let is_ours = (==_iff won (deployer lib m t out s f)).0 ours in
                    let (is_exact, natural) = eq_pos paid f.bid_wei exact in
                    (
                      (
                        (==_iff response.status 1).0 fine,
                        a,
                        b,
                        ap (λ (p : Address × ℕ). ok (a, b, p.0, p.1))
                            (λ i. (is_ours i, is_exact i)),
                        natural,
                      ),
                      sym (ap (λ (p : ActionResponse × Address × ℕ). p.0) same),
                      sym (ap (λ (p : ActionResponse × Address × ℕ). p.1) same) ∙ is_ours,
                      sym (ap (λ (p : ActionResponse × Address × ℕ). p.2) same) ∙ is_exact,
                    ))
          ]
        ]
      ]
    ]

    -- The response is what the proxy returned for the instruction of a close of the auction, after
    -- the close was sent and mined.
    pub record Fetched (start : World) (response : ActionResponse) (after : World) : Type 0 where
      pub id : Hash
      pub tx_hash : Hash
      pub closed : World
      pub polling : World
      pub instructed :
          Instructed lib m out s (close_auction f.house sale.auction_id) start id tx_hash closed
      pub waited : Later closed polling
      pub fetched : (response_of lib m t out f.proxy_url id polling).0 ≡ ok response
      pub ended : after ≡ (response_of lib m t out f.proxy_url id polling).1

    close_sale_ok :
        (response : ActionResponse) (winner : Address) (price : ℕ) (w : World)
        → (close_sale lib m t out s f sale w).0 ≡ ok (response, winner, price)
        → Fetched w response (close_sale lib m t out s f sale w).1
          × Won response
          × (winner ≡ deployer lib m t out s f)
          × (price ≡ pos_part f.bid_wei)
    unfolding close_sale requested
    close_sale_ok response winner price w h =
        let ((id, tx_hash), e, went, h1) = andthen_ok _ _ w (response, winner, price) h in
        let closed = (close_auction_of lib m out s f.house sale.auction_id w).1 in
        let polling = (perform out (sleep 5) closed).1 in
        let tried = try_same lib m t out (perform out (sleep 5)) _ closed in
        let h2 = sym (ap (λ (r : Result (ActionResponse × Address × ℕ) × World). r.0) tried) ∙ h1 in
        let (answer, e1, went1, h3) = andthen_ok _ _ polling (response, winner, price) h2 in
        let (won, same, ours, exact) = expected_result_ok answer response winner price h3 in
        (
          record {
            id = id;
            tx_hash = tx_hash;
            closed = closed;
            polling = polling;
            instructed =
                requested-Instructed lib m out s f.house (close sale.auction_id) w id tx_hash e;
            waited = perform-Only Any out (sleep 5) tt closed;
            fetched = e1 ∙ ap ok (sym same);
            ended =
                ap (λ (r : Result (ActionResponse × Address × ℕ) × World). r.1)
                  (went ∙ tried ∙ went1);
          },
          subst Won (sym same) won,
          ours,
          exact,
        )

    -- The response was settled; then the chain answered that the seller holds the bid, and by the next
    -- call that the deployer owns the lot.
    pub record Swapped (start : World) (response : ActionResponse) (after : World) : Type 0 where
      pub settling : World
      pub mined : List Call
      pub approved : Later start settling
      pub settled :
          Settled lib m t out s f.house
            (settlement_of lib m t out s f sale response)
            settling.journal
            mined
      pub paid :
          out.answer mined (view sale.pay_token (balance_of (lib.key_address sale.seller.prv)))
          ≡ ok (pos_part f.bid_wei ∷ [])
      pub owned :
          out.answer
            (mined ++ view sale.pay_token (balance_of (lib.key_address sale.seller.prv)) ∷ [])
            (view sale.demo_asset (owner_of sale.lot_token_id))
          ≡ ok (deployer lib m t out s f ∷ [])
      pub asked : World
      pub calls :
          asked.journal
          ≡ (mined ++ view sale.pay_token (balance_of (lib.key_address sale.seller.prv)) ∷ [])
            ++ view sale.demo_asset (owner_of sale.lot_token_id) ∷ []
      pub ended : Later asked after

    settle_sale_ok :
        (response : ActionResponse) (winner : Address) (price : ℕ) (tx : Hash) (w : World)
        → winner ≡ deployer lib m t out s f
        → price ≡ pos_part f.bid_wei
        → (settle_sale lib m t out s f sale response winner price w).0 ≡ ok tx
        → Swapped w response (settle_sale lib m t out s f sale response winner price w).1
    unfolding settle_sale run_operation
    settle_sale_ok response winner price tx w ours exact h =
        let (u, e, went, h1) = andthen_ok _ _ w tx h in
        let (settled, e1, went1, h2) = andthen_ok _ _ _ tx h1 in
        let (balance, e2, went2, h3) = andthen_ok _ _ _ tx h2 in
        let (u3, e3, went3, h4) = andthen_ok _ _ _ tx h3 in
        let (holder, e4, went4, h5) = andthen_ok _ _ _ tx h4 in
        let (u5, e5, went5, h6) = andthen_ok _ _ _ tx h5 in
        let (u6, e6, went6, h7) = andthen_ok _ _ _ tx h6 in
        let w1 = (approve_token lib m out s sale.pay_token f.house price w).1 in
        let w2 =
          (settle_of lib m out s f.house (settlement_of lib m t out s f sale response) w1).1 in
        let seller = lib.key_address sale.seller.prv in
        let (paid, paid_calls) =
          token_balance_seen lib m t out s sale.pay_token seller balance w2 e2 in
        let w3 = (token_balance lib m out s sale.pay_token seller w2).1 in
        let (owned, owned_calls) =
          nft_owner_seen lib m t out s sale.demo_asset holder sale.lot_token_id w3 e4 in
        let full = fail_if_passes balance price _ u3 e3 ∙ exact in
        let won = fail_if_passes holder winner _ u5 e5 ∙ ours in
        let w4 = (nft_owner lib m out s sale.demo_asset sale.lot_token_id w3).1 in
        let back = payment sale.pay_token (deployer lib m t out s f) balance in
        let final =
          ap (λ (r : Result Hash × World). r.1)
            (went ∙ went1 ∙ went2 ∙ went3 ∙ went4 ∙ went5 ∙ went6) in
        record {
          settling = w1;
          mined = w2.journal;
          approved = operation-Grows lib m t out s (allowance sale.pay_token f.house price) w;
          settled = settle_of_seen lib m t out s f.house _ settled w1 e1;
          paid = paid ∙ ap (λ (b : ℕ). ok (b ∷ [])) full;
          owned =
              subst
                (λ calls.
                  out.answer calls (view sale.demo_asset (owner_of sale.lot_token_id))
                  ≡ ok (deployer lib m t out s f ∷ []))
                paid_calls (owned ∙ ap (λ (a : ℕ). ok (a ∷ [])) won);
          asked = w4;
          calls =
              owned_calls
              ∙ ap (λ calls. calls ++ view sale.demo_asset (owner_of sale.lot_token_id) ∷ [])
                  paid_calls;
          ended =
              subst (λ v. Later w4 v) (sym final)
                (wrap-Only Any _ _ (operation-Grows lib m t out sale.seller back) w4);
        }

    finish_sale_ok :
        (losing winning : Hash) (over : Bool) (sum : Summary) (w : World)
        → (finish_sale lib m t out s f sale losing winning over w).0 ≡ ok (some sum)
        → (response : ActionResponse) × (fetched : World) × Fetched w response fetched
          × Won response
          × Swapped fetched response (finish_sale lib m t out s f sale losing winning over w).1
    unfolding finish_sale
    finish_sale_ok losing winning false sum w = λ h. absurd (cc h)
    finish_sale_ok losing winning true sum w = λ h.
        let (closed, e, went, h1) = andthen_ok _ _ w (some sum) h in
        let (tx, e1, went1, h2) = andthen_ok _ _ _ (some sum) h1 in
        let (got, won, ours, exact) = close_sale_ok closed.0 closed.1 closed.2 w e in
        let v = (close_sale lib m t out s f sale w).1 in
        let final = ap (λ (r : Result (Option Summary) × World). r.1) (went ∙ went1) in
        (
          closed.0,
          v,
          got,
          won,
          subst (λ u. Swapped v closed.0 u) (sym final)
              (settle_sale_ok closed.0 closed.1 closed.2 tx v ours exact e1),
        )

module _ (lib : Library) (m : MarketLibrary) (t : TestLibrary) (out : Outside) (s : Support)
    (f : Flags) where
  -- The chain answered that the house holds the lot, to the last call before the world.
  abbrev pub Escrowed : Sale → World → Type 0
  Escrowed sale w =
      (calls : List Call) × (out.answer calls (view sale.demo_asset (owner_of sale.lot_token_id))
        ≡ ok (f.house ∷ []))
      × (w.journal ≡ calls ++ view sale.demo_asset (owner_of sale.lot_token_id) ∷ [])

  create_sale_ok :
      (seller : Support) (pay_token demo_asset : Address) (sale : Sale) (w : World)
      → (create_sale lib m t out s f seller pay_token demo_asset w).0 ≡ ok sale
      → Escrowed sale (create_sale lib m t out s f seller pay_token demo_asset w).1
  unfolding create_sale
  create_sale_ok seller pay_token demo_asset sale w h =
      let (head, e, went, h1) = andthen_ok _ _ w sale h in
      let (token_id, e1, went1, h2) = andthen_ok _ _ _ sale h1 in
      let (u2, e2, went2, h3) = andthen_ok _ _ _ sale h2 in
      let (id, e3, went3, h4) = andthen_ok _ _ _ sale h3 in
      let (holder, e4, went4, h5) = andthen_ok _ _ _ sale h4 in
      let (u5, e5, went5, h6) = andthen_ok _ _ _ sale h5 in
      let made = ok_injective _ sale h6 in
      let final =
        ap (λ (r : Result Sale × World). r.1) (went ∙ went1 ∙ went2 ∙ went3 ∙ went4 ∙ went5) in
      let (owned, calls) = nft_owner_seen lib m t out s demo_asset holder token_id _ e4 in
      let held = owned ∙ ap (λ (a : ℕ). ok (a ∷ [])) (fail_if_passes holder f.house _ u5 e5) in
      subst (λ (x : Sale). Escrowed x (create_sale lib m t out s f seller pay_token demo_asset w).1)
        made (_, held, ap (λ (v : World). v.journal) final ∙ calls)

  -- When run-test ends without an error after the deadline was reached, there is a sale and a result
  -- for which the journal of the run has, in this order: the query to which the chain answered that
  -- the house holds the lot in escrow; the close of the auction, mined, with the polling of its
  -- instruction that returned the result, a success that names the deployer as the winner at exactly
  -- the winning bid; the settlement of that very result, signed by the support key and mined with
  -- status 1; and after it the queries to which the chain answered that the seller holds exactly the
  -- bid and that the deployer owns the lot.
  pub run_test_passed :
      (queries : ℕ) (sum : Summary) (w : World)
      → (run_test lib m t out s f queries w).0 ≡ ok (some sum)
      → (sale : Sale) × (response : ActionResponse) × (created closing fetched : World) × Escrowed
          sale created
        × Later created closing
        × Fetched lib m t out s f sale closing response fetched
        × Won lib m t out s f sale response
        × Swapped lib m t out s f sale fetched response (run_test lib m t out s f queries w).1
  unfolding run_test
  run_test_passed queries sum w h =
      let (pay_token, e, went, h1) = andthen_ok _ _ w (some sum) h in
      let (demo_asset, e1, went1, h2) = andthen_ok _ _ _ (some sum) h1 in
      let (u2, e2, went2, h3) = andthen_ok _ _ _ (some sum) h2 in
      let (u3, e3, went3, h4) = andthen_ok _ _ _ (some sum) h3 in
      let (seller, e4, went4, h5) = andthen_ok _ _ _ (some sum) h4 in
      let (sale, e5, went5, h6) = andthen_ok _ _ _ (some sum) h5 in
      let (txs, e6, went6, h7) = andthen_ok _ _ _ (some sum) h6 in
      let (over, e7, went7, h8) = andthen_ok _ _ _ (some sum) h7 in
      let w1 = (pay_token_of lib m t out w).1 in
      let w2 = (check_balance lib m t out s f pay_token w1).1 in
      let w3 = (configure lib m t out s f w2).1 in
      let w4 = (fund_seller lib m t out s f w3).1 in
      let created = (create_sale lib m t out s f seller pay_token demo_asset w4).1 in
      let bidden = (place_bids lib m t out s f sale created).1 in
      let closing = (wait_deadline lib m t out queries sale.deadline bidden).1 in
      let final =
        ap (λ (r : Result (Option Summary) × World). r.1)
          (went ∙ went1 ∙ went2 ∙ went3 ∙ went4 ∙ went5 ∙ went6 ∙ went7) in
      let (response, fetched, got, won, swapped) =
        finish_sale_ok lib m t out s f sale txs.0 txs.1 over sum closing h8 in
      (
        sale,
        response,
        created,
        closing,
        fetched,
        create_sale_ok seller pay_token demo_asset sale w4 e5,
        Added-trans Any created bidden closing (place_bids-Grows lib m t out s f sale created)
            (wait_deadline-Grows lib m t out queries sale.deadline bidden),
        got,
        won,
        subst (λ v. Swapped lib m t out s f sale fetched response v) (sym final) swapped,
      )
