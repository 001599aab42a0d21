-- ===== src/Commands/RunTest/Seen.antt =====
-- What the queries and the settlement of run-test saw when they returned no error, and where their
-- calls stand in the journal (tools/cmd/run-test/main.go).

use sealed_auction_fce.Prelude.{
  refl, ◌++◌, Result, ok_injective, ℕ, ◌≡◌, ap, sym, ◌∙◌, inl, inr, List, [], ◌∷◌, String, ok,
  Bool-cases, Result-cases, fail_if, not, ◌==◌, ==_iff,
}
use sealed_auction_fce.Extension.Types.{Address, Hash}
use sealed_auction_fce.Chain.Market.{balance_of, owner_of}
use sealed_auction_fce.Chain.{
  Call, Receipt, Outside, World, Act, on_error, wrap, perform, view, submit, wait_mined,
}
use sealed_auction_fce.Chain.Returned.{andthen_ok, wrap_ok}
use sealed_auction_fce.Registration.{Library, Support, try}
use sealed_auction_fce.Utils.{MarketLibrary, wait_ok}
use sealed_auction_fce.Utils.Instructions.{Settlement, settle_tx, settle_of}
use sealed_auction_fce.Utils.Asked.{after_bind, after_submit, mined_ok_returns, mined_ok_journal}
use sealed_auction_fce.Utils.Tokens.{token_balance, nft_owner, single_output}
use sealed_auction_fce.Commands.RunTest.{TestLibrary}

pub fail_if_passes :
    (x y : ℕ) (text : String) (u : Unit {0}) → fail_if (not (x == y)) text ≡ ok u → x ≡ y
fail_if_passes x y text u = elim (Bool-cases (x == y)) [
  | inl same ↦ λ h. (==_iff x y).0 same
  | inr other ↦ rw other (λ h. absurd (cc h))
]

single_output_ok :
    (text : String) (values : List ℕ) (v : ℕ) → single_output text values ≡ ok v → values ≡ v ∷ []
unfolding single_output
single_output_ok text [] v = λ h. absurd (cc h)
single_output_ok text (u ∷ []) v = λ h. ap (λ x. x ∷ []) (ok_injective u v h)
single_output_ok text (u ∷ x ∷ rest) v = λ h. absurd (cc h)

module _ (lib : Library) (m : MarketLibrary) (t : TestLibrary) (out : Outside) where
  -- A call whose error is only logged, and what follows it.
  pub try_same :
      {B : Type 0} (act : Act (Unit {0})) (next : Act B) (w : World)
      → try lib out act next w ≡ next (act w).1
  unfolding on_error
  try_same act next w = elim (Result-cases (act w).0) [
    | inl (u, e) ↦ rw (e, on_error) refl
    | inr (u, e) ↦ rw (e, on_error) refl
  ]

  module _ (s : Support) where
    -- A balance, or an owner, that is returned is what the chain answered to the one call.
    pub token_balance_seen :
        (token account amount : ℕ) (w : World)
        → (token_balance lib m out s token account w).0 ≡ ok amount
        → (out.answer w.journal (view token (balance_of account)) ≡ ok (amount ∷ []))
          × ((token_balance lib m out s token account w).1.journal
              ≡ w.journal ++ view token (balance_of account) ∷ [])
    unfolding token_balance perform wrap
    token_balance_seen token account amount w h =
        let (u, e, went, h1) = andthen_ok _ _ w amount h in
        let (values, e1, went1, h2) = andthen_ok _ _ _ amount h1 in
        (
          wrap_ok _ (perform out (view token (balance_of account))) w values e1
              ∙ ap ok (single_output_ok _ values amount h2),
          ap (λ (r : Result ℕ × World). r.1.journal) (went ∙ went1),
        )

    pub nft_owner_seen :
        (asset owner token_id : ℕ) (w : World)
        → (nft_owner lib m out s asset token_id w).0 ≡ ok owner
        → (out.answer w.journal (view asset (owner_of token_id)) ≡ ok (owner ∷ []))
          × ((nft_owner lib m out s asset token_id w).1.journal
              ≡ w.journal ++ view asset (owner_of token_id) ∷ [])
    unfolding nft_owner perform wrap
    nft_owner_seen asset owner token_id w h =
        let (u, e, went, h1) = andthen_ok _ _ w owner h in
        let (values, e1, went1, h2) = andthen_ok _ _ _ owner h1 in
        (
          wrap_ok _ (perform out (view asset (owner_of token_id))) w values e1
              ∙ ap ok (single_output_ok _ values owner h2),
          ap (λ (r : Result ℕ × World). r.1.journal) (went ∙ went1),
        )

    -- The settlement was sent by the support key, and mined with status 1 by the next call.
    pub record Settled (house : Address) (t' : Settlement) (settling after : List Call)
        : Type 0 where
      pub tx : Hash
      pub receipt : Receipt
      pub sent : out.answer settling (submit s.prv 0 0 (settle_tx house t')) ≡ ok tx
      pub mined :
          out.answer (settling ++ submit s.prv 0 0 (settle_tx house t') ∷ []) (wait_mined tx)
          ≡ ok receipt
      pub fine : receipt.status ≡ 1
      pub calls :
          after ≡ (settling ++ submit s.prv 0 0 (settle_tx house t') ∷ []) ++ wait_mined tx ∷ []

    pub settle_of_seen :
        (house : Address) (t' : Settlement) (tx : Hash) (w : World)
        → (settle_of lib m out s house t' w).0 ≡ ok tx
        → Settled house t' w.journal (settle_of lib m out s house t' w).1.journal
    unfolding settle_of wait_ok perform
    settle_of_seen house t' tx w h =
        let bound = after_bind lib m out s house _ w tx h in
        let h1 = sym (ap (λ (r : Result Hash × World). r.0) bound) ∙ h in
        let (hash, answered, went) =
          after_submit lib m out s _ 0 0 (settle_tx house t') _ w tx h1 in
        let h2 = sym (ap (λ (r : Result Hash × World). r.0) went) ∙ h1 in
        let (u, waited, went2, h3) = andthen_ok _ _ _ tx h2 in
        let (receipt, mined, went3, h4) = andthen_ok _ _ _ u waited in
        let (found, fine) = mined_ok_returns lib m out s _ _ hash _ receipt mined in
        record {
          tx = hash;
          receipt = receipt;
          sent = answered;
          mined = found;
          fine = fine;
          calls =
              ap (λ (r : Result Hash × World). r.1.journal) (bound ∙ went ∙ went2)
              ∙ ap (λ (r : Result (Unit {0}) × World). r.1.journal) went3
              ∙ mined_ok_journal lib m out s _ _ hash _;
        }
