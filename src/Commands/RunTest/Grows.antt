-- ===== src/Commands/RunTest/Grows.antt =====
-- The parts of run-test whose calls come between those that its result rests on
-- (tools/cmd/run-test/main.go): each adds to the journal and removes nothing from it.
use sealed_auction_fce.Prelude.{ℤ, ℕ, zero, suc, String, Result, ok, err, leb}
use sealed_auction_fce.Extension.Types.{Address, Hash, Bytes}
use sealed_auction_fce.Chain.{Call, HttpReply, Outside, World, Act, perform, done, ◌>>◌}
use sealed_auction_fce.Chain.Journal.{
  Added, Only, Added-none, Added-weaken, andthen-Only, on_error-Only, if-Only, wrap-Only,
  perform-Only,
}
use sealed_auction_fce.Registration.{Library, Support, try, tee_info}
use sealed_auction_fce.Registration.Production.{poll, action_result}
use sealed_auction_fce.Utils.{MarketLibrary}
use sealed_auction_fce.Utils.Operations.{Operation, bid, Proper, run_operation}
use sealed_auction_fce.Utils.Instructions.{place_bid_of}
use sealed_auction_fce.Utils.Sent.{run_operation-Proper}
use sealed_auction_fce.Commands.RunTest.{
  TestLibrary, Flags, Sale, tee_ecies_public_key, encrypt_for_tee,
}
use sealed_auction_fce.Commands.RunTest.Flow.{
  wait_deadline, seal_bid, place_bids, check_accepted, response_of,
}

abbrev pub Any : Call → Type 0
Any c = Unit

-- The second world's journal is the first one's with calls after it.
abbrev pub Later : World → World → Type 0
Later w w' = Added Any w w'

module _ (lib : Library) (m : MarketLibrary) (t : TestLibrary) (out : Outside) where
  abbrev Grows : {A : Type 0} → Act A → Type 0
  Grows act = Only Any act

  nothing : (w : World) → Later w w
  nothing w = Added-none Any w

  calls : (c : Call) → Grows (perform out c)
  calls c = perform-Only Any out c tt

  pub tries :
      {A : Type 0} (act : Act (Unit {0})) (next : Act A)
      → Grows act
      → Grows next
      → Grows (try lib out act next)
  tries act next h k = on_error-Only Any act _ _ h (λ e. k) (λ u. k)

  pub operation-Grows : (s : Support) (o : Operation) → Grows (run_operation lib m out s o)
  operation-Grows s o w =
      Added-weaken (Proper o s.prv) Any w (run_operation lib m out s o w).1 (λ c p. tt)
        (run_operation-Proper lib m out s o w)

  poll-Grows : (n : ℕ) (url : String) (last : Result HttpReply) → Grows (poll lib out n url last)
  unfolding poll
  poll-Grows zero url last = nothing
  poll-Grows (suc n) url last =
      on_error-Only Any _ _ _ (calls _) (λ e. tries _ _ (calls _) (poll-Grows n url (err e)))
        (λ reply. if-Only Any _ _ _ nothing (tries _ _ (calls _) (poll-Grows n url (ok reply))))

  pub response_of-Grows : (url : String) (id : Hash) → Grows (response_of lib m t out url id)
  unfolding response_of action_result
  response_of-Grows url id =
      andthen-Only Any _ _ (andthen-Only Any _ _ (poll-Grows _ _ _) (λ last. nothing))
        (λ body. nothing)

  check_accepted-Grows :
      (url label : String) (id : Hash) → Grows (check_accepted lib m t out url label id)
  unfolding check_accepted
  check_accepted-Grows url label id =
      andthen-Only Any _ _ (response_of-Grows url id) (λ response. nothing)

  tee_ecies_public_key-Grows : (url : String) → Grows (tee_ecies_public_key lib m t out url)
  unfolding tee_ecies_public_key tee_info
  tee_ecies_public_key-Grows url =
      andthen-Only Any _ _ (wrap-Only Any _ _ (andthen-Only Any _ _ (calls _) (λ reply. nothing)))
        (λ info. nothing)

  pub wait_deadline-Grows : (n deadline : ℕ) → Grows (wait_deadline lib m t out n deadline)
  unfolding wait_deadline
  wait_deadline-Grows zero deadline = nothing
  wait_deadline-Grows (suc n) deadline = andthen-Only Any _ _ (wrap-Only Any _ _ (calls _)) (λ head.
      if-Only Any (leb deadline head) _ _ nothing
        (tries _ _ (calls _) (wait_deadline-Grows n deadline)))

  module _ (s : Support) (f : Flags) (sale : Sale) where
    seal_bid-Grows :
        (key : Bytes) (bidder : Address) (amount : ℤ)
        → Grows (seal_bid lib m t out s f sale key bidder amount)
    unfolding seal_bid encrypt_for_tee
    seal_bid-Grows key bidder amount = andthen-Only Any _ _ (calls _) (λ salt.
        andthen-Only Any _ _ nothing
          (λ plaintext. andthen-Only Any _ _ (wrap-Only Any _ _ (calls _)) (λ entropy. nothing)))

    bid_of-Grows :
        (bidder : Support) (ciphertext : Bytes)
        → Grows (place_bid_of lib m out bidder f.house sale.auction_id ciphertext)
    unfolding run_operation
    bid_of-Grows bidder ciphertext = operation-Grows bidder (bid f.house sale.auction_id ciphertext)

    accepted-Grows :
        (losing winning : Hash × Hash)
        → Grows {A = Hash × Hash} (
            check_accepted lib m t out f.proxy_url "PLACE_BID (losing)" losing.0
            >> check_accepted lib m t out f.proxy_url "PLACE_BID (winning)" winning.0
            >> done (losing.1, winning.1))
    accepted-Grows losing winning =
        andthen-Only Any _ _
          (andthen-Only Any _ _ (check_accepted-Grows _ _ _) (λ u. check_accepted-Grows _ _ _))
          (λ u. nothing)

    pub place_bids-Grows : Grows (place_bids lib m t out s f sale)
    unfolding place_bids run_operation
    place_bids-Grows =
        andthen-Only Any _ _ (wrap-Only Any _ _ (tee_ecies_public_key-Grows _)) (λ key.
          andthen-Only Any _ _ (seal_bid-Grows key _ _) (λ losing_text.
            andthen-Only Any _ _ (bid_of-Grows sale.seller losing_text) (λ losing.
              andthen-Only Any _ _ (seal_bid-Grows key _ _) (λ winning_text.
                andthen-Only Any _ _ (bid_of-Grows s winning_text)
                  (λ winning. tries _ _ (calls _) (accepted-Grows losing winning))))))
