-- ===== src/Utils/Asked.antt =====
-- What `PlaceBid` and `CloseAuction` return (tools/pkg/utils/instructions.go).
use sealed_auction_fce.Prelude.{
  ok_injective, ℕ, ◌≡◌, refl, ap, sym, ◌∙◌, true, inl, inr, Option-cases, some, List, [], ◌∷◌, ◌++◌,
  String, Result, ok, err, All, Result-cases, Bool-cases, ◌==◌, ==_iff, arith,
}
use sealed_auction_fce.Extension.Types.{Address, Hash, Bytes}
use sealed_auction_fce.Chain.Market.{MarketTx, place_bid, close_auction}
use sealed_auction_fce.Chain.{
  Log, Outside, World, Act, Receipt, andthen, wrap, perform, submit, wait_mined,
}
use sealed_auction_fce.Chain.Returned.{andthen_ok}
use sealed_auction_fce.Registration.{Library, Support}
use sealed_auction_fce.Utils.{
  MarketLibrary, first_parsed, bind_sender, mined_ok, instruction_in, instruction_from_tx,
  submitted,
}
use sealed_auction_fce.Utils.Instructions.{instruction_fee_wei, place_bid_of, close_auction_of}

-- The value is that of a log which the parser accepts, and it refuses all logs before it.
abbrev pub First : {A : Type 0} → (Log → Result A) → List Log → A → Type 0
First parse logs a =
    (before : List Log) × (lg : Log) × (after : List Log) × (logs ≡ before ++ lg ∷ after)
    × All (λ l. (t : String) × (parse l ≡ err t)) before
    × (parse lg ≡ ok a)

pub first_parsed-First :
    {A : Type 0} (parse : Log → Result A) (logs : List Log) (a : A)
    → first_parsed parse logs ≡ some a
    → First parse logs a
unfolding first_parsed
first_parsed-First parse [] a = λ h. absurd (cc h)
first_parsed-First parse (lg ∷ logs) a = elim (Result-cases (parse lg)) [
  | inl (b, e) ↦ rw (e, first_parsed) (λ h. ([], lg, logs, refl, tt, cc (e, h)))
  | inr (t, e) ↦
      rw (e, first_parsed)
        (λ h.
          let (before, l, after, split, refused, accepted) = first_parsed-First parse logs a h in
          (lg ∷ before, l, after, ap (λ ls. lg ∷ ls) split, ((t, e), refused), accepted))
]

-- The two operations that send an instruction to the TEE.
pub data Request : Type 0 where
  bid : (auction_id : ℕ) → (ciphertext : Bytes) → Request
  close : (auction_id : ℕ) → Request

abbrev pub tx_of : Address → Request → MarketTx
tx_of contract (bid auction_id ciphertext) = place_bid contract auction_id ciphertext
tx_of contract (close auction_id) = close_auction contract auction_id

status_of : (r receipt : Receipt) → (r.status == 1) ≡ true → ok r ≡ ok receipt → receipt.status ≡ 1
status_of r receipt fine h =
    omega (arith, ap (λ x. x.status) (ok_injective r receipt h), (==_iff r.status 1).0 fine)

module _ (lib : Library) (m : MarketLibrary) (out : Outside) (s : Support) where
  instruction_in-First :
      (label : String) (receipt : Receipt) (id tx_hash : Hash)
      → instruction_in lib m out s label receipt ≡ ok (id, tx_hash)
      → First lib.parse_instructions_sent receipt.logs id × (receipt.tx_hash ≡ tx_hash)
  unfolding instruction_in
  instruction_in-First label receipt id tx_hash =
      elim (Option-cases (first_parsed lib.parse_instructions_sent receipt.logs)) [
        | inl e ↦ rw (e, instruction_in) (λ h. absurd (cc h))
        | inr (a, e) ↦
            rw (e, instruction_in)
              (λ h.
                let same = ok_injective (a, receipt.tx_hash) (id, tx_hash) h in
                (
                  first_parsed-First lib.parse_instructions_sent receipt.logs id
                      (e ∙ ap (λ (p : Hash × Hash). some p.0) same),
                  ap (λ (p : Hash × Hash). p.1) same,
                ))
      ]

  bind_sender_world : (contract : Address) (w : World) → (bind_sender lib m out s contract w).1 ≡ w
  unfolding bind_sender andthen wrap
  bind_sender_world contract w = elim (Result-cases (m.bind_auction contract)) [
    | inl (a, e) ↦ rw (e, bind_sender, andthen, wrap) refl
    | inr (t, e) ↦ rw (e, bind_sender, andthen, wrap) refl
  ]

  pub after_bind :
      {B : Type 0} (contract : Address) (k : Act B) (w : World) (b : B)
      → (andthen (bind_sender lib m out s contract) (λ u. k) w).0 ≡ ok b
      → andthen (bind_sender lib m out s contract) (λ u. k) w ≡ k w
  after_bind contract k w b h =
      let (u, bound, went_on, rest) =
        andthen_ok (bind_sender lib m out s contract) (λ u. k) w b h in
      went_on ∙ ap k (bind_sender_world contract w)

  pub after_submit :
      {B : Type 0} (text : String) (value gas : ℕ) (tx : MarketTx) (f : Hash → Act B) (w : World)
      (b : B)
      → (andthen (submitted lib m out s text value gas tx) f w).0 ≡ ok b
      → (hash : Hash) × (out.answer w.journal (submit s.prv value gas tx) ≡ ok hash)
        × (andthen (submitted lib m out s text value gas tx) f w
            ≡ f hash (perform out (submit s.prv value gas tx) w).1)
  unfolding submitted andthen wrap perform
  after_submit text value gas tx f w b =
      elim (Result-cases (out.answer w.journal (submit s.prv value gas tx))) [
        | inr (t, e) ↦ rw (andthen, submitted, wrap, perform, e) (λ h. absurd (cc h))
        | inl (hash, e) ↦ rw (andthen, submitted, wrap, perform, e) (λ h. (hash, refl, refl))
      ]

  pub mined_ok_returns :
      (text failed : String) (tx : Hash) (w : World) (receipt : Receipt)
      → (mined_ok lib m out s text failed tx w).0 ≡ ok receipt
      → (out.answer w.journal (wait_mined tx) ≡ ok receipt) × (receipt.status ≡ 1)
  unfolding mined_ok andthen wrap perform
  mined_ok_returns text failed tx w receipt =
      elim (Result-cases (out.answer w.journal (wait_mined tx))) [
        | inr (t, e) ↦ rw (e, mined_ok, andthen, wrap) (λ h. absurd (cc h))
        | inl (r, e) ↦ elim (Bool-cases (r.status == 1)) [
          | inl fine ↦ rw (e, mined_ok, andthen, wrap, fine) (λ h. (h, status_of r receipt fine h))
          | inr bad ↦ rw (e, mined_ok, andthen, wrap, bad) (λ h. absurd (cc h))
        ]
      ]

  pub mined_ok_journal :
      (text failed : String) (tx : Hash) (w : World)
      → (mined_ok lib m out s text failed tx w).1.journal ≡ w.journal ++ wait_mined tx ∷ []
  unfolding mined_ok andthen wrap perform
  mined_ok_journal text failed tx w = elim (Result-cases (out.answer w.journal (wait_mined tx))) [
    | inr (t, e) ↦ rw (e, mined_ok, andthen, wrap) refl
    | inl (r, e) ↦ elim (Bool-cases (r.status == 1)) [
      | inl fine ↦ rw (e, mined_ok, andthen, wrap, fine) refl
      | inr bad ↦ rw (e, mined_ok, andthen, wrap, bad) refl
    ]
  ]

  mined_instruction :
      (hash : Hash) (label : String) (w : World) (id tx_hash : Hash)
      → (instruction_from_tx lib m out s hash label w).0 ≡ ok (id, tx_hash)
      → (receipt : Receipt) × (out.answer w.journal (wait_mined hash) ≡ ok receipt)
        × (receipt.status ≡ 1)
        × First lib.parse_instructions_sent receipt.logs id
        × (receipt.tx_hash ≡ tx_hash)
        × ((instruction_from_tx lib m out s hash label w).1.journal
            ≡ w.journal ++ wait_mined hash ∷ [])
  unfolding instruction_from_tx
  mined_instruction hash label w id tx_hash h =
      let (receipt, mined, went_on, read) = andthen_ok _ _ w (id, tx_hash) h in
      let (answered, fine) = mined_ok_returns _ _ hash w receipt mined in
      let (first, same) = instruction_in-First label receipt id tx_hash read in
      (
        receipt,
        answered,
        fine,
        first,
        same,
        ap (λ (r : Result (Hash × Hash) × World). r.1.journal) went_on
            ∙ mined_ok_journal _ _ hash w,
      )

  -- The transaction was sent with the instruction fee and signed by the support key, it was mined
  -- with success, the id is that of the first log of the receipt that is a TeeInstructionsSent event,
  -- and nothing else was asked.
  abbrev pub Instructed : MarketTx → World → Hash → Hash → World → Type 0
  Instructed tx w id tx_hash w' =
      let sent = w.journal ++ submit s.prv instruction_fee_wei 0 tx ∷ [] in
      (hash : Hash) × (receipt : Receipt) × (out.answer w.journal
          (submit s.prv instruction_fee_wei 0 tx)
        ≡ ok hash)
      × (out.answer sent (wait_mined hash) ≡ ok receipt)
      × (receipt.status ≡ 1)
      × First lib.parse_instructions_sent receipt.logs id
      × (receipt.tx_hash ≡ tx_hash)
      × (w'.journal ≡ sent ++ wait_mined hash ∷ [])

  abbrev asked : Address → String → MarketTx → String → Act (Hash × Hash)
  asked contract text tx label = andthen (bind_sender lib m out s contract) (λ u.
      andthen (submitted lib m out s text instruction_fee_wei 0 tx)
        (λ hash. instruction_from_tx lib m out s hash label))

  asked-Instructed :
      (contract : Address) (text : String) (tx : MarketTx) (label : String) (w : World)
      (id tx_hash : Hash)
      → (asked contract text tx label w).0 ≡ ok (id, tx_hash)
      → Instructed tx w id tx_hash (asked contract text tx label w).1
  unfolding perform
  asked-Instructed contract text tx label w id tx_hash h =
      let bound = after_bind contract _ w (id, tx_hash) h in
      let h1 = sym (ap (λ (r : Result (Hash × Hash) × World). r.0) bound) ∙ h in
      let (hash, answered, went_on) = after_submit text instruction_fee_wei 0 tx _ w _ h1 in
      let h2 = sym (ap (λ (r : Result (Hash × Hash) × World). r.0) went_on) ∙ h1 in
      let (receipt, mined, fine, first, same, journal) =
        mined_instruction hash label _ id tx_hash h2 in
      (
        hash,
        receipt,
        answered,
        mined,
        fine,
        first,
        same,
        ap (λ (r : Result (Hash × Hash) × World). r.1.journal) (bound ∙ went_on) ∙ journal,
      )

  unfoldable pub requested : Address → Request → Act (Hash × Hash)
  requested contract (bid auction_id ciphertext) =
      place_bid_of lib m out s contract auction_id ciphertext
  requested contract (close auction_id) = close_auction_of lib m out s contract auction_id

  -- When `PlaceBid` or `CloseAuction` returns an instruction id and a hash: its transaction was sent
  -- with the instruction fee and signed by the support key, it was mined with status 1, the id is
  -- that of the first log of the receipt that is a TeeInstructionsSent event, the hash is that of the
  -- receipt, and these are the only two calls.
  pub requested-Instructed :
      (contract : Address) (r : Request) (w : World) (id tx_hash : Hash)
      → (requested contract r w).0 ≡ ok (id, tx_hash)
      → Instructed (tx_of contract r) w id tx_hash (requested contract r w).1
  unfolding requested place_bid_of close_auction_of
  requested-Instructed contract (bid auction_id ciphertext) w id tx_hash =
      asked-Instructed contract _ _ "placeBid" w id tx_hash
  requested-Instructed contract (close auction_id) w id tx_hash =
      asked-Instructed contract _ _ "closeAuction" w id tx_hash
