-- ===== src/Commands/Govern/Chosen.antt =====
-- The defaults of set-governance (tools/cmd/set-governance/main.go).
use sealed_auction_fce.Prelude.{
  ok_injective, ℕ, ◌≡◌, refl, ap, ◌∙◌, sym, List, [], ◌∷◌, String, Result, ok, err,
}
use sealed_auction_fce.Extension.Types.{Address}
use sealed_auction_fce.Chain.{Call, Tx, Outside, World}
use sealed_auction_fce.Chain.Journal.{
  Added, Only, Added-none, Added-weaken, andthen-Only, andthen-Added, perform-Only,
}
use sealed_auction_fce.Registration.{Library, Support, TeeInfo, tee_info}
use sealed_auction_fce.Setup.{set_tee_governance}
use sealed_auction_fce.Setup.Govern.{Governs, set_tee_governance-Governs}
use sealed_auction_fce.Checks.{trim_space, trim_left, trim_right}
use sealed_auction_fce.Addresses.{SupportLibrary}
use sealed_auction_fce.Commands.Verify.{split_comma}
use sealed_auction_fce.Commands.Govern.{
  signers_in, parse_signers, parse_threshold, governance_key, default_signer, set_governance_of,
}

module _ (l : SupportLibrary) (parse_uint : String → Result ℕ) where
  unset_signers : (fallback : Address) → parse_signers l parse_uint "" fallback ≡ fallback ∷ []
  unfolding parse_signers split_comma signers_in trim_space trim_left trim_right
  unset_signers fallback = refl

  unset_threshold : (e : String) → parse_uint "" ≡ err e → parse_threshold l parse_uint "" ≡ 1
  unfolding parse_threshold trim_space trim_left trim_right
  unset_threshold e h = rw (parse_threshold, h) refl

  module _ (lib : Library) (out : Outside) (s : Support) (url : String) where
    -- A transaction, signed by the key, makes the default signer the only one, with threshold 1, for the extension of the
    -- machine that the proxy named.
    abbrev pub GovernsAlone : World → ℕ → Call → Type 0
    GovernsAlone w key (Call.send signer value tx) =
        (signer ≡ key)
        × (info : TeeInfo) × ((tee_info lib out url w).0 ≡ ok info)
        × (tx
            ≡ Tx.set_governance info.machine_data.extension_id
                (default_signer l parse_uint (lib.key_address key) ∷ []) 1)
    GovernsAlone w key (Call.submit k v g tx) = ⊥
    GovernsAlone w key (Call.deploy_auction k e m) = ⊥
    GovernsAlone w key _ = Unit

    tee_info-GovernsAlone : (w : World) (key : ℕ) → Only (GovernsAlone w key) (tee_info lib out url)
    unfolding tee_info
    tee_info-GovernsAlone w key =
        andthen-Only _ _ _ (perform-Only _ out _ tt) (λ reply. Added-none (GovernsAlone w key))

    alone :
        (w : World) (key other : ℕ) (info : TeeInfo) (signers : List Address) (threshold : ℕ)
        → other ≡ key
        → (tee_info lib out url w).0 ≡ ok info
        → signers ≡ default_signer l parse_uint (lib.key_address key) ∷ []
        → threshold ≡ 1
        → (c : Call) → Governs other info.machine_data.extension_id signers threshold c
        → GovernsAlone w key c
    alone w key other info signers threshold same_key fetched one first (Call.send signer value tx)
          (by, same, low, high) =
        (
          by ∙ same_key,
          info,
          fetched,
          same
              ∙ ap (λ x. Tx.set_governance info.machine_data.extension_id x threshold) one
              ∙ ap
                  (λ n.
                    Tx.set_governance info.machine_data.extension_id
                      (default_signer l parse_uint (lib.key_address key) ∷ []) n)
                  first,
        )
    alone w key other info signers threshold same_key fetched one first (Call.submit k v g tx) p = p
    alone w key other info signers threshold same_key fetched one first (Call.deploy_auction k e m)
          p =
        p
    alone w key other info signers threshold same_key fetched one first _ p = tt

    -- With GOVERNANCE_SIGNERS and GOVERNANCE_THRESHOLD unset (an empty text is no number),
    -- set-governance sends no transaction but the one that makes the default signer the only one, with
    -- threshold 1, for the extension of the machine that the proxy named.
    pub set_governance_of-GovernsAlone :
        (key : ℕ) (e : String) (w : World)
        → l.getenv "GOVERNANCE_SIGNERS" ≡ ""
        → l.getenv "GOVERNANCE_THRESHOLD" ≡ ""
        → parse_uint "" ≡ err e
        → governance_key l parse_uint s ≡ ok key
        → Added (GovernsAlone w key) w (set_governance_of l parse_uint lib out s url w).1
    unfolding set_governance_of
    set_governance_of-GovernsAlone key e w no_signers no_threshold unread signs =
        let P = GovernsAlone w key in
        andthen-Added P _ _ w (Added-none P w) (λ other known.
          andthen-Added P _ _ w (tee_info-GovernsAlone w key w) (λ info fetched.
            let same : other ≡ key = ok_injective other key (sym known ∙ signs) in
            let v = (tee_info lib out url w).1 in
            let signers =
              parse_signers l parse_uint (l.getenv "GOVERNANCE_SIGNERS")
                (default_signer l parse_uint (lib.key_address other)) in
            let one =
              ap
                (λ t.
                  parse_signers l parse_uint t
                    (default_signer l parse_uint (lib.key_address other)))
                no_signers
              ∙ unset_signers (default_signer l parse_uint (lib.key_address other))
              ∙ ap (λ k. default_signer l parse_uint (lib.key_address k) ∷ []) same in
            let first = ap (parse_threshold l parse_uint) no_threshold ∙ unset_threshold e unread in
            let threshold = parse_threshold l parse_uint (l.getenv "GOVERNANCE_THRESHOLD") in
            let id = info.machine_data.extension_id in
            Added-weaken _ P v (set_tee_governance lib out s other id signers threshold v).1
              (alone w key other info signers threshold same fetched one first)
              (set_tee_governance-Governs lib out s other id signers threshold v)))
