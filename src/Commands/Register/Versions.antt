-- ===== src/Commands/Register/Versions.antt =====
-- The versions that allow-tee-version adds (tools/cmd/allow-tee-version/main.go).
use sealed_auction_fce.Prelude.{
  ℕ, ◌≡◌, refl, Bool-cases, false, inl, inr, List, [], ◌∷◌, String, ok,
}
use sealed_auction_fce.Extension.Types.{Bytes}
use sealed_auction_fce.Chain.{Call, Tx, Outside, World, perform, is_version_supported}
use sealed_auction_fce.Chain.Journal.{
  Added, Only, Added-none, andthen-Only, andthen-Added, on_error-Only, if-Only, wrap-Only,
  perform-Only, check_tx-Only,
}
use sealed_auction_fce.Registration.{Library, Support, TeeInfo, tee_info}
use sealed_auction_fce.Setup.Version.{add_version, string_to_bytes32}
use sealed_auction_fce.Addresses.{SupportLibrary}
use sealed_auction_fce.Commands.Register.{ClaimLibrary, add_new_version, allow_tee_version}

module _ (lib : Library) (l : SupportLibrary) (c : ClaimLibrary) (out : Outside) (s : Support)
    (url : String) (version : Bytes) where
  -- The proxy answered with this machine, whose code hash and platform the chain answered not to
  -- support for its extension.
  abbrev pub Unsupported : World → TeeInfo → Type 0
  Unsupported w info =
      ((tee_info lib out url w).0 ≡ ok info)
      × (h : List Call) × (out.answer h (
            is_version_supported info.machine_data.extension_id info.machine_data.code_hash
              info.machine_data.platform)
          ≡ ok false)

  -- The only transaction adds the version, with the extension, the code hash and the platform of the
  -- machine that the proxy named, which the chain answered not to support.
  abbrev pub AddsVersion : World → Call → Type 0
  AddsVersion w (Call.send signer value (Tx.add_tee_version id packed code_hash platforms)) =
      (value ≡ 0)
      × (string_to_bytes32 version ≡ ok packed)
      × (info : TeeInfo) × Unsupported w info
      × (id ≡ info.machine_data.extension_id)
      × (code_hash ≡ info.machine_data.code_hash)
      × (platforms ≡ info.machine_data.platform ∷ [])
  AddsVersion w (Call.send signer value tx) = ⊥
  AddsVersion w (Call.submit k v g tx) = ⊥
  AddsVersion w (Call.deploy_auction k e m) = ⊥
  AddsVersion w _ = Unit

  module _ (start : World) where
    abbrev P : Call → Type 0
    P = AddsVersion start

    nothing : (w : World) → Added P w w
    nothing w = Added-none P w

    add_version-Adds :
        (key : ℕ) (info : TeeInfo)
        → Unsupported start info
        → Only P (
            add_version lib out s key info.machine_data.extension_id info.machine_data.code_hash
              info.machine_data.platform version)
    unfolding add_version
    add_version-Adds key info new = andthen-Only P _ _ nothing (λ u w.
        andthen-Added P _ _ w (nothing w) (λ packed short.
          andthen-Only P _ _
            (wrap-Only P _ _ (perform-Only P out _ (refl, short, info, new, refl, refl, refl)))
            (λ hash.
              andthen-Only P _ _ (check_tx-Only P out hash tt tt (λ from content. tt))
                (λ receipt. nothing))
            w))

    add_new_version-Adds :
        (key : ℕ) (info : TeeInfo)
        → Unsupported start info
        → Only P (add_new_version lib l c out s key info version)
    unfolding add_new_version
    add_new_version-Adds key info new =
        on_error-Only P _ _ _ (add_version-Adds key info new)
          (λ e. if-Only P (c.has_text e "VersionAlreadyExists") _ _ nothing nothing) (λ u. nothing)

    tee_info-Adds : Only P (tee_info lib out url)
    unfolding tee_info
    tee_info-Adds = andthen-Only P _ _ (perform-Only P out _ tt) (λ reply. nothing)

    -- Whatever is answered, allow-tee-version sends no transaction but the version with the
    -- extension, the code hash and the platform of the machine that the proxy named, and none unless
    -- the chain answered that it does not support that code hash and platform yet.
    pub allow_tee_version-AddsVersion :
        Added P start (allow_tee_version lib l c out s url version start).1
    unfolding allow_tee_version perform
    allow_tee_version-AddsVersion =
        let w = (tee_info lib out url start).1 in
        andthen-Added P _ _ start (tee_info-Adds start) (λ info fetched.
          andthen-Only P _ _ nothing
            (λ key. andthen-Only P _ _ nothing (λ ids v.
              andthen-Added P
                (perform out (
                  is_version_supported info.machine_data.extension_id info.machine_data.code_hash
                    info.machine_data.platform))
                _ v (perform-Only P out _ tt v)
                (λ supported answered. elim (Bool-cases supported) [
                  | inl known ↦ rw known (
                      nothing
                        (perform out
                          (is_version_supported info.machine_data.extension_id
                            info.machine_data.code_hash info.machine_data.platform)
                          v).1)
                  | inr new ↦
                      rw new
                        (add_new_version-Adds _ info (fetched, v.journal, rw (← new) answered) _)
                ])))
            w)
