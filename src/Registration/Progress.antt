-- ===== src/Registration/Progress.antt =====
-- What the policy check refuses (tools/pkg/fccutils/policy_consistency.go).

use sealed_auction_fce.Prelude.{
  ℕ, ◌≡◌, ◌≢◌, ◌+◌, ◌%◌, ◌^◌, false, inl, inr, none, some, String, ok, err, Bool-cases, arith,
}
use sealed_auction_fce.Chain.{Outside, World, perform, current_reward_epoch}
use sealed_auction_fce.Chain.Returned.{on_error_err}
use sealed_auction_fce.Registration.{Library, TeeInfo, tee_info}
use sealed_auction_fce.Registration.Policy.{
  policy_in_sync, policy_verdict, compare_policies, check_ftdc_proxy_policy_consistency,
}

module _ (lib : Library) (out : Outside) where
  -- What the check saw when it refused: an epoch on chain and a policy of the proxy that is neither
  -- that of the epoch nor of the next one.
  abbrev pub OutOfSync : String → World → Type 0
  OutOfSync url w =
      (n : ℕ) × (info : TeeInfo) × (out.answer w.journal current_reward_epoch ≡ ok (some n))
      × ((tee_info lib out url (perform out current_reward_epoch w).1).0 ≡ ok info)
      × (info.last_signing_policy_id ≢ n % 2 ^ 64)
      × (info.last_signing_policy_id ≢ (n % 2 ^ 64 + 1) % 2 ^ 64)

  out_of_sync : (m k : ℕ) → policy_in_sync m k ≡ false → (k ≢ m) × (k ≢ (m + 1) % 2 ^ 64)
  unfolding policy_in_sync
  out_of_sync m k h = ((λ e. ground (arith, h, e)), (λ e. ground (arith, h, e)))

  verdict_err :
      (n : ℕ) (info : TeeInfo) (w : World) (t : String)
      → (policy_verdict n info w).0 ≡ err t
      → policy_in_sync (n % 2 ^ 64) info.last_signing_policy_id ≡ false
  unfolding policy_verdict
  verdict_err n info w t =
      elim (Bool-cases (policy_in_sync (n % 2 ^ 64) info.last_signing_policy_id)) [
        | inl synced ↦ rw synced (λ h. absurd (cc h))
        | inr apart ↦ λ h. apart
      ]

  -- `CheckFTDCProxyPolicyConsistency` returns an error only when both lookups succeeded and the
  -- numbers are out of sync.
  pub policy_check_refuses :
      (url : String) (w : World) (t : String)
      → (check_ftdc_proxy_policy_consistency lib out url w).0 ≡ err t
      → OutOfSync url w
  unfolding check_ftdc_proxy_policy_consistency compare_policies perform
  policy_check_refuses url w t h =
      elim (on_error_err (perform out current_reward_epoch) _ _ w t h) [
        | inl (e, failed, clash) ↦ absurd (cc clash)
        | inr (none, asked, clash) ↦ absurd (cc clash)
        | inr (some n, asked, h') ↦ elim (on_error_err (tee_info lib out url) _ _ _ t h') [
          | inl (e, failed, clash) ↦ absurd (cc clash)
          | inr (info, fetched, verdict) ↦
              let (behind, ahead) =
                out_of_sync (n % 2 ^ 64) info.last_signing_policy_id
                  (verdict_err n info _ t verdict) in
              (n, info, asked, fetched, behind, ahead)
        ]
      ]
