-- ===== src/Registration/Policy.antt =====
-- The signing policy of the FTDC proxy against the reward epoch on chain
-- (tools/pkg/fccutils/policy_consistency.go).
use sealed_auction_fce.Prelude.{
  ℕ, ◌+◌, ◌-◌, ◌%◌, ◌^◌, Bool, ◌||◌, Option, none, some, [], ◌∷◌, String, ltb, ◌==◌, if◌then◌else◌,
  sprintf, to_string, pos,
}
use sealed_auction_fce.Chain.{Act, Outside, done, stop, on_error, perform, current_reward_epoch}
use sealed_auction_fce.Registration.{Library, TeeInfo, tee_info}

-- `policyInSync`, on uint64.
unfoldable pub policy_in_sync : ℕ → ℕ → Bool
policy_in_sync onchain_epoch proxy_policy_id =
    proxy_policy_id == onchain_epoch || proxy_policy_id == (onchain_epoch + 1) % 2 ^ 64

-- The relation that `outOfSyncError` words; the differences are of uint64, the smaller from the
-- larger.
unfoldable pub relation : ℕ → ℕ → String
relation onchain_epoch proxy_policy_id =
    if ltb proxy_policy_id onchain_epoch
    then sprintf
        ("proxy is " ∷ to_string (pos (onchain_epoch - proxy_policy_id)) ∷ " epoch(s) behind" ∷ [])
    else sprintf
        ("proxy is " ∷ to_string (pos (proxy_policy_id - onchain_epoch)) ∷ " epoch(s) ahead" ∷ [])

unfoldable pub out_of_sync_error : ℕ → ℕ → String
unfolding relation
out_of_sync_error onchain_epoch proxy_policy_id = sprintf (
    "FTDC proxy signing policy out of sync with on-chain reward epoch"
    ∷ ": proxy signing policy "
    ∷ to_string (pos proxy_policy_id)
    ∷ " vs on-chain current reward epoch "
    ∷ to_string (pos onchain_epoch)
    ∷ " ("
    ∷ relation onchain_epoch proxy_policy_id
    ∷ "); data providers will reject the availability check with 404 \"no round\"; "
    ∷ "wait for the proxy to catch up to the current signing policy, or check the proxy's "
    ∷ "initial_signing_policy_offset and C-chain indexer sync"
    ∷ [])

-- The verdict on the two numbers.
unfoldable pub policy_verdict : ℕ → TeeInfo → Act (Unit {0})
policy_verdict onchain info =
    let onchain_epoch = onchain % 2 ^ 64 in
    if policy_in_sync onchain_epoch info.last_signing_policy_id
    then done tt
    else stop (out_of_sync_error onchain_epoch info.last_signing_policy_id)

module _ (lib : Library) (out : Outside) where
  unfoldable pub compare_policies : String → Option ℕ → Act (Unit {0})
  unfolding policy_verdict
  compare_policies ftdc_proxy_url none = done tt
  compare_policies ftdc_proxy_url (some onchain) =
      on_error (tee_info lib out ftdc_proxy_url) (λ e. done tt)
        (λ info. policy_verdict onchain info)

  -- `CheckFTDCProxyPolicyConsistency`: a failed lookup is no error.
  unfoldable pub check_ftdc_proxy_policy_consistency : String → Act (Unit {0})
  unfolding compare_policies
  check_ftdc_proxy_policy_consistency ftdc_proxy_url =
      on_error (perform out current_reward_epoch) (λ e. done tt)
        (λ onchain. compare_policies ftdc_proxy_url onchain)
