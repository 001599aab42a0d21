-- ===== src/Checks/Unique.antt =====
-- What the check R7 warns of (tools/pkg/validate/checks.go).
use sealed_auction_fce.Prelude.{
  ℕ, zero, suc, ◌+◌, ◌<◌, ◌≤◌, ◌≡◌, ◌↔◌, refl, ap, sym, ◌∙◌, Bool, true, false, inl, inr, some,
  List, [], ◌∷◌, String, ok, ok_injective, Bool-cases, Result-cases, length, ltb, ◌==◌, ==_iff,
  arith,
}
use sealed_auction_fce.Extension.Types.{Address}
use sealed_auction_fce.Report.{CheckResult, Status}
use sealed_auction_fce.Checks.{Env, Registry, matches_hex}
use sealed_auction_fce.Checks.Register.{
  counter_of, sender_matches, matching_ids, int64_rounds, check_r7,
}

abbrev pub has_warning : List CheckResult → Bool
has_warning [] = false
has_warning (res ∷ results) = elim res.status [ Status.warn ↦ true | _ ↦ has_warning results ]

module _ (registry : Registry) (expected : Address) where
  -- The chain answers that the sender of the extension is the expected one.
  abbrev pub Owned : ℕ → Type 0
  Owned id = registry.instructions_sender id ≡ ok expected

  matches-Owned : (id : ℕ) → (sender_matches registry expected id ≡ true) ↔ Owned id
  unfolding sender_matches
  matches-Owned id = elim (Result-cases (registry.instructions_sender id)) [
    | inl (sender, found) ↦
        rw (found, sender_matches)
          (
            λ h. ap ok ((==_iff sender expected).0 h),
            λ h. (==_iff sender expected).1 (ok_injective sender expected h),
          )
    | inr (t, failed) ↦ rw (failed, sender_matches) (λ h. absurd (cc h), λ h. absurd (cc h))
  ]

  -- Of the extensions from `i` on, `left` in number, one, or two, have the expected sender.
  abbrev One : (left i : ℕ) → Type 0
  One left i = (j : ℕ) × (i ≤ j) × (j < i + left) × Owned j

  abbrev pub Two : (left i : ℕ) → Type 0
  Two left i = (j k : ℕ) × (i ≤ j) × (j < k) × (k < i + left) × Owned j × Owned k

  matching_ids-One : (left i : ℕ) → 1 ≤ length (matching_ids registry expected left i) → One left i
  unfolding matching_ids
  matching_ids-One zero i = λ h. absurd (omega (arith, h))
  matching_ids-One (suc left) i = elim (Bool-cases (sender_matches registry expected i)) [
    | inl found ↦ λ h. (i, omega arith, omega arith, (matches-Owned i).0 found)
    | inr other ↦
        rw (other, matching_ids)
          (λ h.
            let (j, low, high, owned) = matching_ids-One left (suc i) h in
            (j, omega (arith, low), omega (arith, high), owned))
  ]

  One-matching_ids : (left i : ℕ) → One left i → 1 ≤ length (matching_ids registry expected left i)
  unfolding matching_ids
  One-matching_ids zero i (j, low, high, owned) = absurd (omega (arith, low, high))
  One-matching_ids (suc left) i (j, low, high, owned) =
      elim (Bool-cases (sender_matches registry expected i)) [
        | inl found ↦ rw (found, matching_ids) (omega arith)
        | inr other ↦ elim (Bool-cases (j == i)) [
          | inl here ↦ absurd (cc (other, (matches-Owned j).1 owned, (==_iff j i).0 here))
          | inr later ↦
              rw (other, matching_ids)
                (One-matching_ids left (suc i)
                  (j, ground (arith, low, later), omega (arith, high), owned))
        ]
      ]

  matching_ids-Two : (left i : ℕ) → 2 ≤ length (matching_ids registry expected left i) → Two left i
  unfolding matching_ids
  matching_ids-Two zero i = λ h. absurd (omega (arith, h))
  matching_ids-Two (suc left) i = elim (Bool-cases (sender_matches registry expected i)) [
    | inl found ↦
        rw (found, matching_ids)
          (λ h.
            let (k, low, high, owned) = matching_ids-One left (suc i) (omega (arith, h)) in
            (
              i,
              k,
              omega arith,
              omega (arith, low),
              omega (arith, high),
              (matches-Owned i).0 found,
              owned,
            ))
    | inr other ↦
        rw (other, matching_ids)
          (λ h.
            let (j, k, low, apart, high, owned, owned') = matching_ids-Two left (suc i) h in
            (j, k, omega (arith, low), apart, omega (arith, high), owned, owned'))
  ]

  Two-matching_ids : (left i : ℕ) → Two left i → 2 ≤ length (matching_ids registry expected left i)
  unfolding matching_ids
  Two-matching_ids zero i (j, k, low, apart, high, owned, owned') =
      absurd (omega (arith, low, apart, high))
  Two-matching_ids (suc left) i (j, k, low, apart, high, owned, owned') =
      elim (Bool-cases (j == i)) [
        | inl here ↦
            let found : sender_matches registry expected i ≡ true =
              ap (sender_matches registry expected) (sym ((==_iff j i).0 here))
              ∙ (matches-Owned j).1 owned in
            let rest =
              One-matching_ids left (suc i)
                (k, ground (arith, low, apart), omega (arith, high), owned') in
            rw (found, matching_ids) (omega (arith, rest))
        | inr later ↦
            let rest =
              Two-matching_ids left (suc i)
                (j, k, ground (arith, low, later), apart, omega (arith, high), owned, owned') in
            elim (Bool-cases (sender_matches registry expected i)) [
              | inl found ↦ rw (found, matching_ids) (omega (arith, rest))
              | inr other ↦ rw (other, matching_ids) rest
            ]
      ]

module _ (env : Env) (registry : Registry) (sender : String) where
  -- The extensions that R7 visits.
  abbrev pub visited : ℕ
  visited = int64_rounds (counter_of (some registry))

  no_visit : counter_of (some registry) == 0 ≡ true → visited ≡ 0
  no_visit e =
      let none_registered : counter_of (some registry) ≡ 0 = (==_iff _ 0).0 e in
      ap int64_rounds none_registered

  -- R7 warns exactly when the text of the sender is an address, and the chain answers for two
  -- different extensions below the counter, taken as an int64, that this address is their sender.
  pub check_r7_warns :
      (has_warning (check_r7 env (some registry) sender) ≡ true)
      ↔ (matches_hex 40 sender ≡ true) × Two registry (env.hex_to_address sender) visited 0
  unfolding check_r7
  check_r7_warns =
      let expected = env.hex_to_address sender in
      let ids = matching_ids registry expected visited 0 in
      elim (Bool-cases (counter_of (some registry) == 0)) [
        | inl empty ↦ rw (empty) (
          λ h. absurd (cc h),
          λ (address, (j, k, low, apart, high, owned, owned')).
              absurd (omega (arith, apart, high, no_visit empty)),
        )
        | inr registered ↦ elim (Bool-cases (matches_hex 40 sender)) [
          | inr no_address ↦
              rw (registered, no_address)
                (λ h. absurd (cc h), λ (address, two). absurd (cc address))
          | inl address ↦ elim (Bool-cases (ltb 1 (length ids))) [
            | inl many ↦
                rw (registered, address, many)
                  (
                    λ h.
                        (refl, matching_ids-Two registry expected visited 0 (ground (arith, many))),
                    λ h. refl,
                  )
            | inr few ↦
                rw (registered, address, few)
                  (
                    λ h. absurd (cc h),
                    λ (same, two).
                        let found = Two-matching_ids registry expected visited 0 two in
                        absurd (ground (arith, few, found)),
                  )
          ]
        ]
      ]
