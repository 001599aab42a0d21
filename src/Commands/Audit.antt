-- ===== src/Commands/Audit.antt =====
-- The replay of AddTeeVersion by audit-deploy (tools/cmd/audit-deploy/main.go), and its reading of
-- 32 bytes as a text.
use sealed_auction_fce.Prelude.{
  ℕ, ◌≡◌, ◌≤◌, ◌-◌, refl, ap, false, inl, inr, Bool-cases, [], ◌∷◌, ◌++◌, String, ok, err, length,
  length-append, ltb, sprintf, ◌==◌, ◌&&◌, if◌then◌else◌, arith,
}
use sealed_auction_fce.Extension.Types.{Address, Hash, Bytes}
use sealed_auction_fce.Revert.Selector.{extract_revert_data, explain, audit_wording, audit_sources}
use sealed_auction_fce.Chain.{Outside, Act, done, on_error, perform, add_tee_version, call_from}
use sealed_auction_fce.Registration.{Library}
use sealed_auction_fce.Setup.Version.{zeros, string_to_bytes32}

-- The loop of `bytes32ToString`: the zero bytes at the end are dropped.
unfoldable pub cut_zeros : Bytes → Bytes
cut_zeros [] = []
cut_zeros (b ∷ s) = let rest = cut_zeros s in if b == 0 && 0 == length rest then [] else b ∷ rest

-- `bytes32ToString`, on the bytes of the string; `trim_space` is strings.TrimSpace.
unfoldable pub bytes32_to_string : (Bytes → Bytes) → Bytes → Bytes
bytes32_to_string trim_space b = trim_space (cut_zeros b)

module _ (lib : Library) where
  -- The line printed for the error of the eth_call.
  unfoldable pub replay_error : String → String
  replay_error call_error =
      let revert_data =
        extract_revert_data lib.diagnosis.from_hex (lib.diagnosis.payload call_error) in
      if ltb (length revert_data) 4
      then sprintf ("no/short revert data: " ∷ call_error ∷ [])
      else explain lib.reverts (audit_wording lib.diagnosis.quote)
          (audit_sources lib.diagnosis lib.register_abi) revert_data

  -- `replayAddTeeVersion`: the line that it prints.
  unfoldable pub replay_add_tee_version :
      Outside
      → (to from : Address) → (extension_id : ℕ) → (version : Bytes) → (code_hash platform : Hash)
      → Act String
  replay_add_tee_version out to from extension_id version code_hash platform =
      elim lib.diagnosis.extension_manager_abi [
        | err e ↦ done (sprintf ("load ABI: " ∷ e ∷ []))
        | ok errors ↦ elim (string_to_bytes32 version) [
          | err e ↦ done (sprintf ("version: " ∷ e ∷ []))
          | ok version_bytes ↦
              elim (lib.pack_register
                (add_tee_version extension_id version_bytes code_hash (platform ∷ []))) [
                  | err e ↦ done (sprintf ("pack: " ∷ e ∷ []))
                  | ok calldata ↦
                      on_error (perform out (call_from from to calldata))
                        (λ e. done (replay_error e))
                        (λ result.
                          done ("eth_call succeeded — tx-time-only revert (gas/state race?)"))
                ]
        ]
      ]

length-zeros : (n : ℕ) → length (zeros n) ≡ n
length-zeros ℕ.zero = refl
length-zeros (ℕ.suc n) = omega (arith, length-zeros n)

-- The text is empty or its last byte is not zero.
abbrev pub EndsNonzero : Bytes → Type 0
EndsNonzero [] = Unit
EndsNonzero (b ∷ []) = 1 ≤ b
EndsNonzero (b ∷ c ∷ s) = EndsNonzero (c ∷ s)

cut_zeros-zeros : (n : ℕ) → cut_zeros (zeros n) ≡ []
unfolding cut_zeros
cut_zeros-zeros ℕ.zero = refl
cut_zeros-zeros (ℕ.suc n) = rw (cut_zeros, cut_zeros-zeros n) refl

-- A byte before one that is kept is kept.
cut_zeros-kept : (b c : ℕ) (t s : Bytes) → cut_zeros t ≡ c ∷ s → cut_zeros (b ∷ t) ≡ b ∷ c ∷ s
unfolding cut_zeros
cut_zeros-kept b c t s e =
    let kept : (0 == length (c ∷ s)) ≡ false = ground (arith) in
    elim (Bool-cases (b == 0)) [
      | inl z ↦ rw (cut_zeros, e, kept, z) refl
      | inr z ↦ rw (cut_zeros, e, kept, z) refl
    ]

cut_zeros-append : (s : Bytes) (n : ℕ) → EndsNonzero s → cut_zeros (s ++ zeros n) ≡ s
unfolding cut_zeros
cut_zeros-append [] n h = cut_zeros-zeros n
cut_zeros-append (b ∷ []) n h =
    let nonzero : (b == 0) ≡ false = ground (arith, h) in
    rw (cut_zeros, cut_zeros-zeros n, nonzero) refl
cut_zeros-append (b ∷ c ∷ s) n h =
    cut_zeros-kept b c ((c ∷ s) ++ zeros n) s (cut_zeros-append (c ∷ s) n h)

-- A version of at most 32 bytes whose last byte is not zero is packed into exactly 32 bytes, which
-- audit-deploy reads back as the version, less the white space around it.
pub bytes32_to_string-string_to_bytes32 :
    (trim_space : Bytes → Bytes) (s : Bytes)
    → length s ≤ 32
    → EndsNonzero s
    → (packed : Bytes) × (string_to_bytes32 s ≡ ok packed)
      × (length packed ≡ 32)
      × (bytes32_to_string trim_space packed ≡ trim_space s)
unfolding string_to_bytes32 bytes32_to_string
bytes32_to_string-string_to_bytes32 trim_space s short nonzero = (
  s ++ zeros (32 - length s),
  ground (arith),
  omega (arith, length-append s (zeros (32 - length s)), length-zeros (32 - length s)),
  ap trim_space (cut_zeros-append s (32 - length s) nonzero),
)
