-- ===== src/Revert/Raw.antt =====
-- A raw revert on its way from the simulation to the matcher (tools/pkg/fccutils/revert.go).
use Prim.Native.String.{◌++◌ as append}
use text.Mathlib.TextLemmas.{nil-append, cons-append}
use mathlib.Core.Path.{subst, ap₂}
use sealed_auction_fce.Prelude.{
  ◌↔◌, ◌⊎◌, inl, inr, sym, Bool-cases, true, [], ◌∷◌, ◌++◌, All, ==_iff, ◌==◌, arith, ◌≡◌, ◌≤◌,
  refl, ap, ◌∙◌, false, List, String, ok, err, length, ltb,
}
use sealed_auction_fce.Extension.Types.{Bytes}
use sealed_auction_fce.Revert.{
  RevertLibrary, AbiError, first_four, same_bytes, custom_error_text, trim_0x, decode_revert_hex,
  simulated_reason, find_error, match_custom_error,
}

trim_0x_prefix : (s : String) → trim_0x (append "0x" s) ≡ s
unfolding trim_0x
trim_0x_prefix s = ap trim_0x (
    cons-append "0" "x" s
    ∙ ap (λ t. String.◌∷◌ "0" t) (cons-append "x" "" s ∙ ap (λ t. String.◌∷◌ "x" t) (nil-append s)))

module _ (lib : RevertLibrary) (result : Bytes)
    (decodes : lib.decode_hex (lib.encode_hex result) ≡ ok result)
    (enough : ltb (length result) 4 ≡ false) where
  raw_hex :
      (t : String)
      → trim_0x (lib.encode_hex result) ≡ lib.encode_hex result
      → lib.unpack_revert result ≡ err t
      → decode_revert_hex lib (lib.encode_hex result) ≡ append "0x" (lib.encode_hex result)
  unfolding decode_revert_hex
  raw_hex t bare raw = rw (decode_revert_hex, bare, decodes, enough, raw) (ap (append "0x") bare)

  matched :
      (errors : List AbiError) (text : String)
      → trim_0x text ≡ lib.encode_hex result
      → match_custom_error lib errors text ≡ find_error lib errors result
  unfolding match_custom_error
  matched errors text bare = rw (match_custom_error, bare, decodes, enough) refl

simulated_raw :
    (lib : RevertLibrary) (result : Bytes)
    → ltb (length result) 4 ≡ false
    → simulated_reason lib (ok result) ≡ decode_revert_hex lib (lib.encode_hex result)
unfolding simulated_reason
simulated_raw lib result enough = rw (simulated_reason, enough) refl

same_bytes_iff : (xs ys : Bytes) → (same_bytes xs ys ≡ true) ↔ (xs ≡ ys)
same_bytes_iff [] [] = (λ h. refl, λ h. refl)
same_bytes_iff [] (y ∷ ys) = (λ h. absurd (cc h), λ h. absurd (cc h))
same_bytes_iff (x ∷ xs) [] = (λ h. absurd (cc h), λ h. absurd (cc h))
same_bytes_iff (x ∷ xs) (y ∷ ys) =
    let rest = same_bytes_iff xs ys in
    elim (Bool-cases (x == y)) [
      | inl here ↦
          rw here (λ h. ap₂ (λ a t. a ∷ t) ((==_iff x y).0 here) (rest.0 h), λ h. rest.1 (cc h))
      | inr apart ↦ rw apart (λ h. absurd (cc h), λ h. absurd (cc (apart, (==_iff x y).1 (cc h))))
    ]

-- The selector of the declared error is the first four bytes.
abbrev Selects : Bytes → AbiError → Type 0
Selects bytes e = first_four e.selector ≡ first_four bytes

-- The text is the name of the first declared error whose selector the bytes have, with its values
-- when it has any, or it is empty where no declared error has that selector.
abbrev pub Declares : RevertLibrary → List AbiError → Bytes → String → Type 0
Declares lib errors bytes text =
    ((before : List AbiError) × (e : AbiError) × (after : List AbiError) × (errors
        ≡ before ++ e ∷ after)
      × All (λ d. ¬ Selects bytes d) before
      × Selects bytes e
      × (text ≡ custom_error_text lib e bytes))
    ⊎ (All (λ d. ¬ Selects bytes d) errors × (text ≡ ""))

find_error-Declares :
    (lib : RevertLibrary) (errors : List AbiError) (bytes : Bytes)
    → Declares lib errors bytes (find_error lib errors bytes)
unfolding find_error
find_error-Declares lib [] bytes = inr (tt, refl)
find_error-Declares lib (e ∷ errors) bytes =
    let same = same_bytes_iff (first_four e.selector) (first_four bytes) in
    elim (Bool-cases (same_bytes (first_four e.selector) (first_four bytes))) [
      | inl here ↦ inl ([], e, errors, refl, tt, same.0 here, rw (here, find_error) refl)
      | inr other ↦
          let unselected : ¬ Selects bytes e = λ h. cc (other, same.1 h) in
          elim (find_error-Declares lib errors bytes) [
            | inl (before, d, after, split, none_before, selects, text) ↦ inl (
              e ∷ before,
              d,
              after,
              ap (λ t. e ∷ t) split,
              (unselected, none_before),
              selects,
              rw (other, find_error) text,
            )
            | inr (none_selects, empty) ↦
                inr ((unselected, none_selects), rw (other, find_error) empty)
          ]
    ]

-- When the simulated call returns at least four bytes that are no `Error(string)`, and hex decoding
-- undoes hex encoding, which has no "0x" before it, `MatchCustomError` makes, of the text that
-- `SimulateAndDecodeRevert` returns, the text of the first error of the ABI whose selector is the first
-- four of exactly those bytes, or the empty text where the ABI declares none.
pub match_custom_error-simulated_reason :
    (lib : RevertLibrary) (errors : List AbiError) (result : Bytes) (t : String)
    → 4 ≤ length result
    → lib.decode_hex (lib.encode_hex result) ≡ ok result
    → trim_0x (lib.encode_hex result) ≡ lib.encode_hex result
    → lib.unpack_revert result ≡ err t
    → Declares lib errors result (match_custom_error lib errors (simulated_reason lib (ok result)))
match_custom_error-simulated_reason lib errors result t long decodes bare raw =
    let enough : ltb (length result) 4 ≡ false = ground (arith, long) in
    let text = simulated_raw lib result enough ∙ raw_hex lib result decodes enough t bare raw in
    let found =
      matched lib result decodes enough errors (simulated_reason lib (ok result))
        (ap trim_0x text ∙ trim_0x_prefix (lib.encode_hex result)) in
    subst (Declares lib errors result) (sym found) (find_error-Declares lib errors result)
