-- ===== src/Prelude/Text.antt =====
-- Texts: `fmt.Sprintf`, decimal rendering (`%d`, `big.Int.String`), and a reader of decimals that
-- shows that the rendering loses nothing.
use Prim.Native.Nat.{ℕ, zero, suc, ◌+◌, ◌-◌, ◌*◌, ◌/◌, ◌%◌, ◌<◌, ◌≤◌}
use Prim.Native.Char.{Char, code}
use Prim.Native.String.{String, ◌++◌}
use mathlib.Core.Path.{◌≡◌, refl, sym, ap, ◌∙◌}
use mathlib.Core.Logic.{inl, inr}
use mathlib.Core.Bool.{Bool, true, false}
use mathlib.Core.List.{List, [], ◌∷◌}
use native.Mathlib.Omega.{arith}
use sealed_auction_fce.Prelude.Tests.{◌==◌, if◌then◌else◌, Bool-cases, ==_iff}
use sealed_auction_fce.Prelude.Int.{ℤ, pos, negsuc}

-- `fmt.Sprintf`, its format already split at the verbs.
unfoldable pub sprintf : List String → String
sprintf [] = ""
sprintf (s ∷ ss) = s ++ sprintf ss

abbrev pub is_empty : String → Bool
is_empty String.[] = true
is_empty (String.◌∷◌ c s) = false

-- The character of a decimal digit.
unfoldable pub digit : ℕ → Char
digit zero = "0"
digit (suc zero) = "1"
digit (suc (suc zero)) = "2"
digit (suc (suc (suc zero))) = "3"
digit (suc (suc (suc (suc zero)))) = "4"
digit (suc (suc (suc (suc (suc zero))))) = "5"
digit (suc (suc (suc (suc (suc (suc zero)))))) = "6"
digit (suc (suc (suc (suc (suc (suc (suc zero))))))) = "7"
digit (suc (suc (suc (suc (suc (suc (suc (suc zero)))))))) = "8"
digit (suc (suc (suc (suc (suc (suc (suc (suc (suc n))))))))) = "9"

-- The digits of a number before a text, with fuel: `n + 1` rounds are enough.
unfoldable pub digits_before : ℕ → ℕ → String → String
digits_before zero n rest = rest
digits_before (suc f) n rest =
    let longer = digits_before f (n / 10) (String.◌∷◌ (digit (n % 10)) rest) in
    if n / 10 == 0 then String.◌∷◌ (digit (n % 10)) rest else longer

unfoldable pub decimal : ℕ → String
unfolding digits_before digit
decimal n = digits_before (suc n) n ""

-- `big.Int.String`.
unfoldable pub to_string : ℤ → String
unfolding decimal
to_string (pos n) = decimal n
to_string (negsuc n) = String.◌∷◌ "-" (decimal (suc n))

-- Reads decimal digits.
abbrev read_digits : ℕ → String → ℕ
read_digits acc String.[] = acc
read_digits acc (String.◌∷◌ c s) = read_digits (acc * 10 + (code c - 48)) s

abbrev read : String → ℤ
read String.[] = pos 0
read (String.◌∷◌ c s) =
    if code c == 45 then negsuc (read_digits 0 s - 1) else pos (read_digits (code c - 48) s)

code-digit : (d : ℕ) → d < 10 → code (digit d) ≡ 48 + d
unfolding digit
code-digit zero h = refl
code-digit (suc zero) h = refl
code-digit (suc (suc zero)) h = refl
code-digit (suc (suc (suc zero))) h = refl
code-digit (suc (suc (suc (suc zero)))) h = refl
code-digit (suc (suc (suc (suc (suc zero))))) h = refl
code-digit (suc (suc (suc (suc (suc (suc zero)))))) h = refl
code-digit (suc (suc (suc (suc (suc (suc (suc zero))))))) h = refl
code-digit (suc (suc (suc (suc (suc (suc (suc (suc zero)))))))) h = refl
code-digit (suc (suc (suc (suc (suc (suc (suc (suc (suc zero))))))))) h = refl
code-digit (suc (suc (suc (suc (suc (suc (suc (suc (suc (suc d)))))))))) h = absurd (omega arith)

code-digit-sub : (n : ℕ) → code (digit (n % 10)) - 48 ≡ n % 10
code-digit-sub n = omega (arith, code-digit (n % 10))

step_digits : (n : ℕ) → n / 10 * 10 + (code (digit (n % 10)) - 48) ≡ n
step_digits n = omega (arith, code-digit-sub n)

read_digits-before :
    (f n : ℕ) (rest : String) → n < f → read_digits 0 (digits_before f n rest) ≡ read_digits n rest
unfolding digits_before
read_digits-before zero n rest h = absurd (omega arith)
read_digits-before (suc f) n rest h = elim (Bool-cases (n / 10 == 0)) [
  | inl small ↦
      rw small
        (ap (λ t. read_digits t rest) (omega (arith, step_digits n, (==_iff (n / 10) 0).0 small)))
  | inr more ↦ rw more (
      read_digits-before f (n / 10) (String.◌∷◌ (digit (n % 10)) rest) (ground arith)
      ∙ ap (λ t. read_digits t rest) (step_digits n))
]

abbrev LeadingDigit : String → Type 0
LeadingDigit String.[] = ⊥
LeadingDigit (String.◌∷◌ c s) = 48 ≤ code c

digits_before-LeadingDigit :
    (f n : ℕ) (rest : String) → LeadingDigit rest → LeadingDigit (digits_before f n rest)
unfolding digits_before
digits_before-LeadingDigit zero n rest h = h
digits_before-LeadingDigit (suc f) n rest h =
    let leads : 48 ≤ code (digit (n % 10)) = omega (arith, code-digit (n % 10)) in
    elim (Bool-cases (n / 10 == 0)) [
      | inl small ↦ rw small leads
      | inr more ↦
          rw more (digits_before-LeadingDigit f (n / 10) (String.◌∷◌ (digit (n % 10)) rest) leads)
    ]

decimal-LeadingDigit : (n : ℕ) → LeadingDigit (decimal n)
unfolding decimal
decimal-LeadingDigit n =
    let leads : 48 ≤ code (digit (n % 10)) = omega (arith, code-digit (n % 10)) in
    elim (Bool-cases (n / 10 == 0)) [
      | inl small ↦ rw small leads
      | inr more ↦
          rw more (digits_before-LeadingDigit n (n / 10) (String.◌∷◌ (digit (n % 10)) "") leads)
    ]

read_digits-decimal : (n : ℕ) → read_digits 0 (decimal n) ≡ n
unfolding decimal
read_digits-decimal n = read_digits-before (suc n) n "" (omega arith)

read-LeadingDigit : (s : String) → LeadingDigit s → read s ≡ pos (read_digits 0 s)
read-LeadingDigit String.[] h = absurd h
read-LeadingDigit (String.◌∷◌ c s) h = ground arith

-- Reading the rendering of an integer gives it back.
pub read-to_string : (z : ℤ) → read (to_string z) ≡ z
unfolding to_string
read-to_string (pos n) =
    read-LeadingDigit (decimal n) (decimal-LeadingDigit n) ∙ ap pos (read_digits-decimal n)
read-to_string (negsuc n) = ap negsuc (omega (arith, read_digits-decimal (suc n)))

pub to_string_injective : (a b : ℤ) → to_string a ≡ to_string b → a ≡ b
to_string_injective a b h = sym (read-to_string a) ∙ ap read h ∙ read-to_string b
