-- ===== src/Prelude/Results.antt =====
-- Go's `(value, error)`: a value, or the text of the error. Chains of such calls are `do` blocks.
use Prim.Native.String.{String}
use mathlib.Core.Path.{◌≡◌, refl, ap}
use mathlib.Core.Logic.{◌⊎◌, inl, inr}
use mathlib.Core.Bool.{Bool, true, false}

pub data Result {ℓ} (A : Type ℓ) : Type ℓ where
  ok : (value : A) → Result A
  err : (text : String) → Result A

-- The rest of the function, on the value of a call that returned no error.
infixl 5 ◌>>=◌ ◌>>◌
abbrev pub ◌>>=◌ {ℓ κ} : {V : Type ℓ} {W : Type κ} → Result V → (V → Result W) → Result W
err text >>= rest = err text
ok value >>= rest = rest value

abbrev pub ◌>>◌ {ℓ} : {W : Type ℓ} → Result (Unit {0}) → Result W → Result W
check >> rest = check >>= λ done. rest

-- `if test { return error }`.
abbrev pub fail_if : Bool → String → Result (Unit {0})
fail_if true e = err e
fail_if false e = ok tt

-- `if err != nil { return fmt.Errorf(...) }`: the error's text is put into another.
abbrev pub map_err {ℓ} : {A : Type ℓ} → (String → String) → Result A → Result A
map_err f (ok a) = ok a
map_err f (err e) = err (f e)

pub Result-cases {ℓ} :
    {A : Type ℓ} (r : Result A) → ((a : A) × (r ≡ ok a)) ⊎ ((e : String) × (r ≡ err e))
Result-cases (ok a) = inl (a, refl)
Result-cases (err e) = inr (e, refl)

pub ok_injective {ℓ} : {A : Type ℓ} (a b : A) → ok a ≡ ok b → a ≡ b
ok_injective a b e = ap (λ r. elim r [ ok x ↦ x | err t ↦ a ]) e
