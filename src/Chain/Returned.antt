-- ===== src/Chain/Returned.antt =====
-- What a piece of code returns when it returns no error (tools/pkg/fccutils), shown part by part.
use mathlib.Core.Path.{subst}
use sealed_auction_fce.Prelude.{
  map_err, ok_injective, Result, ◌≡◌, refl, ap, Bool, true, false, ◌⊎◌, inl, inr, String, ok, err,
  Result-cases, if◌then◌else◌,
}
use sealed_auction_fce.Chain.{World, Act, done, andthen, on_error, wrap}

-- Every value that the code returns meets the predicate.
abbrev pub Returns {ℓ κ} : {A : Type ℓ} → (A → Type κ) → Act A → Type (ℓ ⊔ κ)
Returns Q m = (w : World) (a : _) → (m w).0 ≡ ok a → Q a

module _ {ℓ κ} {B : Type ℓ} (Q : B → Type κ) where
  pub done-Returns : (b : B) → Q b → Returns Q (done b)
  done-Returns b q w a e = subst Q (ok_injective b a e) q

  pub if-Returns :
      (b : Bool) (m n : Act B) → Returns Q m → Returns Q n → Returns Q (if b then m else n)
  if-Returns true m n h k = h
  if-Returns false m n h k = k

  module _ {μ} {A : Type μ} where
    pub andthen-Returns :
        (m : Act A) (f : A → Act B) → ((a : A) → Returns Q (f a)) → Returns Q (andthen m f)
    unfolding andthen
    andthen-Returns m f h w b = elim (Result-cases (m w).0) [
      | inl (a, e) ↦ rw (e, andthen) (h a (m w).1 b)
      | inr (t, e) ↦ rw (e, andthen) (λ (clash : err t ≡ ok b). absurd (cc clash))
    ]

    pub on_error-Returns :
        (m : Act A) (g : String → Act B) (f : A → Act B)
        → ((t : String) → Returns Q (g t))
        → ((a : A) → Returns Q (f a))
        → Returns Q (on_error m g f)
    unfolding on_error
    on_error-Returns m g f i h w b = elim (Result-cases (m w).0) [
      | inl (a, e) ↦ rw (e, on_error) (h a (m w).1 b)
      | inr (t, e) ↦ rw (e, on_error) (i t (m w).1 b)
    ]

-- Where an error of a branch on an error comes from.
pub on_error_err {ℓ κ} :
    {A : Type ℓ} {B : Type κ} (m : Act A) (g : String → Act B) (f : A → Act B) (w : World)
    (t : String)
    → (on_error m g f w).0 ≡ err t
    → ((e : String) × ((m w).0 ≡ err e) × ((g e (m w).1).0 ≡ err t))
      ⊎ ((a : A) × ((m w).0 ≡ ok a) × ((f a (m w).1).0 ≡ err t))
unfolding on_error
on_error_err m g f w t = elim (Result-cases (m w).0) [
  | inl (a, e) ↦ rw (e, on_error) (λ h. inr (a, refl, h))
  | inr (s, e) ↦ rw (e, on_error) (λ h. inl (s, refl, h))
]

-- A sequence that returns: its first part returned a value, with which the rest went on.
pub andthen_ok {ℓ κ} :
    {A : Type ℓ} {B : Type κ} (m : Act A) (f : A → Act B) (w : World) (b : B)
    → (andthen m f w).0 ≡ ok b
    → (a : A) × ((m w).0 ≡ ok a) × (andthen m f w ≡ f a (m w).1) × ((f a (m w).1).0 ≡ ok b)
unfolding andthen
andthen_ok m f w b = elim (Result-cases (m w).0) [
  | inl (a, e) ↦ rw (e, andthen) (λ h. (a, refl, refl, h))
  | inr (t, e) ↦ rw (e, andthen) (λ (clash : err t ≡ ok b). absurd (cc clash))
]

-- A value that comes through a change of the error text.
pub wrap_ok {ℓ} :
    {A : Type ℓ} (g : String → String) (m : Act A) (w : World) (a : A)
    → (wrap g m w).0 ≡ ok a
    → (m w).0 ≡ ok a
unfolding wrap
wrap_ok g m w a = elim (Result-cases (m w).0) [
  | inl (b, e) ↦ rw (e, wrap) (λ h. h)
  | inr (t, e) ↦ rw (e, wrap) (λ (clash : err (g t) ≡ ok a). absurd (cc clash))
]

pub map_err_ok {ℓ} :
    {A : Type ℓ} (g : String → String) (r : Result A) (a : A) → map_err g r ≡ ok a → r ≡ ok a
map_err_ok g (ok b) a = λ h. h
map_err_ok g (err e) a = λ (h : err (g e) ≡ ok a). absurd (cc h)

-- A sequence whose first part is known to return a value.
pub andthen_run {ℓ κ} :
    {A : Type ℓ} {B : Type κ} (m : Act A) (f : A → Act B) (w v : World) (a : A)
    → m w ≡ (ok a, v)
    → andthen m f w ≡ f a v
unfolding andthen
andthen_run {A = A} m f w v a e =
    ap (λ (r : Result A × World). elim r.0 [ ok b ↦ f b r.1 | err t ↦ (err t, r.1) ]) e

pub on_error_run {ℓ κ} :
    {A : Type ℓ} {B : Type κ} (m : Act A) (g : String → Act B) (f : A → Act B) (w v : World) (a : A)
    → m w ≡ (ok a, v)
    → on_error m g f w ≡ f a v
unfolding on_error
on_error_run {A = A} m g f w v a e =
    ap (λ (r : Result A × World). elim r.0 [ ok b ↦ f b r.1 | err t ↦ g t r.1 ]) e
