-- ===== src/Prelude/Lists.antt =====
-- Lists measured by native numbers, a predicate on all their elements, and Go's maps from strings.
use Prim.Native.Nat.{ℕ, suc, ◌+◌}
use Prim.Native.String.{String}
use mathlib.Core.Path.{◌≡◌, refl}
use mathlib.Core.Logic.{◌⊎◌, inl, inr}
use mathlib.Core.Option.{Option, none, some}
use mathlib.Core.List.{List, [], ◌∷◌, ◌++◌, Memᴰ}
use native.Mathlib.Omega.{arith}
use text.Mathlib.Text.{◌==◌}
use text.Mathlib.TextEquality.{eq_iff}
use sealed_auction_fce.Prelude.Tests.{if◌then◌else◌}

module _ {ℓ} {A : Type ℓ} where
  abbrev pub length : List A → ℕ
  length [] = 0
  length (x ∷ xs) = suc (length xs)

  pub length-append : (xs ys : List A) → length (xs ++ ys) ≡ length xs + length ys
  length-append [] ys = omega arith
  length-append (x ∷ xs) ys = omega (arith, length-append xs ys)

-- Every element satisfies the predicate.
abbrev pub All {ℓ κ} : {A : Type ℓ} → (A → Type κ) → List A → Type κ
All P [] = Unit
All P (x ∷ xs) = P x × All P xs

-- Some element satisfies the predicate.
abbrev pub Any {ℓ κ} : {A : Type ℓ} → (A → Type κ) → List A → Type κ
Any P [] = Unit → ⊥
Any P (x ∷ xs) = P x ⊎ Any P xs

pub All-append {ℓ κ} :
    {A : Type ℓ} (P : A → Type κ) (xs ys : List A) → All P xs → All P ys → All P (xs ++ ys)
All-append P [] ys h k = k
All-append P (x ∷ xs) ys h k = (h.0, All-append P xs ys h.1 k)

module _ {ℓ} {A : Type ℓ} where
  pub mem_last : (xs : List A) (x : A) → Memᴰ x (xs ++ x ∷ [])
  mem_last [] x = Memᴰ.head refl
  mem_last (y ∷ xs) x = Memᴰ.tail (mem_last xs x)

  pub mem-append_last : (xs : List A) (a b : A) → Memᴰ a (xs ++ b ∷ []) → Memᴰ a xs ⊎ (a ≡ b)
  mem-append_last [] a b (Memᴰ.head e) = inr e
  mem-append_last [] a b (Memᴰ.tail m) = elim m [ ]
  mem-append_last (x ∷ xs) a b (Memᴰ.head e) = inl (Memᴰ.head e)
  mem-append_last (x ∷ xs) a b (Memᴰ.tail m) = elim (mem-append_last xs a b m) [
    | inl earlier ↦ inl (Memᴰ.tail earlier)
    | inr last ↦ inr last
  ]

-- A Go map with string keys, as an association list with one entry for each key: `m[key]`, with
-- `none` for a missing key, and `m[key] = value`.
module _ {ℓ} {V : Type ℓ} where
  unfoldable pub map_get : List (String × V) → String → Option V
  map_get [] key = none
  map_get (entry ∷ m) key = if entry.0 == key then some entry.1 else map_get m key

  unfoldable pub map_set : List (String × V) → String → V → List (String × V)
  map_set [] key value = (key, value) ∷ []
  map_set (entry ∷ m) key value =
      let kept = entry ∷ map_set m key value in
      if entry.0 == key then (entry.0, value) ∷ m else kept

  -- What is read after a write, by whether the keys are equal.
  pub map_get-map_set :
      (m : List (String × V)) (key : String) (value : V) (other : String)
      → map_get (map_set m key value) other ≡ (if key == other then some value else map_get m other)
  unfolding map_get map_set
  map_get-map_set [] key value other = refl
  map_get-map_set (entry ∷ m) key value other = ground (
    arith,
    map_get-map_set m key value other,
    eq_iff entry.0 key,
    eq_iff entry.0 other,
    eq_iff key other,
  )
