-- ===== src/Prelude/Int.antt =====
-- Signed integers (Go's big.Int, a native number with a sign) with the comparisons the code makes.
use Prim.Native.Nat.{ℕ, suc, ◌+◌, ◌≤◌, compare, Ordering}
use mathlib.Core.Bool.{Bool, true, false}

-- `negsuc n` is -(n + 1).
pub data ℤ : Type 0 where
  pos : ℕ → ℤ
  negsuc : ℕ → ℤ

-- `a.Cmp(b)`: -1, 0 and 1 are `lt`, `eq` and `gt`.
abbrev pub cmp : ℤ → ℤ → Ordering
cmp (pos a) (pos b) = compare a b
cmp (pos a) (negsuc b) = Ordering.gt
cmp (negsuc a) (pos b) = Ordering.lt
cmp (negsuc a) (negsuc b) = compare b a

-- `a.Cmp(b) < 0`.
abbrev pub ltb_ℤ : ℤ → ℤ → Bool
ltb_ℤ a b = elim (cmp a b) [ Ordering.lt ↦ true | _ ↦ false ]

-- `a.Cmp(b) == 0`.
abbrev pub eq_ℤ : ℤ → ℤ → Bool
eq_ℤ a b = elim (cmp a b) [ Ordering.eq ↦ true | _ ↦ false ]

-- `a.Sign() <= 0`.
abbrev pub is_nonpositive : ℤ → Bool
is_nonpositive (pos ℕ.zero) = true
is_nonpositive (pos (suc n)) = false
is_nonpositive (negsuc n) = true

abbrev pub pos_part : ℤ → ℕ
pos_part (pos n) = n
pos_part (negsuc n) = 0

abbrev pub neg_part : ℤ → ℕ
neg_part (pos n) = 0
neg_part (negsuc n) = suc n

infix 50 ◌≤ℤ◌
abbrev pub ◌≤ℤ◌ : ℤ → ℤ → Type 0
a ≤ℤ b = pos_part a + neg_part b ≤ pos_part b + neg_part a
