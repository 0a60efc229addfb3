-- ===== src/Prelude/Int.antt =====
-- Signed numbers: Python's `int` where the program lets a count fall below zero.
use Prim.Native.Nat.{ℕ, zero, suc, ◌+◌}
use mathlib.Core.Bool.{Bool, true, false}
use mathlib.Core.List.{List}
use mathlib.Core.Path.{◌≡◌, ap}
use native.Mathlib.Omega.{arith}
use jarvis_server.Prelude.Tests.{ltb, ◌==◌}
use jarvis_server.Prelude.Lists.{last_n, drop}

-- `negsuc n` is -(n + 1).
pub data ℤ : Type 0 where
  pos : ℕ → ℤ
  negsuc : ℕ → ℤ

abbrev pub pos_part : ℤ → ℕ
pos_part (pos n) = n
pos_part (negsuc n) = 0

abbrev neg_part : ℤ → ℕ
neg_part (pos n) = 0
neg_part (negsuc n) = suc n

-- `x - 1`
abbrev pub pred_ℤ : ℤ → ℤ
pred_ℤ (pos zero) = negsuc 0
pred_ℤ (pos (suc n)) = pos n
pred_ℤ (negsuc n) = negsuc (suc n)

-- `x > 0`
abbrev pub is_pos : ℤ → Bool
is_pos (pos zero) = false
is_pos (pos (suc n)) = true
is_pos (negsuc n) = false

-- `a < b`
abbrev pub ltb_ℤ : ℤ → ℤ → Bool
ltb_ℤ a b = ltb (pos_part a + neg_part b) (pos_part b + neg_part a)

-- `a == b`
abbrev pub eq_ℤ : ℤ → ℤ → Bool
eq_ℤ (pos m) (pos n) = m == n
eq_ℤ (negsuc m) (negsuc n) = m == n
eq_ℤ (pos m) (negsuc n) = false
eq_ℤ (negsuc m) (pos n) = false

eq_ℤ_iff : (a b : ℤ) → eq_ℤ a b ≡ true → a ≡ b
eq_ℤ_iff (pos m) (pos n) h = ap pos (ground arith)
eq_ℤ_iff (negsuc m) (negsuc n) h = ap negsuc (ground arith)
eq_ℤ_iff (pos m) (negsuc n) h = cc
eq_ℤ_iff (negsuc m) (pos n) h = cc

pub eq_ℤ_self : (a : ℤ) → eq_ℤ a a ≡ true
eq_ℤ_self (pos m) = ground arith
eq_ℤ_self (negsuc m) = ground arith

-- `xs[-n:]`: the last `n`; all of them for 0, since `-0` is the start; and `xs[m:]` for `n = -m`
abbrev pub last_slice {ℓ} : {A : Type ℓ} → ℤ → List A → List A
last_slice (pos zero) xs = xs
last_slice (pos (suc n)) xs = last_n (suc n) xs
last_slice (negsuc n) xs = drop (suc n) xs
