-- ===== src/Prelude/Int.antt =====
-- Integers where the code lets a number fall below zero: `negsuc n` is -(n + 1).
use osbuild.Prelude.{ℕ, zero, suc, ◌+◌, ◌-◌, Bool, true, false, if◌then◌else◌, leb}

pub data ℤ : Type 0 where
  pos : ℕ → ℤ
  negsuc : ℕ → ℤ

-- -n
abbrev pub neg : ℕ → ℤ
neg zero = pos 0
neg (suc n) = negsuc n

-- n + i, as an integer
abbrev pub add_ℤ : ℕ → ℤ → ℤ
add_ℤ n (pos k) = pos (n + k)
add_ℤ n (negsuc k) = if leb (suc k) n then pos (n - suc k) else negsuc (k - n)

abbrev pub is_negative : ℤ → Bool
is_negative (pos n) = false
is_negative (negsuc n) = true

abbrev pub leb_ℤ : ℤ → ℤ → Bool
leb_ℤ (pos a) (pos b) = leb a b
leb_ℤ (negsuc a) (pos b) = true
leb_ℤ (pos a) (negsuc b) = false
leb_ℤ (negsuc a) (negsuc b) = leb b a
