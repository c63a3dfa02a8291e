-- ===== src/Prelude/Int.antt =====
-- Signed integers over the native numbers, and the i64 columns that SQLite keeps: the Rust code
-- stores a u64 by `as i64` and reads it back by `as u64`.
use photosync.Prelude.{
  ℕ, suc, ◌+◌, ◌-◌, ◌^◌, ◌<◌, ◌≡◌, ◌↔◌, ap, Bool, true, arith, ltb, ◌==◌, if◌then◌else◌, max,
}

-- `negsuc n` is -(n + 1).
pub data ℤ : Type 0 where
  pos : ℕ → ℤ
  negsuc : ℕ → ℤ

abbrev pub pos_part : ℤ → ℕ
pos_part (pos n) = n
pos_part (negsuc n) = 0

abbrev pub neg_part : ℤ → ℕ
neg_part (pos n) = 0
neg_part (negsuc n) = suc n

abbrev pub ltb_ℤ : ℤ → ℤ → Bool
ltb_ℤ a b = ltb (pos_part a + neg_part b) (pos_part b + neg_part a)

abbrev pub eqb_ℤ : ℤ → ℤ → Bool
eqb_ℤ a b = pos_part a + neg_part b == pos_part b + neg_part a

pub eqb_ℤ_iff : (a b : ℤ) → (eqb_ℤ a b ≡ true) ↔ (a ≡ b)
eqb_ℤ_iff (pos m) (pos n) = (
  λ e. ap pos (let h : m ≡ n = ground arith in h),
  λ e. let h : m ≡ n = ap pos_part e in ground arith,
)
eqb_ℤ_iff (pos m) (negsuc n) =
    (λ e. absurd (ground arith), λ e. let h : 0 ≡ suc n = ap neg_part e in absurd (omega arith))
eqb_ℤ_iff (negsuc m) (pos n) =
    (λ e. absurd (ground arith), λ e. let h : suc m ≡ 0 = ap neg_part e in absurd (omega arith))
eqb_ℤ_iff (negsuc m) (negsuc n) = (
  λ e. ap negsuc (let h : m ≡ n = ground arith in h),
  λ e. let h : suc m ≡ suc n = ap neg_part e in ground arith,
)

abbrev pub max_ℤ : ℤ → ℤ → ℤ
max_ℤ a b = if ltb_ℤ a b then b else a

abbrev pub u64_mod : ℕ
u64_mod = 2 ^ 64

abbrev pub i64_bound : ℕ
i64_bound = 2 ^ 63

-- `n as i64`, for a u64 `n`.
unfoldable pub to_i64 : ℕ → ℤ
to_i64 n = if ltb n i64_bound then pos n else negsuc (u64_mod - n - 1)

-- `z as u64`, for an i64 `z`.
unfoldable pub from_i64 : ℤ → ℕ
from_i64 (pos n) = n
from_i64 (negsuc n) = u64_mod - suc n

pub from_i64-to_i64 : (n : ℕ) → n < u64_mod → from_i64 (to_i64 n) ≡ n
unfolding to_i64 from_i64
from_i64-to_i64 n h = ground arith

-- The signed maximum of two columns is the unsigned one while both stay below 2^63.
pub from_i64-max :
    (m n : ℕ) → m < i64_bound → n < i64_bound → from_i64 (max_ℤ (to_i64 m) (to_i64 n)) ≡ max m n
unfolding to_i64 from_i64
from_i64-max m n h k = ground arith

-- The sum, where it is an i64.
infixl 20 ◌+ℤ◌
abbrev pub ◌+ℤ◌ : ℤ → ℤ → ℤ
a +ℤ b =
    (let up = pos_part a + pos_part b in
      let down = neg_part a + neg_part b in
      if ltb up down then negsuc (down - up - 1) else pos (up - down))
