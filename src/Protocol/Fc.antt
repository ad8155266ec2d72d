-- ===== src/Protocol/Fc.antt =====
-- The arithmetic of the fc library (`fc::safe<int64_t>`, `fc::uint128`), which is a submodule and
-- not part of the sources: a parameter of the model. `none` is the overflow exception. The laws
-- state the documented behaviour: a result that is returned is exact, and one that fits is returned.
use bmchain_core.Prelude.{
  ◌*ℤ◌, ℕ, ◌-◌, ◌<◌, ◌≤◌, ◌^◌, ◌≡◌, Option, some, ℤ, pos, negsuc, ◌+ℤ◌, ◌-ℤ◌, neg_ℤ, IsInt64,
  Result, Gives, or_throw, Error, throw-Gives,
}

pub record Fc : Type 0 where
  pub add : ℤ → ℤ → Option ℤ
  pub sub : ℤ → ℤ → Option ℤ
  pub neg : ℤ → Option ℤ
  pub mul : ℤ → ℤ → Option ℤ
  -- `uint128_t( int64_t )`
  pub uint128_of : ℤ → ℕ
  -- `share_type( uint64_t )`
  pub int64_of : ℕ → ℤ
  -- `uint128_t::to_uint64`, which may throw
  pub to_uint64 : ℕ → Option ℕ
  pub add_exact : (a b c : ℤ) → add a b ≡ some c → c ≡ a +ℤ b
  pub sub_exact : (a b c : ℤ) → sub a b ≡ some c → c ≡ a -ℤ b
  pub mul_exact : (a b c : ℤ) → mul a b ≡ some c → c ≡ a *ℤ b
  pub neg_exact : (a c : ℤ) → neg a ≡ some c → c ≡ neg_ℤ a
  pub add_fits : (a b : ℤ) → IsInt64 (a +ℤ b) → add a b ≡ some (a +ℤ b)
  pub sub_fits : (a b : ℤ) → IsInt64 (a -ℤ b) → sub a b ≡ some (a -ℤ b)
  pub neg_fits : (a : ℤ) → IsInt64 (neg_ℤ a) → neg a ≡ some (neg_ℤ a)
  pub to_uint64_fits : (n : ℕ) → n < 2 ^ 64 → to_uint64 n ≡ some n
  pub uint128_of_pos : (n : ℕ) → n < 2 ^ 63 → uint128_of (pos n) ≡ n
  pub int64_of_fits : (n : ℕ) → n < 2 ^ 63 → int64_of n ≡ pos n
  pub int64_of_wraps : (n : ℕ) → 2 ^ 63 ≤ n → n < 2 ^ 64 → int64_of n ≡ negsuc (2 ^ 64 - 1 - n)

module _ ⦃fc : Fc⦄ where
  -- `share_type` sums, differences, products and negation, which throw on overflow
  unfoldable pub safe_add : ℤ → ℤ → Result ℤ
  safe_add a b = or_throw (fc.add a b) Error.overflow

  unfoldable pub safe_sub : ℤ → ℤ → Result ℤ
  safe_sub a b = or_throw (fc.sub a b) Error.overflow

  unfoldable pub safe_neg : ℤ → Result ℤ
  safe_neg a = or_throw (fc.neg a) Error.overflow

  unfoldable pub safe_mul : ℤ → ℤ → Result ℤ
  safe_mul a b = or_throw (fc.mul a b) Error.overflow

  pub safe_add-Gives : (a b : ℤ) → Gives (λ c. c ≡ a +ℤ b) (safe_add a b)
  unfolding safe_add
  safe_add-Gives a b = throw-Gives (fc.add a b) Error.overflow (fc.add_exact a b)

  pub safe_sub-Gives : (a b : ℤ) → Gives (λ c. c ≡ a -ℤ b) (safe_sub a b)
  unfolding safe_sub
  safe_sub-Gives a b = throw-Gives (fc.sub a b) Error.overflow (fc.sub_exact a b)

  pub safe_neg-Gives : (a : ℤ) → Gives (λ c. c ≡ neg_ℤ a) (safe_neg a)
  unfolding safe_neg
  safe_neg-Gives a = throw-Gives (fc.neg a) Error.overflow (fc.neg_exact a)
