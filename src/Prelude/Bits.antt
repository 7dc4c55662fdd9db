-- ===== src/Prelude/Bits.antt =====
-- When the bitwise operations give 0, at every width.
use Prim.Native.Nat.{
  ℕ, zero, suc, ◌/◌, ◌%◌, ◌≤◌, max, bit_or, bit_xor, digits, differ, bit_or-bitwise,
  bit_xor-bitwise,
}
use mathlib.Core.Path.{◌≡◌, ◌∙◌, sym, ap}
use mathlib.Core.Logic.{◌↔◌}
use native.Mathlib.Omega.{arith}

differ-zero_iff : (x y : ℕ) → (differ x y ≡ 0) ↔ (x ≡ y)
differ-zero_iff zero y = (λ h. omega arith, λ h. omega arith)
differ-zero_iff (suc x) zero = (λ h. absurd (omega arith), λ h. absurd (omega arith))
differ-zero_iff (suc x) (suc y) =
    let rest = differ-zero_iff x y in (λ h. ap suc (rest.0 h), λ h. rest.1 (omega arith))

xor_digits-zero_iff : (n a b : ℕ) → a ≤ n → (digits (λ b. b) differ n a b ≡ 0) ↔ (a ≡ b)
xor_digits-zero_iff zero zero b l = (λ h. omega arith, λ h. omega arith)
xor_digits-zero_iff zero (suc a) b l = absurd (omega arith)
xor_digits-zero_iff (suc n) zero b l = (λ h. omega arith, λ h. omega arith)
xor_digits-zero_iff (suc n) (suc a) b l =
    let high = xor_digits-zero_iff n (suc a / 2) (b / 2) (omega arith) in
    let low = differ-zero_iff (suc a % 2) (b % 2) in
    (
      λ h. omega (arith, high.0 (omega arith), low.0 (omega arith)),
      λ h. omega (arith, high.1 (omega arith), low.1 (omega arith)),
    )

or_digits-zero_iff : (n a b : ℕ) → a ≤ n → (digits (λ b. b) max n a b ≡ 0) ↔ ((a ≡ 0) × (b ≡ 0))
or_digits-zero_iff zero zero b l = (λ h. omega arith, λ h. omega arith)
or_digits-zero_iff zero (suc a) b l = absurd (omega arith)
or_digits-zero_iff (suc n) zero b l = (λ h. omega arith, λ h. omega arith)
or_digits-zero_iff (suc n) (suc a) b l =
    let high = or_digits-zero_iff n (suc a / 2) (b / 2) (omega arith) in
    (λ h. absurd (omega (arith, (high.0 (omega arith)).0)), λ h. absurd (omega arith))

-- `a ^ b == 0` exactly when the two are equal.
pub bit_xor-zero_iff : (a b : ℕ) → (bit_xor a b ≡ 0) ↔ (a ≡ b)
bit_xor-zero_iff a b =
    let d = xor_digits-zero_iff a a b (omega arith) in
    let e = bit_xor-bitwise a b in (λ h. d.0 (sym e ∙ h), λ h. e ∙ d.1 h)

-- `a | b == 0` exactly when both are.
pub bit_or-zero_iff : (a b : ℕ) → (bit_or a b ≡ 0) ↔ ((a ≡ 0) × (b ≡ 0))
bit_or-zero_iff a b =
    let d = or_digits-zero_iff a a b (omega arith) in
    let e = bit_or-bitwise a b in (λ h. d.0 (sym e ∙ h), λ h. e ∙ d.1 h)
