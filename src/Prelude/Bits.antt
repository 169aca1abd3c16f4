-- ===== src/Prelude/Bits.antt =====
-- Bit fields by division: what shifts to the left and to the right by powers of two leave.
use Prim.Native.Nat.{ℕ, zero, suc, ◌+◌, ◌*◌, ◌/◌, ◌%◌, ◌^◌, ◌<◌}
use mathlib.Core.Path.{◌≡◌, sym, ap, ◌∙◌}
use native.Mathlib.Omega.{arith}
use native.Mathlib.Nat.{
  pow-zero, pow-suc, mul_assoc, add-zero, div-add-mod, mod-lt, mod-eq_of_lt, mul-add-mod_self_left,
  mul-add-div, div-lt_iff_lt-mul,
}

pub pow-add : (a m n : ℕ) → a ^ (m + n) ≡ a ^ m * a ^ n
pow-add a m zero = rw (add-zero, pow-zero) (omega arith)
pow-add a m (suc n) =
    ap (λ (k : ℕ). a ^ k) step
    ∙ pow-suc a (m + n)
    ∙ ap (λ (k : ℕ). k * a) (pow-add a m n)
    ∙ mul_assoc (a ^ m) (a ^ n) a
    ∙ ap (λ (k : ℕ). a ^ m * k) (sym (pow-suc a n))
  where
    step : m + suc n ≡ suc (m + n)
    step = omega arith

pub two-pow-pos : (n : ℕ) → 0 < 2 ^ n
two-pow-pos zero = rw pow-zero (omega arith)
two-pow-pos (suc n) = rw pow-suc (omega (arith, two-pow-pos n))

pub mul-mod-mul : (t a m : ℕ) → 0 < t → 0 < m → (t * a) % (t * m) ≡ t * (a % m)
mul-mod-mul t a m p q =
    ap (λ (k : ℕ). k % (t * m)) whole
    ∙ mul-add-mod_self_left (t * m) (a / m) (t * (a % m))
    ∙ mod-eq_of_lt (grind (arith, mod-lt a q))
  where
    whole : t * a ≡ t * m * (a / m) + t * (a % m)
    whole = omega (arith, ap (λ (k : ℕ). t * k) (div-add-mod a m))

pub mod-div : (a b s : ℕ) → 0 < b → 0 < s → a % (b * s) / b ≡ a / b % s
mod-div a b s p q =
    let r = a % (b * s) in
    let k = a / (b * s) in
    let small : r / b < s = (div-lt_iff_lt-mul p).1 (omega (arith, mod-lt a {m = b * s} pos)) in
    let parts : a ≡ b * (s * k) + r = omega (arith, div-add-mod a (b * s)) in
    let quotient : a / b ≡ s * k + r / b = ap (λ (n : ℕ). n / b) parts ∙ mul-add-div p (s * k) r in
    sym (ap (λ (n : ℕ). n % s) quotient ∙ mul-add-mod_self_left s k (r / b) ∙ mod-eq_of_lt small)
  where
    pos : 0 < b * s
    pos = grind arith

pub two-pow-lt : (a n : ℕ) → a % 2 ^ n < 2 ^ n
two-pow-lt a n = mod-lt a (two-pow-pos n)
