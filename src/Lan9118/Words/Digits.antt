-- ===== src/Lan9118/Words/Digits.antt =====
-- The native `bit_and` and `bit_or` digit by digit, and what they do to one bit and to a low field.
use Prim.Native.Nat.{min, max, bit_and, bit_or, digits, bit_and-bitwise, bit_or-bitwise}
use native.Mathlib.Nat.{
  pow-succ', one-le-pow, mod-lt, mod-eq_of_lt, div-add-mod, div-div-eq-div-mul,
  add-mul-mod_self_left,
}
use ohos_l0_adapter.Base.{
  ℕ, zero, suc, ◌+◌, ◌-◌, ◌*◌, ◌^◌, ◌/◌, ◌%◌, ◌≤◌, ◌<◌, ◌≡◌, refl, ap, ◌∙◌, sym, arith,
}

-- A count of digits above the first number changes nothing: below a bound N on the counts, by N.
spare_digits :
    (z : ℕ → ℕ) (f : ℕ → ℕ → ℕ) (N n a b : ℕ) → n ≤ N → a ≤ n → digits z f n a b ≡ digits z f a a b
spare_digits z f N zero zero b below enough = refl
spare_digits z f N (suc n) zero b below enough = refl
spare_digits z f N zero (suc a) b below enough = absurd (omega arith)
spare_digits z f zero (suc n) (suc a) b below enough = absurd (omega arith)
spare_digits z f (suc N) (suc n) (suc a) b below enough =
    let half = suc a / 2 in
    let from_n = spare_digits z f N n half (b / 2) (omega arith) (omega arith) in
    let from_a = spare_digits z f N a half (b / 2) (omega arith) (omega arith) in
    ap (λ d. d * 2 + f (suc a % 2) (b % 2)) (from_n ∙ sym from_a)

-- The digits of a number that is not 0: the lowest, behind those of the halves.
halved_digits :
    (z : ℕ → ℕ) (f : ℕ → ℕ → ℕ) (a b : ℕ)
    → let half = suc a / 2 in
      digits z f (suc a) (suc a) b ≡ digits z f half half (b / 2) * 2 + f (suc a % 2) (b % 2)
halved_digits z f a b =
    ap (λ d. d * 2 + f (suc a % 2) (b % 2))
      (spare_digits z f a a (suc a / 2) (b / 2) (omega arith) (omega arith))

-- The lowest digit and the others.
pub or_digits : (a b : ℕ) → bit_or a b ≡ bit_or (a / 2) (b / 2) * 2 + max (a % 2) (b % 2)
or_digits zero b = omega (arith, bit_or-bitwise 0 b, bit_or-bitwise 0 (b / 2))
or_digits (suc a) b =
    let halves = halved_digits (λ y. y) max a b in
    let low = bit_or-bitwise (suc a / 2) (b / 2) in
    omega (arith, bit_or-bitwise (suc a) b, low, halves)

pub and_digits : (a b : ℕ) → bit_and a b ≡ bit_and (a / 2) (b / 2) * 2 + min (a % 2) (b % 2)
and_digits zero b = omega (arith, bit_and-bitwise 0 b, bit_and-bitwise 0 (b / 2))
and_digits (suc a) b =
    let halves = halved_digits (λ y. 0) min a b in
    let low = bit_and-bitwise (suc a / 2) (b / 2) in
    omega (arith, bit_and-bitwise (suc a) b, low, halves)

-- Bit k of a number, as 0 or 1.
abbrev pub bit : ℕ → ℕ → ℕ
bit w k = (w / 2 ^ k) % 2

bit_lowest : (w : ℕ) → bit w 0 ≡ w % 2
bit_lowest w = omega arith

pub bit_next : (w k : ℕ) → bit w (suc k) ≡ bit (w / 2) k
bit_next w k =
    ap (λ d. d % 2) (ap (λ d. w / d) (pow-succ' 2 k) ∙ sym (div-div-eq-div-mul w 2 (2 ^ k)))

pub bit-bit_or : (a b k : ℕ) → bit (bit_or a b) k ≡ max (bit a k) (bit b k)
bit-bit_or a b zero = omega (arith, or_digits a b)
bit-bit_or a b (suc k) =
    let half : bit_or a b / 2 ≡ bit_or (a / 2) (b / 2) = omega (arith, or_digits a b) in
    rw (bit_next (bit_or a b) k, bit_next a k, bit_next b k, half) (bit-bit_or (a / 2) (b / 2) k)

pub bit-bit_and : (a b k : ℕ) → bit (bit_and a b) k ≡ min (bit a k) (bit b k)
bit-bit_and a b zero = omega (arith, and_digits a b)
bit-bit_and a b (suc k) =
    let half : bit_and a b / 2 ≡ bit_and (a / 2) (b / 2) = omega (arith, and_digits a b) in
    rw (bit_next (bit_and a b) k, bit_next a k, bit_next b k, half) (bit-bit_and (a / 2) (b / 2) k)

-- Or with 0, and with a mask of ones.
pub zero-bit_or : (b : ℕ) → bit_or 0 b ≡ b
zero-bit_or b = bit_or-bitwise 0 b

bit_and-zero : (n a : ℕ) → a ≤ n → bit_and a 0 ≡ 0
bit_and-zero zero zero h = refl
bit_and-zero zero (suc a) h = absurd (omega arith)
bit_and-zero (suc n) a h = omega (arith, and_digits a 0, bit_and-zero n (a / 2) (omega arith))

two_pow_pos : (k : ℕ) → 0 < 2 ^ k
two_pow_pos k = one-le-pow k 2 (omega arith)

mod_next : (a k : ℕ) → a % 2 ^ suc k ≡ a / 2 % 2 ^ k * 2 + a % 2
mod_next a k =
    let m = a / 2 % 2 ^ k in
    let low : a / 2 % 2 ^ k < 2 ^ k = mod-lt (a / 2) (two_pow_pos k) in
    let double : 2 ^ suc k ≡ 2 * 2 ^ k = pow-succ' 2 k in
    let split : 2 ^ k * (a / 2 / 2 ^ k) + m ≡ a / 2 = div-add-mod (a / 2) (2 ^ k) in
    let whole : a ≡ m * 2 + a % 2 + 2 ^ suc k * (a / 2 / 2 ^ k) =
      rw double (omega (arith, split)) in
    ap (λ n. n % 2 ^ suc k) whole
    ∙ add-mul-mod_self_left (m * 2 + a % 2) (2 ^ suc k) (a / 2 / 2 ^ k)
    ∙ mod-eq_of_lt (omega (arith, low, double))

pub bit_and-ones : (k a : ℕ) → bit_and a (2 ^ k - 1) ≡ a % 2 ^ k
bit_and-ones zero a = omega (arith, bit_and-zero a a (omega arith))
bit_and-ones (suc k) a =
    let halved : (2 ^ suc k - 1) / 2 ≡ 2 ^ k - 1 = omega (arith, two_pow_pos k, pow-succ' 2 k) in
    let odd : (2 ^ suc k - 1) % 2 ≡ 1 = omega (arith, two_pow_pos k, pow-succ' 2 k) in
    and_digits a (2 ^ suc k - 1) ∙ rw (halved, odd, bit_and-ones k (a / 2), mod_next) (omega arith)

-- Or of a low field and a high one, in both orders: their sum.
pub low-bit_or : (k a b : ℕ) → a < 2 ^ k → bit_or a (b * 2 ^ k) ≡ a + b * 2 ^ k
low-bit_or zero zero b h = omega (arith, zero-bit_or (b * 2 ^ 0))
low-bit_or zero (suc a) b h = absurd (omega arith)
low-bit_or (suc k) a b h =
    let halved : b * 2 ^ suc k / 2 ≡ b * 2 ^ k = rw (pow-succ' 2 k) (omega arith) in
    let even : b * 2 ^ suc k % 2 ≡ 0 = rw (pow-succ' 2 k) (omega arith) in
    or_digits a (b * 2 ^ suc k)
    ∙ rw (halved, even, low-bit_or k (a / 2) b (omega (arith, pow-succ' 2 k, h)), pow-succ' 2 k)
        (omega arith)

bit_or-zero : (n a : ℕ) → a ≤ n → bit_or a 0 ≡ a
bit_or-zero zero zero h = refl
bit_or-zero zero (suc a) h = absurd (omega arith)
bit_or-zero (suc n) a h = omega (arith, or_digits a 0, bit_or-zero n (a / 2) (omega arith))

pub high-bit_or : (k a b : ℕ) → b < 2 ^ k → bit_or (a * 2 ^ k) b ≡ a * 2 ^ k + b
high-bit_or zero a zero h = omega (arith, bit_or-zero (a * 2 ^ 0) (a * 2 ^ 0) (omega arith))
high-bit_or zero a (suc b) h = absurd (omega arith)
high-bit_or (suc k) a b h =
    let halved : a * 2 ^ suc k / 2 ≡ a * 2 ^ k = rw (pow-succ' 2 k) (omega arith) in
    let even : a * 2 ^ suc k % 2 ≡ 0 = rw (pow-succ' 2 k) (omega arith) in
    or_digits (a * 2 ^ suc k) b
    ∙ rw (halved, even, high-bit_or k a (b / 2) (omega (arith, pow-succ' 2 k, h)), pow-succ' 2 k)
        (omega arith)

zero-bit_and : (b : ℕ) → bit_and 0 b ≡ 0
zero-bit_and b = bit_and-bitwise 0 b

-- The digits of an and are digits of its first number.
bit_and-fuel : (n a b : ℕ) → a ≤ n → bit_and a b ≤ a
bit_and-fuel zero zero b h = omega (arith, zero-bit_and b)
bit_and-fuel zero (suc a) b h = absurd (omega arith)
bit_and-fuel (suc n) a b h =
    omega (arith, and_digits a b, bit_and-fuel n (a / 2) (b / 2) (omega arith))

pub bit_and-le : (a b : ℕ) → bit_and a b ≤ a
bit_and-le a b = bit_and-fuel a a b (omega arith)
