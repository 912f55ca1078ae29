-- ===== src/Base/Bits.antt =====
-- `bit_or` of two numbers whose bits do not meet, and `bit_and` with a mask of low ones.
use Prim.Native.Nat.{ℕ, zero, suc, ◌+◌, ◌-◌, ◌*◌, ◌/◌, ◌%◌, ◌^◌, ◌≤◌, ◌<◌, min, max}
use Prim.Native.Nat.{bit_or, bit_and, digits, bit_or-bitwise, bit_and-bitwise}
use mathlib.Core.Path.{◌≡◌, refl, ap, ◌∙◌}
use native.Mathlib.Nat.{
  pow-suc, one-le-pow, mod-lt, mod-eq_of_lt, div-add-mod, add-mul-mod_self_right,
}
use mathlib.Core.Path.{sym}
use mathlib.Core.Bool.{Bool}
use native.Mathlib.Omega.{arith}
use bluetooth_ots_rs.Base.Tests.{all_below, all_below-true, ==_iff, ◌==◌}

-- The recursion on binary digits behind both operations: `op` takes two digits, and `rest` the
-- second number once the first has no digit left.
module _ (rest : ℕ → ℕ) (op : ℕ → ℕ → ℕ) where
  abbrev run : (count first second : ℕ) → ℕ
  run = digits rest op

  run_spare_one :
      (count first second : ℕ)
      → first ≤ count
      → run (suc count) first second ≡ run count first second
  run_spare_one zero zero second h = refl
  run_spare_one zero (suc _) second h = absurd (omega arith)
  run_spare_one (suc _) zero second h = refl
  run_spare_one (suc count) (suc first) second h =
      ap (λ high. high * 2 + op (suc first % 2) (second % 2))
        (run_spare_one count (suc first / 2) (second / 2) (omega arith))

  run_spare :
      (spare count first second : ℕ)
      → first ≤ count
      → run (spare + count) first second ≡ run count first second
  run_spare zero count first second h = ap (λ n. run n first second) (omega arith)
  run_spare (suc spare) count first second h =
      ap (λ n. run n first second) {y = suc (spare + count)} (omega arith)
      ∙ run_spare_one (spare + count) first second (omega arith)
      ∙ run_spare spare count first second h

  -- The lowest digit apart from the others.
  run_lowest :
      (first second : ℕ)
      → run (suc first) (suc first) second
        ≡ run (suc first / 2) (suc first / 2) (second / 2) * 2 + op (suc first % 2) (second % 2)
  run_lowest first second =
      let half = suc first / 2 in
      ap (λ high. high * 2 + op (suc first % 2) (second % 2))
        (ap (λ count. run count half (second / 2)) (omega arith)
          ∙ run_spare (first - half) half half (second / 2) (omega arith))

low_digit_or : (a b : ℕ) → bit_or a b ≡ bit_or (a / 2) (b / 2) * 2 + max (a % 2) (b % 2)
low_digit_or zero b = omega (arith, bit_or-bitwise 0 b, bit_or-bitwise 0 (b / 2))
low_digit_or (suc a) b = omega (
  arith,
  bit_or-bitwise (suc a) b,
  bit_or-bitwise (suc a / 2) (b / 2),
  run_lowest (λ n. n) max a b,
)

bit_or_double : (b y : ℕ) → bit_or b (y * 2) ≡ bit_or (b / 2) y * 2 + b % 2
bit_or_double b y =
    let half : y * 2 / 2 ≡ y = omega arith in
    omega (arith, low_digit_or b (y * 2), ap (bit_or (b / 2)) half)

-- A number below `2 ^ k` and a multiple of `2 ^ k` have no bit in common.
pub bit_or_disjoint : (k b x : ℕ) → b < 2 ^ k → bit_or b (x * 2 ^ k) ≡ b + x * 2 ^ k
bit_or_disjoint zero zero x h = omega (arith, bit_or-bitwise 0 (x * 2 ^ 0))
bit_or_disjoint zero (suc b) x h = absurd (omega arith)
bit_or_disjoint (suc k) b x h =
    let double : x * 2 ^ suc k ≡ x * 2 ^ k * 2 = omega (arith, ap (◌*◌ x) (pow-suc 2 k)) in
    let below : b / 2 < 2 ^ k = omega (arith, pow-suc 2 k) in
    rw double (omega (arith, bit_or_double b (x * 2 ^ k), bit_or_disjoint k (b / 2) x below))

low_digit_and : (a b : ℕ) → bit_and a b ≡ bit_and (a / 2) (b / 2) * 2 + min (a % 2) (b % 2)
low_digit_and zero b = omega (arith, bit_and-bitwise 0 b, bit_and-bitwise 0 (b / 2))
low_digit_and (suc a) b = omega (
  arith,
  bit_and-bitwise (suc a) b,
  bit_and-bitwise (suc a / 2) (b / 2),
  run_lowest (λ n. 0) min a b,
)

-- By recursion on a bound of the number.
bit_and-nothing : (bound n : ℕ) → n ≤ bound → bit_and n 0 ≡ 0
bit_and-nothing _ zero h = refl
bit_and-nothing zero (suc _) h = absurd (omega arith)
bit_and-nothing (suc bound) (suc n) h =
    omega (low_digit_and (suc n) 0, arith, bit_and-nothing bound (suc n / 2) (omega arith))

-- The number whose binary form is `k` ones.
abbrev pub ones : ℕ → ℕ
ones zero = 0
ones (suc k) = ones k * 2 + 1

mod_double : (p a : ℕ) → 0 < p → a % (p * 2) ≡ a / 2 % p * 2 + a % 2
mod_double p a h =
    let low : a / 2 % p * 2 + a % 2 < p * 2 = omega (arith, mod-lt (a / 2) h) in
    let parts : a ≡ a / 2 % p * 2 + a % 2 + a / 2 / p * (p * 2) =
      omega (arith, div-add-mod (a / 2) p) in
    ap (λ n. n % (p * 2)) parts
    ∙ add-mul-mod_self_right (a / 2 % p * 2 + a % 2) (a / 2 / p) (p * 2)
    ∙ mod-eq_of_lt low

pub bit_and-ones : (k a : ℕ) → bit_and a (ones k) ≡ a % 2 ^ k
bit_and-ones zero a = omega (arith, bit_and-nothing a a (omega arith))
bit_and-ones (suc k) a =
    let half : (ones k * 2 + 1) / 2 ≡ ones k = omega arith in
    let split : a % 2 ^ suc k ≡ a / 2 % 2 ^ k * 2 + a % 2 =
      rw (pow-suc 2 k) (mod_double (2 ^ k) a (one-le-pow k 2 (omega arith))) in
    omega (
      arith,
      low_digit_and a (ones k * 2 + 1),
      ap (bit_and (a / 2)) half,
      bit_and-ones k (a / 2),
      split,
    )

nibbles_agree : ℕ → Bool
nibbles_agree x = bit_or (x / 16 * 16 % 256) (x % 16) == x

-- The two halves of a byte have no bit in common.
pub nibbles_or :
    (high low : ℕ) → high < 16 → low < 16 → bit_or (high * 16 % 256) low ≡ high * 16 + low
unfolding all_below nibbles_agree
nibbles_or high low p q =
    let fit : bit_or ((high * 16 + low) / 16 * 16 % 256) ((high * 16 + low) % 16)
        ≡ high * 16 + low =
      (==_iff _ _).0 (all_below-true 256 nibbles_agree (high * 16 + low) refl (omega arith)) in
    let at_high : (high * 16 + low) / 16 ≡ high = omega arith in
    let at_low : (high * 16 + low) % 16 ≡ low = omega arith in
    ap (λ d. bit_or (d * 16 % 256) low) (sym at_high)
    ∙ ap (bit_or ((high * 16 + low) / 16 * 16 % 256)) (sym at_low)
    ∙ fit
