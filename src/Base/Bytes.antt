-- ===== src/Base/Bytes.antt =====
-- Bytes, and the integer conversions of Rust's standard library that the program uses.
use Prim.Native.Nat.{ℕ, zero, suc, ◌+◌, ◌*◌, ◌/◌, ◌%◌, ◌^◌, ◌≤◌, ◌<◌}
use mathlib.Core.Path.{◌≡◌, refl, ap, ap₂, ◌∙◌}
use mathlib.Core.List.{List, [], ◌∷◌, ◌++◌, reverse}
use native.Mathlib.Nat.{pow-suc}
use native.Mathlib.Omega.{arith}
use bluetooth_ots_rs.Base.{length, All, take, replicate}

abbrev pub IsByte : ℕ → Type 0
IsByte b = b < 256

-- `from_le_bytes` and `from_be_bytes` of the unsigned types; the width is the list's length.
unfoldable pub from_le_bytes : List ℕ → ℕ
from_le_bytes [] = 0
from_le_bytes (b ∷ bs) = b + 256 * from_le_bytes bs

unfoldable pub from_be_bytes : List ℕ → ℕ
unfolding from_le_bytes
from_be_bytes bs = from_le_bytes (reverse bs)

-- `to_le_bytes` of a value of `w` bytes; higher bytes do not exist in the type.
unfoldable pub to_le_bytes : ℕ → ℕ → List ℕ
to_le_bytes zero v = []
to_le_bytes (suc w) v = (v % 256) ∷ to_le_bytes w (v / 256)

pub length-to_le_bytes : (w v : ℕ) → length (to_le_bytes w v) ≡ w
unfolding to_le_bytes
length-to_le_bytes zero v = refl
length-to_le_bytes (suc w) v = ap suc (length-to_le_bytes w (v / 256))

pub to_le_bytes-IsByte : (w v : ℕ) → All IsByte (to_le_bytes w v)
unfolding to_le_bytes
to_le_bytes-IsByte zero v = tt
to_le_bytes-IsByte (suc w) v = (omega arith, to_le_bytes-IsByte w (v / 256))

pub from_le_bytes-to_le_bytes : (w v : ℕ) → v < 256 ^ w → from_le_bytes (to_le_bytes w v) ≡ v
unfolding from_le_bytes to_le_bytes
from_le_bytes-to_le_bytes zero v h = omega arith
from_le_bytes-to_le_bytes (suc w) v h =
    omega (arith, from_le_bytes-to_le_bytes w (v / 256) (omega arith))

pub from_le_bytes-lt : (bs : List ℕ) → All IsByte bs → from_le_bytes bs < 256 ^ length bs
unfolding from_le_bytes
from_le_bytes-lt [] h = omega arith
from_le_bytes-lt (b ∷ bs) (p, h) = omega (arith, from_le_bytes-lt bs h, pow-suc 256 (length bs))

-- Two byte strings of one length with one value are equal.
pub to_le_bytes-from_le_bytes :
    (bs : List ℕ) → All IsByte bs → to_le_bytes (length bs) (from_le_bytes bs) ≡ bs
unfolding from_le_bytes to_le_bytes
to_le_bytes-from_le_bytes [] h = refl
to_le_bytes-from_le_bytes (b ∷ bs) (p, h) =
    ap₂ ◌∷◌ (omega arith)
      (ap (to_le_bytes (length bs)) (omega arith) ∙ to_le_bytes-from_le_bytes bs h)

-- High zero bytes do not count.
pub from_le_bytes-append_zeros :
    (bs : List ℕ) (n : ℕ) → from_le_bytes (bs ++ replicate n 0) ≡ from_le_bytes bs
unfolding from_le_bytes
from_le_bytes-append_zeros [] zero = refl
from_le_bytes-append_zeros [] (suc n) = omega (arith, from_le_bytes-append_zeros [] n)
from_le_bytes-append_zeros (b ∷ bs) n = omega (arith, from_le_bytes-append_zeros bs n)

-- The low bytes of a wider value are the bytes of the value cut to the narrower type.
pub take-to_le_bytes : (n w v : ℕ) → n ≤ w → take n (to_le_bytes w v) ≡ to_le_bytes n v
unfolding to_le_bytes
take-to_le_bytes zero w v h = refl
take-to_le_bytes (suc n) zero v h = absurd (omega arith)
take-to_le_bytes (suc n) (suc w) v h =
    ap (◌∷◌ (v % 256)) (take-to_le_bytes n w (v / 256) (omega arith))

-- What does not fit the width is dropped.
pub to_le_bytes_wrap : (w v x : ℕ) → to_le_bytes w (v + x * 256 ^ w) ≡ to_le_bytes w v
unfolding to_le_bytes
to_le_bytes_wrap zero v x = refl
to_le_bytes_wrap (suc w) v x =
    let scaled : x * 256 ^ suc w ≡ x * 256 ^ w * 256 = omega (arith, ap (◌*◌ x) (pow-suc 256 w)) in
    let above : (v + x * 256 ^ w * 256) / 256 ≡ v / 256 + x * 256 ^ w = omega arith in
    rw scaled (ap₂ ◌∷◌ (omega arith) (ap (to_le_bytes w) above ∙ to_le_bytes_wrap w (v / 256) x))
