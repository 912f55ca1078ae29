-- ===== src/Core/Utf8.antt =====
-- `core::str::from_utf8` of the standard library, by which names are decoded. A Rust string is its
-- bytes.
use bluetooth_ots_rs.Base.{
  ℕ, ◌+◌, ◌≡◌, arith, Option, none, some, List, [], ◌∷◌, ◌&&◌, ltb, leb, ◌==◌, if◌then◌else◌,
}
use bluetooth_ots_rs.Base.Outcome.{ok, err, Returns}
use bluetooth_ots_rs.Core.Error.{Utf8Error, Result, bad_utf8}

-- A continuation byte.
abbrev pub tail : ℕ × ℕ
tail = (0x80, 0xBF)

-- The ranges of the bytes that must follow a first byte; `none` if it begins no character.
unfoldable pub first_byte : ℕ → Option (List (ℕ × ℕ))
first_byte b =
    if ltb b 0x80
    then some []
    else if ltb b 0xC2
    then none
    else if ltb b 0xE0
    then some (tail ∷ [])
    else if b == 0xE0
    then some ((0xA0, 0xBF) ∷ tail ∷ [])
    else if b == 0xED
    then some ((0x80, 0x9F) ∷ tail ∷ [])
    else if ltb b 0xF0
    then some (tail ∷ tail ∷ [])
    else if b == 0xF0
    then some ((0x90, 0xBF) ∷ tail ∷ tail ∷ [])
    else if ltb b 0xF4
    then some (tail ∷ tail ∷ tail ∷ [])
    else if b == 0xF4
    then some ((0x80, 0x8F) ∷ tail ∷ tail ∷ [])
    else none

-- `start` is where the current character begins, `seen` how many of its bytes were read, and the
-- ranges are those of its bytes to come.
unfoldable pub validate : (start seen : ℕ) → List (ℕ × ℕ) → List ℕ → Option Utf8Error
validate start seen [] [] = none
validate start seen (_ ∷ _) [] = some (record { valid_up_to = start; error_len = none })
validate start seen [] (b ∷ bs) = elim (first_byte b) [
  | none ↦ some (record { valid_up_to = start + seen; error_len = some 1 })
  | some ranges ↦ validate (start + seen) 1 ranges bs
]
validate start seen ((lo, hi) ∷ ranges) (b ∷ bs) =
    let rest = validate start (seen + 1) ranges bs in
    if leb lo b && leb b hi
    then rest
    else some (record { valid_up_to = start; error_len = some seen })

-- `core::str::from_utf8(bytes)?`, with the conversion of its error.
unfoldable pub from_utf8 : List ℕ → Result (List ℕ)
from_utf8 bytes = elim (validate 0 0 [] bytes) [ none ↦ ok bytes | some e ↦ err (bad_utf8 e) ]

pub from_utf8-Returns : (bytes : List ℕ) → Returns (from_utf8 bytes)
unfolding from_utf8
from_utf8-Returns bytes = ground arith

-- A string that is decoded is its bytes.
pub from_utf8-eq : (bytes name : List ℕ) → from_utf8 bytes ≡ ok name → name ≡ bytes
unfolding from_utf8
from_utf8-eq bytes name h = ground arith
