-- ===== src/Cli/Hex.antt =====
-- cli/src/main.rs, `WriteArgs::run`: the bytes that a hexadecimal text stands for.
pub mod Digits
use bluetooth_ots_rs.Base.{
  ℕ, zero, suc, ◌+◌, ◌-◌, ◌*◌, ◌%◌, Bool, true, false, Option, none, some, List, [], ◌∷◌, ◌&&◌,
  ◌||◌, ltb, leb, ◌==◌, bit_or, if◌then◌else◌,
}
use bluetooth_ots_rs.Base.Outcome.{Outcome, ok, err, ◌>>=◌}

-- The number of bytes to come of a character, and the bits that its first byte gives.
abbrev pub lead : ℕ → ℕ × ℕ
lead b =
    if ltb b 0x80
    then (0, b)
    else if ltb b 0xE0
    then (1, b - 0xC0)
    else if ltb b 0xF0
    then (2, b - 0xE0)
    else (3, b - 0xF0)

-- `str::chars` of the standard library, as code points: `left` bytes of the current character are to
-- come, and `bits` are those that were read.
unfoldable pub chars : (left bits : ℕ) → List ℕ → List ℕ
chars left bits [] = []
chars zero bits (b ∷ bs) =
    let (left, start) = lead b in
    let rest = chars left start bs in if left == 0 then b ∷ rest else rest
chars (suc zero) bits (b ∷ bs) = (bits * 64 + (b - 0x80)) ∷ chars zero 0 bs
chars (suc (suc left)) bits (b ∷ bs) = chars (suc left) (bits * 64 + (b - 0x80)) bs

-- `char::is_whitespace`: the characters with the property White_Space.
unfoldable pub is_whitespace : ℕ → Bool
is_whitespace c =
    (leb 0x9 c && leb c 0xD)
    || (c == 0x20)
    || (c == 0x85)
    || (c == 0xA0)
    || (c == 0x1680)
    || (leb 0x2000 c && leb c 0x200A)
    || (c == 0x2028)
    || (c == 0x2029)
    || (c == 0x202F)
    || (c == 0x205F)
    || (c == 0x3000)

-- `char::to_digit(16)`
unfoldable pub to_digit : ℕ → Option ℕ
to_digit c =
    if leb 0x30 c && leb c 0x39
    then some (c - 0x30)
    else if leb 0x61 c && leb c 0x66
    then some (c - 0x61 + 10)
    else if leb 0x41 c && leb c 0x46
    then some (c - 0x41 + 10)
    else none

module _ {E : Type 0} (bad : E) where
  -- `if let Some(half) = half.take()`, given the loop over the characters that follow.
  unfoldable pub push : (Option ℕ → Outcome E (List ℕ)) → Option ℕ → ℕ → Outcome E (List ℕ)
  push more (some half) dig = more none >>= λ data_. ok (bit_or half dig ∷ data_)
  push more none dig = more (some (dig * 16 % 256))

  -- The loop over the characters, with `bad` for a character that is no digit.
  unfoldable pub parse : (half : Option ℕ) → List ℕ → Outcome E (List ℕ)
  unfolding push
  parse half [] = ok []
  parse half (chr ∷ rest) = elim (is_whitespace chr) [
    | true ↦ parse half rest
    | false ↦ elim (to_digit chr) [
      | some dig ↦ push (λ half'. parse half' rest) half dig
      | none ↦ err bad
    ]
  ]
