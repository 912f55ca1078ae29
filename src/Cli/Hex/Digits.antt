-- ===== src/Cli/Hex/Digits.antt =====
-- cli/src/main.rs, the hexadecimal input of `WriteArgs::run`: what it means, and its round trip.
use bluetooth_ots_rs.Base.{
  ℕ, ◌+◌, ◌*◌, ◌/◌, ◌%◌, ◌<◌, ◌≡◌, refl, ap, ap₂, ◌∙◌, map, arith, true, false, Option, none, some,
  List, [], ◌∷◌, ltb, if◌then◌else◌, All, inl, inr, Bool-cases, Option-cases, ◌++◌,
}
use bluetooth_ots_rs.Base.Bits.{nibbles_or}
use bluetooth_ots_rs.Base.Bytes.{IsByte}
use bluetooth_ots_rs.Base.Outcome.{Outcome, ok, err}
use bluetooth_ots_rs.Cli.Hex.{is_whitespace, to_digit, parse, push}

-- The digits of a text: `none` if a character is neither white space nor a digit.
abbrev pub digits : List ℕ → Option (List ℕ)
digits [] = some []
digits (chr ∷ rest) = elim (is_whitespace chr) [
  | true ↦ digits rest
  | false ↦ elim (to_digit chr) [
    | some dig ↦ elim (digits rest) [ some ds ↦ some (dig ∷ ds) | none ↦ none ]
    | none ↦ none
  ]
]

-- Two digits make a byte, the high one first. A digit without a second one is dropped.
abbrev pub pairs : List ℕ → List ℕ
pairs [] = []
pairs (high ∷ []) = []
pairs (high ∷ low ∷ ds) = (high * 16 + low) ∷ pairs ds

abbrev pub after_half : Option ℕ → List ℕ → List ℕ
after_half none ds = pairs ds
after_half (some high) ds = pairs (high ∷ ds)

abbrev IsDigit : ℕ → Type 0
IsDigit d = d < 16

to_digit-IsDigit : (c d : ℕ) → to_digit c ≡ some d → IsDigit d
unfolding to_digit
to_digit-IsDigit c d e = ground arith

-- What the loop keeps of a first digit.
abbrev stored : Option ℕ → Option ℕ
stored none = none
stored (some high) = some (high * 16 % 256)

abbrev IsHalf : Option ℕ → Type 0
IsHalf none = Unit {0}
IsHalf (some high) = IsDigit high

module _ {E : Type 0} (bad : E) where
  abbrev pub read_as : (List ℕ → List ℕ) → Option (List ℕ) → Outcome E (List ℕ)
  read_as f none = err bad
  read_as f (some ds) = ok (f ds)

  step_digits :
      (half : Option ℕ) (d : ℕ) (more : Option ℕ → Outcome E (List ℕ)) (rest : Option (List ℕ))
      → IsHalf half
      → IsDigit d
      → ((half' : Option ℕ) → IsHalf half' → more (stored half') ≡ read_as (after_half half') rest)
      → push bad more (stored half) d
        ≡ read_as (after_half half) (elim rest [ some ds ↦ some (d ∷ ds) | none ↦ none ])
  unfolding push
  step_digits none d more none p q k = k (some d) q
  step_digits none d more (some ds) p q k = k (some d) q
  step_digits (some high) d more none p q k = rw (k none tt) refl
  step_digits (some high) d more (some ds) p q k = rw (k none tt, nibbles_or high d p q) refl

  parse_half :
      (half : Option ℕ) (cs : List ℕ)
      → IsHalf half
      → parse bad (stored half) cs ≡ read_as (after_half half) (digits cs)
  unfolding parse
  parse_half none [] p = refl
  parse_half (some high) [] p = refl
  parse_half half (chr ∷ rest) p = elim (Bool-cases (is_whitespace chr)) [
    | inl space ↦ rw (space, parse, digits) (parse_half half rest p)
    | inr other ↦
        rw (other, parse, digits)
          (elim (Option-cases (to_digit chr)) [
            | inl absent ↦ rw absent refl
            | inr (d, is) ↦ rw is (
                step_digits half d (λ half'. parse bad half' rest) (digits rest) p
                  (to_digit-IsDigit chr d is) λ half' p'. parse_half half' rest p')
          ])
  ]

  -- A hexadecimal text is read as the bytes that its digits make in pairs, whatever white space is
  -- between them, and a digit left over at the end is dropped; a text with any other character is
  -- refused.
  pub parse-pairs : (cs : List ℕ) → parse bad none cs ≡ read_as pairs (digits cs)
  parse-pairs cs = parse_half none cs tt

-- The lower-case digit.
abbrev pub digit_char : ℕ → ℕ
digit_char d = if ltb d 10 then 0x30 + d else 0x57 + d

-- Bytes as a hexadecimal text, with the separators that are given for each byte.
abbrev pub hex_text : List (List ℕ × ℕ) → List ℕ
hex_text [] = []
hex_text ((space, byte) ∷ rest) =
    space ++ (digit_char (byte / 16) ∷ digit_char (byte % 16) ∷ hex_text rest)

abbrev pub IsSpace : ℕ → Type 0
IsSpace c = is_whitespace c ≡ true

digits-space : (space cs : List ℕ) → All IsSpace space → digits (space ++ cs) ≡ digits cs
digits-space [] cs h = refl
digits-space (c ∷ space) cs (p, h) = rw (p, digits) (digits-space space cs h)

is_whitespace-digit_char : (d : ℕ) → IsDigit d → is_whitespace (digit_char d) ≡ false
unfolding is_whitespace
is_whitespace-digit_char d h = ground arith

to_digit-digit_char : (d : ℕ) → IsDigit d → to_digit (digit_char d) ≡ some d
unfolding to_digit
to_digit-digit_char d h = ground arith

-- The digits of the bytes.
abbrev nibbles : List (List ℕ × ℕ) → List ℕ
nibbles [] = []
nibbles ((space, byte) ∷ rest) = byte / 16 ∷ byte % 16 ∷ nibbles rest

abbrev pub IsSpaced : List ℕ × ℕ → Type 0
IsSpaced (space, byte) = All IsSpace space × IsByte byte

digits-hex_text :
    (bytes : List (List ℕ × ℕ))
    → All IsSpaced bytes
    → digits (hex_text bytes) ≡ some (nibbles bytes)
digits-hex_text [] h = refl
digits-hex_text ((space, byte) ∷ rest) ((spaces, fits), h) =
    digits-space space (digit_char (byte / 16) ∷ digit_char (byte % 16) ∷ hex_text rest) spaces
    ∙ rw
        (
          digits,
          is_whitespace-digit_char (byte / 16) (omega arith),
          to_digit-digit_char (byte / 16) (omega arith),
          is_whitespace-digit_char (byte % 16) (omega arith),
          to_digit-digit_char (byte % 16) (omega arith),
          digits-hex_text rest h,
        )
        refl

pairs-nibbles : (bytes : List (List ℕ × ℕ)) → pairs (nibbles bytes) ≡ map (λ p. p.1) bytes
pairs-nibbles [] = refl
pairs-nibbles ((space, byte) ∷ rest) = ap₂ ◌∷◌ (omega arith) (pairs-nibbles rest)

-- Bytes that are written as two hexadecimal digits each, with any white space before each byte, are
-- read back.
pub parse-hex_text :
    {E : Type 0} (bad : E) (bytes : List (List ℕ × ℕ))
    → All IsSpaced bytes
    → parse bad none (hex_text bytes) ≡ ok (map (λ p. p.1) bytes)
parse-hex_text bad bytes h =
    rw (parse-pairs bad (hex_text bytes), digits-hex_text bytes h) (ap ok (pairs-nibbles bytes))
