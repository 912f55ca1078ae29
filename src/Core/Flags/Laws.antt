-- ===== src/Core/Flags/Laws.antt =====
-- core/src/types.rs, `bitflag_types!`: the values that the decoders take, and the printed texts.
use bluetooth_ots_rs.Base.{
  ℕ, ◌^◌, ◌%◌, ◌<◌, ◌≡◌, refl, sym, ap, ◌∙◌, arith, true, false, some, none, String, List, [], ◌∷◌,
  length, ltb, ◌==◌, if◌then◌else◌, take_all, Bool-cases, inl, inr,
}
use Prim.Native.String.{◌++◌ as ◌<>◌}
use native.Mathlib.Nat.{one-le-pow, mod-eq_of_lt, mod-lt}
use native.Mathlib.Decide.{dec_lt}
use text.Mathlib.TextLemmas.{append_assoc as text_assoc, append-nil as text-nil, nil-append}
use bluetooth_ots_rs.Base.Bits.{ones, bit_and-ones}
use bluetooth_ots_rs.Base.Bytes.{from_le_bytes}
use bluetooth_ots_rs.Base.Outcome.{ok, err, split_at}
use bluetooth_ots_rs.Core.Error.{Result, not_enough_data, too_many_data, check_size_exact}
use bluetooth_ots_rs.Core.Flags.{
  FlagTable, action_feature, list_feature, property, known, try_from_array, try_from_slice,
  fmt_flags, display,
}
use bluetooth_ots_rs.Crates.{Bitflags}

-- The value of the flags whose highest declared bit is `k - 1`: four bytes, and no higher bit set.
abbrev pub flags_outcome : FlagTable → ℕ → List ℕ → Result ℕ
flags_outcome t k raw =
    if ltb (length raw) 4
    then err (not_enough_data (length raw) 4)
    else if ltb 4 (length raw)
    then err (too_many_data (length raw) 4)
    else if ltb (from_le_bytes raw) (2 ^ k)
    then ok (from_le_bytes raw)
    else err (t.bad (from_le_bytes raw))

mod-eq_self : (m v : ℕ) → 0 < m → (v % m == v) ≡ ltb v m
mod-eq_self m v h = elim (dec_lt v m) [
  | yes p ↦ rw (mod-eq_of_lt p) (ground arith)
  | no p ↦ let small : v % m < m = mod-lt v h in ground arith
]

module _ (b : Bitflags) where
  from_bits-ones : (k v : ℕ) → b.from_bits (ones k) v ≡ (if ltb v (2 ^ k) then some v else none)
  from_bits-ones k v =
      rw (b.from_bits_lem (ones k) v, bit_and-ones k v)
        (ap (λ c. if c then some v else none)
          (mod-eq_self (2 ^ k) v (one-le-pow k 2 (omega arith))))

module _ (b : Bitflags) (t : FlagTable) where
  pub try_from_array_lem :
      (k : ℕ) (raw : List ℕ)
      → known t.flags ≡ ones k
      → try_from_array b t raw ≡ (
          if ltb (from_le_bytes raw) (2 ^ k)
          then ok (from_le_bytes raw)
          else err (t.bad (from_le_bytes raw)))
  unfolding try_from_array
  try_from_array_lem k raw e = ground (arith, from_bits-ones b k (from_le_bytes raw), e)

  try_from_slice_lem :
      (k : ℕ) (raw : List ℕ)
      → known t.flags ≡ ones k
      → try_from_slice b t raw ≡ flags_outcome t k raw
  unfolding try_from_slice check_size_exact split_at
  try_from_slice_lem k raw e = ground (arith, take_all 4 raw, try_from_array_lem k raw e)

-- Each of the three flag types is decoded from four bytes with no bit above its highest flag: 9 for
-- the action features, 3 for the list features, 7 for the properties. Other lengths and values are
-- refused with the error for them.
pub try_from_slice-flags :
    (b : Bitflags) (raw : List ℕ)
    → (try_from_slice b action_feature raw ≡ flags_outcome action_feature 10 raw)
      × (try_from_slice b list_feature raw ≡ flags_outcome list_feature 4 raw)
      × (try_from_slice b property raw ≡ flags_outcome property 8 raw)
try_from_slice-flags b raw = (
  try_from_slice_lem b action_feature 10 raw refl,
  try_from_slice_lem b list_feature 4 raw refl,
  try_from_slice_lem b property 8 raw refl,
)

-- The texts of the flags that are set, in the order of the declaration.
abbrev pub set_texts : Bitflags → List (ℕ × String) → ℕ → List String
set_texts b [] bits = []
set_texts b ((bit, text) ∷ flags) bits =
    let rest = set_texts b flags bits in if b.contains bits (2 ^ bit) then text ∷ rest else rest

abbrev pub spaced : List String → String
spaced [] = ""
spaced (t ∷ ts) = " " <> (t <> spaced ts)

abbrev pub unwords : List String → String
unwords [] = ""
unwords (t ∷ ts) = t <> spaced ts

fmt_flags_later :
    (b : Bitflags) (flags : List (ℕ × String)) (bits : ℕ) (out : String)
    → fmt_flags b flags bits false out ≡ out <> spaced (set_texts b flags bits)
unfolding fmt_flags
fmt_flags_later b [] bits out = sym (text-nil out)
fmt_flags_later b ((bit, text) ∷ flags) bits out = elim (Bool-cases (b.contains bits (2 ^ bit))) [
  | inl e ↦
      rw (e, fmt_flags_later b flags bits ((out <> " ") <> text))
        (text_assoc (out <> " ") text _ ∙ text_assoc out " " _)
  | inr e ↦ rw e (fmt_flags_later b flags bits out)
]

fmt_flags_first :
    (b : Bitflags) (flags : List (ℕ × String)) (bits : ℕ)
    → fmt_flags b flags bits true "" ≡ unwords (set_texts b flags bits)
unfolding fmt_flags
fmt_flags_first b [] bits = refl
fmt_flags_first b ((bit, text) ∷ flags) bits = elim (Bool-cases (b.contains bits (2 ^ bit))) [
  | inl e ↦ rw (e, nil-append text) (fmt_flags_later b flags bits text)
  | inr e ↦ rw e (fmt_flags_first b flags bits)
]

-- A flags value is printed as the texts of its set flags in the order of their declaration, with
-- one space between two texts and none at the ends.
pub display-unwords :
    (b : Bitflags) (t : FlagTable) (bits : ℕ)
    → display b t bits ≡ unwords (set_texts b t.flags bits)
unfolding display
display-unwords b t bits = fmt_flags_first b t.flags bits
