-- ===== src/Crates.antt =====
-- What the program takes from the crates `bitflags` and `uuid`: operations, with the behaviour
-- that their documentation states.
use bluetooth_ots_rs.Base.{
  ℕ, ◌+◌, ◌*◌, ◌^◌, ◌≡◌, Bool, Option, none, some, List, length, All, bit_and, ◌==◌, if◌then◌else◌,
}
use bluetooth_ots_rs.Base.Bytes.{IsByte, from_be_bytes}

-- A flags type is its bits. `known` is the union of the flags that the type declares.
pub record Bitflags : Type 0 where
  pub from_bits : (known bits : ℕ) → Option ℕ
  pub contains : (bits other : ℕ) → Bool
  -- `from_bits` gives `None` if any unknown bit is set.
  pub from_bits_lem :
      (known bits : ℕ)
      → from_bits known bits ≡ (if bit_and bits known == bits then some bits else none)
  -- `contains` is whether all bits of `other` are set.
  pub contains_lem : (bits other : ℕ) → contains bits other ≡ (bit_and bits other == other)

pub record UuidCrate : Type 1 where
  pub Uuid : Type 0
  pub from_u128 : ℕ → Uuid
  pub from_bytes : List ℕ → Uuid
  pub from_slice : List ℕ → Option Uuid
  pub from_fields : ℕ → ℕ → ℕ → List ℕ → Uuid
  pub as_ref : Uuid → List ℕ
  -- A slice of 16 bytes is taken as it is.
  pub from_slice_sixteen : (b : List ℕ) → length b ≡ 16 → from_slice b ≡ some (from_bytes b)
  -- A `u128` is read in big-endian order.
  pub from_u128_lem :
      (b : List ℕ) → length b ≡ 16 → All IsByte b → from_u128 (from_be_bytes b) ≡ from_bytes b
  -- The fields have 32, 16 and 16 bits, and 8 bytes, highest first.
  pub from_fields_lem :
      (d1 d2 d3 : ℕ) (d4 : List ℕ)
      → length d4 ≡ 8
      → from_fields d1 d2 d3 d4
        ≡ from_u128 (d1 * 2 ^ 96 + d2 * 2 ^ 80 + d3 * 2 ^ 64 + from_be_bytes d4)
  -- The bytes of a UUID are 16.
  pub length-as_ref : (u : Uuid) → length (as_ref u) ≡ 16
