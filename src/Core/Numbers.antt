-- ===== src/Core/Numbers.antt =====
-- core/src/types.rs and core/src/lib.rs: 48-bit numbers and the sizes of an object.

pub mod RoundTrip
use bluetooth_ots_rs.Base.{ℕ, List, [], ◌∷◌, length, take, get_or}
use bluetooth_ots_rs.Base.Bytes.{from_le_bytes, to_le_bytes}
use bluetooth_ots_rs.Base.Outcome.{Outcome, ok, ◌>>=◌, ◌>>◌, split_at}
use bluetooth_ots_rs.Core.Error.{Result, check_size_exact}

-- `raw` is an array of six bytes.
pub record Ule48 : Type 0 where
  pub raw : List ℕ

-- `TryFrom<&[u8]> for Ule48`
unfoldable pub ule48_try_from : List ℕ → Result Ule48
unfolding check_size_exact split_at
ule48_try_from raw = do
  check_size_exact 6 (length raw)
  (bytes, _) ← split_at 6 raw
  ok (record { raw = bytes })

-- `From<u64> for Ule48`: the first six of the eight bytes.
unfoldable pub ule48_from : ℕ → Ule48
ule48_from val = record { raw = take 6 (to_le_bytes 8 val) }

-- `From<Ule48> for u64`
unfoldable pub ule48_into : Ule48 → ℕ
ule48_into u = from_le_bytes (
    get_or u.raw 0 0
    ∷ get_or u.raw 1 0
    ∷ get_or u.raw 2 0
    ∷ get_or u.raw 3 0
    ∷ get_or u.raw 4 0
    ∷ get_or u.raw 5 0
    ∷ 0
    ∷ 0
    ∷ [])

-- `types::Sizes` of two `u32`, and `Sizes` of two `usize`, which holds the same numbers.
pub record Sizes : Type 0 where
  pub current : ℕ
  pub allocated : ℕ

-- `From<&[u8; 8]>`
unfoldable pub sizes_from : List ℕ → Result Sizes
unfolding split_at
sizes_from raw = do
  (current, rest) ← split_at 4 raw
  (allocated, _) ← split_at 4 rest
  ok (record { current = from_le_bytes current; allocated = from_le_bytes allocated })

-- `TryFrom<&[u8]> for types::Sizes`
unfoldable pub types_sizes_try_from : List ℕ → Result Sizes
unfolding check_size_exact sizes_from split_at
types_sizes_try_from raw = do
  check_size_exact 8 (length raw)
  (bytes, _) ← split_at 8 raw
  sizes_from bytes

-- `TryFrom<&[u8]> for Sizes`: the length is checked twice.
unfoldable pub sizes_try_from : List ℕ → Result Sizes
unfolding check_size_exact types_sizes_try_from
sizes_try_from raw = do
  check_size_exact 8 (length raw)
  sizes ← types_sizes_try_from raw
  ok (record { current = sizes.current; allocated = sizes.allocated })
