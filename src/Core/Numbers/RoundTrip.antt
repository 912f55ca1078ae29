-- ===== src/Core/Numbers/RoundTrip.antt =====
-- core/src/types.rs and core/src/lib.rs: 48-bit numbers and sizes on every length of the input.
use bluetooth_ots_rs.Base.{
  ℕ, ◌%◌, ◌^◌, ◌≡◌, arith, List, [], ◌∷◌, length, ltb, if◌then◌else◌, take_all, take, drop,
  length-drop,
}
use bluetooth_ots_rs.Base.Bytes.{from_le_bytes, to_le_bytes}
use bluetooth_ots_rs.Base.Outcome.{ok, err, ◌>>=◌}
use bluetooth_ots_rs.Core.Error.{Result, not_enough_data, too_many_data}
use bluetooth_ots_rs.Core.Numbers.{ule48_try_from, ule48_from, ule48_into, sizes_try_from}

-- A `u64` that goes through a 48-bit number keeps its low 48 bits.
pub ule48_into-ule48_from : (val : ℕ) → ule48_into (ule48_from val) ≡ val % 2 ^ 48
unfolding ule48_into ule48_from to_le_bytes from_le_bytes
ule48_into-ule48_from val = omega arith

-- Input of one exact length.
abbrev pub exactly {ℓ} : {A : Type ℓ} → ℕ → List ℕ → A → Result A
exactly n raw a =
    if ltb (length raw) n
    then err (not_enough_data (length raw) n)
    else if ltb n (length raw)
    then err (too_many_data (length raw) n)
    else ok a

ule48_try_from_lem : (raw : List ℕ) → ule48_try_from raw ≡ exactly 6 raw (record { raw = raw })
unfolding ule48_try_from
ule48_try_from_lem raw = ground (arith, take_all 6 raw)

ule48_into_six :
    (raw : List ℕ) → length raw ≡ 6 → ule48_into (record { raw = raw }) ≡ from_le_bytes raw
unfolding ule48_into from_le_bytes
ule48_into_six (_ ∷ _ ∷ _ ∷ _ ∷ _ ∷ _ ∷ []) h = omega arith
ule48_into_six _ h = absurd (omega arith)

-- The `u64` that is read from the bytes of a 48-bit number is their value, lowest byte first, and
-- any other input than six bytes is refused.
pub ule48_try_from-into :
    (raw : List ℕ)
    → (ule48_try_from raw >>= λ u. ok (ule48_into u)) ≡ exactly 6 raw (from_le_bytes raw)
ule48_try_from-into raw = rw ule48_try_from_lem (ground (arith, ule48_into_six raw))

-- Two numbers of 32 bits that are written one after the other are read as the sizes, and any other
-- input than eight bytes is refused.
pub sizes_try_from_lem :
    (raw : List ℕ)
    → sizes_try_from raw
      ≡ exactly 8 raw (record {
        current = from_le_bytes (take 4 raw);
        allocated = from_le_bytes (take 4 (drop 4 raw));
      })
unfolding sizes_try_from
sizes_try_from_lem raw = ground (arith, take_all 8 raw, length-drop 4 raw)
