-- ===== src/Core/DateTime.antt =====
-- core/src/types.rs: the time of creation and of modification of an object.
pub mod RoundTrip
pub mod Display
pub mod Convert
use bluetooth_ots_rs.Base.{ℕ, List, [], ◌∷◌, length, get_or}
use bluetooth_ots_rs.Base.Bytes.{from_le_bytes}
use bluetooth_ots_rs.Base.Outcome.{ok, ◌>>=◌, ◌>>◌, split_at}
use bluetooth_ots_rs.Core.Error.{Result, check_len_exact}

pub record DateTime : Type 0 where
  pub year : ℕ
  pub month : ℕ
  pub day : ℕ
  pub hour : ℕ
  pub minute : ℕ
  pub second : ℕ

-- `From<&[u8; 7]>`
unfoldable pub date_time_from : List ℕ → DateTime
date_time_from raw = record {
  year = from_le_bytes (get_or raw 0 0 ∷ get_or raw 1 0 ∷ []);
  month = get_or raw 2 0;
  day = get_or raw 3 0;
  hour = get_or raw 4 0;
  minute = get_or raw 5 0;
  second = get_or raw 6 0;
}

-- `TryFrom<&[u8]>`
unfoldable pub date_time_try_from : List ℕ → Result DateTime
unfolding check_len_exact split_at date_time_from
date_time_try_from raw = do
  check_len_exact (length raw) 7
  (bytes, _) ← split_at 7 raw
  ok (date_time_from bytes)
