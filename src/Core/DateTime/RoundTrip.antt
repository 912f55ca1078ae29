-- ===== src/Core/DateTime/RoundTrip.antt =====
-- core/src/types.rs, `DateTime`: the seven bytes of a time.
use bluetooth_ots_rs.Base.{ℕ, ◌^◌, ◌<◌, ◌≡◌, ap, ap₂, arith, List, [], ◌∷◌, ◌++◌}
use bluetooth_ots_rs.Base.Bytes.{IsByte, from_le_bytes, to_le_bytes}
use bluetooth_ots_rs.Base.Outcome.{ok, split_at}
use bluetooth_ots_rs.Core.DateTime.{DateTime, date_time_from, date_time_try_from}
use bluetooth_ots_rs.Core.Error.{check_len, check_len_exact}

-- The format of the service: the year in two bytes, lowest first, and a byte for each other field.
abbrev pub time_wire : DateTime → List ℕ
time_wire t = to_le_bytes 2 t.year ++ (t.month ∷ t.day ∷ t.hour ∷ t.minute ∷ t.second ∷ [])

pub date_time_from-time_wire : (t : DateTime) → t.year < 2 ^ 16 → date_time_from (time_wire t) ≡ t
unfolding date_time_from to_le_bytes from_le_bytes
date_time_from-time_wire t h = ground arith

-- A time whose year has two bytes is read back from the bytes of the format, and seven bytes are
-- the bytes of the time that is read from them.
pub date_time_try_from-time_wire :
    (t : DateTime) (a b c d e f g : ℕ)
    → t.year < 2 ^ 16
    → IsByte a
    → IsByte b
    → (date_time_try_from (time_wire t) ≡ ok t)
      × (time_wire (date_time_from (a ∷ b ∷ c ∷ d ∷ e ∷ f ∷ g ∷ []))
          ≡ a ∷ b ∷ c ∷ d ∷ e ∷ f ∷ g ∷ [])
unfolding date_time_try_from date_time_from check_len_exact check_len split_at to_le_bytes
    from_le_bytes
date_time_try_from-time_wire t a b c d e f g h ha hb = (
  ap (λ year. ok (record t { year = year })) (omega arith),
  ap₂ (λ x y. x ∷ y ∷ c ∷ d ∷ e ∷ f ∷ g ∷ []) (omega arith) (omega arith),
)
