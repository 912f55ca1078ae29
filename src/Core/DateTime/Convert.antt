-- ===== src/Core/DateTime/Convert.antt =====
-- core/src/types.rs: the conversions of a `DateTime` to and from the crates `time` and `chrono`.
use native.Mathlib.Nat.{mod-eq_of_lt}
use bluetooth_ots_rs.Base.{
  ℕ, ◌%◌, ◌^◌, ◌<◌, ◌≡◌, refl, subst, arith, ◌⊎◌, inl, inr, Option, none, some,
}
use bluetooth_ots_rs.Base.Outcome.{Outcome, ok, err, ◌>>=◌, >>=-both, ok_injective}
use bluetooth_ots_rs.Core.DateTime.{DateTime}

-- What is taken of the crate `time`. A year is its 32 bits, as a two's complement.
pub record TimeCrate : Type 1 where
  pub Error : Type 0
  pub Month : Type 0
  pub Date : Type 0
  pub Time : Type 0
  pub month_try_from : ℕ → Error ⊎ Month
  pub month_number : Month → ℕ
  pub from_calendar_date : (year : ℕ) → Month → (day : ℕ) → Error ⊎ Date
  pub from_hms : (hour minute second : ℕ) → Error ⊎ Time
  pub year : Date → ℕ
  pub month : Date → Month
  pub day : Date → ℕ
  pub hour : Time → ℕ
  pub minute : Time → ℕ
  pub second : Time → ℕ
  -- What is made has the parts that it was made from.
  pub month_made : (n : ℕ) (m : Month) → month_try_from n ≡ inr m → month_number m ≡ n
  pub date_made :
      (y : ℕ) (m : Month) (d : ℕ) (date : Date)
      → from_calendar_date y m d ≡ inr date
      → (year date ≡ y) × (month date ≡ m) × (day date ≡ d)
  pub time_made :
      (h m s : ℕ) (t : Time)
      → from_hms h m s ≡ inr t
      → (hour t ≡ h) × (minute t ≡ m) × (second t ≡ s)

abbrev result : {E A : Type 0} → E ⊎ A → Outcome E A
result (inl e) = err e
result (inr a) = ok a

module _ (c : TimeCrate) where
  -- `TryFrom<DateTime> for time::PrimitiveDateTime`, which is a date and a time.
  unfoldable pub to_time : DateTime → Outcome c.Error (c.Date × c.Time)
  to_time dt = do
    month ← result (c.month_try_from dt.month)
    date ← result (c.from_calendar_date dt.year month dt.day)
    time ← result (c.from_hms dt.hour dt.minute dt.second)
    ok (date, time)

  -- `From<time::PrimitiveDateTime>`
  unfoldable pub from_time : c.Date × c.Time → DateTime
  from_time (date, time) = record {
    year = c.year date % 2 ^ 16;
    month = c.month_number (c.month date);
    day = c.day date;
    hour = c.hour time;
    minute = c.minute time;
    second = c.second time;
  }

result-inr : {E A : Type 0} (r : E ⊎ A) (a : A) → result r ≡ ok a → r ≡ inr a
result-inr (inl e) a p = cc
result-inr (inr x) a p = cc

module _ (c : TimeCrate) where
  -- A time that converts to one of the crate `time` comes back as it was, if its year has 16 bits.
  pub from_time-to_time :
      (dt : DateTime) (p : c.Date × c.Time)
      → dt.year < 2 ^ 16
      → to_time c dt ≡ ok p
      → from_time c p ≡ dt
  unfolding to_time from_time
  from_time-to_time dt p fits e =
      let (month, m, e1) = >>=-both (result (c.month_try_from dt.month)) _ e in
      let (date, d, e2) = >>=-both (result (c.from_calendar_date dt.year month dt.day)) _ e1 in
      let (time, t, e3) = >>=-both (result (c.from_hms dt.hour dt.minute dt.second)) _ e2 in
      let month_is = c.month_made dt.month month (result-inr _ month m) in
      let (year_is, kept, day_is) = c.date_made dt.year month dt.day date (result-inr _ date d) in
      let (hour_is, minute_is, second_is) =
        c.time_made dt.hour dt.minute dt.second time (result-inr _ time t) in
      let whole : dt.year % 2 ^ 16 ≡ dt.year = omega arith in
      subst (λ q. from_time c q ≡ dt) (ok_injective (date, time) p e3)
        (rw (year_is, kept, month_is, day_is, hour_is, minute_is, second_is, whole) refl)

-- What is taken of the crate `chrono`.
pub record ChronoCrate : Type 1 where
  pub Date : Type 0
  pub Time : Type 0
  pub from_ymd_opt : (year month day : ℕ) → Option Date
  pub from_hms_opt : (hour minute second : ℕ) → Option Time
  pub year : Date → ℕ
  pub month : Date → ℕ
  pub day : Date → ℕ
  pub hour : Time → ℕ
  pub minute : Time → ℕ
  pub second : Time → ℕ
  -- What is made has the parts that it was made from.
  pub date_made :
      (y m d : ℕ) (date : Date)
      → from_ymd_opt y m d ≡ some date
      → (year date ≡ y) × (month date ≡ m) × (day date ≡ d)
  pub time_made :
      (h m s : ℕ) (t : Time)
      → from_hms_opt h m s ≡ some t
      → (hour t ≡ h) × (minute t ≡ m) × (second t ≡ s)

-- `ok_or(())`
abbrev or_unit : {A : Type 0} → Option A → Outcome (Unit {0}) A
or_unit none = err tt
or_unit (some a) = ok a

module _ (c : ChronoCrate) where
  -- `TryFrom<DateTime> for chrono::naive::NaiveDateTime`, which is a date and a time.
  unfoldable pub to_chrono : DateTime → Outcome (Unit {0}) (c.Date × c.Time)
  to_chrono dt = do
    date ← or_unit (c.from_ymd_opt dt.year dt.month dt.day)
    time ← or_unit (c.from_hms_opt dt.hour dt.minute dt.second)
    ok (date, time)

  -- `From<chrono::naive::NaiveDateTime>`
  unfoldable pub from_chrono : c.Date × c.Time → DateTime
  from_chrono (date, time) = record {
    year = c.year date % 2 ^ 16;
    month = c.month date % 2 ^ 8;
    day = c.day date % 2 ^ 8;
    hour = c.hour time % 2 ^ 8;
    minute = c.minute time % 2 ^ 8;
    second = c.second time % 2 ^ 8;
  }

or_unit-some : {A : Type 0} (r : Option A) (a : A) → or_unit r ≡ ok a → r ≡ some a
or_unit-some none a p = cc
or_unit-some (some x) a p = cc

-- The fields have the range of their types.
abbrev pub FitsFields : DateTime → Type 0
FitsFields t =
    (t.year < 2 ^ 16)
    × (t.month < 2 ^ 8)
    × (t.day < 2 ^ 8)
    × (t.hour < 2 ^ 8)
    × (t.minute < 2 ^ 8)
    × (t.second < 2 ^ 8)

low_bits : (n k : ℕ) → n < 2 ^ k → n % 2 ^ k ≡ n
low_bits n k h = mod-eq_of_lt h

module _ (c : ChronoCrate) where
  -- A time that converts to one of the crate `chrono` comes back as it was, if its fields are in the
  -- range of their types.
  pub from_chrono-to_chrono :
      (dt : DateTime) (p : c.Date × c.Time)
      → FitsFields dt
      → to_chrono c dt ≡ ok p
      → from_chrono c p ≡ dt
  unfolding to_chrono from_chrono
  from_chrono-to_chrono dt p (y, mo, d, h, mi, s) e =
      let (date, made, e1) = >>=-both (or_unit (c.from_ymd_opt dt.year dt.month dt.day)) _ e in
      let (time, timed, e2) =
        >>=-both (or_unit (c.from_hms_opt dt.hour dt.minute dt.second)) _ e1 in
      let (year_is, month_is, day_is) =
        c.date_made dt.year dt.month dt.day date (or_unit-some _ date made) in
      let (hour_is, minute_is, second_is) =
        c.time_made dt.hour dt.minute dt.second time (or_unit-some _ time timed) in
      subst (λ q. from_chrono c q ≡ dt) (ok_injective (date, time) p e2)
        (rw
          (
            year_is,
            month_is,
            day_is,
            hour_is,
            minute_is,
            second_is,
            low_bits dt.year 16 y,
            low_bits dt.month 8 mo,
            low_bits dt.day 8 d,
            low_bits dt.hour 8 h,
            low_bits dt.minute 8 mi,
            low_bits dt.second 8 s,
          )
          refl)
