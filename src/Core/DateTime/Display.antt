-- ===== src/Core/DateTime/Display.antt =====
-- core/src/types.rs, `Display for DateTime`.
use bluetooth_ots_rs.Base.{
  ℕ, zero, suc, ◌+◌, ◌-◌, ◌*◌, ◌/◌, ◌%◌, ◌<◌, ◌≡◌, refl, ap, sym, ◌∙◌, arith, Option, none, some,
  List, [], ◌∷◌, ◌++◌, append-nil, length, replicate, ltb, leb, le→leb, ◌&&◌, ◌==◌, if◌then◌else◌,
}
use bluetooth_ots_rs.Core.DateTime.{DateTime}

abbrev pub digit : ℕ → ℕ
digit d = 0x30 + d

-- The decimal digits of a number, as characters, in so many places at most.
unfoldable emit : (places : ℕ) → ℕ → List ℕ
emit zero n = []
emit (suc places) n =
    let high = emit places (n / 10) in
    if ltb n 10 then digit n ∷ [] else high ++ (digit (n % 10) ∷ [])

-- `{:0width}` of a `u16` or a `u8`, which have five digits at most.
unfoldable pub padded : (width : ℕ) → ℕ → List ℕ
unfolding emit
padded width n = let digits = emit 5 n in replicate (width - length digits) 0x30 ++ digits

-- `Display::fmt`, as characters.
unfoldable pub display : DateTime → List ℕ
display t =
    padded 4 t.year
    ++ (0x2D
        ∷ (padded 2 t.month
            ++ (0x2D
                ∷ (padded 2 t.day
                    ++ (0x20
                        ∷ (padded 2 t.hour
                            ++ (0x3A ∷ (padded 2 t.minute ++ (0x3A ∷ padded 2 t.second)))))))))

two : (n : ℕ) → n < 100 → padded 2 n ≡ digit (n / 10) ∷ digit (n % 10) ∷ []
unfolding padded
two n h = ground arith

four :
    (n : ℕ)
    → n < 10000
    → padded 4 n
      ≡ digit (n / 1000) ∷ digit (n / 100 % 10) ∷ digit (n / 10 % 10) ∷ digit (n % 10) ∷ []
unfolding padded
four n h = ground arith

module _ {A : Type 0} where
  -- Decimal digits, of which there must be so many.
  pub number : (places : ℕ) → ℕ → List ℕ → (ℕ → List ℕ → Option A) → Option A
  number zero n text then_ = then_ n text
  number (suc places) n [] then_ = none
  number (suc places) n (c ∷ text) then_ =
      let rest = number places (n * 10 + (c - 0x30)) text then_ in
      if leb 0x30 c && leb c 0x39 then rest else none

  -- The character that must come next.
  pub expect : ℕ → List ℕ → (List ℕ → Option A) → Option A
  expect c [] then_ = none
  expect c (d ∷ text) then_ = if d == c then then_ text else none

  number_done :
      (n : ℕ) (text : List ℕ) (then_ : ℕ → List ℕ → Option A) → number 0 n text then_ ≡ then_ n text
  unfolding number
  number_done n text then_ = refl

  digit_read :
      (places n d m : ℕ) (text : List ℕ) (then_ : ℕ → List ℕ → Option A)
      → d < 10
      → n * 10 + d ≡ m
      → number (suc places) n (digit d ∷ text) then_ ≡ number places m text then_
  unfolding number
  digit_read places n d m text then_ h e =
      rw (sym e, le→leb 0x30 (digit d) (omega arith), le→leb (digit d) 0x39 (omega arith))
        (ap (λ k. number places k text then_) (omega arith))

  two_read :
      (n : ℕ) (text : List ℕ) (then_ : ℕ → List ℕ → Option A)
      → n < 100
      → number 2 0 (padded 2 n ++ text) then_ ≡ then_ n text
  two_read n text then_ h = rw (two n h) (
      digit_read 1 0 (n / 10) (n / 10) (digit (n % 10) ∷ text) then_ (omega arith) (omega arith)
      ∙ digit_read 0 (n / 10) (n % 10) n text then_ (omega arith) (omega arith)
      ∙ number_done n text then_)

  four_read :
      (n : ℕ) (text : List ℕ) (then_ : ℕ → List ℕ → Option A)
      → n < 10000
      → number 4 0 (padded 4 n ++ text) then_ ≡ then_ n text
  four_read n text then_ h =
      let last : List ℕ = digit (n % 10) ∷ text in
      let tens : List ℕ = digit (n / 10 % 10) ∷ last in
      let hundreds : List ℕ = digit (n / 100 % 10) ∷ tens in
      rw (four n h) (
        digit_read 3 0 (n / 1000) (n / 1000) hundreds then_ (omega arith) (omega arith)
        ∙ digit_read 2 (n / 1000) (n / 100 % 10) (n / 100) tens then_ (omega arith) (omega arith)
        ∙ digit_read 1 (n / 100) (n / 10 % 10) (n / 10) last then_ (omega arith) (omega arith)
        ∙ digit_read 0 (n / 10) (n % 10) n text then_ (omega arith) (omega arith)
        ∙ number_done n text then_)

-- The end of the text.
pub done : DateTime → List ℕ → Option DateTime
done t [] = some t
done t (_ ∷ _) = none

from_second : (year month day hour minute second : ℕ) → List ℕ → Option DateTime
from_second year month day hour minute second = done (record {
  year = year;
  month = month;
  day = day;
  hour = hour;
  minute = minute;
  second = second;
})

from_minute : (year month day hour minute : ℕ) → List ℕ → Option DateTime
from_minute year month day hour minute text =
    expect 0x3A text λ rest. number 2 0 rest (from_second year month day hour minute)

from_hour : (year month day hour : ℕ) → List ℕ → Option DateTime
from_hour year month day hour text =
    expect 0x3A text λ rest. number 2 0 rest (from_minute year month day hour)

from_day : (year month day : ℕ) → List ℕ → Option DateTime
from_day year month day text = expect 0x20 text λ rest. number 2 0 rest (from_hour year month day)

from_month : (year month : ℕ) → List ℕ → Option DateTime
from_month year month text = expect 0x2D text λ rest. number 2 0 rest (from_day year month)

from_year : (year : ℕ) → List ℕ → Option DateTime
from_year year text = expect 0x2D text λ rest. number 2 0 rest (from_month year)

-- A reader of the format YYYY-MM-DD hh:mm:ss, which takes no other text: each place holds a digit,
-- and the separators are the two hyphens, the space and the two colons.
pub read : List ℕ → Option DateTime
read text = number 4 0 text from_year

-- A year of four places and other fields of two.
abbrev pub FitsPlaces : DateTime → Type 0
FitsPlaces t =
    (t.year < 10000)
    × (t.month < 100)
    × (t.day < 100)
    × (t.hour < 100)
    × (t.minute < 100)
    × (t.second < 100)

-- A time whose year is below 10000 and whose other fields are below 100 is printed in the format
-- YYYY-MM-DD hh:mm:ss: a reader that takes nothing but four digits, a hyphen, two digits, a hyphen,
-- two digits, a space and three times two digits with colons between them reads the time back.
pub read-display : (t : DateTime) → FitsPlaces t → read (display t) ≡ some t
unfolding display read from_year from_month from_day from_hour from_minute from_second expect done
read-display t (y, mo, d, h, mi, s) =
    let second : List ℕ = padded 2 t.second in
    let minute : List ℕ = padded 2 t.minute ++ (0x3A ∷ second) in
    let hour : List ℕ = padded 2 t.hour ++ (0x3A ∷ minute) in
    let day : List ℕ = padded 2 t.day ++ (0x20 ∷ hour) in
    let month : List ℕ = padded 2 t.month ++ (0x2D ∷ day) in
    four_read t.year (0x2D ∷ month) from_year y
    ∙ two_read t.month (0x2D ∷ day) (from_month t.year) mo
    ∙ two_read t.day (0x20 ∷ hour) (from_day t.year t.month) d
    ∙ two_read t.hour (0x3A ∷ minute) (from_hour t.year t.month t.day) h
    ∙ two_read t.minute (0x3A ∷ second) (from_minute t.year t.month t.day t.hour) mi
    ∙ ap (λ x. number 2 0 x (from_second t.year t.month t.day t.hour t.minute))
        (sym (append-nil (padded 2 t.second)))
    ∙ two_read t.second [] (from_second t.year t.month t.day t.hour t.minute) s
