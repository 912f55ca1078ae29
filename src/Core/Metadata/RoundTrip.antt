-- ===== src/Core/Metadata/RoundTrip.antt =====
-- core/src/types.rs, `Metadata`: the parser on records in the format of the service.
use bluetooth_ots_rs.Base.{
  ℕ, ◌+◌, ◌^◌, ◌≤◌, ◌<◌, ◌≡◌, refl, ◌∙◌, arith, Bool, true, false, none, some, List, [], ◌∷◌, ◌++◌,
  length, length-append, reverse, length-reverse, if◌then◌else◌, le→ltb,
}
use bluetooth_ots_rs.Base.Bytes.{
  from_le_bytes, to_le_bytes, length-to_le_bytes, from_le_bytes-to_le_bytes,
}
use bluetooth_ots_rs.Base.Outcome.{ok, ◌>>=◌, ◌>>◌, split_at, split_at-append}
use bluetooth_ots_rs.Core.DateTime.{DateTime}
use bluetooth_ots_rs.Core.Error.{Error, Result, check_len}
use bluetooth_ots_rs.Core.Flags.{property, try_from_array}
use bluetooth_ots_rs.Core.Flags.Laws.{try_from_array_lem}
use bluetooth_ots_rs.Core.Metadata.{
  read_size, read_time, read_properties, read_flags, read_type, read_fields, read_named,
  metadata_try_from, dir_flags, type_uuid128,
}
use bluetooth_ots_rs.Core.DateTime.RoundTrip.{time_wire, date_time_from-time_wire}
use bluetooth_ots_rs.Core.Metadata.Wire.{
  Entry, FitsEntry, ObjectType, FitsType, uuid_bytes, type_bytes, turned, with_turned_type, has,
  optional, after_type, field_bytes, wire, meaning,
}
use bluetooth_ots_rs.Core.Numbers.{ule48_into}
use bluetooth_ots_rs.Core.Uuids.Agree.{from_short-full_form}
use bluetooth_ots_rs.Crates.{Bitflags, UuidCrate}

-- A checked cut of a front part whose length is known.
cut :
    {A : Type 0} (n : ℕ) (xs rest : List ℕ) (f : List ℕ × List ℕ → Result A)
    → length xs ≡ n
    → (check_len (length (xs ++ rest)) n >> (split_at n (xs ++ rest) >>= f)) ≡ f (xs, rest)
unfolding check_len
cut n xs rest f h = rw (
  le→ltb (length (xs ++ rest)) n (omega (arith, length-append xs rest)),
  split_at-append {E = Error} n xs rest h,
)

read_size_back :
    (set : Bool) (n : ℕ) (rest : List ℕ)
    → n < 2 ^ 32
    → read_size set (optional set (to_le_bytes 4 n) ++ rest)
      ≡ ok ((if set then some n else none), rest)
unfolding read_size
read_size_back false n rest h = refl
read_size_back true n rest h =
    cut 4 (to_le_bytes 4 n) rest _ (length-to_le_bytes 4 n) ∙ rw (from_le_bytes-to_le_bytes 4 n h)

read_time_back :
    (set : Bool) (t : DateTime) (rest : List ℕ)
    → t.year < 2 ^ 16
    → read_time set (optional set (time_wire t) ++ rest) ≡ ok ((if set then some t else none), rest)
unfolding read_time
read_time_back false t rest h = refl
read_time_back true t rest h =
    cut 7 (time_wire t) rest _ (unfold to_le_bytes in refl) ∙ rw (date_time_from-time_wire t h)

from_le_bytes_one : (n : ℕ) → from_le_bytes (n ∷ []) ≡ n
unfolding from_le_bytes
from_le_bytes_one n = omega arith

ule48_back : (id : ℕ) → id < 2 ^ 48 → ule48_into (record { raw = to_le_bytes 6 id }) ≡ id
unfolding ule48_into to_le_bytes from_le_bytes
ule48_back id h = omega arith

module _ (b : Bitflags) where
  properties_back : (v : ℕ) → v < 2 ^ 8 → try_from_array b property (to_le_bytes 4 v) ≡ ok v
  properties_back v h =
      try_from_array_lem b property 8 (to_le_bytes 4 v) refl
      ∙ rw (from_le_bytes-to_le_bytes 4 v (omega arith)) (ground arith)

  read_properties_back :
      (set : Bool) (v : ℕ) (rest : List ℕ)
      → v < 2 ^ 8
      → read_properties b set (optional set (to_le_bytes 4 v) ++ rest)
        ≡ ok ((if set then v else 0), rest)
  unfolding read_properties
  read_properties_back false v rest h = refl
  read_properties_back true v rest h =
      cut 4 (to_le_bytes 4 v) rest _ (length-to_le_bytes 4 v) ∙ rw (properties_back v h)

  read_flags_back :
      (flags : ℕ) → b.from_bits dir_flags flags ≡ some flags → read_flags b flags ≡ ok flags
  unfolding read_flags
  read_flags_back flags h = rw (h, read_flags)

module _ (b : Bitflags) (u : UuidCrate) where
  read_type_back :
      (is_long : Bool) (t : ObjectType) (rest : List ℕ)
      → FitsType is_long t
      → read_type b u is_long (type_bytes t ++ rest)
        ≡ ok (u.from_bytes (uuid_bytes (turned t)), rest)
  unfolding read_type
  read_type_back true (ObjectType.long bytes) rest h =
      cut 16 (reverse bytes) rest _ (length-reverse bytes ∙ h)
  read_type_back false (ObjectType.short low high) rest (hl, hh) =
      rw
        (
          split_at-append {E = Error} 2 (low ∷ high ∷ []) rest refl,
          from_short-full_form u low high hl hh,
        )
        refl
  read_type_back true (ObjectType.short low high) rest h = absurd h
  read_type_back false (ObjectType.long bytes) rest h = absurd h

  type_bytes-long :
      (is_long : Bool) (t : ObjectType) → FitsType is_long t → 2 ≤ length (type_bytes t)
  type_bytes-long true (ObjectType.long bytes) h = omega (arith, length-reverse bytes, h)
  type_bytes-long false (ObjectType.short low high) h = omega arith
  type_bytes-long true (ObjectType.short low high) h = absurd h
  type_bytes-long false (ObjectType.long bytes) h = absurd h

  read_fields_back :
      (e : Entry) (tail : List ℕ)
      → FitsEntry b e
      → read_fields b u e.id e.name e.flags (field_bytes b e tail)
        ≡ ok (meaning b (with_turned_type e) u)
  unfolding read_fields
  read_fields_back e tail f = rw (
    read_type_back (has b e type_uuid128) e.type_ (after_type b e tail) f.type_fits,
    f.times_together,
    read_size_back,
    f.current_fits,
    read_size_back,
    f.allocated_fits,
    read_time_back,
    f.created_fits,
    read_time_back,
    f.modified_fits,
    read_properties_back,
    f.properties_known,
  )

  field_bytes-long : (e : Entry) (tail : List ℕ) → FitsEntry b e → 2 ≤ length (field_bytes b e tail)
  field_bytes-long e tail f = omega (
    arith,
    type_bytes-long (has b e type_uuid128) e.type_ f.type_fits,
    length-append (type_bytes e.type_) (after_type b e tail),
  )

  read_named_back :
      (e : Entry) (tail : List ℕ)
      → FitsEntry b e
      → read_named b u e.id (length e.name) (e.name ++ (e.flags ∷ field_bytes b e tail))
        ≡ ok (meaning b (with_turned_type e) u)
  unfolding read_named check_len
  read_named_back e tail f =
      let rest : List ℕ = e.flags ∷ field_bytes b e tail in
      let enough : length e.name + 1 + 2 ≤ length (e.name ++ rest) =
        omega (arith, length-append e.name rest, field_bytes-long e tail f) in
      rw
        (
          le→ltb _ _ enough,
          split_at-append {E = Error} (length e.name) e.name rest refl,
          f.name_valid,
          split_at-append {E = Error} 1 (e.flags ∷ []) (field_bytes b e tail) refl,
          from_le_bytes_one,
          read_flags_back b e.flags f.flags_known,
        )
        (read_fields_back e tail f)

  -- A record that is laid out as the service specification says is parsed to the metadata that it
  -- stands for, but where the type has sixteen bytes, with these bytes in reverse order, with any
  -- bytes behind it. Its values fit the widths of their fields, its name is valid text, its flags and
  -- properties are known, its two times are there together or not at all, and it has eleven bytes at
  -- least with what is behind it: an empty name and a short type alone make ten.
  pub metadata_try_from-wire :
      (e : Entry) (tail : List ℕ)
      → FitsEntry b e
      → 11 ≤ length (wire b e tail)
      → metadata_try_from b u (wire b e tail) ≡ ok (meaning b (with_turned_type e) u)
  unfolding metadata_try_from check_len
  metadata_try_from-wire e tail f enough =
      let named : List ℕ = e.name ++ (e.flags ∷ field_bytes b e tail) in
      rw
        (
          le→ltb _ _ enough,
          split_at-append {E = Error} 6 (to_le_bytes 6 e.id) (length e.name ∷ named)
              (length-to_le_bytes 6 e.id),
          split_at-append {E = Error} 1 (length e.name ∷ []) named refl,
          from_le_bytes_one,
          ule48_back e.id f.id_fits,
        )
        (read_named_back e tail f)
