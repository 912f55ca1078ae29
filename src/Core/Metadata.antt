-- ===== src/Core/Metadata.antt =====
-- core/src/types.rs: the record of one object in the directory.
pub mod Safe
pub mod Wire
pub mod RoundTrip
pub mod Times
use bluetooth_ots_rs.Base.{ℕ, ◌+◌, Bool, Option, none, some, List, length, if◌then◌else◌}
use bluetooth_ots_rs.Base.Bytes.{from_le_bytes}
use bluetooth_ots_rs.Base.Outcome.{ok, err, ◌>>=◌, ◌>>◌, split_at}
use bluetooth_ots_rs.Core.DateTime.{DateTime, date_time_from}
use bluetooth_ots_rs.Core.Error.{Result, bad_dir_flags, check_len}
use bluetooth_ots_rs.Core.Flags.{property, try_from_array}
use bluetooth_ots_rs.Core.Numbers.{Ule48, ule48_into}
use bluetooth_ots_rs.Core.Utf8.{from_utf8}
use bluetooth_ots_rs.Core.Uuids.{from_short}
use bluetooth_ots_rs.Crates.{Bitflags, UuidCrate}

pub record Metadata (Uuid : Type 0) : Type 0 where
  pub id : Option ℕ
  pub name : List ℕ
  pub type_ : Uuid
  pub current_size : Option ℕ
  pub allocated_size : Option ℕ
  pub first_created : Option DateTime
  pub last_modified : Option DateTime
  pub properties : ℕ

-- `DirFlag`
abbrev pub type_uuid128 : ℕ
type_uuid128 = 0x01

abbrev pub has_current_size : ℕ
has_current_size = 0x02

abbrev pub has_allocated_size : ℕ
has_allocated_size = 0x04

abbrev pub has_first_created : ℕ
has_first_created = 0x08

abbrev pub has_last_modified : ℕ
has_last_modified = 0x10

abbrev pub has_properties : ℕ
has_properties = 0x20

abbrev pub has_extended_flags : ℕ
has_extended_flags = 0x80

abbrev pub dir_flags : ℕ
dir_flags =
    type_uuid128 + has_current_size + has_allocated_size + has_first_created + has_last_modified
    + has_properties + has_extended_flags

-- A size, if its flag is set, and the bytes behind it.
unfoldable pub read_size : Bool → List ℕ → Result (Option ℕ × List ℕ)
unfolding check_len split_at
read_size set raw =
    if set
    then (do
      check_len (length raw) 4
      (size, rest) ← split_at 4 raw
      ok (some (from_le_bytes size), rest))
    else ok (none, raw)

unfoldable pub read_time : Bool → List ℕ → Result (Option DateTime × List ℕ)
unfolding check_len split_at
read_time set raw =
    if set
    then (do
      check_len (length raw) 7
      (time, rest) ← split_at 7 raw
      ok (some (date_time_from time), rest))
    else ok (none, raw)

module _ (b : Bitflags) where
  -- `Property::default()` has no bit set.
  unfoldable pub read_properties : Bool → List ℕ → Result (ℕ × List ℕ)
  unfolding check_len split_at
  read_properties set raw =
      if set
      then (do
        check_len (length raw) 4
        (bytes, rest) ← split_at 4 raw
        props ← try_from_array b property bytes
        ok (props, rest))
      else ok (0, raw)

  unfoldable pub read_flags : ℕ → Result ℕ
  read_flags flags = elim (b.from_bits dir_flags flags) [
    | none ↦ err (bad_dir_flags flags)
    | some f ↦ ok f
  ]

module _ (b : Bitflags) (u : UuidCrate) where
  unfoldable pub read_type : Bool → List ℕ → Result (u.Uuid × List ℕ)
  unfolding check_len split_at
  read_type long raw =
      if long
      then (do
        check_len (length raw) 16
        (uuid, rest) ← split_at 16 raw
        ok (u.from_bytes uuid, rest))
      else (do (uuid, rest) ← split_at 2 raw; ok (from_short u (from_le_bytes uuid), rest))

  -- What follows the flags. Both times are read by the flag `HasFirstCreated`.
  unfoldable pub read_fields : (id : ℕ) → (name : List ℕ) → ℕ → List ℕ → Result (Metadata u.Uuid)
  read_fields id name flags raw = do
    (type_, raw₁) ← read_type (b.contains flags type_uuid128) raw
    (current_size, raw₂) ← read_size (b.contains flags has_current_size) raw₁
    (allocated_size, raw₃) ← read_size (b.contains flags has_allocated_size) raw₂
    (first_created, raw₄) ← read_time (b.contains flags has_first_created) raw₃
    (last_modified, raw₅) ← read_time (b.contains flags has_first_created) raw₄
    (properties, _) ← read_properties b (b.contains flags has_properties) raw₅
    ok (record {
      id = some id;
      name = name;
      type_ = type_;
      current_size = current_size;
      allocated_size = allocated_size;
      first_created = first_created;
      last_modified = last_modified;
      properties = properties;
    })

  -- What follows the length of the name.
  unfoldable pub read_named : (id name_len : ℕ) → List ℕ → Result (Metadata u.Uuid)
  read_named id name_len raw = do
    check_len (length raw) (name_len + 1 + 2)
    (bytes, raw₁) ← split_at name_len raw
    name ← from_utf8 bytes
    (flag_bytes, raw₂) ← split_at 1 raw₁
    flags ← read_flags b (from_le_bytes flag_bytes)
    read_fields id name flags raw₂

  -- `TryFrom<&[u8]> for Metadata`
  unfoldable pub metadata_try_from : List ℕ → Result (Metadata u.Uuid)
  metadata_try_from raw = do
    check_len (length raw) 11
    (id, raw₁) ← split_at 6 raw
    (name_len, raw₂) ← split_at 1 raw₁
    read_named (ule48_into (record { raw = id })) (from_le_bytes name_len) raw₂
