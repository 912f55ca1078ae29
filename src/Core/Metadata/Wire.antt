-- ===== src/Core/Metadata/Wire.antt =====
-- A record of the directory as the service specification lays it out: the fields that the flags
-- name, one after the other, each with its lowest byte first, and the metadata that it stands for.
use bluetooth_ots_rs.Base.{
  ℕ, ◌^◌, ◌<◌, ◌≡◌, Bool, true, false, none, some, List, [], ◌∷◌, ◌++◌, length, reverse,
  if◌then◌else◌,
}
use bluetooth_ots_rs.Base.Bytes.{IsByte, to_le_bytes}
use bluetooth_ots_rs.Base.Outcome.{ok}
use bluetooth_ots_rs.Core.DateTime.{DateTime}
use bluetooth_ots_rs.Core.DateTime.RoundTrip.{time_wire}
use bluetooth_ots_rs.Core.Metadata.{
  Metadata, type_uuid128, has_current_size, has_allocated_size, has_first_created,
  has_last_modified, has_properties, dir_flags,
}
use bluetooth_ots_rs.Core.Utf8.{from_utf8}
use bluetooth_ots_rs.Core.Uuids.Agree.{full_form}
use bluetooth_ots_rs.Crates.{Bitflags, UuidCrate}

-- A type is assigned, with a number of 16 bits, or has sixteen bytes of its own, highest first.
pub data ObjectType : Type 0 where
  short : (low high : ℕ) → ObjectType
  long : (bytes : List ℕ) → ObjectType

-- The sixteen bytes of the UUID, highest first.
abbrev pub uuid_bytes : ObjectType → List ℕ
uuid_bytes (short low high) = full_form low high 0 0
uuid_bytes (long bytes) = bytes

-- Its bytes in the record, lowest first.
abbrev pub type_bytes : ObjectType → List ℕ
type_bytes (short low high) = low ∷ high ∷ []
type_bytes (long bytes) = reverse bytes

-- The type with its sixteen bytes the other way round. An assigned one is left as it is.
abbrev pub turned : ObjectType → ObjectType
turned (short low high) = short low high
turned (long bytes) = long (reverse bytes)

-- The flag says which of the two it is, and the bytes are bytes.
abbrev pub FitsType : (is_long : Bool) → ObjectType → Type 0
FitsType false (short low high) = IsByte low × IsByte high
FitsType true (long bytes) = length bytes ≡ 16
FitsType false (long bytes) = ⊥
FitsType true (short low high) = ⊥

-- The values of all fields; those that the flags leave out are not on the wire.
pub record Entry : Type 0 where
  pub id : ℕ
  pub name : List ℕ
  pub flags : ℕ
  pub type_ : ObjectType
  pub current_size : ℕ
  pub allocated_size : ℕ
  pub first_created : DateTime
  pub last_modified : DateTime
  pub properties : ℕ

abbrev pub optional : Bool → List ℕ → List ℕ
optional set bytes = if set then bytes else []

module _ (b : Bitflags) (e : Entry) where
  abbrev pub has : ℕ → Bool
  has flag = b.contains e.flags flag

  abbrev pub after_type : List ℕ → List ℕ
  after_type tail =
      optional (has has_current_size) (to_le_bytes 4 e.current_size)
      ++ (optional (has has_allocated_size) (to_le_bytes 4 e.allocated_size)
          ++ (optional (has has_first_created) (time_wire e.first_created)
              ++ (optional (has has_last_modified) (time_wire e.last_modified)
                  ++ (optional (has has_properties) (to_le_bytes 4 e.properties) ++ tail))))

  abbrev pub field_bytes : List ℕ → List ℕ
  field_bytes tail = type_bytes e.type_ ++ after_type tail

  -- The record, with further bytes behind it.
  abbrev pub wire : List ℕ → List ℕ
  wire tail = to_le_bytes 6 e.id ++ (length e.name ∷ (e.name ++ (e.flags ∷ field_bytes tail)))

  -- The values have the widths of their fields, the name is valid text, no unknown flag is set and
  -- the two times are there together or not at all.
  pub record FitsEntry : Type 0 where
    pub id_fits : e.id < 2 ^ 48
    pub name_fits : length e.name < 2 ^ 8
    pub name_valid : from_utf8 e.name ≡ ok e.name
    pub flags_known : b.from_bits dir_flags e.flags ≡ some e.flags
    pub type_fits : FitsType (has type_uuid128) e.type_
    pub current_fits : e.current_size < 2 ^ 32
    pub allocated_fits : e.allocated_size < 2 ^ 32
    pub created_fits : e.first_created.year < 2 ^ 16
    pub modified_fits : e.last_modified.year < 2 ^ 16
    pub times_together : has has_last_modified ≡ has has_first_created
    pub properties_known : e.properties < 2 ^ 8

  -- The metadata that a record stands for.
  abbrev pub meaning : (u : UuidCrate) → Metadata u.Uuid
  meaning u = record {
    id = some e.id;
    name = e.name;
    type_ = u.from_bytes (uuid_bytes e.type_);
    current_size = if has has_current_size then some e.current_size else none;
    allocated_size = if has has_allocated_size then some e.allocated_size else none;
    first_created = if has has_first_created then some e.first_created else none;
    last_modified = if has has_last_modified then some e.last_modified else none;
    properties = if has has_properties then e.properties else 0;
  }

-- The entry with the bytes of its type turned round.
abbrev pub with_turned_type : Entry → Entry
with_turned_type e = record e { type_ = turned e.type_ }
