-- ===== src/Core/Uuids.antt =====
-- core/src/types.rs, `uuid_from_raw`, and core/src/ids.rs, the assigned identifiers.
pub mod Agree
use bluetooth_ots_rs.Base.{
  ℕ, ◌*◌, ◌^◌, List, [], ◌∷◌, none, some, length, bit_or, ◌==◌, if◌then◌else◌,
}
use bluetooth_ots_rs.Base.Bytes.{from_le_bytes}
use bluetooth_ots_rs.Base.Outcome.{ok, err, ◌>>=◌, split_at}
use bluetooth_ots_rs.Core.Error.{Result, bad_uuid, bad_uuid_size}
use bluetooth_ots_rs.Crates.{UuidCrate}

abbrev pub uuid_base : ℕ
uuid_base = 0x00000000_0000_1000_8000_00805f9b34fb

module _ (u : UuidCrate) where
  open u use {Uuid, from_u128, from_slice, from_fields}

  -- `Uuid::from_u128(UUID_BASE | ((value as u128) << 96))`. The value has 32 bits at most, so the
  -- shift loses none.
  unfoldable pub from_short : ℕ → Uuid
  from_short value = from_u128 (bit_or uuid_base (value * 2 ^ 96))

  unfoldable pub uuid_from_raw : List ℕ → Result Uuid
  unfolding from_short
  uuid_from_raw raw =
      if length raw == 2
      then (do (bytes, _) ← split_at 2 raw; ok (from_short (from_le_bytes bytes)))
      else if length raw == 4
      then (do (bytes, _) ← split_at 4 raw; ok (from_short (from_le_bytes bytes)))
      else if length raw == 16
      then elim (from_slice raw) [ none ↦ err bad_uuid | some uuid ↦ ok uuid ]
      else err (bad_uuid_size (length raw))

  -- The constants that the macro `ids!` declares.
  unfoldable pub assigned : ℕ → Uuid
  assigned uuid =
      from_fields uuid 0x0 0x1000 (0x80 ∷ 0x00 ∷ 0x00 ∷ 0x80 ∷ 0x5f ∷ 0x9b ∷ 0x34 ∷ 0xfb ∷ [])

  abbrev pub object_transfer : Uuid
  object_transfer = assigned 0x1825

  abbrev pub ots_feature : Uuid
  ots_feature = assigned 0x2ABD

  abbrev pub object_name : Uuid
  object_name = assigned 0x2ABE

  abbrev pub object_type : Uuid
  object_type = assigned 0x2ABF

  abbrev pub object_size : Uuid
  object_size = assigned 0x2AC0

  abbrev pub object_first_created : Uuid
  object_first_created = assigned 0x2AC1

  abbrev pub object_last_modified : Uuid
  object_last_modified = assigned 0x2AC2

  abbrev pub object_id : Uuid
  object_id = assigned 0x2AC3

  abbrev pub object_properties : Uuid
  object_properties = assigned 0x2AC4

  abbrev pub object_action_control_point : Uuid
  object_action_control_point = assigned 0x2AC5

  abbrev pub object_list_control_point : Uuid
  object_list_control_point = assigned 0x2AC6

  abbrev pub object_list_filter : Uuid
  object_list_filter = assigned 0x2AC7

  abbrev pub object_changed : Uuid
  object_changed = assigned 0x2AC8
