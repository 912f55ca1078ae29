-- ===== src/Tests/Records.antt =====
-- The theorems on the records of the directory, applied to records as they go over the air.
use bluetooth_ots_rs.Base.{
  ℕ, ◌≤◌, ◌<◌, ◌≡◌, ◌≢◌, ◌↔◌, refl, arith, true, false, none, some, List, [], ◌∷◌, map, inl,
  replicate,
}
use bluetooth_ots_rs.Base.Bytes.{to_le_bytes}
use bluetooth_ots_rs.Base.Outcome.{ok, err, panic, Returns}
use bluetooth_ots_rs.Core.DateTime.{DateTime, date_time_from, date_time_try_from}
use bluetooth_ots_rs.Core.DateTime.RoundTrip.{time_wire, date_time_try_from-time_wire}
use bluetooth_ots_rs.Core.DirEntries.{DirEntries, dir_entries, split_dir_entry, next, drain}
use bluetooth_ots_rs.Core.DirEntries.Directory.{directory, drain-directory, drain_ends}
use bluetooth_ots_rs.Core.DirEntries.Steps.{claimed, item_of, next-panic_iff}
use bluetooth_ots_rs.Core.Error.{not_enough_data, check_len}
use bluetooth_ots_rs.Core.Metadata.{metadata_try_from}
use bluetooth_ots_rs.Core.Metadata.RoundTrip.{metadata_try_from-wire}
use bluetooth_ots_rs.Core.Metadata.Safe.{metadata_try_from-Returns}
use bluetooth_ots_rs.Core.Metadata.Times.{is_some, metadata_try_from-times}
use bluetooth_ots_rs.Core.Metadata.Wire.{
  ObjectType, Entry, FitsEntry, wire, meaning, with_turned_type,
}
use bluetooth_ots_rs.Core.Utf8.{first_byte, validate, from_utf8}
use bluetooth_ots_rs.Tests.Instances.{bits, uuids}

abbrev noon : DateTime
noon = record { year = 2022; month = 3; day = 1; hour = 12; minute = 0; second = 0 }

-- A file `ab` with both sizes, both times and the properties.
abbrev file : Entry
file = record {
  id = 0x100;
  name = 0x61 ∷ 0x62 ∷ [];
  flags = 0x3e;
  type_ = ObjectType.short 0xca 0x2a;
  current_size = 10;
  allocated_size = 20;
  first_created = noon;
  last_modified = noon;
  properties = 5;
}

file_name : from_utf8 file.name ≡ ok file.name
unfolding from_utf8 validate first_byte
file_name = refl

file-FitsEntry : FitsEntry bits file
file-FitsEntry = record {
  id_fits = omega arith;
  name_fits = omega arith;
  name_valid = file_name;
  flags_known = refl;
  type_fits = (omega arith, omega arith);
  current_fits = omega arith;
  allocated_fits = omega arith;
  created_fits = omega arith;
  modified_fits = omega arith;
  times_together = refl;
  properties_known = omega arith;
}

-- The same file with a type of sixteen bytes.
abbrev typed : Entry
typed = record file {
  flags = 0x3f;
  type_ =
      ObjectType.long (0 ∷ 1 ∷ 2 ∷ 3 ∷ 4 ∷ 5 ∷ 6 ∷ 7 ∷ 8 ∷ 9 ∷ 10 ∷ 11 ∷ 12 ∷ 13 ∷ 14 ∷ 15 ∷ []);
}

typed-FitsEntry : FitsEntry bits typed
typed-FitsEntry = record {
  id_fits = omega arith;
  name_fits = omega arith;
  name_valid = file_name;
  flags_known = refl;
  type_fits = refl;
  current_fits = omega arith;
  allocated_fits = omega arith;
  created_fits = omega arith;
  modified_fits = omega arith;
  times_together = refl;
  properties_known = omega arith;
}

metadata_try_from-wire_example :
    metadata_try_from bits uuids (wire bits typed (7 ∷ []))
    ≡ ok (meaning bits (with_turned_type typed) uuids)
unfolding to_le_bytes
metadata_try_from-wire_example =
    metadata_try_from-wire bits uuids typed (7 ∷ []) typed-FitsEntry (omega arith)

-- The file itself is parsed to what it stands for.
file_parsed : metadata_try_from bits uuids (wire bits file (7 ∷ [])) ≡ ok (meaning bits file uuids)
unfolding to_le_bytes
file_parsed = metadata_try_from-wire bits uuids file (7 ∷ []) file-FitsEntry (omega arith)

metadata_try_from-times_example :
    is_some (meaning bits file uuids).last_modified
    ≡ is_some (meaning bits file uuids).first_created
metadata_try_from-times_example =
    metadata_try_from-times bits uuids (wire bits file (7 ∷ [])) (meaning bits file uuids)
      file_parsed

metadata_try_from-Returns_example : Returns (metadata_try_from bits uuids (replicate 12 9))
metadata_try_from-Returns_example = metadata_try_from-Returns bits uuids (replicate 12 9)

-- A body of twelve bytes, and one whose name is cut off.
abbrev bodies : List (List ℕ)
bodies = replicate 12 0 ∷ replicate 11 9 ∷ []

drain-directory_example :
    drain bits uuids 3 (dir_entries (directory bodies)) ≡ ok (map (item_of bits uuids) bodies)
drain-directory_example =
    drain-directory bits uuids bodies 3 (omega arith)
      ((omega arith, omega arith), ((omega arith, omega arith), tt))

drain_ends_example : drain bits uuids 5 (dir_entries (1 ∷ 2 ∷ 3 ∷ [])) ≢ err tt
drain_ends_example = drain_ends bits uuids 5 (dir_entries (1 ∷ 2 ∷ 3 ∷ [])) (omega arith)

next-panic_iff_example :
    (next bits uuids (dir_entries (replicate 13 0)) ≡ panic)
    ↔ ((false ≡ false) × (13 ≤ 13) × (claimed (replicate 13 0) < 2))
next-panic_iff_example = next-panic_iff bits uuids (dir_entries (replicate 13 0))

abbrev spent : DirEntries
spent = record { raw = 1 ∷ []; done = true }

next_short : next bits uuids (dir_entries (1 ∷ [])) ≡ ok (some (inl (not_enough_data 1 13)), spent)
unfolding next split_dir_entry check_len
next_short = refl

next-spent : next bits uuids spent ≡ ok (none, spent)
unfolding next
next-spent = refl

date_time_try_from-time_wire_example :
    (date_time_try_from (time_wire noon) ≡ ok noon)
    × (time_wire (date_time_from (0xe6 ∷ 7 ∷ 3 ∷ 1 ∷ 12 ∷ 0 ∷ 0 ∷ []))
        ≡ 0xe6 ∷ 7 ∷ 3 ∷ 1 ∷ 12 ∷ 0 ∷ 0 ∷ [])
date_time_try_from-time_wire_example =
    date_time_try_from-time_wire noon 0xe6 7 3 1 12 0 0 (omega arith) (omega arith) (omega arith)
