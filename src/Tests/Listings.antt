-- ===== src/Tests/Listings.antt =====
-- The theorems on the listing and on the details of an object, applied to a host with two objects.
use bluetooth_ots_rs.Base.{ℕ, ◌≡◌, refl, arith, true, false, none, some, List, [], ◌∷◌, map}
use bluetooth_ots_rs.Base.Bytes.{from_le_bytes, from_be_bytes}
use bluetooth_ots_rs.Core.Flags.{try_from_slice}
use bluetooth_ots_rs.Base.Outcome.{ok}
use bluetooth_ots_rs.Cli.Args.{ListArgs}
use bluetooth_ots_rs.Cli.Command.{Piece, Session}
use bluetooth_ots_rs.Cli.Listing.{run, print_directory_data}
use bluetooth_ots_rs.Cli.Listing.Directory.{print_directory_data-printed, printed}
use bluetooth_ots_rs.Cli.Listing.{header}
use bluetooth_ots_rs.Cli.Listing.Detailed.Table.{run-detailed}
use bluetooth_ots_rs.Client.Objects.{metadata}
use bluetooth_ots_rs.Client.Objects.Described.{Details, IsDescribed}
use bluetooth_ots_rs.Client.Objects.Described.Whole.{metadata-value}
use bluetooth_ots_rs.Client.Served.{Object}
use bluetooth_ots_rs.Core.Numbers.{sizes_try_from}
use bluetooth_ots_rs.Core.Uuids.{uuid_from_raw, assigned}
use bluetooth_ots_rs.Tests.Library.{reads, book, map_}
use bluetooth_ots_rs.Cli.Listing.Missing.{asked, run-missing}
use bluetooth_ots_rs.Client.Transfer.{read, read_base, socket}
use bluetooth_ots_rs.Client.Transport.{connect}
use bluetooth_ots_rs.Client.Objects.{size}
use bluetooth_ots_rs.Client.Operations.{action_operation, action_request}
use bluetooth_ots_rs.Client.State.{request, first_value}
use bluetooth_ots_rs.Core.Requests.{encode_list, encode_action}
use bluetooth_ots_rs.Core.Requests.Server.{parse_list}
use bluetooth_ots_rs.Core.Responses.{decode_action}
use bluetooth_ots_rs.Core.Opcode.{try_from}
use bluetooth_ots_rs.Base.Bytes.{to_le_bytes}
use bluetooth_ots_rs.Base.Outcome.{index}
use bluetooth_ots_rs.Cli.Listing.Rows.{session, result_out}
use bluetooth_ots_rs.Core.DirEntries.Directory.{directory}
use bluetooth_ots_rs.Core.DirEntries.Steps.{item_of}
use bluetooth_ots_rs.Core.Utf8.{from_utf8, validate, first_byte}
use bluetooth_ots_rs.Tests.Instances.{bits, uuids}
use bluetooth_ots_rs.Tests.Library.{library, reader, serves, shelf}

-- `list` with one column.
abbrev names_only : ListArgs
names_only = record {
  id = false;
  name = true;
  type_ = false;
  cur_size = false;
  alloc_size = false;
  size = false;
  crt_time = false;
  mod_time = false;
  time = false;
  props = false;
  full = false;
  dir = false;
}

-- `list --name --size`
abbrev sizes_too : ListArgs
sizes_too = record names_only { size = true }

abbrev details : Object → Details ℕ
details o = record {
  id = none;
  name = o.name;
  type_ = assigned uuids 0x2ACA;
  size = record { current = 4; allocated = 8 };
  first_created = none;
  last_modified = none;
  properties = 5;
}

described :
    (o : Object)
    → from_utf8 o.name ≡ ok o.name
    → IsDescribed bits uuids library reader 2 serves reads o (details o)
unfolding uuid_from_raw sizes_try_from try_from_slice assigned from_le_bytes from_be_bytes
described o p = record {
  id_is = refl;
  name_is = p;
  type_is = refl;
  size_is = refl;
  created_is = refl;
  modified_is = refl;
  properties_is = refl;
}

book-IsDescribed : IsDescribed bits uuids library reader 2 serves reads book (details book)
unfolding from_utf8 validate first_byte
book-IsDescribed = described book refl

map-IsDescribed : IsDescribed bits uuids library reader 2 serves reads map_ (details map_)
unfolding from_utf8 validate first_byte
map-IsDescribed = described map_ refl

metadata-value_example :
    (metadata bits uuids library reader shelf ≡ (
      ok (record {
        id = none;
        name = map_.name;
        type_ = assigned uuids 0x2ACA;
        current_size = some 4;
        allocated_size = some 8;
        first_created = none;
        last_modified = none;
        properties = 5;
      }),
      shelf,
    ))
    × (shelf.server ≡ shelf.server)
metadata-value_example =
    metadata-value bits uuids library reader 2 serves reads map_ (details map_) map-IsDescribed
      shelf refl

run-detailed_example :
    result_out (run true bits uuids library reader sizes_too 2 (session shelf [])) ≡ (
      ok tt,
      Piece.text "index"
          ∷ Piece.text "\tname"
          ∷ Piece.text "\tsize "
          ∷ Piece.text "current"
          ∷ Piece.text "/"
          ∷ Piece.text "allocated"
          ∷ Piece.newline
          ∷ Piece.number 0
          ∷ Piece.text "\t"
          ∷ Piece.quoted (0x61 ∷ [])
          ∷ Piece.text "\t"
          ∷ Piece.number 4
          ∷ Piece.text "/"
          ∷ Piece.number 8
          ∷ Piece.newline
          ∷ Piece.number 1
          ∷ Piece.text "\t"
          ∷ Piece.quoted (0x62 ∷ 0x63 ∷ [])
          ∷ Piece.text "\t"
          ∷ Piece.number 4
          ∷ Piece.text "/"
          ∷ Piece.number 8
          ∷ Piece.newline
          ∷ [],
    )
unfolding header
run-detailed_example =
    run-detailed true bits uuids library reader sizes_too 2 serves reads details refl 2 shelf []
      refl (book-IsDescribed, (map-IsDescribed, tt)) (omega arith)

abbrev begun : Session library
begun = session shelf []

-- A record without a name, of 16-bit type, and one that is too short for its flags.
abbrev bodies : List (List ℕ)
bodies =
    (1 ∷ 0 ∷ 0 ∷ 0 ∷ 0 ∷ 0 ∷ 0 ∷ 0xCA ∷ 0x2A ∷ 0 ∷ 0 ∷ [])
    ∷ (1 ∷ 0 ∷ 0 ∷ 0 ∷ 0 ∷ 0 ∷ 0 ∷ 0 ∷ 0xFF ∷ 0 ∷ 0 ∷ [])
    ∷ []

print_directory_data-printed_example :
    print_directory_data true bits uuids library reader names_only 3 (directory bodies) begun
    ≡ printed true bits uuids library reader names_only 0 (map (item_of bits uuids) bodies) begun
print_directory_data-printed_example =
    print_directory_data-printed true bits uuids library reader names_only 3 bodies begun
      (omega arith) ((omega arith, omega arith), ((omega arith, omega arith), tt))

-- `list --name --dir`, on a shelf where no object has the identifier 0.
abbrev from_dir : ListArgs
from_dir = record names_only { dir = true }

read-asked :
    read true bits uuids library reader 0 none
      (asked true bits uuids library reader from_dir 2 serves refl refl shelf)
    ≡ (ok [], asked true bits uuids library reader from_dir 2 serves refl refl shelf)
unfolding read size parse_list encode_list to_le_bytes from_le_bytes sizes_try_from read_base socket
    connect action_operation action_request request first_value decode_action index try_from
    encode_action
read-asked = refl

run-missing_example :
    ((asked true bits uuids library reader from_dir 2 serves refl refl shelf).server ≡ shelf.server)
    × (run true bits uuids library reader from_dir 2 (session shelf [])
        ≡ print_directory_data true bits uuids library reader from_dir 2 [] (
            session
              (asked true bits uuids library reader from_dir 2 serves refl refl shelf)
              (Piece.text "index" ∷ Piece.text "\tname" ∷ Piece.newline ∷ [])))
unfolding header parse_list encode_list to_le_bytes from_le_bytes
run-missing_example =
    run-missing true bits uuids library reader from_dir 2 serves refl refl 2 shelf
      (asked true bits uuids library reader from_dir 2 serves refl refl shelf) [] [] refl refl
      read-asked
