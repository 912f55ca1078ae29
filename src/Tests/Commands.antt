-- ===== src/Tests/Commands.antt =====
-- The theorems on the client in front of a server, and on the commands, applied to a host with two
-- objects.
use bluetooth_ots_rs.Base.{ℕ, ◌≡◌, refl, arith, true, false, none, some, List, [], ◌∷◌, inr}
use bluetooth_ots_rs.Base.Bytes.{from_le_bytes}
use bluetooth_ots_rs.Client.Setup.{new, find_device}
use bluetooth_ots_rs.Core.Flags.{try_from_slice}
use bluetooth_ots_rs.Core.Error.{check_size_exact}
use bluetooth_ots_rs.Base.Outcome.{slice, split_at, ok}
use bluetooth_ots_rs.Cli.Args.{ObjSel, WriteArgs, Args, Action}
use bluetooth_ots_rs.Cli.Command.{Session}
use bluetooth_ots_rs.Cli.Hex.{parse, is_whitespace, to_digit}
use bluetooth_ots_rs.Cli.Hex.Digits.{parse-pairs}
use bluetooth_ots_rs.Cli.Listing.Rows.{session}
use bluetooth_ots_rs.Cli.Main.{info_run, serve_device, config_of, perform}
use bluetooth_ots_rs.Cli.Main.Ends.{serve_device-LinkState, LinkState}
use bluetooth_ots_rs.Cli.Select.{select}
use bluetooth_ots_rs.Cli.Select.Chosen.Refines.{select-choose}
use bluetooth_ots_rs.Client.Served.{Server}
use bluetooth_ots_rs.Client.Served.Moves.{Move, perform_all, perform_all-walk}
use bluetooth_ots_rs.Client.State.{OtsClient}
use bluetooth_ots_rs.Cli.Command.{Device}
use bluetooth_ots_rs.Core.L2cap.{AddressType}
use bluetooth_ots_rs.Client.Objects.{name}
use bluetooth_ots_rs.Base.Outcome.{index}
use bluetooth_ots_rs.Core.Utf8.{from_utf8, validate, first_byte}
use bluetooth_ots_rs.Tests.Instances.{bits, uuids}
use bluetooth_ots_rs.Tests.Library.{library, reader, serves, objects, shelf, system, Shelf}

abbrev moves : List Move
moves = Move.to_first ∷ Move.to_next ∷ Move.to_next ∷ Move.to 0x100 ∷ Move.to 7 ∷ Move.to_last ∷ []

-- A result, with the server behind it.
abbrev with_server : {A : Type 0} → A × Shelf → A × Server
with_server r = (r.0, r.1.server)

perform_all-walk_example : with_server (perform_all bits uuids library reader moves shelf) ≡ (
  ok true ∷ ok true ∷ ok false ∷ ok true ∷ ok false ∷ ok true ∷ [],
  record { objects = objects; cursor = 1 },
)
perform_all-walk_example =
    perform_all-walk bits uuids library reader 2 serves refl refl moves shelf
      (tt, (tt, (tt, (omega arith, (omega arith, (tt, tt))))))

-- The object with the name `bc`.
abbrev by_name : ObjSel
by_name = record { index = none; id = none; name = some (0x62 ∷ 0x63 ∷ []) }

select-choose_example :
    with_server (select bits uuids library reader 2 by_name shelf)
    ≡ (ok tt, record { objects = objects; cursor = 1 })
unfolding from_utf8 validate first_byte
select-choose_example =
    select-choose bits uuids library reader 2 serves refl refl 2 by_name shelf (refl, (refl, tt)) tt
      (omega arith)

abbrev begun : Session library
begun = session shelf []

parse-pairs_example : parse tt none (0x41 ∷ 0x20 ∷ 0x35 ∷ 0x66 ∷ []) ≡ ok (0xA5 ∷ [])
unfolding is_whitespace to_digit
parse-pairs_example = parse-pairs tt (0x41 ∷ 0x20 ∷ 0x35 ∷ 0x66 ∷ [])

abbrev writes : WriteArgs ℕ
writes = record {
  object = by_name;
  range = record { offset = 1; length = some 1 };
  truncate = true;
  file = none;
}

-- The shelf where the second object is selected.
abbrev selected : Shelf
selected = (select bits uuids library reader 2 by_name shelf).1

abbrev args : Args ℕ
args = record {
  disco = some 3;
  adapter = none;
  device = inr (4 ∷ []);
  privileged = false;
  action = Action.info (record { action = true; list = false; full = false });
}

abbrev device : Device ℕ
device = record { id = 5; mac_address = 9 ∷ []; name = some (3 ∷ []); connected = false }

abbrev shelf_linked : Shelf
shelf_linked = record shelf { linked = true }

abbrev made : OtsClient library
made = record {
  adapter_id = 7;
  device_id = 5;
  adapter_addr = record { addr = []; type_ = AddressType.public; psm = 0x80; cid = 0 };
  device_addr = record { addr = []; type_ = AddressType.random; psm = 0x25; cid = 0 };
  sock_security = none;
  action_features = 4;
  list_features = 8;
  oacp_chr = 2;
  olcp_chr = some 2;
  id_chr = some 2;
  name_chr = 2;
  type_chr = 2;
  size_chr = 2;
  prop_chr = 2;
  crt_chr = some 2;
  mod_chr = some 2;
}

serve_device-LinkState_example :
    LinkState true bits uuids library system 2 args
      (λ w. w.linked)
      device
      (λ w. record w { linked = false })
      (λ w. refl)
      (λ w. refl)
      (serve_device true bits uuids library system 2 args device begun)
unfolding perform info_run new slice try_from_slice check_size_exact split_at from_le_bytes
    find_device config_of
serve_device-LinkState_example =
    serve_device-LinkState true bits uuids library system 2 args (λ w. w.linked) device
      (λ w. record w { linked = false }) (λ w. refl) (λ w. refl) made begun shelf_linked
      shelf_linked refl refl refl refl
