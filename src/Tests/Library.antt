-- ===== src/Tests/Library.antt =====
-- A host in front of which a server of two objects stands, with its files.
use bluetooth_ots_rs.Base.{
  ℕ, ◌≡◌, refl, Bool, true, false, Option, none, some, List, [], ◌∷◌, ◌⊎◌, inr, get_elem?, ◌==◌,
  if◌then◌else◌,
}
use bluetooth_ots_rs.Cli.Command.{System}
use bluetooth_ots_rs.Client.Host.{Host, Event, BtAddressType}
use bluetooth_ots_rs.Client.Objects.Described.{Reads}
use bluetooth_ots_rs.Client.Served.{Object, Server, Serves, serve, response}
use bluetooth_ots_rs.Client.State.{OtsClient, first_value}
use bluetooth_ots_rs.Core.Requests.{ListReq}
use bluetooth_ots_rs.Core.Requests.Server.{parse_list}
use bluetooth_ots_rs.Tests.Instances.{client}

pub record Shelf : Type 0 where
  pub server : Server
  pub answer : List ℕ
  pub linked : Bool

-- What is written to the control point is served, if it is a request.
abbrev pub served : Option ListReq → Shelf → Shelf
served none w = w
served (some r) w = record w { server = (serve r w.server).1; answer = response r w.server }

-- The values of the characteristics for an object: its name, sizes, type and properties, and of any
-- other one the features of the server.
abbrev pub value : ℕ → Object → List ℕ
value chr o =
    if chr == 3
    then o.name
    else if chr == 5
    then 0xCA ∷ 0x2A ∷ []
    else if chr == 6
    then 5 ∷ 0 ∷ 0 ∷ 0 ∷ []
    else 4 ∷ 0 ∷ 0 ∷ 0 ∷ 8 ∷ 0 ∷ 0 ∷ 0 ∷ []

-- Without a current object there are still the features.
abbrev pub read_current : ℕ → Option Object → ℕ ⊎ List ℕ
read_current chr none = inr (value chr (record { id = 0; name = [] }))
read_current chr (some o) = inr (value chr o)

abbrev pub library : Host ℕ
library = record {
  World = Shelf;
  BtError = ℕ;
  IoError = ℕ;
  AdapterId = ℕ;
  DeviceId = ℕ;
  ServiceId = ℕ;
  CharId = ℕ;
  Stream = Unit {0};
  Socket = Unit {0};
  Connection = Unit {0};
  same_char = λ a b. a == b;
  same_device = λ a b. a == b;
  is_uuid_not_found = λ e. true;
  get_service_by_uuid = λ d uuid w. (inr 0, w);
  get_characteristics = λ s w. (inr [], w);
  get_characteristic_by_uuid = λ s uuid w. (inr 2, w);
  read_characteristic_value =
      λ chr w. (read_current chr (get_elem? w.server.objects w.server.cursor), w);
  write_characteristic_value = λ chr value w. (inr tt, served (parse_list value) w);
  start_notify = λ chr w. (inr tt, w);
  stop_notify = λ chr w. (inr tt, w);
  device_event_stream = λ d w. (inr tt, w);
  events_until_deadline =
      λ s w. (Event.value 1 (0x60 ∷ 5 ∷ 1 ∷ []) ∷ Event.value 2 w.answer ∷ [], w);
  get_adapters =
      λ w. (inr (record { id = 7; mac_address = []; address_type = BtAddressType.public } ∷ []), w);
  get_devices_on_adapter = λ a w.
      (inr (record { id = 5; mac_address = []; address_type = BtAddressType.random } ∷ []), w);
  socket = λ w. (inr tt, w);
  set_security = λ s security w. (inr tt, w);
  bind = λ s addr w. (inr tt, w);
  connect = λ s addr w. (inr tt, w);
  set_nonblocking = λ s on w. (inr tt, w);
  async_fd = λ s w. (inr tt, w);
  write_ready = λ c w. (some (inr tt), w);
  take_error = λ c w. (inr none, w);
  read_exact = λ c n w. (inr [], w);
  write_all = λ c bytes w. (inr tt, w);
}

abbrev pub reader : OtsClient library
reader = record {
  adapter_id = 7;
  device_id = 5;
  adapter_addr = client.adapter_addr;
  device_addr = client.device_addr;
  sock_security = none;
  action_features = 0x3ff;
  list_features = 0xf;
  oacp_chr = 1;
  olcp_chr = some 2;
  id_chr = none;
  name_chr = 3;
  type_chr = 5;
  size_chr = 4;
  prop_chr = 6;
  crt_chr = none;
  mod_chr = none;
}

pub written_view :
    (bytes : List ℕ) (r : ListReq) (w : Shelf)
    → parse_list bytes ≡ some r
    → (served (parse_list bytes) w).server ≡ (serve r w.server).1
written_view bytes r w p = rw p refl

pub answered :
    (bytes : List ℕ) (r : ListReq) (w : Shelf)
    → parse_list bytes ≡ some r
    → first_value library 2 (
        Event.value 1 (0x60 ∷ 5 ∷ 1 ∷ []) ∷ Event.value 2 (served (parse_list bytes) w).answer ∷ [])
      ≡ some (response r w.server)
unfolding first_value
answered bytes r w p = rw p refl

pub value_read :
    (chr : ℕ) (w : Shelf) (o : Object)
    → get_elem? w.server.objects w.server.cursor ≡ some o
    → library.read_characteristic_value chr w ≡ (inr (value chr o), w)
value_read chr w o p = rw p refl

abbrev pub serves : Serves library reader 2
serves = record {
  view = λ w. w.server;
  stream = λ w. tt;
  after_start = λ w. w;
  after_stream = λ w. w;
  after_write = λ bytes w. served (parse_list bytes) w;
  after_events = λ s w. w;
  after_stop = λ w. w;
  after_name = λ w. w;
  starts = λ w. refl;
  start_view = λ w. refl;
  streams = λ w. refl;
  stream_view = λ w. refl;
  writes = λ bytes w. refl;
  write_view = λ bytes r w p. written_view bytes r w p;
  responds = λ s bytes r w p. answered bytes r w p;
  events_world = λ s w. refl;
  events_view = λ s w. refl;
  stops = λ w. refl;
  stop_view = λ w. refl;
  names = λ w o p. value_read 3 w o p;
  name_view = λ w. refl;
}

abbrev pub reads : Reads library reader 2 serves
reads = record {
  value = λ chr o. value chr o;
  after_read = λ w. w;
  reads = λ chr w o p. value_read chr w o p;
  read_view = λ w. refl;
}

abbrev pub book : Object
book = record { id = 0x100; name = 0x61 ∷ [] }

abbrev pub map_ : Object
map_ = record { id = 0x101; name = 0x62 ∷ 0x63 ∷ [] }

abbrev pub objects : List Object
objects = book ∷ map_ ∷ []

abbrev pub shelf : Shelf
shelf = record { server = record { objects = objects; cursor = 1 }; answer = []; linked = false }

-- A device that is not connected, and a text on the standard input.
abbrev pub system : System library
system = record {
  FileName = ℕ;
  is_dash = λ p. p == 0;
  read_file = λ p w. (inr [], w);
  write_file = λ p bytes w. (inr tt, w);
  read_stdin = λ w. (inr (0x61 ∷ 0x35 ∷ 0x20 ∷ 0x30 ∷ 0x66 ∷ []), w);
  sleep = λ n w. w;
  new_session = λ w. (inr tt, w);
  adapters =
      λ w. (inr (record { id = 7; mac_address = []; name = 1 ∷ []; alias = 2 ∷ [] } ∷ []), w);
  devices = λ w. (
    inr (record { id = 5; mac_address = 9 ∷ []; name = some (3 ∷ []); connected = false } ∷ []),
    w,
  );
  start_discovery = λ w. (inr tt, w);
  stop_discovery = λ w. (inr tt, w);
  start_discovery_on = λ id w. (inr tt, w);
  stop_discovery_on = λ id w. (inr tt, w);
  connect_with_timeout = λ id n w. (inr tt, record w { linked = true });
  disconnect = λ id w. (inr tt, record w { linked = false });
}
