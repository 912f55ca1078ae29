-- ===== src/Tests/Instances.antt =====
-- Concrete flags, UUIDs and a host with one device, on which the theorems are tried.
use bluetooth_ots_rs.Base.{
  ℕ, ◌+◌, ◌*◌, ◌^◌, ◌≡◌, refl, sym, ap, ◌⊎◌, Bool, true, false, Option, none, some, List, [], ◌∷◌,
  inr, length, get_or, reverse, bit_and, ◌==◌, if◌then◌else◌,
}
use bluetooth_ots_rs.Base.Bytes.{from_be_bytes, to_le_bytes}
use bluetooth_ots_rs.Client.Host.{Host, BtAddressType, Event}
use bluetooth_ots_rs.Client.State.{OtsClient}
use bluetooth_ots_rs.Client.State.Notify.{Notifies}
use bluetooth_ots_rs.Core.L2cap.{AddressType, L2capSockAddr}
use bluetooth_ots_rs.Crates.{Bitflags, UuidCrate}

abbrev pub bits : Bitflags
bits = record {
  from_bits = λ known n. if bit_and n known == n then some n else none;
  contains = λ n other. bit_and n other == other;
  from_bits_lem = λ known n. refl;
  contains_lem = λ n other. refl;
}

-- A UUID as its `u128`.
abbrev pub uuid_bytes : ℕ → List ℕ
uuid_bytes n = reverse (to_le_bytes 16 n)

pub length-uuid_bytes : (n : ℕ) → length (uuid_bytes n) ≡ 16
unfolding to_le_bytes
length-uuid_bytes n = refl

abbrev pub slice_uuid : List ℕ → Option ℕ
slice_uuid b = if length b == 16 then some (from_be_bytes b) else none

pub slice_uuid_sixteen : (b : List ℕ) → length b ≡ 16 → slice_uuid b ≡ some (from_be_bytes b)
slice_uuid_sixteen b h = rw h refl

abbrev pub uuids : UuidCrate
uuids = record {
  Uuid = ℕ;
  from_u128 = λ n. n;
  from_bytes = λ b. from_be_bytes b;
  from_slice = λ b. slice_uuid b;
  from_fields = λ d1 d2 d3 d4. d1 * 2 ^ 96 + d2 * 2 ^ 80 + d3 * 2 ^ 64 + from_be_bytes d4;
  as_ref = λ n. uuid_bytes n;
  from_slice_sixteen = λ b h. slice_uuid_sixteen b h;
  from_u128_lem = λ b h k. refl;
  from_fields_lem = λ d1 d2 d3 d4 h. refl;
  length-as_ref = λ n. length-uuid_bytes n;
}

-- The state of the host: whether the control point notifies, and what was written last.
pub record Peer : Type 0 where
  pub notifying : Bool
  pub written : List ℕ

abbrev pub quiet : Peer
quiet = record { notifying = false; written = [] }

-- Each characteristic has the value 1, 0, 0, 0, 1, 0, 0, 0, and each list request succeeds.
abbrev pub answer : Peer → List ℕ
answer w = 0x70 ∷ get_or w.written 0 0 ∷ 1 ∷ []

abbrev pub host : Host ℕ
host = record {
  World = Peer;
  BtError = ℕ;
  IoError = ℕ;
  AdapterId = ℕ;
  DeviceId = ℕ;
  ServiceId = ℕ;
  CharId = ℕ;
  Stream = Unit {0};
  Socket = Unit {0};
  Connection = Unit {0};
  same_char = λ a b. a == b;
  same_device = λ a b. a == b;
  is_uuid_not_found = λ e. true;
  get_service_by_uuid = λ d uuid w. (inr 0, w);
  get_characteristics = λ s w. (inr [], w);
  get_characteristic_by_uuid = λ s uuid w. (inr 2, w);
  read_characteristic_value = λ chr w. (inr (1 ∷ 0 ∷ 0 ∷ 0 ∷ 1 ∷ 0 ∷ 0 ∷ 0 ∷ []), w);
  write_characteristic_value = λ chr value w. (inr tt, record w { written = value });
  start_notify = λ chr w. (inr tt, record w { notifying = true });
  stop_notify = λ chr w. (inr tt, record w { notifying = false });
  device_event_stream = λ d w. (inr tt, w);
  events_until_deadline = λ s w. (Event.other ∷ Event.value 2 (answer w) ∷ [], w);
  get_adapters =
      λ w. (inr (record { id = 7; mac_address = []; address_type = BtAddressType.public } ∷ []), w);
  get_devices_on_adapter = λ a w.
      (inr (record { id = 5; mac_address = []; address_type = BtAddressType.random } ∷ []), w);
  socket = λ w. (inr tt, w);
  set_security = λ s security w. (inr tt, w);
  bind = λ s addr w. (inr tt, w);
  connect = λ s addr w. (inr tt, w);
  set_nonblocking = λ s on w. (inr tt, w);
  async_fd = λ s w. (inr tt, w);
  write_ready = λ c w. (some (inr tt), w);
  take_error = λ c w. (inr none, w);
  read_exact = λ c n w. (inr [], w);
  write_all = λ c bytes w. (inr tt, w);
}

abbrev pub notifies : Notifies host
notifies = record {
  notifying = λ w chr. w.notifying;
  after_start = λ chr w w' p. ap (λ (r : (ℕ ⊎ Unit {0}) × Peer). r.1.notifying) (sym p);
  after_stop = λ chr w w' p. ap (λ (r : (ℕ ⊎ Unit {0}) × Peer). r.1.notifying) (sym p);
  after_stream = λ d chr w. refl;
  after_write = λ chr value w. refl;
  after_events = λ s chr w. refl;
}

abbrev pub address : L2capSockAddr
address = record { addr = []; type_ = AddressType.public; psm = 0x25; cid = 0 }

-- A client of a server with all features.
abbrev pub client : OtsClient host
client = record {
  adapter_id = 7;
  device_id = 5;
  adapter_addr = address;
  device_addr = address;
  sock_security = none;
  action_features = 0x3ff;
  list_features = 0xf;
  oacp_chr = 1;
  olcp_chr = some 2;
  id_chr = none;
  name_chr = 2;
  type_chr = 2;
  size_chr = 2;
  prop_chr = 2;
  crt_chr = none;
  mod_chr = none;
}

-- A client of a server without the list control point and without any feature.
abbrev pub plain_client : OtsClient host
plain_client = record client { action_features = 0; list_features = 0; olcp_chr = none }
