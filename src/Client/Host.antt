-- ===== src/Client/Host.antt =====
-- What the client calls and does not implement: the Bluetooth session of `bluez-async`, the sockets
-- of the kernel and of `tokio`, and their errors.
use bluetooth_ots_rs.Base.{ℕ, Bool, Option, List, ◌⊎◌}
use bluetooth_ots_rs.Core.L2cap.{L2capSockAddr, Security}

-- `bluez_async::AddressType`
pub data BtAddressType : Type 0 where
  public random : BtAddressType

-- An event of a device: a new value of a characteristic, or anything else.
pub data Event (CharId : Type 0) : Type 0 where
  value : CharId → List ℕ → Event CharId
  other : Event CharId

pub record AdapterInfo (AdapterId : Type 0) : Type 0 where
  pub id : AdapterId
  pub mac_address : List ℕ
  pub address_type : BtAddressType

pub record DeviceInfo (DeviceId : Type 0) : Type 0 where
  pub id : DeviceId
  pub mac_address : List ℕ
  pub address_type : BtAddressType

pub record Host (Uuid : Type 0) : Type 1 where
  -- The state of the adapter, the devices, the sockets and the clock.
  pub World : Type 0
  pub BtError : Type 0
  pub IoError : Type 0
  pub AdapterId : Type 0
  pub DeviceId : Type 0
  pub ServiceId : Type 0
  pub CharId : Type 0
  pub Stream : Type 0
  pub Socket : Type 0
  pub Connection : Type 0
  pub same_char : CharId → CharId → Bool
  pub same_device : DeviceId → DeviceId → Bool
  -- `BluetoothError::UuidNotFound`
  pub is_uuid_not_found : BtError → Bool
  pub get_service_by_uuid : DeviceId → Uuid → World → (BtError ⊎ ServiceId) × World
  pub get_characteristics : ServiceId → World → (BtError ⊎ List CharId) × World
  pub get_characteristic_by_uuid : ServiceId → Uuid → World → (BtError ⊎ CharId) × World
  pub read_characteristic_value : CharId → World → (BtError ⊎ List ℕ) × World
  pub write_characteristic_value : CharId → List ℕ → World → (BtError ⊎ Unit {0}) × World
  pub start_notify : CharId → World → (BtError ⊎ Unit {0}) × World
  pub stop_notify : CharId → World → (BtError ⊎ Unit {0}) × World
  pub device_event_stream : DeviceId → World → (BtError ⊎ Stream) × World
  -- The events that a stream delivers until the deadline, which is set when the stream is made.
  pub events_until_deadline : Stream → World → List (Event CharId) × World
  pub get_adapters : World → (BtError ⊎ List (AdapterInfo AdapterId)) × World
  pub get_devices_on_adapter : AdapterId → World → (BtError ⊎ List (DeviceInfo DeviceId)) × World
  -- `socket2::Socket` and `tokio::io::unix::AsyncFd`
  pub socket : World → (IoError ⊎ Socket) × World
  pub set_security : Socket → Security → World → (IoError ⊎ Unit {0}) × World
  pub bind : Socket → L2capSockAddr → World → (IoError ⊎ Unit {0}) × World
  pub connect : Socket → L2capSockAddr → World → (IoError ⊎ Unit {0}) × World
  pub set_nonblocking : Socket → Bool → World → (IoError ⊎ Unit {0}) × World
  pub async_fd : Socket → World → (IoError ⊎ Connection) × World
  -- The wait for a connection to become writable; `none` if the timeout passes first.
  pub write_ready : Connection → World → Option (IoError ⊎ Unit {0}) × World
  pub take_error : Connection → World → (IoError ⊎ Option IoError) × World
  -- `AsyncReadExt::read_exact` and `AsyncWriteExt::write_all` on a connection.
  pub read_exact : Connection → ℕ → World → (IoError ⊎ List ℕ) × World
  pub write_all : Connection → List ℕ → World → (IoError ⊎ Unit {0}) × World
