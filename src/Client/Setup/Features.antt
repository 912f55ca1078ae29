-- ===== src/Client/Setup/Features.antt =====
-- bluez-async-ots/src/lib.rs, `OtsClient::new`: the value of the feature characteristic.
use bluetooth_ots_rs.Base.{ℕ, ◌<◌, ◌≡◌, refl, List, length, inr, lt→leb}
use bluetooth_ots_rs.Base.Outcome.{panic, slice}
use bluetooth_ots_rs.Client.Host.{Host}
use bluetooth_ots_rs.Client.Setup.{ClientConfig, features, new}
use bluetooth_ots_rs.Core.Uuids.{object_transfer, ots_feature}
use bluetooth_ots_rs.Crates.{Bitflags, UuidCrate}

module _ (b : Bitflags) (u : UuidCrate) (h : Host u.Uuid) where
  -- A device whose feature characteristic has a value of less than four bytes makes `new` panic.
  pub new-panic :
      (device_id : h.DeviceId) (config : ClientConfig) (srv : h.ServiceId) (chrs : List h.CharId)
      (chr : h.CharId) (value : List ℕ) (w w1 w2 w3 w4 : h.World)
      → h.get_service_by_uuid device_id (object_transfer u) w ≡ (inr srv, w1)
      → h.get_characteristics srv w1 ≡ (inr chrs, w2)
      → h.get_characteristic_by_uuid srv (ots_feature u) w2 ≡ (inr chr, w3)
      → h.read_characteristic_value chr w3 ≡ (inr value, w4)
      → length value < 4
      → new b u h device_id config w ≡ (panic, w4)
  unfolding new features slice
  new-panic device_id config srv chrs chr value w w1 w2 w3 w4 p q r s short =
      rw (p, q, r, s, lt→leb 4 (length value) short) refl
