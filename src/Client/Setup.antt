-- ===== src/Client/Setup.antt =====
-- bluez-async-ots/src/lib.rs, `OtsClient::new`: what a client learns of the service when it is made.
pub mod Features
pub mod Made
use bluetooth_ots_rs.Base.{
  ℕ, Bool, true, false, Option, none, some, List, [], ◌∷◌, ◌⊎◌, inl, inr, if◌then◌else◌,
}
use bluetooth_ots_rs.Base.Outcome.{Outcome, ok, err, slice}
use bluetooth_ots_rs.Client.Host.{Host, BtAddressType, AdapterInfo, DeviceInfo}
use bluetooth_ots_rs.Base.Monad.{Action, ◌>>=◌, ◌>>◌, pure, throw, lift, call, attempt}
use bluetooth_ots_rs.Client.State.{Error, bt, not_found, OtsClient, Client, from_core}
use bluetooth_ots_rs.Core.Flags.{action_feature, list_feature, try_from_slice}
use bluetooth_ots_rs.Core.L2cap.{
  AddressType, L2capSockAddr, Psm, l2cap_sock_addr, l2cap_le_cid_ots, l2cap_le_dyn_start, Security,
}
use bluetooth_ots_rs.Core.Uuids.{
  object_transfer, ots_feature, object_name, object_type, object_size, object_first_created,
  object_last_modified, object_id, object_properties, object_action_control_point,
  object_list_control_point,
}
use bluetooth_ots_rs.Crates.{Bitflags, UuidCrate}

pub record ClientConfig : Type 0 where
  pub privileged : Bool
  pub security : Option Security

abbrev pub address_type_into : BtAddressType → AddressType
address_type_into BtAddressType.public = AddressType.public
address_type_into BtAddressType.random = AddressType.random

-- `socketaddr_new`
abbrev pub socketaddr_new : List ℕ → BtAddressType → Psm → L2capSockAddr
socketaddr_new mac type_ psm = l2cap_sock_addr mac (address_type_into type_) psm

module _ (b : Bitflags) (u : UuidCrate) (h : Host u.Uuid) where
  -- A characteristic that the service may lack: only `UuidNotFound` stands for its absence.
  absent_or_error : h.BtError ⊎ h.CharId → Client h (Option h.CharId)
  absent_or_error (inr chr) = pure (some chr)
  absent_or_error (inl error) = if h.is_uuid_not_found error then pure none else throw (bt error)

  unfoldable pub optional_characteristic : h.ServiceId → u.Uuid → Client h (Option h.CharId)
  unfolding absent_or_error
  optional_characteristic srv uuid w =
      let (found, w') = h.get_characteristic_by_uuid srv uuid w in absent_or_error found w'

  unfoldable pub find_device :
      h.DeviceId → List (DeviceInfo h.DeviceId) → Option (DeviceInfo h.DeviceId)
  find_device id [] = none
  find_device id (d ∷ ds) = if h.same_device d.id id then some d else find_device id ds

  abbrev pub Located : Type 0
  Located = Option (AdapterInfo h.AdapterId × DeviceInfo h.DeviceId)

  relocate : AdapterInfo h.AdapterId → Option (DeviceInfo h.DeviceId) → Located → Located
  relocate adapter none found = found
  relocate adapter (some device) found = some (adapter, device)

  -- The loop over the adapters; the last one that knows the device is kept.
  unfoldable pub locate : h.DeviceId → List (AdapterInfo h.AdapterId) → Located → Client h Located
  unfolding relocate
  locate id [] found = pure found
  locate id (adapter ∷ adapters) found = do
    devices ← call bt (h.get_devices_on_adapter adapter.id)
    locate id adapters (relocate adapter (find_device id devices) found)

  unfoldable pub located : Located → Client h (AdapterInfo h.AdapterId × DeviceInfo h.DeviceId)
  located none = throw not_found
  located (some found) = pure found

  abbrev pub local_address : ClientConfig → AdapterInfo h.AdapterId → L2capSockAddr
  local_address config adapter =
      if config.privileged
      then socketaddr_new (0 ∷ 0 ∷ 0 ∷ 0 ∷ 0 ∷ 0 ∷ []) BtAddressType.random l2cap_le_cid_ots
      else socketaddr_new adapter.mac_address adapter.address_type l2cap_le_dyn_start

  -- The features, from the value of their characteristic.
  unfoldable pub features : h.ServiceId → Client h (ℕ × ℕ)
  features srv = do
    feature_chr ← call bt (h.get_characteristic_by_uuid srv (ots_feature u))
    feature_val ← call bt (h.read_characteristic_value feature_chr)
    action_bytes ← lift (slice 0 4 feature_val)
    action_features ← from_core h (try_from_slice b action_feature action_bytes)
    list_bytes ← lift (slice 4 8 feature_val)
    list_features ← from_core h (try_from_slice b list_feature list_bytes)
    pure (action_features, list_features)

  -- The other characteristics of the service, in the order in which they are asked for.
  pub record Characteristics : Type 0 where
    pub oacp_chr : h.CharId
    pub olcp_chr : Option h.CharId
    pub id_chr : Option h.CharId
    pub name_chr : h.CharId
    pub type_chr : h.CharId
    pub size_chr : h.CharId
    pub prop_chr : h.CharId
    pub crt_chr : Option h.CharId
    pub mod_chr : Option h.CharId

  unfoldable pub characteristics : h.ServiceId → Client h Characteristics
  unfolding optional_characteristic
  characteristics srv = do
    oacp_chr ← call bt (h.get_characteristic_by_uuid srv (object_action_control_point u))
    olcp_chr ← optional_characteristic srv (object_list_control_point u)
    id_chr ← optional_characteristic srv (object_id u)
    name_chr ← call bt (h.get_characteristic_by_uuid srv (object_name u))
    type_chr ← call bt (h.get_characteristic_by_uuid srv (object_type u))
    size_chr ← call bt (h.get_characteristic_by_uuid srv (object_size u))
    prop_chr ← call bt (h.get_characteristic_by_uuid srv (object_properties u))
    crt_chr ← optional_characteristic srv (object_first_created u)
    mod_chr ← optional_characteristic srv (object_last_modified u)
    pure (record {
      oacp_chr = oacp_chr;
      olcp_chr = olcp_chr;
      id_chr = id_chr;
      name_chr = name_chr;
      type_chr = type_chr;
      size_chr = size_chr;
      prop_chr = prop_chr;
      crt_chr = crt_chr;
      mod_chr = mod_chr;
    })

  unfoldable pub new : h.DeviceId → ClientConfig → Client h (OtsClient h)
  unfolding features characteristics locate located
  new device_id config = do
    srv ← call bt (h.get_service_by_uuid device_id (object_transfer u))
    _ ← call bt (h.get_characteristics srv)
    (action_features, list_features) ← features srv
    chrs ← characteristics srv
    adapters ← call bt h.get_adapters
    found ← locate device_id adapters none
    (adapter, device) ← located found
    pure (record {
      adapter_id = adapter.id;
      device_id = device_id;
      adapter_addr = local_address config adapter;
      device_addr = socketaddr_new device.mac_address device.address_type l2cap_le_cid_ots;
      sock_security = config.security;
      action_features = action_features;
      list_features = list_features;
      oacp_chr = chrs.oacp_chr;
      olcp_chr = chrs.olcp_chr;
      id_chr = chrs.id_chr;
      name_chr = chrs.name_chr;
      type_chr = chrs.type_chr;
      size_chr = chrs.size_chr;
      prop_chr = chrs.prop_chr;
      crt_chr = chrs.crt_chr;
      mod_chr = chrs.mod_chr;
    })
