-- ===== src/Client/Setup/Made.antt =====
-- bluez-async-ots/src/lib.rs, `OtsClient::new`: the fields of the client that it gives.
use bluetooth_ots_rs.Base.{ℕ, ◌^◌, ◌<◌, ◌≡◌, refl, sym, ap, ◌∙◌, arith, List, none, if◌then◌else◌}
use bluetooth_ots_rs.Base.Outcome.{ok, slice, map_err}
use bluetooth_ots_rs.Client.Host.{Host, AdapterInfo}
use bluetooth_ots_rs.Base.Monad.{call, lift, Leaves, after-Leaves, Leaves-ok}
use bluetooth_ots_rs.Client.Setup.{
  ClientConfig, features, characteristics, local_address, locate, located, new,
}
use bluetooth_ots_rs.Client.State.{bt, core, from_core, OtsClient}
use bluetooth_ots_rs.Core.Error.{Error as CoreError}
use bluetooth_ots_rs.Core.Flags.{FlagTable, action_feature, list_feature, try_from_slice}
use bluetooth_ots_rs.Core.Flags.Laws.{flags_outcome, try_from_slice-flags}
use bluetooth_ots_rs.Core.L2cap.{psm_into, l2cap_le_cid_ots, l2cap_le_dyn_start}
use bluetooth_ots_rs.Core.Uuids.{object_transfer, ots_feature}
use bluetooth_ots_rs.Crates.{Bitflags, UuidCrate}

-- Decoded flags have the bits of their type.
flags_outcome-lt :
    {E : Type 0} (from : CoreError → E) (t : FlagTable) (k : ℕ) (raw : List ℕ) (flags : ℕ)
    → map_err from (flags_outcome t k raw) ≡ ok flags
    → flags < 2 ^ k
flags_outcome-lt from t k raw flags h = ground arith

module _ (b : Bitflags) (u : UuidCrate) (h : Host u.Uuid) where
  abbrev IsKnown : ℕ × ℕ → h.World → Type 0
  IsKnown (action_features, list_features) w = (action_features < 2 ^ 10) × (list_features < 2 ^ 4)

  features-IsKnown : (srv : h.ServiceId) (w : h.World) → Leaves IsKnown (features b u h srv w)
  unfolding features
  features-IsKnown srv w =
      after-Leaves IsKnown (call bt (h.get_characteristic_by_uuid srv (ots_feature u)) w) _
        λ chr w _. after-Leaves IsKnown (call bt (h.read_characteristic_value chr) w) _ λ value w _.
          after-Leaves IsKnown (lift (slice 0 4 value) w) _ λ action w _.
            after-Leaves IsKnown (from_core h (try_from_slice b action_feature action) w) _ λ a w p.
              after-Leaves IsKnown (lift (slice 4 8 value) w) _ λ list w _.
                after-Leaves IsKnown (from_core h (try_from_slice b list_feature list) w) _ λ l w q.
                  (
                    flags_outcome-lt core action_feature 10 action a (
                        ap (map_err core) (sym (try_from_slice-flags b action).0)
                        ∙ ap (λ r. r.0) p),
                    flags_outcome-lt core list_feature 4 list l
                        (ap (map_err core) (sym (try_from_slice-flags b list).1) ∙ ap (λ r. r.0) q),
                  )

  abbrev pub IsMade : h.DeviceId → ClientConfig → OtsClient h → h.World → Type 0
  IsMade device_id config c w =
      (c.device_id ≡ device_id)
      × (c.sock_security ≡ config.security)
      × (c.action_features < 2 ^ 10)
      × (c.list_features < 2 ^ 4)
      × (c.device_addr.psm ≡ psm_into l2cap_le_cid_ots)
      × (c.adapter_addr.psm
          ≡ (if config.privileged then psm_into l2cap_le_cid_ots else psm_into l2cap_le_dyn_start))

  own :
      (config : ClientConfig) (adapter : AdapterInfo h.AdapterId)
      → (local_address b u h config adapter).psm
        ≡ (if config.privileged then psm_into l2cap_le_cid_ots else psm_into l2cap_le_dyn_start)
  own config adapter = ground arith

  -- A new client has the device and the security that it was given and no unknown feature. Its peer
  -- address has the channel of the object transfer service, and its own address has that channel for
  -- a privileged client and else the first dynamic one.
  pub new-IsMade :
      (device_id : h.DeviceId) (config : ClientConfig) (w : h.World)
      → Leaves (IsMade device_id config) (new b u h device_id config w)
  unfolding new
  new-IsMade device_id config w =
      let P = IsMade device_id config in
      after-Leaves P (call bt (h.get_service_by_uuid device_id (object_transfer u)) w) _ λ srv w _.
        after-Leaves P (call bt (h.get_characteristics srv) w) _ λ _ w _.
          after-Leaves P (features b u h srv w) _ λ found w p.
            let (a, l) = Leaves-ok IsKnown (features b u h srv _) (features-IsKnown srv _) p in
            after-Leaves P (characteristics b u h srv w) _ λ _ w _.
              after-Leaves P (call bt h.get_adapters w) _ λ adapters w _.
                after-Leaves P (locate b u h device_id adapters none w) _ λ found w _.
                  after-Leaves P (located b u h found w) _
                    λ pair w _. (refl, refl, a, l, refl, own config pair.0)
