-- ===== src/Client/State.antt =====
-- bluez-async-ots/src/lib.rs: the client's errors and fields, and the exchange of one request.
pub mod Notify
use bluetooth_ots_rs.Base.{
  ℕ, Bool, true, false, Option, none, some, List, [], ◌∷◌, inl, inr, if◌then◌else◌,
}
use bluetooth_ots_rs.Base.Outcome.{Outcome, map_err}
use bluetooth_ots_rs.Client.Host.{Host, Event}
use bluetooth_ots_rs.Base.Monad.{Action, ◌>>=◌, ◌>>◌, pure, throw, lift, call}
use bluetooth_ots_rs.Core.Error.{Error as CoreError}
use bluetooth_ots_rs.Core.L2cap.{L2capSockAddr, Security}
use bluetooth_ots_rs.Crates.{UuidCrate}

module _ {Uuid : Type 0} (h : Host Uuid) where
  pub data Error : Type 0 where
    io : h.IoError → Error
    bt : h.BtError → Error
    core : CoreError → Error
    not_supported not_found no_response bad_response timeout : Error

  pub record OtsClient : Type 0 where
    pub adapter_id : h.AdapterId
    pub device_id : h.DeviceId
    pub adapter_addr : L2capSockAddr
    pub device_addr : L2capSockAddr
    pub sock_security : Option Security
    pub action_features : ℕ
    pub list_features : ℕ
    pub oacp_chr : h.CharId
    pub olcp_chr : Option h.CharId
    pub id_chr : Option h.CharId
    pub name_chr : h.CharId
    pub type_chr : h.CharId
    pub size_chr : h.CharId
    pub prop_chr : h.CharId
    pub crt_chr : Option h.CharId
    pub mod_chr : Option h.CharId

  abbrev pub Client : Type 0 → Type 0
  Client A = Action h.World Error A

  -- A decoder of the core crate, under `?`.
  abbrev pub from_core : {A : Type 0} → Outcome CoreError A → Client A
  from_core r = lift (map_err core r)

  -- `filter_map` and `take(1)`: the first new value of the characteristic.
  unfoldable pub first_value : h.CharId → List (Event h.CharId) → Option (List ℕ)
  first_value chr [] = none
  first_value chr (Event.value id value ∷ events) =
      if h.same_char id chr then some value else first_value chr events
  first_value chr (Event.other ∷ events) = first_value chr events

  -- `resps.next().await.ok_or_else(|| Error::NoResponse)`
  unfoldable pub next_response : h.CharId → h.Stream → Client (List ℕ)
  next_response chr stream w =
      let (events, w') = h.events_until_deadline stream w in
      elim (first_value chr events) [ none ↦ throw no_response w' | some value ↦ pure value w' ]

  unfoldable pub request : OtsClient → h.CharId → List ℕ → Client (List ℕ)
  unfolding next_response
  request c chr req = do
    call bt (h.start_notify chr)
    stream ← call bt (h.device_event_stream c.device_id)
    call bt (h.write_characteristic_value chr req)
    res ← next_response chr stream
    call bt (h.stop_notify chr)
    pure res
