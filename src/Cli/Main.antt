-- ===== src/Cli/Main.antt =====
-- cli/src/main.rs, `main`: from the arguments to the adapter, the device, the client and the command.
pub mod Ends
use bluetooth_ots_rs.Base.{
  ℕ, Bool, true, false, Option, none, some, List, [], ◌∷◌, ◌⊎◌, inl, inr, ◌||◌, not, if◌then◌else◌,
}
use bluetooth_ots_rs.Base.Outcome.{Outcome, ok, err}
use bluetooth_ots_rs.Cli.Args.{Args, Action, InfoArgs, MacOrName}
use bluetooth_ots_rs.Cli.Args.Features
use bluetooth_ots_rs.Cli.Command.{
  Error, Stop, failed, bt_error, no_adapter, no_device, Quiet, ots, fail, Piece, Cli, quietly,
  print, Adapter, Device, System, same_bytes,
}
use bluetooth_ots_rs.Cli.Listing
use bluetooth_ots_rs.Cli.Transfer
use bluetooth_ots_rs.Client.Host.{Host}
use bluetooth_ots_rs.Base.Monad.{◌>>=◌, ◌>>◌, pure, call}
use bluetooth_ots_rs.Client.Setup.{ClientConfig, new}
use bluetooth_ots_rs.Client.State.{OtsClient}
use bluetooth_ots_rs.Crates.{Bitflags, UuidCrate}

-- `Iterator::find`
abbrev pub find : {A : Type 0} → (A → Bool) → List A → Option A
find p [] = none
find p (x ∷ xs) = if p x then some x else find p xs

abbrev pub adapter_matches : {Key : Type 0} → MacOrName → Adapter Key → Bool
adapter_matches (inl addr) adp = same_bytes addr adp.mac_address
adapter_matches (inr name) adp = same_bytes name adp.name || same_bytes name adp.alias

abbrev pub name_matches : List ℕ → Option (List ℕ) → Bool
name_matches name none = false
name_matches name (some dev_name) = same_bytes name dev_name

abbrev pub device_matches : {Key : Type 0} → MacOrName → Device Key → Bool
device_matches (inl addr) dev = same_bytes addr dev.mac_address
device_matches (inr name) dev = name_matches name dev.name

module _ (overflow_checks : Bool) (b : Bitflags) (u : UuidCrate) (h : Host u.Uuid)
    (sys : System h) where
  abbrev pub bt : {A : Type 0} → (h.World → (h.BtError ⊎ A) × h.World) → Quiet h A
  bt m = call (λ e. failed (bt_error e)) m

  -- `ok_or_else(..)?`
  abbrev pub found : {A : Type 0} → Error h → Option A → Quiet h A
  found e none = fail h e
  found e (some a) = pure a

  -- The adapter that is asked for.
  unfoldable pub choose_adapter : Option MacOrName → Quiet h (Option h.AdapterId)
  choose_adapter none = pure none
  choose_adapter (some mac_or_name) = do
    adps ← bt sys.adapters
    adp ← found no_adapter (find (adapter_matches mac_or_name) adps)
    pure (some adp.id)

  abbrev pub start : Option h.AdapterId → Quiet h (Unit {0})
  start (some id) = bt (sys.start_discovery_on id)
  start none = bt sys.start_discovery

  abbrev pub stop : Option h.AdapterId → Quiet h (Unit {0})
  stop (some id) = bt (sys.stop_discovery_on id)
  stop none = bt sys.stop_discovery

  unfoldable pub discover : Option ℕ → Option h.AdapterId → Quiet h (Unit {0})
  discover none adapter_id = pure tt
  discover (some secs) adapter_id = do
    start adapter_id
    (λ w. (ok tt, sys.sleep secs w))
    stop adapter_id

  unfoldable pub choose_device : MacOrName → Quiet h (Device h.DeviceId)
  choose_device device = do
    devs ← bt sys.devices
    found no_device (find (device_matches device) devs)

  -- `InfoArgs::run`
  unfoldable pub info_run : OtsClient h → InfoArgs → Cli h (Unit {0})
  info_run c args = do
    print h (
        if Features.action args
        then Piece.text "Object action features: "
          ∷ Piece.action_features c.action_features
          ∷ Piece.newline
          ∷ []
        else [])
    print h (
        if Features.list args
        then Piece.text "Object list features: "
          ∷ Piece.list_features c.list_features
          ∷ Piece.newline
          ∷ []
        else [])

  unfoldable pub perform : (turns : ℕ) → OtsClient h → Action sys.FileName → Cli h (Unit {0})
  perform turns c (Action.info args) = info_run c args
  perform turns c (Action.list args) = Listing.run overflow_checks b u h c args turns
  perform turns c (Action.read args) = Transfer.read_run overflow_checks b u h sys c turns args
  perform turns c (Action.write args) =
      quietly h (Transfer.write_run overflow_checks b u h sys c turns args)

  -- The connection that the command makes, if there is none.
  unfoldable pub join : Device h.DeviceId → Quiet h (Unit {0})
  join dev = if not dev.connected then bt (sys.connect_with_timeout dev.id 2) else pure tt

  unfoldable pub leave : Device h.DeviceId → Quiet h (Unit {0})
  leave dev = if not dev.connected then bt (sys.disconnect dev.id) else pure tt

  unfoldable pub config_of : Args sys.FileName → ClientConfig
  config_of args = record { privileged = args.privileged; security = none }

  -- What is done on the device.
  unfoldable pub serve_device :
      (turns : ℕ) → Args sys.FileName → Device h.DeviceId → Cli h (Unit {0})
  serve_device turns args dev = do
    quietly h (join dev)
    c ← quietly h (ots h (new b u h dev.id (config_of args)))
    perform turns c args.action
    quietly h (leave dev)

  unfoldable pub main : (turns : ℕ) → Args sys.FileName → Cli h (Unit {0})
  main turns args = do
    quietly h (bt sys.new_session)
    adapter_id ← quietly h (choose_adapter args.adapter)
    quietly h (discover args.disco adapter_id)
    dev ← quietly h (choose_device args.device)
    serve_device turns args dev
