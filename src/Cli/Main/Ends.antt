-- ===== src/Cli/Main/Ends.antt =====
-- cli/src/main.rs, `main`: how it ends where nothing matches, and in which state it leaves the device.
use bluetooth_ots_rs.Base.{
  ℕ, ◌≡◌, refl, Bool, true, false, Option, none, some, List, [], ◌∷◌, inr, All,
}
use bluetooth_ots_rs.Base.Outcome.{Outcome, ok, err, panic, undefined}
use bluetooth_ots_rs.Cli.Args.{Args, MacOrName}
use bluetooth_ots_rs.Cli.Command.{
  Stop, failed, no_adapter, no_device, Adapter, Device, System, Session, quietly,
}
use bluetooth_ots_rs.Cli.Main.{
  find, adapter_matches, device_matches, choose_adapter, choose_device, discover, perform, join,
  leave, config_of, serve_device, main,
}
use bluetooth_ots_rs.Client.Host.{Host}
use bluetooth_ots_rs.Base.Monad.{after}
use bluetooth_ots_rs.Client.Setup.{new}
use bluetooth_ots_rs.Client.State.{OtsClient}
use bluetooth_ots_rs.Crates.{Bitflags, UuidCrate}

find-none : {A : Type 0} (p : A → Bool) (xs : List A) → All (λ x. p x ≡ false) xs → find p xs ≡ none
find-none p [] h = refl
find-none p (x ∷ xs) (e, h) = rw e (find-none p xs h)

module _ (overflow_checks : Bool) (b : Bitflags) (u : UuidCrate) (h : Host u.Uuid) (sys : System h)
    (turns : ℕ) (args : Args sys.FileName) where
  -- Where no adapter has the address, the name or the alias that is asked for, the program ends in
  -- `NoAdapter` as soon as it has read the adapters: it neither searches for devices nor connects to
  -- one.
  pub main-no_adapter :
      (req : MacOrName) (adps : List (Adapter h.AdapterId)) (s : Session h) (w w' : h.World)
      → args.adapter ≡ some req
      → sys.new_session s.world ≡ (inr tt, w)
      → sys.adapters w ≡ (inr adps, w')
      → All (λ adp. adapter_matches req adp ≡ false) adps
      → main overflow_checks b u h sys turns args s
        ≡ (err (failed no_adapter), record s { world = w' })
  unfolding main choose_adapter
  main-no_adapter req adps s w w' asked begun read apart =
      rw (begun, asked, read, find-none (adapter_matches req) adps apart) refl

  -- Where no device has the address or the name that is asked for, the program ends in `NoDevice`
  -- as soon as it has read the devices, and connects to none.
  pub main-no_device :
      (devs : List (Device h.DeviceId)) (id : Option h.AdapterId) (s : Session h)
      (w w1 w2 w' : h.World)
      → sys.new_session s.world ≡ (inr tt, w)
      → choose_adapter overflow_checks b u h sys args.adapter w ≡ (ok id, w1)
      → discover overflow_checks b u h sys args.disco id w1 ≡ (ok tt, w2)
      → sys.devices w2 ≡ (inr devs, w')
      → All (λ dev. device_matches args.device dev ≡ false) devs
      → main overflow_checks b u h sys turns args s
        ≡ (err (failed no_device), record s { world = w' })
  unfolding main choose_device
  main-no_device devs id s w w1 w2 w' begun chosen searched read apart =
      rw (begun, chosen, searched, read, find-none (device_matches args.device) devs apart) refl

  module _ (linked : h.World → Bool) (dev : Device h.DeviceId) (after_leave : h.World → h.World)
      (leaves : (w : h.World) → sys.disconnect dev.id w ≡ (inr tt, after_leave w))
      (parted : (w : h.World) → linked (after_leave w) ≡ false) where
    -- The device is left as it was if the command succeeds, and connected if it fails.
    abbrev pub LinkState : Outcome (Stop h) (Unit {0}) × Session h → Type 0
    LinkState (ok done, s) = linked s.world ≡ false
    LinkState (err e, s) = linked s.world ≡ true
    LinkState (panic, s) = linked s.world ≡ true
    LinkState (undefined, s) = linked s.world ≡ true

    join-apart :
        (w w' : h.World)
        → dev.connected ≡ false
        → sys.connect_with_timeout dev.id 2 w ≡ (inr tt, w')
        → join overflow_checks b u h sys dev w ≡ (ok tt, w')
    unfolding join
    join-apart w w' apart joined = rw (apart, joined) refl

    left-LinkState :
        (r : Outcome (Stop h) (Unit {0}) × Session h)
        → dev.connected ≡ false
        → linked r.1.world ≡ true
        → LinkState (after r λ _. quietly h (leave overflow_checks b u h sys dev))
    unfolding leave
    left-LinkState (ok tt, s) apart e = rw (apart, leaves s.world, parted s.world) refl
    left-LinkState (err x, s) apart e = e
    left-LinkState (panic, s) apart e = e
    left-LinkState (undefined, s) apart e = e

    -- A device that was not connected, and to which the program connects and makes a client, is
    -- disconnected at the end of a command that succeeds, and is left connected by one that fails,
    -- if disconnecting works and the command itself leaves the connection alone.
    pub serve_device-LinkState :
        (c : OtsClient h) (s : Session h) (w w' : h.World)
        → dev.connected ≡ false
        → sys.connect_with_timeout dev.id 2 s.world ≡ (inr tt, w)
        → new b u h dev.id (config_of overflow_checks b u h sys args) w ≡ (ok c, w')
        → linked
            (perform overflow_checks b u h sys turns c args.action
              (record s { world = w' })).1.world
          ≡ true
        → LinkState (serve_device overflow_checks b u h sys turns args dev s)
    unfolding serve_device
    serve_device-LinkState c s w w' apart joined made kept =
        rw (join-apart s.world w apart joined, made)
          (left-LinkState
            (perform overflow_checks b u h sys turns c args.action (record s { world = w' })) apart
            kept)
