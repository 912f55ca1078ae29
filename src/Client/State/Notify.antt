-- ===== src/Client/State/Notify.antt =====
-- bluez-async-ots/src/lib.rs, `request`: how it ends, and whether the characteristic then notifies.
use bluetooth_ots_rs.Base.{
  ℕ, ◌≡◌, refl, arith, Bool, true, false, Option, none, some, List, ◌⊎◌, inl, inr,
}
use bluetooth_ots_rs.Base.Outcome.{Outcome, ok, err, Returns}
use bluetooth_ots_rs.Client.Host.{Host}
use bluetooth_ots_rs.Base.Monad.{after, ◌>>=◌, ◌>>◌, pure, throw, call, answered}
use bluetooth_ots_rs.Client.State.{
  Error, bt, no_response, OtsClient, first_value, next_response, request,
}

-- A host on which it can be seen whether a characteristic notifies: `start_notify` turns that on
-- and `stop_notify` off where they succeed, and what else a request calls leaves it alone.
pub record Notifies {Uuid : Type 0} (h : Host Uuid) : Type 0 where
  pub notifying : h.World → h.CharId → Bool
  pub after_start :
      (chr : h.CharId) (w w' : h.World)
      → h.start_notify chr w ≡ (inr tt, w')
      → notifying w' chr ≡ true
  pub after_stop :
      (chr : h.CharId) (w w' : h.World)
      → h.stop_notify chr w ≡ (inr tt, w')
      → notifying w' chr ≡ false
  pub after_stream :
      (d : h.DeviceId) (chr : h.CharId) (w : h.World)
      → notifying (h.device_event_stream d w).1 chr ≡ notifying w chr
  pub after_write :
      (chr : h.CharId) (value : List ℕ) (w : h.World)
      → notifying (h.write_characteristic_value chr value w).1 chr ≡ notifying w chr
  pub after_events :
      (s : h.Stream) (chr : h.CharId) (w : h.World)
      → notifying (h.events_until_deadline s w).1 chr ≡ notifying w chr

-- Not notifying behind a value, and notifying behind `NoResponse`.
abbrev pub NotifyState :
    {Uuid : Type 0} (h : Host Uuid) (n : Notifies h)
    → h.CharId
    → Outcome (Error h) (List ℕ) × h.World
    → Type 0
NotifyState h n chr (ok value, w) = n.notifying w chr ≡ false
NotifyState h n chr (err no_response, w) = n.notifying w chr ≡ true
NotifyState h n chr (_, w) = Unit {0}

module _ {Uuid : Type 0} (h : Host Uuid) where
  pub request-Returns :
      (c : OtsClient h) (chr : h.CharId) (req : List ℕ) (w : h.World)
      → Returns (request h c chr req w).0
  unfolding request next_response
  request-Returns c chr req w = ground arith

module _ {Uuid : Type 0} (h : Host Uuid) (n : Notifies h) (c : OtsClient h) (chr : h.CharId) where
  stopped :
      (value : List ℕ) (w : h.World) (r : (h.BtError ⊎ Unit {0}) × h.World)
      → h.stop_notify chr w ≡ r
      → NotifyState h n chr (after (answered bt r) (λ _. pure value))
  stopped value w (inl e, w') p = tt
  stopped value w (inr _, w') p = n.after_stop chr w w' p

  heard :
      (events : Option (List ℕ)) (w : h.World)
      → n.notifying w chr ≡ true
      → NotifyState h n chr (
          after {E = Error h}
            (elim events [ none ↦ throw no_response w | some value ↦ pure value w ])
            λ res. call bt (h.stop_notify chr) >> pure res)
  heard none w on = on
  heard (some value) w on = stopped value w (h.stop_notify chr w) refl

  listened :
      (stream : h.Stream) (w : h.World)
      → n.notifying w chr ≡ true
      → NotifyState h n chr
          (after (next_response h chr stream w) λ res. call bt (h.stop_notify chr) >> pure res)
  unfolding next_response
  listened stream w on =
      heard (first_value h chr (h.events_until_deadline stream w).0) _ (rw n.after_events on)

  written :
      (stream : h.Stream) (req : List ℕ) (w : h.World) (r : (h.BtError ⊎ Unit {0}) × h.World)
      → r.1 ≡ (h.write_characteristic_value chr req w).1
      → n.notifying w chr ≡ true
      → NotifyState h n chr (
          after
            (answered bt r)
            λ _. next_response h chr stream >>= λ res. call bt (h.stop_notify chr) >> pure res)
  written stream req w (inl e, w') p on = tt
  written stream req w (inr _, w') p on = listened stream w' (rw p (rw n.after_write on))

  streamed :
      (req : List ℕ) (w : h.World) (r : (h.BtError ⊎ h.Stream) × h.World)
      → r.1 ≡ (h.device_event_stream c.device_id w).1
      → n.notifying w chr ≡ true
      → NotifyState h n chr (
          after (answered bt r) λ stream.
            call bt (h.write_characteristic_value chr req)
            >> (next_response h chr stream >>= λ res. call bt (h.stop_notify chr) >> pure res))
  streamed req w (inl e, w') p on = tt
  streamed req w (inr stream, w') p on =
      written stream req w' (h.write_characteristic_value chr req w') refl
        (rw p (rw n.after_stream on))

  started :
      (req : List ℕ) (w : h.World) (r : (h.BtError ⊎ Unit {0}) × h.World)
      → h.start_notify chr w ≡ r
      → NotifyState h n chr (
          after (answered bt r) λ _. call bt (h.device_event_stream c.device_id) >>= λ stream.
          call bt (h.write_characteristic_value chr req)
          >> (next_response h chr stream >>= λ res. call bt (h.stop_notify chr) >> pure res))
  started req w (inl e, w') p = tt
  started req w (inr _, w') p =
      streamed req w' (h.device_event_stream c.device_id w') refl (n.after_start chr w w' p)

  -- After a request that got its answer the characteristic no longer notifies. After a request that
  -- ended with `NoResponse` it still does.
  pub request-NotifyState :
      (req : List ℕ) (w : h.World) → NotifyState h n chr (request h c chr req w)
  unfolding request
  request-NotifyState req w = started req w (h.start_notify chr w) refl
