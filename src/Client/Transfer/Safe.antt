-- ===== src/Client/Transfer/Safe.antt =====
-- bluez-async-ots/src/lib.rs: how the opening of the data channel ends.
use bluetooth_ots_rs.Base.{ℕ, Bool, arith, none, some, Option}
use bluetooth_ots_rs.Base.Outcome.{Outcome, Returns}
use bluetooth_ots_rs.Client.Host.{Host}
use bluetooth_ots_rs.Base.Monad.{call, after-Returns, call-Returns}
use bluetooth_ots_rs.Client.Operations.{action_none, list_none, do_read, do_write}
use bluetooth_ots_rs.Client.Operations.Gate.{operations-Return}
use bluetooth_ots_rs.Client.State.{io, OtsClient}
use bluetooth_ots_rs.Client.Transfer.{socket, read_base, write_base, secure, connect_error}
use bluetooth_ots_rs.Client.Transport.{ConnectError, connect}
use bluetooth_ots_rs.Core.Requests.{ActionReq, ListReq}
use bluetooth_ots_rs.Core.L2cap.{L2capSockAddr, Security}
use bluetooth_ots_rs.Crates.{Bitflags, UuidCrate}

module _ {Uuid : Type 0} (h : Host Uuid) where
  pub connect-Returns :
      (s : h.Socket) (addr : L2capSockAddr) (w : h.World) → Returns (connect h s addr w).0
  unfolding connect
  connect-Returns s addr w = ground arith

module _ (checks : Bool) (b : Bitflags) (u : UuidCrate) (h : Host u.Uuid) (c : OtsClient h) where
  secure-Returns :
      (security : Option Security) (s : h.Socket) (w : h.World)
      → Returns (secure checks b u h security s w).0
  unfolding secure
  secure-Returns none s w = tt
  secure-Returns (some security) s w = call-Returns io (h.set_security s security) w

  connect_error-Returns :
      {A : Type 0} (r : Outcome (ConnectError h) A)
      → Returns r
      → Returns (connect_error checks b u h r)
  unfolding connect_error
  connect_error-Returns r k = ground arith

  socket-Returns : (w : h.World) → Returns (socket checks b u h c w).0
  unfolding socket
  socket-Returns w = after-Returns (call io h.socket w) _ (call-Returns io h.socket w) λ s w _.
      after-Returns (secure checks b u h c.sock_security s w) _ (secure-Returns c.sock_security s w)
        λ _ w _.
          after-Returns (call io (h.bind s c.adapter_addr) w) _
            (call-Returns io (h.bind s c.adapter_addr) w)
            λ _ w _.
              connect_error-Returns (connect h s c.device_addr w).0
                (connect-Returns h s c.device_addr w)

  do_read-Returns : (offset length : ℕ) (w : h.World) → Returns (do_read b u h c offset length w).0
  do_read-Returns offset length w =
      (operations-Return b u h c 0x10 (ActionReq.read offset length) action_none none ListReq.first
        list_none w).0

  do_write-Returns :
      (offset length mode : ℕ) (w : h.World) → Returns (do_write b u h c offset length mode w).0
  do_write-Returns offset length mode w =
      (operations-Return b u h c 0x20 (ActionReq.write offset length mode) action_none none
        ListReq.first list_none w).0

  pub read_base-Returns :
      (offset length : ℕ) (w : h.World) → Returns (read_base checks b u h c offset length w).0
  unfolding read_base
  read_base-Returns offset length w =
      after-Returns (socket checks b u h c w) _ (socket-Returns w) λ stm w _.
        after-Returns (do_read b u h c offset length w) _ (do_read-Returns offset length w)
          λ _ w _. tt

  pub write_base-Returns :
      (offset length mode : ℕ) (w : h.World)
      → Returns (write_base checks b u h c offset length mode w).0
  unfolding write_base
  write_base-Returns offset length mode w =
      after-Returns (socket checks b u h c w) _ (socket-Returns w) λ stm w _.
        after-Returns (do_write b u h c offset length mode w) _
          (do_write-Returns offset length mode w) λ _ w _. tt
