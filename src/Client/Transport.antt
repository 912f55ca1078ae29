-- ===== src/Client/Transport.antt =====
-- bluez-async-ots/src/l2cap.rs, `L2capSocket::connect`, under the timeout of `OtsClient::socket`.
pub mod Poll
use bluetooth_ots_rs.Base.{true, Option, none, some, ◌⊎◌, inl, inr}
use bluetooth_ots_rs.Base.Outcome.{Outcome, ok, err}
use bluetooth_ots_rs.Client.Host.{Host}
use bluetooth_ots_rs.Base.Monad.{Action, ◌>>=◌, ◌>>◌, pure, throw, call}
use bluetooth_ots_rs.Core.L2cap.{L2capSockAddr}

module _ {Uuid : Type 0} (h : Host Uuid) where
  -- How a connection attempt under a timeout fails.
  pub data ConnectError : Type 0 where
    io : h.IoError → ConnectError
    elapsed : ConnectError

  -- The wait is the only point where the attempt can be given up.
  ready : Option (h.IoError ⊎ Unit {0}) × h.World → Outcome ConnectError (Unit {0}) × h.World
  ready (none, w) = (err elapsed, w)
  ready (some (inl e), w) = (err (io e), w)
  ready (some (inr done), w) = (ok done, w)

  check_error : Option h.IoError → h.Connection → Action h.World ConnectError h.Connection
  check_error (some e) c = throw (io e)
  check_error none c = pure c

  unfoldable pub connect : h.Socket → L2capSockAddr → Action h.World ConnectError h.Connection
  unfolding ready check_error
  connect s addr = do
    call io (h.connect s addr)
    call io (h.set_nonblocking s true)
    c ← call io (h.async_fd s)
    (λ w. ready (h.write_ready c w))
    error ← call io (h.take_error c)
    check_error error c
