-- ===== src/Core/L2cap/Socket.antt =====
-- core/src/l2cap.rs, `L2capSocket`: its operations on the system calls.
use bluetooth_ots_rs.Base.{
  ℕ, Bool, Option, none, some, List, [], ◌∷◌, ◌⊎◌, inl, inr, ◌==◌, if◌then◌else◌,
}
use bluetooth_ots_rs.Base.Outcome.{Outcome, ok, err, undefined, ◌>>=◌}
use bluetooth_ots_rs.Base.Monad.{Action, call}
use bluetooth_ots_rs.Core.L2cap.{
  L2capSockAddr, SockaddrL2, to_sockaddr, from_sockaddr, IoError, os_error, SecurityLevel, Security,
  SockOptReply, getsockopt, mtu, set_mtu_bytes,
}

-- `BtProto::L2Cap`, `BT_SECURITY` and the two variants of `SockOpt`.
abbrev pub bt_proto_l2cap : ℕ
bt_proto_l2cap = 0

abbrev pub bt_security : ℕ
bt_security = 4

abbrev pub bt_snd_mtu : ℕ
bt_snd_mtu = 12

abbrev pub bt_rcv_mtu : ℕ
bt_rcv_mtu = 13

abbrev pub security_level_discriminant : SecurityLevel → ℕ
security_level_discriminant SecurityLevel.sdp = 0
security_level_discriminant SecurityLevel.low = 1
security_level_discriminant SecurityLevel.medium = 2
security_level_discriminant SecurityLevel.high = 3
security_level_discriminant SecurityLevel.fips = 4

-- The bytes of a `Security`, as `repr(C)` lays it out.
abbrev pub security_bytes : Security → List ℕ
security_bytes s = security_level_discriminant s.level ∷ s.key_size ∷ []

-- The level that a byte stands for: a byte that stands for none is undefined behaviour.
unfoldable pub security_level_of : ℕ → Outcome IoError SecurityLevel
security_level_of n =
    if n == 0
    then ok SecurityLevel.sdp
    else if n == 1
    then ok SecurityLevel.low
    else if n == 2
    then ok SecurityLevel.medium
    else if n == 3
    then ok SecurityLevel.high
    else if n == 4
    then ok SecurityLevel.fips
    else undefined

-- The `Security` that the bytes of a `getsockopt` are.
unfoldable pub security_of : List ℕ → Outcome IoError Security
unfolding security_level_of
security_of (level ∷ key_size ∷ []) = do
  level ← security_level_of level
  ok (record { level = level; key_size = key_size })
security_of _ = undefined

-- `getsockopt::<Security>`
unfoldable pub security_reply : SockOptReply → Outcome IoError Security
unfolding getsockopt security_of
security_reply reply = do bytes ← getsockopt 2 reply; security_of bytes

-- The system calls, by way of `socket2` and `libc`; `sol_bluetooth` is `libc::SOL_BLUETOOTH`.
pub record Kernel : Type 1 where
  pub World : Type 0
  pub Socket : Type 0
  pub Type_ : Type 0
  pub sol_bluetooth : ℕ
  pub socket : (domain : ℕ) → Type_ → (protocol : ℕ) → World → (IoError ⊎ Socket) × World
  pub bind : Socket → SockaddrL2 → World → (IoError ⊎ Unit {0}) × World
  pub connect : Socket → SockaddrL2 → World → (IoError ⊎ Unit {0}) × World
  pub set_nonblocking : Socket → Bool → World → (IoError ⊎ Unit {0}) × World
  pub local_addr : Socket → World → (IoError ⊎ SockaddrL2) × World
  pub peer_addr : Socket → World → (IoError ⊎ SockaddrL2) × World
  pub getsockopt : Socket → (level optname size : ℕ) → World → SockOptReply × World
  -- `some errno` where the call gives -1.
  pub setsockopt : Socket → (level optname : ℕ) → List ℕ → World → Option ℕ × World

module _ (af_bluetooth : ℕ) (little : Bool) (k : Kernel) where
  abbrev pub Sys : Type 0 → Type 0
  Sys A = Action k.World IoError A

  abbrev pub sys : {A : Type 0} → (k.World → (IoError ⊎ A) × k.World) → Sys A
  sys m = call (λ e. e) m

  unfoldable pub new : k.Type_ → Sys k.Socket
  new type_ = sys (k.socket af_bluetooth type_ bt_proto_l2cap)

  unfoldable pub bind : k.Socket → L2capSockAddr → Sys (Unit {0})
  bind s sockaddr = sys (k.bind s (to_sockaddr af_bluetooth little sockaddr))

  unfoldable pub connect : k.Socket → L2capSockAddr → Sys (Unit {0})
  connect s sockaddr = sys (k.connect s (to_sockaddr af_bluetooth little sockaddr))

  unfoldable pub set_nonblocking : k.Socket → Bool → Sys (Unit {0})
  set_nonblocking s nonblocking = sys (k.set_nonblocking s nonblocking)

  -- `and_then(TryFrom::try_from)`
  read_addr : (IoError ⊎ SockaddrL2) × k.World → Outcome IoError L2capSockAddr × k.World
  read_addr (inl e, w) = (err e, w)
  read_addr (inr addr, w) = (from_sockaddr af_bluetooth little addr, w)

  unfoldable pub local_addr : k.Socket → Sys L2capSockAddr
  unfolding read_addr
  local_addr s w = read_addr (k.local_addr s w)

  unfoldable pub peer_addr : k.Socket → Sys L2capSockAddr
  unfolding read_addr
  peer_addr s w = read_addr (k.peer_addr s w)

  -- `getsockopt::<T>`, for a type of `size` bytes.
  abbrev asked : k.Socket → (optname size : ℕ) → k.World → SockOptReply × k.World
  asked s optname size w = k.getsockopt s k.sol_bluetooth optname size w

  set_result : Option ℕ × k.World → Outcome IoError (Unit {0}) × k.World
  set_result (none, w) = (ok tt, w)
  set_result (some errno, w) = (err (os_error errno), w)

  -- `setsockopt`
  unfoldable pub setsockopt : k.Socket → (optname : ℕ) → List ℕ → Sys (Unit {0})
  unfolding set_result
  setsockopt s optname bytes w = set_result (k.setsockopt s k.sol_bluetooth optname bytes w)

  unfoldable pub security : k.Socket → Sys Security
  security s w = let (reply, w') = asked s bt_security 2 w in (security_reply reply, w')

  unfoldable pub set_security : k.Socket → Security → Sys (Unit {0})
  unfolding setsockopt
  set_security s sec = setsockopt s bt_security (security_bytes sec)

  unfoldable pub recv_mtu : k.Socket → Sys ℕ
  recv_mtu s w = let (reply, w') = asked s bt_rcv_mtu 2 w in (mtu little reply, w')

  unfoldable pub set_recv_mtu : k.Socket → ℕ → Sys (Unit {0})
  unfolding setsockopt
  set_recv_mtu s n = setsockopt s bt_rcv_mtu (set_mtu_bytes little n)

  unfoldable pub send_mtu : k.Socket → Sys ℕ
  send_mtu s w = let (reply, w') = asked s bt_snd_mtu 2 w in (mtu little reply, w')

  unfoldable pub set_send_mtu : k.Socket → ℕ → Sys (Unit {0})
  unfolding setsockopt
  set_send_mtu s n = setsockopt s bt_snd_mtu (set_mtu_bytes little n)
