-- ===== src/Core/L2cap.antt =====
-- core/src/l2cap.rs: L2CAP socket addresses, their form for the kernel, and the socket options.
pub mod RoundTrip
pub mod Socket
use bluetooth_ots_rs.Base.{
  ℕ, ◌+◌, ◌*◌, ◌/◌, ◌%◌, ◌^◌, Bool, true, false, List, [], ◌∷◌, reverse, length, not, ◌==◌,
  if◌then◌else◌,
}
use bluetooth_ots_rs.Base.Bytes.{from_le_bytes, to_le_bytes}
use bluetooth_ots_rs.Base.Outcome.{Outcome, ok, err, ◌>>=◌}

pub data AddressType : Type 0 where
  public random : AddressType

abbrev pub address_type_discriminant : AddressType → ℕ
address_type_discriminant public = 1
address_type_discriminant random = 2

-- A MAC address is its six bytes.
pub record L2capSockAddr : Type 0 where
  pub addr : List ℕ
  pub type_ : AddressType
  pub psm : ℕ
  pub cid : ℕ

pub data Psm : Type 0 where
  l2cap_le_cid_ots l2cap_le_dyn_start : Psm

-- `From<Psm> for u16`
abbrev pub psm_into : Psm → ℕ
psm_into l2cap_le_cid_ots = 0x25
psm_into l2cap_le_dyn_start = 0x80

-- `L2capSockAddr::new`
abbrev pub l2cap_sock_addr : List ℕ → AddressType → Psm → L2capSockAddr
l2cap_sock_addr addr type_ psm = record { addr = addr; type_ = type_; psm = psm_into psm; cid = 0 }

-- `sockaddr_l2`: what the kernel reads in the storage of a socket address.
pub record SockaddrL2 : Type 0 where
  pub l2_family : ℕ
  pub l2_psm : ℕ
  pub l2_bdaddr : List ℕ
  pub l2_cid : ℕ
  pub l2_bdaddr_type : ℕ

-- `libc::AF_BLUETOOTH` is a parameter of the conversions, and so is whether the target is
-- little-endian.
module _ (af_bluetooth : ℕ) (little : Bool) where
  -- `u16::to_le`
  unfoldable pub u16_to_le : ℕ → ℕ
  u16_to_le n = if little then n else n % 256 * 256 + n / 256

  -- `From<&MacAddress> for bdaddr_t` and back.
  unfoldable pub bdaddr_of : List ℕ → List ℕ
  bdaddr_of addr = if little then reverse addr else addr

  -- `From<&L2capSockAddr> for socket2::SockAddr`
  unfoldable pub to_sockaddr : L2capSockAddr → SockaddrL2
  unfolding u16_to_le bdaddr_of
  to_sockaddr a = record {
    l2_family = af_bluetooth;
    l2_psm = u16_to_le a.psm;
    l2_bdaddr = bdaddr_of a.addr;
    l2_cid = a.cid;
    l2_bdaddr_type = address_type_discriminant a.type_;
  }

-- `std::io::Error`, as far as the crate makes it.
pub data IoError : Type 0 where
  os_error : ℕ → IoError
  family_expected unknown_address_type invalid_size : IoError

unfoldable pub address_type_of : ℕ → Outcome IoError AddressType
address_type_of n =
    if n == 1 then ok public else if n == 2 then ok random else err unknown_address_type

module _ (af_bluetooth : ℕ) (little : Bool) where
  -- `TryFrom<socket2::SockAddr> for L2capSockAddr`
  unfoldable pub from_sockaddr : SockaddrL2 → Outcome IoError L2capSockAddr
  unfolding bdaddr_of
  from_sockaddr s = if not (s.l2_family == af_bluetooth) then err family_expected else (do
    type_ ← address_type_of s.l2_bdaddr_type
    ok (record {
      addr = bdaddr_of af_bluetooth little s.l2_bdaddr;
      type_ = type_;
      psm = s.l2_psm;
      cid = s.l2_cid;
    }))

-- `SecurityLevel` and `Security`
pub data SecurityLevel : Type 0 where
  sdp low medium high fips : SecurityLevel

pub record Security : Type 0 where
  pub level : SecurityLevel
  pub key_size : ℕ

-- What `libc::getsockopt` answers: -1 and an error number, or the length and the bytes it wrote.
pub data SockOptReply : Type 0 where
  failed : (errno : ℕ) → SockOptReply
  wrote : (optlen : ℕ) → List ℕ → SockOptReply

-- `getsockopt::<T>` for a type of `size` bytes.
unfoldable pub getsockopt : ℕ → SockOptReply → Outcome IoError (List ℕ)
getsockopt size (failed errno) = err (os_error errno)
getsockopt size (wrote optlen bytes) = if not (optlen == size) then err invalid_size else ok bytes

-- The native-endian bytes of a `u16`.
abbrev pub u16_bytes : Bool → ℕ → List ℕ
u16_bytes little n = if little then to_le_bytes 2 n else reverse (to_le_bytes 2 n)

abbrev pub u16_of : Bool → List ℕ → ℕ
u16_of little bytes = if little then from_le_bytes bytes else from_le_bytes (reverse bytes)

-- `recv_mtu` and `send_mtu` read a `u16`.
unfoldable pub mtu : Bool → SockOptReply → Outcome IoError ℕ
unfolding getsockopt
mtu little reply = do bytes ← getsockopt 2 reply; ok (u16_of little bytes)

-- `set_recv_mtu` and `set_send_mtu` cut the number to a `u16` and hand over its bytes.
unfoldable pub set_mtu_bytes : Bool → ℕ → List ℕ
set_mtu_bytes little n = u16_bytes little (n % 2 ^ 16)
