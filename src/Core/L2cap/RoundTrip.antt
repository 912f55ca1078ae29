-- ===== src/Core/L2cap/RoundTrip.antt =====
-- core/src/l2cap.rs: addresses and transfer units on the way to the kernel and back.
use bluetooth_ots_rs.Base.{
  ℕ, ◌+◌, ◌*◌, ◌/◌, ◌%◌, ◌^◌, ◌≡◌, refl, ap, arith, Bool, true, false, ==_self, if◌then◌else◌,
}
use bluetooth_ots_rs.Base.Bytes.{from_le_bytes-to_le_bytes}
use bluetooth_ots_rs.Base.Outcome.{ok}
use bluetooth_ots_rs.Core.L2cap.{
  AddressType, address_type_discriminant, address_type_of, L2capSockAddr, to_sockaddr,
  from_sockaddr, wrote, mtu, set_mtu_bytes, bdaddr_of,
}
use mathlib.Core.List.{reverse-reverse}

address_type_back : (t : AddressType) → address_type_of (address_type_discriminant t) ≡ ok t
unfolding address_type_of
address_type_back AddressType.public = refl
address_type_back AddressType.random = refl

-- An address is read back as it was written, but on a big-endian target its PSM comes back with its
-- two bytes swapped.
pub from_sockaddr-to_sockaddr :
    (af_bluetooth : ℕ) (little : Bool) (a : L2capSockAddr)
    → from_sockaddr af_bluetooth little (to_sockaddr af_bluetooth little a)
      ≡ ok (record a { psm = if little then a.psm else a.psm % 256 * 256 + a.psm / 256 })
unfolding from_sockaddr to_sockaddr bdaddr_of
from_sockaddr-to_sockaddr af true a = rw (==_self af, address_type_back a.type_, reverse-reverse)
from_sockaddr-to_sockaddr af false a = rw (==_self af, address_type_back a.type_)

-- The kernel's copy of a maximum transfer unit that was set is read back cut to 16 bits.
pub mtu-set_mtu_bytes :
    (little : Bool) (n : ℕ) → mtu little (wrote 2 (set_mtu_bytes little n)) ≡ ok (n % 2 ^ 16)
unfolding mtu set_mtu_bytes
mtu-set_mtu_bytes true n = ap ok (from_le_bytes-to_le_bytes 2 (n % 2 ^ 16) (omega arith))
mtu-set_mtu_bytes false n =
    rw reverse-reverse (ap ok (from_le_bytes-to_le_bytes 2 (n % 2 ^ 16) (omega arith)))
