-- ===== src/Client/Transfer/Sent.antt =====
-- bluez-async-ots/src/lib.rs, `write` and `read_to`: the bytes on the data channel.
use bluetooth_ots_rs.Base.{
  ℕ, ◌-◌, ◌≤◌, ◌≡◌, refl, arith, min, Bool, List, ◌++◌, length, take, drop, inr, le→leb,
}
use bluetooth_ots_rs.Base.Outcome.{ok, slice_to_within}
use bluetooth_ots_rs.Client.Host.{Host}
use bluetooth_ots_rs.Client.Objects.{size}
use bluetooth_ots_rs.Client.State.{Error, OtsClient}
use bluetooth_ots_rs.Client.Transfer.{read_base, write_base, sub_usize, window, read_to, write}
use bluetooth_ots_rs.Core.Numbers.{Sizes}
use bluetooth_ots_rs.Crates.{Bitflags, UuidCrate}

module _ (overflow_checks : Bool) (b : Bitflags) (u : UuidCrate) (h : Host u.Uuid) (c : OtsClient h)
    (offset : ℕ) (buffer : List ℕ) (sizes : Sizes) (w w1 w2 w3 : h.World) (stm : h.Connection) where
  window-min :
      (total : ℕ)
      → offset ≤ total
      → window overflow_checks b u h (length buffer) total offset w1
        ≡ (ok (min (length buffer) (total - offset)), w1)
  unfolding window sub_usize
  window-min total inside = rw (le→leb offset total inside) refl

  -- How many bytes a transfer of the buffer takes, in an object of this size.
  abbrev pub count : ℕ → ℕ
  count total = min (length buffer) (total - offset)

  -- Where the offset is at most the allocated size and the request to write is granted, `write`
  -- sends, in one piece and on the channel that it opened, the first bytes of the buffer, as many as
  -- fit into the object behind the offset, and gives their number.
  pub write-sent :
      (mode : ℕ)
      → size b u h c w ≡ (ok sizes, w1)
      → offset ≤ sizes.allocated
      → write_base overflow_checks b u h c offset (count sizes.allocated) mode w1 ≡ (ok stm, w2)
      → h.write_all stm (take (count sizes.allocated) buffer) w2 ≡ (inr tt, w3)
      → write overflow_checks b u h c offset buffer mode w ≡ (ok (count sizes.allocated), w3)
  unfolding write
  write-sent mode sized inside granted sent =
      rw
        (
          sized,
          window-min sizes.allocated inside,
          granted,
          slice_to_within {E = Error h} (count sizes.allocated) buffer (omega arith),
          sent,
        )
        refl

  -- Where the offset is at most the current size and the request to read is granted, `read_to` asks
  -- the channel that it opened for as many bytes as the buffer holds and the object has behind the
  -- offset, puts them at the front of the buffer, leaves the rest of it alone, and gives their
  -- number.
  pub read_to-received :
      (bytes : List ℕ)
      → size b u h c w ≡ (ok sizes, w1)
      → offset ≤ sizes.current
      → read_base overflow_checks b u h c offset (count sizes.current) w1 ≡ (ok stm, w2)
      → h.read_exact stm (count sizes.current) w2 ≡ (inr bytes, w3)
      → read_to overflow_checks b u h c offset buffer w
        ≡ (ok (count sizes.current, bytes ++ drop (count sizes.current) buffer), w3)
  unfolding read_to
  read_to-received bytes sized inside granted received =
      rw
        (
          sized,
          window-min sizes.current inside,
          granted,
          slice_to_within {E = Error h} (count sizes.current) buffer (omega arith),
          received,
        )
        refl
