-- ===== src/Client/Transfer.antt =====
-- bluez-async-ots/src/lib.rs: the data channel of the selected object.
pub mod Safe
pub mod Window
pub mod Sent
use bluetooth_ots_rs.Base.{
  ℕ, ◌+◌, ◌-◌, ◌^◌, min, Bool, true, false, Option, none, some, List, ◌++◌, length, drop, leb,
  if◌then◌else◌,
}
use bluetooth_ots_rs.Base.Outcome.{Outcome, ok, panic, slice_to}
use bluetooth_ots_rs.Client.Host.{Host}
use bluetooth_ots_rs.Base.Monad.{Action, ◌>>=◌, ◌>>◌, pure, lift, call}
use bluetooth_ots_rs.Client.Objects.{size}
use bluetooth_ots_rs.Client.Operations.{do_read, do_write}
use bluetooth_ots_rs.Client.State.{Error, io, timeout, OtsClient, Client}
use bluetooth_ots_rs.Client.Transport.{ConnectError, connect}
use bluetooth_ots_rs.Core.L2cap.{Security}
use bluetooth_ots_rs.Crates.{Bitflags, UuidCrate}

-- `a - b` of the type `usize` with 64 bits: a panic in a build with overflow checks, else a wrap.
unfoldable pub sub_usize : {E : Type 0} → (overflow_checks : Bool) → (a b : ℕ) → Outcome E ℕ
sub_usize overflow_checks a b =
    if leb b a then ok (a - b) else if overflow_checks then panic else ok (a + 2 ^ 64 - b)

-- `length.unwrap_or(size)`
abbrev pub unwrap_or : Option ℕ → ℕ → ℕ
unwrap_or none size = size
unwrap_or (some length) size = length

module _ (overflow_checks : Bool) (b : Bitflags) (u : UuidCrate) (h : Host u.Uuid) where
  unfoldable pub connect_error : {A : Type 0} → Outcome (ConnectError h) A → Outcome (Error h) A
  connect_error (Outcome.ok a) = Outcome.ok a
  connect_error (Outcome.err (ConnectError.io e)) = Outcome.err (io e)
  connect_error (Outcome.err ConnectError.elapsed) = Outcome.err timeout
  connect_error Outcome.panic = Outcome.panic
  connect_error Outcome.undefined = Outcome.undefined

  unfoldable pub secure : Option Security → h.Socket → Client h (Unit {0})
  secure none s = pure tt
  secure (some security) s = call io (h.set_security s security)

  unfoldable pub socket : OtsClient h → Client h h.Connection
  unfolding connect_error secure
  socket c = do
    s ← call io h.socket
    secure c.sock_security s
    call io (h.bind s c.adapter_addr)
    (λ w. let (r, w') = connect h s c.device_addr w in (connect_error r, w'))

  unfoldable pub read_base : OtsClient h → (offset length : ℕ) → Client h h.Connection
  read_base c offset length = do stm ← socket c; do_read b u h c offset length; pure stm

  unfoldable pub write_base : OtsClient h → (offset length mode : ℕ) → Client h h.Connection
  write_base c offset length mode = do stm ← socket c; do_write b u h c offset length mode; pure stm

  -- The length that is asked for, or the current size of the object.
  read_length : OtsClient h → Option ℕ → Client h ℕ
  read_length c (some length) = pure length
  read_length c none = do sizes ← size b u h c; pure sizes.current

  -- `read_exact` fills the buffer of `length` bytes, or fails.
  unfoldable pub read : OtsClient h → (offset : ℕ) → Option ℕ → Client h (List ℕ)
  unfolding read_length
  read c offset length = do
    n ← read_length c length
    stm ← read_base c offset n
    call io (h.read_exact stm n)

  -- The bytes that fit into the buffer and are left behind the offset.
  unfoldable pub window : ℕ → ℕ → ℕ → Client h ℕ
  window wanted size offset = do
    available ← lift (sub_usize overflow_checks size offset)
    pure (min wanted available)

  -- The new contents of the buffer stand beside the number of bytes. What an error leaves in the
  -- buffer is not told.
  unfoldable pub read_to : OtsClient h → (offset : ℕ) → List ℕ → Client h (ℕ × List ℕ)
  read_to c offset buffer = do
    sizes ← size b u h c
    n ← window (length buffer) sizes.current offset
    stm ← read_base c offset n
    _ ← lift (slice_to n buffer)
    bytes ← call io (h.read_exact stm n)
    pure (n, bytes ++ drop n buffer)

  unfoldable pub read_stream : OtsClient h → (offset : ℕ) → Option ℕ → Client h h.Connection
  read_stream c offset length = do
    sizes ← size b u h c
    n ← window (unwrap_or length sizes.current) sizes.current offset
    read_base c offset n

  unfoldable pub write : OtsClient h → (offset : ℕ) → List ℕ → (mode : ℕ) → Client h ℕ
  write c offset buffer mode = do
    sizes ← size b u h c
    n ← window (length buffer) sizes.allocated offset
    stm ← write_base c offset n mode
    bytes ← lift (slice_to n buffer)
    call io (h.write_all stm bytes)
    pure n

  unfoldable pub write_stream :
      OtsClient h → (offset : ℕ) → Option ℕ → (mode : ℕ) → Client h h.Connection
  write_stream c offset length mode = do
    sizes ← size b u h c
    n ← window (unwrap_or length sizes.allocated) sizes.allocated offset
    write_base c offset n mode
