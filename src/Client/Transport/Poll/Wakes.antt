-- ===== src/Client/Transport/Poll/Wakes.antt =====
-- bluez-async-ots/src/l2cap.rs: how the loops of `L2capStream` get over wakes without data.
use bluetooth_ots_rs.Base.{
  ℕ, zero, suc, ◌+◌, ◌-◌, ◌≤◌, ◌<◌, ◌≡◌, refl, arith, Option, none, some, List, ◌⊎◌, inl, inr, ◌++◌,
  length, le→leb,
}
use bluetooth_ots_rs.Base.Outcome.{ok}
use bluetooth_ots_rs.Client.Transport.Poll.{
  Poll, ready, Fd, ReadBuf, advance, settle, await_ready, read_loop, filled_by, poll_read,
  poll_write,
}

module _ (d : Fd) where
  -- The readiness of one direction and a call in it. A number of wakes, each of which finds the
  -- descriptor ready and then that the call would block, leads from one state to another.
  pub data Wakes {A : Type 0} (wait : d.World → Poll (d.IoError ⊎ Unit {0}) × d.World)
      (attempt : d.World → Option (d.IoError ⊎ A) × d.World) : ℕ → d.World → d.World → Type 0 where
    none_yet : (w : d.World) → Wakes wait attempt zero w w
    woken :
        {n : ℕ} (w w1 w2 w' : d.World)
        → wait w ≡ (ready (inr tt), w1)
        → attempt w1 ≡ (none, w2)
        → Wakes wait attempt n w2 w'
        → Wakes wait attempt (suc n) w w'

  -- How a poll ends in a state: no readiness, an error of the wait, or a call that does not block.
  pub data Ends {A : Type 0} (wait : d.World → Poll (d.IoError ⊎ Unit {0}) × d.World)
      (attempt : d.World → Option (d.IoError ⊎ A) × d.World)
      : d.World → Poll (d.IoError ⊎ A) → d.World → Type 0 where
    parked : (w w' : d.World) → wait w ≡ (Poll.pending, w') → Ends wait attempt w Poll.pending w'
    broken :
        (e : d.IoError) (w w' : d.World)
        → wait w ≡ (ready (inl e), w')
        → Ends wait attempt w (ready (inl e)) w'
    called :
        (r : d.IoError ⊎ A) (w w1 w' : d.World)
        → wait w ≡ (ready (inr tt), w1)
        → attempt w1 ≡ (some r, w')
        → Ends wait attempt w (ready r) w'

  read_loop-Ends :
      (room turns : ℕ) (w w' : d.World) (r : Poll (d.IoError ⊎ List ℕ))
      → Ends d.poll_read_ready (d.try_read room) w r w'
      → read_loop d (suc turns) room w ≡ (ok r, w')
  unfolding read_loop await_ready settle
  read_loop-Ends room turns w w' r (Ends.parked _ _ p) = rw p refl
  read_loop-Ends room turns w w' r (Ends.broken e _ _ p) = rw p refl
  read_loop-Ends room turns w w' r (Ends.called x _ w1 _ p q) = rw (p, q) refl

  read_loop-Wakes :
      (room n turns : ℕ) (w w1 w' : d.World) (r : Poll (d.IoError ⊎ List ℕ))
      → n < turns
      → Wakes d.poll_read_ready (d.try_read room) n w w1
      → Ends d.poll_read_ready (d.try_read room) w1 r w'
      → read_loop d turns room w ≡ (ok r, w')
  unfolding read_loop await_ready settle
  read_loop-Wakes room n zero w w1 w' r lt wakes ends = absurd (omega arith)
  read_loop-Wakes room zero (suc turns) w w1 w' r lt (Wakes.none_yet _) ends =
      read_loop-Ends room turns w w' r ends
  read_loop-Wakes room (suc n) (suc turns) w w1 w' r lt (Wakes.woken _ v1 v2 _ p q wakes) ends =
      rw (p, q) (read_loop-Wakes room n turns v2 w1 w' r (omega arith) wakes ends)

  -- What a buffer holds behind a poll.
  abbrev pub received : Poll (d.IoError ⊎ List ℕ) → ReadBuf → ReadBuf
  received Poll.pending buf = buf
  received (ready (inl e)) buf = buf
  received (ready (inr bytes)) buf = record buf { filled = buf.filled ++ bytes }

  abbrev pub done : Poll (d.IoError ⊎ List ℕ) → Poll (d.IoError ⊎ Unit {0})
  done Poll.pending = Poll.pending
  done (ready (inl e)) = ready (inl e)
  done (ready (inr bytes)) = ready (inr tt)

  -- The bytes are no more than the room.
  abbrev pub FitsRoom : ℕ → Poll (d.IoError ⊎ List ℕ) → Type 0
  FitsRoom room (ready (inr bytes)) = length bytes ≤ room
  FitsRoom room (ready (inl e)) = Unit {0}
  FitsRoom room Poll.pending = Unit {0}

  filled_by-received :
      (buf : ReadBuf) (r : Poll (d.IoError ⊎ List ℕ)) (w : d.World)
      → length buf.filled ≤ buf.capacity
      → FitsRoom (buf.capacity - length buf.filled) r
      → filled_by d buf r w ≡ (ok (done r, received r buf), w)
  unfolding filled_by advance
  filled_by-received buf Poll.pending w h fits = refl
  filled_by-received buf (ready (inl e)) w h fits = refl
  filled_by-received buf (ready (inr bytes)) w h fits =
      rw (le→leb (length buf.filled + length bytes) buf.capacity (omega arith)) refl

  -- After any number of wakes without data, `poll_read` still ends as the descriptor then does: it is
  -- pending, or fails with the error, or appends exactly the bytes that were read to the buffer. One
  -- turn more than there are such wakes is enough, and where a call reads no more bytes than the
  -- buffer has room for, nothing panics.
  pub poll_read-Wakes :
      (n turns : ℕ) (buf : ReadBuf) (w w1 w' : d.World) (r : Poll (d.IoError ⊎ List ℕ))
      → n < turns
      → length buf.filled ≤ buf.capacity
      → Wakes d.poll_read_ready (d.try_read (buf.capacity - length buf.filled)) n w w1
      → Ends d.poll_read_ready (d.try_read (buf.capacity - length buf.filled)) w1 r w'
      → FitsRoom (buf.capacity - length buf.filled) r
      → poll_read d turns buf w ≡ (ok (done r, received r buf), w')
  unfolding poll_read
  poll_read-Wakes n turns buf w w1 w' r lt room wakes ends fits =
      rw (read_loop-Wakes (buf.capacity - length buf.filled) n turns w w1 w' r lt wakes ends)
        (filled_by-received buf r w' room fits)

  -- After any number of wakes without room to send, `poll_write` still ends as the descriptor then
  -- does: it is pending, fails with the error, or gives the number of bytes that were sent. One turn
  -- more than there are such wakes is enough.
  pub poll_write-Wakes :
      (bytes : List ℕ) (n turns : ℕ) (w w1 w' : d.World) (r : Poll (d.IoError ⊎ ℕ))
      → n < turns
      → Wakes d.poll_write_ready (d.try_send bytes) n w w1
      → Ends d.poll_write_ready (d.try_send bytes) w1 r w'
      → poll_write d turns bytes w ≡ (ok r, w')
  unfolding poll_write await_ready settle
  poll_write-Wakes bytes n zero w w1 w' r lt wakes ends = absurd (omega arith)
  poll_write-Wakes bytes zero (suc turns) w w1 w' r lt (Wakes.none_yet _) (Ends.parked _ _ p) =
      rw p refl
  poll_write-Wakes bytes zero (suc turns) w w1 w' r lt (Wakes.none_yet _) (Ends.broken e _ _ p) =
      rw p refl
  poll_write-Wakes bytes zero (suc turns) w w1 w' r lt (Wakes.none_yet _)
        (Ends.called x _ v _ p q) =
      rw (p, q) refl
  poll_write-Wakes bytes (suc n) (suc turns) w w1 w' r lt (Wakes.woken _ v1 v2 _ p q wakes) ends =
      rw (p, q) (poll_write-Wakes bytes n turns v2 w1 w' r (omega arith) wakes ends)
