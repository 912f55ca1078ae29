-- ===== src/Client/Transport/Poll.antt =====
-- bluez-async-ots/src/l2cap.rs, `L2capStream` as `AsyncRead` and `AsyncWrite`: its loops over a
-- descriptor that `tokio` watches.
pub mod Wakes
use bluetooth_ots_rs.Base.{
  ℕ, zero, suc, ◌+◌, ◌-◌, Option, none, some, List, ◌⊎◌, inl, inr, ◌++◌, length, leb, if◌then◌else◌,
}
use bluetooth_ots_rs.Base.Outcome.{Outcome, ok, err, panic}
use bluetooth_ots_rs.Base.Monad.{Action, ◌>>=◌, ◌>>◌, pure, throw}

-- `core::task::Poll`
pub data Poll (A : Type 0) : Type 0 where
  ready : A → Poll A
  pending : Poll A

-- `tokio::io::unix::AsyncFd` on the socket: the readiness of both directions, and `try_io` on a
-- call, which gives `none` if the call would block, and then forgets the readiness.
pub record Fd : Type 1 where
  pub World : Type 0
  pub IoError : Type 0
  pub poll_read_ready : World → Poll (IoError ⊎ Unit {0}) × World
  pub poll_write_ready : World → Poll (IoError ⊎ Unit {0}) × World
  -- `read` into a buffer with room for so many bytes.
  pub try_read : (room : ℕ) → World → Option (IoError ⊎ List ℕ) × World
  pub try_send : List ℕ → World → Option (IoError ⊎ ℕ) × World
  pub shutdown_write : World → (IoError ⊎ Unit {0}) × World

-- `tokio::io::ReadBuf`: the bytes that it holds, and how many it can hold.
pub record ReadBuf : Type 0 where
  pub filled : List ℕ
  pub capacity : ℕ

-- `buf.advance(len)` over bytes that were read into the unfilled part.
unfoldable pub advance : {E : Type 0} → List ℕ → ReadBuf → Outcome E ReadBuf
advance bytes buf =
    if leb (length buf.filled + length bytes) buf.capacity
    then ok (record buf { filled = buf.filled ++ bytes })
    else panic

module _ (d : Fd) where
  -- What a poll gives; the error is that the turns of its loop are used up.
  abbrev pub Polled : Type 0 → Type 0
  Polled A = Action d.World (Unit {0}) (Poll (d.IoError ⊎ A))

  -- What follows `try_io`: a call that would block makes another turn.
  unfoldable pub settle :
      {A : Type 0}
      → Polled A
      → Option (d.IoError ⊎ A) × d.World
      → Outcome (Unit {0}) (Poll (d.IoError ⊎ A)) × d.World
  settle again (none, w) = again w
  settle again (some result, w) = (ok (Poll.ready result), w)

  -- `ready!` of the readiness, with `?` for its error.
  unfoldable pub await_ready :
      {A : Type 0}
      → (d.World → Outcome (Unit {0}) (Poll (d.IoError ⊎ A)) × d.World)
      → Poll (d.IoError ⊎ Unit {0}) × d.World
      → Outcome (Unit {0}) (Poll (d.IoError ⊎ A)) × d.World
  await_ready go (Poll.pending, w) = (ok Poll.pending, w)
  await_ready go (Poll.ready (inl e), w) = (ok (Poll.ready (inl e)), w)
  await_ready go (Poll.ready (inr done), w) = go w

  -- The `loop` of `poll_read` before `advance`, with a bounded number of turns.
  unfoldable pub read_loop : (turns room : ℕ) → Polled (List ℕ)
  read_loop zero room w = throw tt w
  read_loop (suc turns) room w =
      await_ready (λ w'. settle (read_loop turns room) (d.try_read room w')) (d.poll_read_ready w)

  filled_by :
      ReadBuf
      → Poll (d.IoError ⊎ List ℕ)
      → Action d.World (Unit {0}) (Poll (d.IoError ⊎ Unit {0}) × ReadBuf)
  filled_by buf Poll.pending = pure (Poll.pending, buf)
  filled_by buf (Poll.ready (inl e)) = pure (Poll.ready (inl e), buf)
  filled_by buf (Poll.ready (inr bytes)) = do
    buf' ← (λ w. (advance bytes buf, w))
    pure (Poll.ready (inr tt), buf')

  -- `poll_read`, with the buffer behind it.
  unfoldable pub poll_read :
      (turns : ℕ) → ReadBuf → Action d.World (Unit {0}) (Poll (d.IoError ⊎ Unit {0}) × ReadBuf)
  unfolding filled_by
  poll_read turns buf = do
    result ← read_loop turns (buf.capacity - length buf.filled)
    filled_by buf result

  -- `poll_write`
  unfoldable pub poll_write : (turns : ℕ) → List ℕ → Polled ℕ
  poll_write zero bytes w = throw tt w
  poll_write (suc turns) bytes w =
      await_ready (λ w'. settle (poll_write turns bytes) (d.try_send bytes w'))
        (d.poll_write_ready w)

  -- `poll_flush`
  unfoldable pub poll_flush : Polled (Unit {0})
  poll_flush = pure (Poll.ready (inr tt))

  -- `poll_shutdown`
  unfoldable pub poll_shutdown : Polled (Unit {0})
  poll_shutdown w = let (result, w') = d.shutdown_write w in (ok (Poll.ready result), w')
