-- ===== src/Client/Transfer/Window.antt =====
-- bluez-async-ots/src/lib.rs: the number of bytes that a transfer asks for, inside the object and
-- behind its end.
use bluetooth_ots_rs.Base.{
  ℕ, ◌+◌, ◌-◌, ◌<◌, ◌≤◌, ◌≡◌, refl, arith, min, Bool, true, Option, List, length, take, ◌⊎◌, inl,
  inr, le→leb, lt→leb,
}
use bluetooth_ots_rs.Base.Outcome.{ok, panic, slice_to, slice_to_within, Returns}
use bluetooth_ots_rs.Client.Host.{Host}
use bluetooth_ots_rs.Base.Monad.{lift, call, Leaves, after-Leaves, after-Returns, call-Returns}
use bluetooth_ots_rs.Client.Objects.{size}
use bluetooth_ots_rs.Client.State.{io, OtsClient}
use bluetooth_ots_rs.Client.Transfer.{
  read_base, write_base, sub_usize, window, read_to, read_stream, write, write_stream,
}
use bluetooth_ots_rs.Client.Transfer.Safe.{read_base-Returns, write_base-Returns}
use bluetooth_ots_rs.Core.Numbers.{Sizes}
use bluetooth_ots_rs.Crates.{Bitflags, UuidCrate}

min_cases : (a b : ℕ) → ((a ≤ b) × (min a b ≡ a)) ⊎ ((b ≤ a) × (min a b ≡ b))
min_cases a b = ground arith

module _ (b : Bitflags) (u : UuidCrate) (h : Host u.Uuid) where
  -- With the offset inside the object a transfer asks for no more than was wanted and for no byte
  -- behind the end, and for as much as that allows.
  pub window_within :
      (overflow_checks : Bool) (wanted total offset : ℕ) (w : h.World)
      → offset ≤ total
      → (n : ℕ) × (window overflow_checks b u h wanted total offset w ≡ (ok n, w))
        × (n ≤ wanted)
        × (offset + n ≤ total)
        × ((n ≡ wanted) ⊎ (offset + n ≡ total))
  unfolding window sub_usize
  window_within checks wanted total offset w p = elim (min_cases wanted (total - offset)) [
    | inl (q, e) ↦ (wanted, rw (le→leb offset total p, e) refl, omega arith, omega arith, inl refl)
    | inr (q, e) ↦ (
      total - offset,
      rw (le→leb offset total p, e) refl,
      omega arith,
      omega arith,
      inr (omega arith),
    )
  ]

  -- With the offset at most the allocated and the current size, once that is read, `write` and
  -- `read_to` return, and what they report that they have transferred is no more than the buffer
  -- holds and ends inside the allocated or the current size.
  pub transfers-within :
      (overflow_checks : Bool) (c : OtsClient h) (offset : ℕ) (buffer : List ℕ) (mode : ℕ)
      (sizes : Sizes) (w w' : h.World)
      → size b u h c w ≡ (ok sizes, w')
      → offset ≤ sizes.allocated
      → offset ≤ sizes.current
      → Returns (write overflow_checks b u h c offset buffer mode w).0
        × Leaves
            (λ n w. (n ≤ length buffer) × (offset + n ≤ sizes.allocated))
            (write overflow_checks b u h c offset buffer mode w)
        × Returns (read_to overflow_checks b u h c offset buffer w).0
        × Leaves
            (λ r w. (r.0 ≤ length buffer) × (offset + r.0 ≤ sizes.current))
            (read_to overflow_checks b u h c offset buffer w)
  unfolding write read_to
  transfers-within checks c offset buffer mode sizes w w' e p q =
      let (n, f, n_buffer, n_size, _) =
        window_within checks (length buffer) sizes.allocated offset w' p in
      let (m, g, m_buffer, m_size, _) =
        window_within checks (length buffer) sizes.current offset w' q in
      (
        rw (e, f, slice_to_within n buffer n_buffer)
            (after-Returns (write_base checks b u h c offset n mode w') _
              (write_base-Returns checks b u h c offset n mode w')
              λ stm w _.
                after-Returns (call io (h.write_all stm (take n buffer)) w) _
                  (call-Returns io (h.write_all stm (take n buffer)) w) λ _ w _. tt),
        rw (e, f)
            (after-Leaves _ (write_base checks b u h c offset n mode w') _ λ stm w _.
              after-Leaves _ (lift (slice_to n buffer) w) _ λ bytes w _.
                after-Leaves _ (call io (h.write_all stm bytes) w) _ λ _ w _. (n_buffer, n_size)),
        rw (e, g, slice_to_within m buffer m_buffer)
            (after-Returns (read_base checks b u h c offset m w') _
              (read_base-Returns checks b u h c offset m w')
              λ stm w _.
                after-Returns (call io (h.read_exact stm m) w) _
                  (call-Returns io (h.read_exact stm m) w) λ bytes w _. tt),
        rw (e, g)
            (after-Leaves _ (read_base checks b u h c offset m w') _ λ stm w _.
              after-Leaves _ (lift (slice_to m buffer) w) _ λ front w _.
                after-Leaves _ (call io (h.read_exact stm m) w) _ λ bytes w _. (m_buffer, m_size)),
      )

  -- With the offset above the allocated and the current size each of the four sized transfers
  -- panics, in a build with overflow checks, once it has read the sizes.
  pub transfers-panic :
      (c : OtsClient h) (offset : ℕ) (wanted : Option ℕ) (buffer : List ℕ) (mode : ℕ)
      (sizes : Sizes) (w w' : h.World)
      → size b u h c w ≡ (ok sizes, w')
      → sizes.current < offset
      → sizes.allocated < offset
      → (read_to true b u h c offset buffer w ≡ (panic, w'))
        × (read_stream true b u h c offset wanted w ≡ (panic, w'))
        × (write true b u h c offset buffer mode w ≡ (panic, w'))
        × (write_stream true b u h c offset wanted mode w ≡ (panic, w'))
  unfolding read_to read_stream write write_stream window sub_usize
  transfers-panic c offset wanted buffer mode sizes w w' e p q = rw e (
      rw (lt→leb offset sizes.current p)
        (rw (lt→leb offset sizes.allocated q) (refl, refl, refl, refl)))
