-- ===== src/Core/DirEntries/Steps.antt =====
-- core/src/types.rs, `DirEntries`: single turns of the iterator.
use bluetooth_ots_rs.Base.{
  ℕ, suc, ◌+◌, ◌≤◌, ◌<◌, ◌≡◌, ◌↔◌, refl, arith, true, false, none, some, List, [], ◌∷◌, ◌++◌, inl,
  inr, length, take, drop, ltb, if◌then◌else◌, length-take, length-drop,
}
use bluetooth_ots_rs.Base.Bytes.{from_le_bytes, to_le_bytes}
use bluetooth_ots_rs.Base.Outcome.{ok, err, panic, undefined, attempt, split_at, slice_from}
use bluetooth_ots_rs.Core.Error.{bad_response, not_enough_data, check_len}
use bluetooth_ots_rs.Core.Metadata.{metadata_try_from}
use bluetooth_ots_rs.Core.Metadata.Safe.{metadata_try_from-Returns}
use bluetooth_ots_rs.Core.DirEntries.{DirEntries, is_empty, split_dir_entry, next, next_entry, Item}
use bluetooth_ots_rs.Crates.{Bitflags, UuidCrate}

-- The length that a record claims for itself.
abbrev pub claimed : List ℕ → ℕ
claimed raw = from_le_bytes (take 2 raw)

split_dir_entry_lem :
    (raw : List ℕ)
    → split_dir_entry raw ≡ (
        if is_empty raw
        then ok none
        else if ltb (length raw) 13
        then err (not_enough_data (length raw) 13)
        else if ltb (length raw) (claimed raw)
        then err (not_enough_data (length raw) (claimed raw))
        else if ltb (claimed raw) 2
        then panic
        else ok (some (drop 2 (take (claimed raw) raw), drop (claimed raw) raw)))
unfolding split_dir_entry check_len split_at slice_from
split_dir_entry_lem raw = ground (arith, length-take (claimed raw) raw)

is_empty-length : (xs : List ℕ) → is_empty xs ≡ true → length xs ≡ 0
is_empty-length [] h = refl
is_empty-length (_ ∷ _) h = cc

-- The bytes of one record: its length, which counts itself, and its body.
abbrev pub framed : List ℕ → List ℕ
framed body = to_le_bytes 2 (length body + 2) ++ body

module _ (b : Bitflags) (u : UuidCrate) where
  -- What the parser of a record makes of its body.
  abbrev pub item_of : List ℕ → Item b u
  item_of body = elim (metadata_try_from b u body) [
    | ok m ↦ inr m
    | err e ↦ inl e
    | panic ↦ inl bad_response
    | undefined ↦ inl bad_response
  ]

  attempt-item_of :
      (body : List ℕ) → attempt {F = ⊥} (metadata_try_from b u body) ≡ ok (item_of body)
  attempt-item_of body = ground (arith, metadata_try_from-Returns b u body)

  next_entry_lem :
      (body rest : List ℕ) (d : DirEntries)
      → next_entry b u (inr (some (body, rest))) d
        ≡ ok (
          some (item_of body),
          record { raw = rest; done = if is_empty rest then true else d.done },
        )
  unfolding next_entry
  next_entry_lem body rest d = rw (attempt-item_of body)

  -- One turn: `none` at the end, an error that ends the iteration, a panic, or a record.
  pub next_lem :
      (d : DirEntries)
      → next b u d ≡ (
          if d.done
          then ok (none, d)
          else if is_empty d.raw
          then ok (none, record d { done = true })
          else if ltb (length d.raw) 13
          then ok (some (inl (not_enough_data (length d.raw) 13)), record d { done = true })
          else if ltb (length d.raw) (claimed d.raw)
          then ok (
            some (inl (not_enough_data (length d.raw) (claimed d.raw))),
            record d { done = true },
          )
          else if ltb (claimed d.raw) 2
          then panic
          else ok (
            some (item_of (drop 2 (take (claimed d.raw) d.raw))),
            record {
              raw = drop (claimed d.raw) d.raw;
              done = if is_empty (drop (claimed d.raw) d.raw) then true else d.done;
            },
          ))
  unfolding next next_entry
  next_lem d = ground (
    arith,
    split_dir_entry_lem d.raw,
    next_entry_lem (drop 2 (take (claimed d.raw) d.raw)) (drop (claimed d.raw) d.raw) d,
  )

  -- The iterator panics if and only if it is not done, 13 bytes are left at least, and the record at
  -- the front claims fewer bytes than its own length field takes.
  pub next-panic_iff :
      (d : DirEntries)
      → (next b u d ≡ panic) ↔ ((d.done ≡ false) × (13 ≤ length d.raw) × (claimed d.raw < 2))
  next-panic_iff d = ground (arith, next_lem d, is_empty-length d.raw)

  -- Bytes that are left to iterate over.
  abbrev pub remaining : DirEntries → ℕ
  remaining d = if d.done then 0 else suc (length d.raw)

  -- Each item that the iterator yields leaves it with less to do.
  pub next-remaining :
      (d d' : DirEntries) (item : Item b u)
      → next b u d ≡ ok (some item, d')
      → remaining d' < remaining d
  next-remaining d d' item h = ground (arith, next_lem d, length-drop (claimed d.raw) d.raw)

  -- Once the iterator has yielded nothing it goes on yielding nothing.
  pub next_fused : (d d' : DirEntries) → next b u d ≡ ok (none, d') → next b u d' ≡ ok (none, d')
  next_fused d d' h = ground (arith, next_lem d, next_lem d')
