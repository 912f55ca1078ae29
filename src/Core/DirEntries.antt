-- ===== src/Core/DirEntries.antt =====
-- core/src/types.rs: the iterator over the records of the directory object.
pub mod Steps
pub mod Directory
use bluetooth_ots_rs.Base.{
  ℕ, zero, suc, Bool, true, false, Option, none, some, List, [], ◌∷◌, ◌⊎◌, inl, inr, length,
  if◌then◌else◌,
}
use bluetooth_ots_rs.Base.Bytes.{from_le_bytes}
use bluetooth_ots_rs.Base.Outcome.{
  Outcome, ok, err, panic, undefined, attempt, map_err, ◌>>=◌, ◌>>◌, split_at, slice_from,
}
use bluetooth_ots_rs.Core.Error.{Error, Result, check_len}
use bluetooth_ots_rs.Core.Metadata.{Metadata, metadata_try_from}
use bluetooth_ots_rs.Crates.{Bitflags, UuidCrate}

pub record DirEntries : Type 0 where
  pub raw : List ℕ
  pub done : Bool

abbrev pub is_empty : List ℕ → Bool
is_empty [] = true
is_empty (_ ∷ _) = false

-- The record at the front, without its length, and what follows it.
unfoldable pub split_dir_entry : List ℕ → Result (Option (List ℕ × List ℕ))
split_dir_entry raw = if is_empty raw then ok none else (do
  check_len (length raw) 13
  (len_bytes, _) ← split_at 2 raw
  let record_len = from_le_bytes len_bytes
  check_len (length raw) record_len
  (rec, rest) ← split_at record_len raw
  body ← slice_from 2 rec
  ok (some (body, rest)))

-- `From<&[u8]>`
abbrev pub dir_entries : List ℕ → DirEntries
dir_entries raw = record { raw = raw; done = false }

module _ (b : Bitflags) (u : UuidCrate) where
  -- An item is a `Result` that the caller sees as a value.
  abbrev pub Item : Type 0
  Item = Error ⊎ Metadata u.Uuid

  -- `next`, which itself has no error: it returns, or it panics.
  abbrev pub Next : Type 0
  Next = Outcome ⊥ (Option Item × DirEntries)

  next_entry : Error ⊎ Option (List ℕ × List ℕ) → DirEntries → Next
  next_entry (inr (some (fst, rst))) d = do
    item ← attempt (metadata_try_from b u fst)
    ok (some item, record { raw = rst; done = if is_empty rst then true else d.done })
  next_entry (inr none) d = ok (none, record d { done = true })
  next_entry (inl error) d = ok (some (inl error), record d { done = true })

  -- `Iterator::next`
  unfoldable pub next : DirEntries → Next
  unfolding next_entry
  next d =
      if d.done
      then ok (none, d)
      else (do split ← attempt (split_dir_entry d.raw); next_entry split d)

  -- The rest of one turn, given the turns to come.
  unfoldable pub after_turn :
      (DirEntries → Outcome (Unit {0}) (List Item))
      → Option Item × DirEntries
      → Outcome (Unit {0}) (List Item)
  after_turn more (none, d) = ok []
  after_turn more (some x, d) = do xs ← more d; ok (x ∷ xs)

  -- The items of `for item in entries`. A turn is made for each unit of fuel, and `err` says that
  -- the fuel ran out.
  unfoldable pub drain : ℕ → DirEntries → Outcome (Unit {0}) (List Item)
  unfolding after_turn
  drain zero d = err tt
  drain (suc fuel) d = map_err absurd (next d) >>= after_turn (drain fuel)
