-- ===== src/Core/DirEntries/Directory.antt =====
-- core/src/types.rs, `DirEntries`: whole runs of the iterator.
use bluetooth_ots_rs.Base.{
  ℕ, zero, suc, ◌+◌, ◌≤◌, ◌<◌, ◌^◌, ◌≡◌, ◌≢◌, refl, ◌∙◌, arith, Bool, true, false, none, some, List,
  [], ◌∷◌, ◌++◌, map, length, All, drop, length-append, take-append, drop-append,
}
use bluetooth_ots_rs.Base.Bytes.{to_le_bytes, length-to_le_bytes, from_le_bytes-to_le_bytes}
use bluetooth_ots_rs.Base.Outcome.{Outcome, ok, err, panic, undefined, map_err, ◌>>=◌}
use bluetooth_ots_rs.Core.DirEntries.{
  DirEntries, dir_entries, is_empty, next, Next, Item, drain, after_turn,
}
use bluetooth_ots_rs.Core.DirEntries.Steps.{
  claimed, framed, item_of, next_lem, remaining, next-remaining,
}
use bluetooth_ots_rs.Crates.{Bitflags, UuidCrate}

-- The directory object: its records one after the other.
abbrev pub directory : List (List ℕ) → List ℕ
directory [] = []
directory (body ∷ bodies) = framed body ++ directory bodies

-- A record whose length field holds its length, and that is not below the shortest one.
abbrev pub FitsRecord : List ℕ → Type 0
FitsRecord body = (11 ≤ length body) × (length body + 2 < 2 ^ 16)

length-framed : (body : List ℕ) → length (framed body) ≡ length body + 2
length-framed body = omega (
  arith,
  length-append (to_le_bytes 2 (length body + 2)) body,
  length-to_le_bytes 2 (length body + 2),
)

claimed-framed :
    (body rest : List ℕ) → FitsRecord body → claimed (framed body ++ rest) ≡ length body + 2
unfolding to_le_bytes
claimed-framed body rest (_, h) = from_le_bytes-to_le_bytes 2 (length body + 2) h

drop-framed : (body : List ℕ) → drop 2 (framed body) ≡ body
drop-framed body = drop-append 2 (to_le_bytes 2 (length body + 2)) body (length-to_le_bytes 2 _)

framed-ne-nil : (body rest : List ℕ) → is_empty (framed body ++ rest) ≡ false
unfolding to_le_bytes
framed-ne-nil body rest = refl

module _ (b : Bitflags) (u : UuidCrate) where
  next-framed :
      (body rest : List ℕ)
      → FitsRecord body
      → next b u (record { raw = framed body ++ rest; done = false })
        ≡ ok (some (item_of b u body), record { raw = rest; done = is_empty rest })
  next-framed body rest fits =
      next_lem b u (record { raw = framed body ++ rest; done = false })
      ∙ rw
          (
            claimed-framed body rest fits,
            take-append (length body + 2) (framed body) rest (length-framed body),
            drop-append (length body + 2) (framed body) rest (length-framed body),
            drop-framed body,
          )
          (ground
            (arith, length-append (framed body) rest, length-framed body, framed-ne-nil body rest))

  drain_step :
      (fuel : ℕ) (d d' : DirEntries) (x : Item b u)
      → next b u d ≡ ok (some x, d')
      → drain b u (suc fuel) d ≡ (drain b u fuel d' >>= λ xs. ok (x ∷ xs))
  unfolding drain
  drain_step fuel d d' x e = rw e

  drain_empty : (fuel : ℕ) (c : Bool) → drain b u (suc fuel) (record { raw = []; done = c }) ≡ ok []
  unfolding drain
  drain_empty fuel c = ground (arith, next_lem b u (record { raw = []; done = c }))

  -- Behind the first record the iterator is done if no byte is left.
  drain_later :
      (bodies : List (List ℕ)) (fuel : ℕ)
      → length bodies < fuel
      → All FitsRecord bodies
      → drain b u fuel (record { raw = directory bodies; done = is_empty (directory bodies) })
        ≡ ok (map (item_of b u) bodies)
  drain_later bodies zero h fits = absurd (omega arith)
  drain_later [] (suc fuel) h fits = drain_empty fuel true
  drain_later (body ∷ bodies) (suc fuel) h (f, fits) = rw (framed-ne-nil body (directory bodies)) (
      drain_step fuel _ _ _ (next-framed body (directory bodies) f)
      ∙ rw (drain_later bodies fuel (omega arith) fits))

  -- A directory of records, each with a body of eleven bytes at least and short enough for its length
  -- field, is iterated over to its end, with fuel for one turn more than it has records. Each record
  -- yields one item, in order: what the parser makes of its body, an error included.
  pub drain-directory :
      (bodies : List (List ℕ)) (fuel : ℕ)
      → length bodies < fuel
      → All FitsRecord bodies
      → drain b u fuel (dir_entries (directory bodies)) ≡ ok (map (item_of b u) bodies)
  drain-directory bodies zero h fits = absurd (omega arith)
  drain-directory [] (suc fuel) h fits = drain_empty fuel false
  drain-directory (body ∷ bodies) (suc fuel) h (f, fits) =
      drain_step fuel _ _ _ (next-framed body (directory bodies) f)
      ∙ rw (drain_later bodies fuel (omega arith) fits)

  turn_ends :
      (d : DirEntries) (more : DirEntries → Outcome (Unit {0}) (List (Item b u))) (r : Next b u)
      → next b u d ≡ r
      → ((d' : DirEntries) → remaining b u d' < remaining b u d → more d' ≢ err tt)
      → (map_err absurd r >>= after_turn b u more) ≢ err tt
  unfolding after_turn
  turn_ends d more (ok (none, d')) e h = λ p. cc
  turn_ends d more (ok (some x, d')) e h =
      let later : more d' ≢ err tt = h d' (next-remaining b u d d' x e) in ground arith
  turn_ends d more (err e') e h = absurd e'
  turn_ends d more panic e h = λ p. cc
  turn_ends d more undefined e h = λ p. cc

  -- On any bytes the iteration ends: fuel for one turn more than there is left to iterate over is
  -- never used up.
  pub drain_ends : (fuel : ℕ) (d : DirEntries) → remaining b u d < fuel → drain b u fuel d ≢ err tt
  unfolding drain
  drain_ends zero d h = absurd (omega arith)
  drain_ends (suc fuel) d h =
      turn_ends d (drain b u fuel) (next b u d) refl λ d' l. drain_ends fuel d' (omega arith)
