-- ===== src/Cli/Listing/Directory.antt =====
-- cli/src/main.rs, `print_directory_data`: the lines for the records of a directory.
use bluetooth_ots_rs.Base.{
  ℕ, zero, suc, ◌<◌, ◌≡◌, refl, ap, ◌∙◌, subst, Bool, some, none, List, [], ◌∷◌, ◌++◌, inl, inr,
  length, All, map,
}
use bluetooth_ots_rs.Base.Outcome.{
  Outcome, ok, err, panic, undefined, map_err, ◌>>=◌, >>=-both, ok_injective,
}
use bluetooth_ots_rs.Cli.Args.{ListArgs}
use bluetooth_ots_rs.Cli.Command.{Stop, failed, ots_error, Session}
use bluetooth_ots_rs.Cli.Listing.Layout.{record_line, data_row-record_line}
use bluetooth_ots_rs.Cli.Listing.{entries, print_entry, print_directory_data}
use bluetooth_ots_rs.Client.Host.{Host}
use bluetooth_ots_rs.Base.Monad.{after}
use bluetooth_ots_rs.Client.State.{OtsClient, core}
use bluetooth_ots_rs.Core.DirEntries.{DirEntries, dir_entries, Item, Next, next, after_turn, drain}
use bluetooth_ots_rs.Core.DirEntries.Directory.{directory, FitsRecord, drain-directory}
use bluetooth_ots_rs.Core.DirEntries.Steps.{item_of}
use bluetooth_ots_rs.Crates.{Bitflags, UuidCrate}

module _ (overflow_checks : Bool) (b : Bitflags) (u : UuidCrate) (h : Host u.Uuid) (c : OtsClient h)
    (a : ListArgs) where
  -- One line for each item with its number, up to the first error, which ends the command.
  abbrev pub printed : ℕ → List (Item b u) → Session h → Outcome (Stop h) (Unit {0}) × Session h
  printed index [] s = (ok tt, s)
  printed index (inr meta ∷ items) s =
      printed (suc index) items (record s { out = s.out ++ record_line a index meta })
  printed index (inl e ∷ items) s = (err (failed (ots_error (core e))), s)

  entry-printed :
      (turns index : ℕ) (items : List (Item b u)) (s : Session h) (r : Next b u)
      → ((d : DirEntries) (rest : List (Item b u)) (s' : Session h)
          → drain b u turns d ≡ ok rest
          → entries overflow_checks b u h c a turns (suc index) d s' ≡ printed (suc index) rest s')
      → (map_err absurd r >>= after_turn b u (drain b u turns)) ≡ ok items
      → after
          (map_err absurd r, s)
          (print_entry overflow_checks b u h c a
            (entries overflow_checks b u h c a turns (suc index))
            index)
        ≡ printed index items s
  unfolding after_turn print_entry
  entry-printed turns index items s (ok (none, d)) more e =
      subst (λ l. (ok tt, s) ≡ printed index l s) (ok_injective _ _ e) refl
  entry-printed turns index items s (ok (some (inl x), d)) more e =
      let (rest, left, all) = >>=-both (drain b u turns d) (λ xs. ok (inl x ∷ xs)) e in
      subst (λ l. (err (failed (ots_error (core x))), s) ≡ printed index l s) (ok_injective _ _ all)
        refl
  entry-printed turns index items s (ok (some (inr meta), d)) more e =
      let (rest, left, all) = >>=-both (drain b u turns d) (λ xs. ok (inr meta ∷ xs)) e in
      let s' = record s { out = s.out ++ record_line a index meta } in
      ap
        (λ row.
          entries overflow_checks b u h c a turns (suc index) d (record s { out = s.out ++ row }))
        (data_row-record_line a index meta)
      ∙ more d rest s' left
      ∙ subst (λ l. printed index (inr meta ∷ rest) s ≡ printed index l s) (ok_injective _ _ all)
          refl
  entry-printed turns index items s (err x) more e = absurd x
  entry-printed turns index items s panic more e = cc
  entry-printed turns index items s undefined more e = cc

  -- The loop prints what iterating over the records yields.
  entries-printed :
      (turns index : ℕ) (d : DirEntries) (items : List (Item b u)) (s : Session h)
      → drain b u turns d ≡ ok items
      → entries overflow_checks b u h c a turns index d s ≡ printed index items s
  unfolding entries drain
  entries-printed zero index d items s e = cc
  entries-printed (suc turns) index d items s e =
      entry-printed turns index items s (next b u d)
        (λ d' rest s' e'. entries-printed turns (suc index) d' rest s' e') e

  -- Printing a directory of framed records prints one line for each record, in order, up to the first
  -- record that is refused, whose error ends the command. A line has the number of the record,
  -- counted from 0, and of the columns that the flags ask for the identifier where the record has
  -- one, the name, the type, the sizes that the record has and the properties; the column of the
  -- times is an empty cell, though the record may have times. One turn more than there are records is
  -- enough.
  pub print_directory_data-printed :
      (turns : ℕ) (bodies : List (List ℕ)) (s : Session h)
      → length bodies < turns
      → All FitsRecord bodies
      → print_directory_data overflow_checks b u h c a turns (directory bodies) s
        ≡ printed 0 (map (item_of b u) bodies) s
  unfolding print_directory_data
  print_directory_data-printed turns bodies s enough fits =
      entries-printed turns 0 (dir_entries (directory bodies)) (map (item_of b u) bodies) s
        (drain-directory b u bodies turns enough fits)
