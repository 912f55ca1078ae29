-- ===== src/Cli/Listing/Detailed/Lines.antt =====
-- cli/src/main.rs, `print_directory_iter`: the line of an object column by column, as the flags of the
-- command ask for it.
use bluetooth_ots_rs.Base.{
  ℕ, ◌≡◌, refl, ap, ap₂, ◌∙◌, Bool, true, false, Option, none, some, List, [], ◌∷◌, ◌++◌,
  append-nil,
}
use bluetooth_ots_rs.Cli.Args.{ListArgs}
use bluetooth_ots_rs.Cli.Command.{Piece}
use bluetooth_ots_rs.Cli.Listing.{only, shown_if, word}
use bluetooth_ots_rs.Cli.Listing.Detailed.{detail_row}
use bluetooth_ots_rs.Cli.Listing.Layout.{
  six, six_right, id_cell, id_cell_lem, sizes_cell, asks_current, asks_allocated, asks_created,
  asks_modified,
}
use bluetooth_ots_rs.Client.Objects.Described.{Details}
use bluetooth_ots_rs.Core.DateTime.{DateTime}

module _ {Uuid : Type 0} where
  abbrev pub time_value : Option DateTime → List (Piece Uuid)
  time_value none = []
  time_value (some t) = Piece.time t ∷ []

  -- The times that are asked for and that the object has. The stroke stands in front of a time of
  -- modification where that of creation is asked for, also if the object does not have it.
  abbrev pub times_cell :
      (created modified : Bool) → Option DateTime → Option DateTime → List (Piece Uuid)
  times_cell true true c none = time_value c
  times_cell true true c (some m) = time_value c ++ (Piece.text "/" ∷ Piece.time m ∷ [])
  times_cell true false c m = time_value c
  times_cell false true c m = time_value m
  times_cell false false c m = []

  -- The line of an object with these details.
  abbrev pub details_line : ListArgs → ℕ → Details Uuid → List (Piece Uuid)
  details_line a index d =
      six (Piece.number index) a (id_cell d.id) (Piece.text "\t" ∷ Piece.quoted d.name ∷ [])
        (Piece.text "\t" ∷ Piece.uuid d.type_ ∷ [])
        (Piece.text "\t"
          ∷ sizes_cell (asks_current a) (asks_allocated a) (some d.size.current)
              (some d.size.allocated))
        (Piece.text "\t"
          ∷ times_cell (asks_created a) (asks_modified a) d.first_created d.last_modified)
        (Piece.text "\t" ∷ Piece.properties d.properties ∷ [])

  sizes_lem :
      (current allocated : Bool) (c n : ℕ)
      → word {Uuid = Uuid} "\t"
          ++ (only current (Piece.number c ∷ [])
              ++ only allocated (only current (word {Uuid = Uuid} "/") ++ (Piece.number n ∷ [])))
        ≡ Piece.text "\t" ∷ sizes_cell current allocated (some c) (some n)
  sizes_lem true true c n = refl
  sizes_lem true false c n = refl
  sizes_lem false true c n = refl
  sizes_lem false false c n = refl

  time_value_lem : (t : Option DateTime) → shown_if t (λ t. Piece.time t ∷ []) ≡ time_value t
  time_value_lem none = refl
  time_value_lem (some t) = refl

  times_lem :
      (created modified : Bool) (c m : Option DateTime)
      → word "\t"
          ++ (only created (shown_if c λ t. Piece.time t ∷ [])
              ++ only modified (shown_if m λ t. only created (word "/") ++ (Piece.time t ∷ [])))
        ≡ Piece.text "\t" ∷ times_cell created modified c m
  times_lem true true c none = rw (time_value_lem c) (ap (◌∷◌ (Piece.text "\t")) (append-nil _))
  times_lem true true c (some m) = rw (time_value_lem c) refl
  times_lem true false c m = rw (time_value_lem c) (ap (◌∷◌ (Piece.text "\t")) (append-nil _))
  times_lem false true c none = refl
  times_lem false true c (some m) = refl
  times_lem false false c m = refl

  -- The parts of a line, one after the other, are this line.
  pub detail_row-details_line :
      (a : ListArgs) (index : ℕ) (d : Details Uuid) → detail_row a index d ≡ details_line a index d
  detail_row-details_line a index d =
      six_right (Piece.number index) a _ _ _ _ _ _
      ∙ ap₂
          (λ id (both : List (Piece Uuid) × List (Piece Uuid)).
            six (Piece.number index) a id (Piece.text "\t" ∷ Piece.quoted d.name ∷ [])
              (Piece.text "\t" ∷ Piece.uuid d.type_ ∷ []) both.0 both.1
              (Piece.text "\t" ∷ Piece.properties d.properties ∷ []))
          (id_cell_lem d.id)
          (ap₂ (λ size time. (size, time))
            (sizes_lem (asks_current a) (asks_allocated a) d.size.current d.size.allocated)
            (times_lem (asks_created a) (asks_modified a) d.first_created d.last_modified))
