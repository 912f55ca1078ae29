-- ===== src/Cli/Listing/Titles.antt =====
-- cli/src/main.rs, `print_header`: the titles of the columns that the flags of the command ask for.
use bluetooth_ots_rs.Base.{◌≡◌, refl, ap₂, ◌∙◌, Bool, true, false, List, [], ◌∷◌, ◌++◌}
use bluetooth_ots_rs.Cli.Args.{ListArgs}
use bluetooth_ots_rs.Cli.Command.{Piece}
use bluetooth_ots_rs.Cli.Listing.Layout.{
  six, six_lem, asks_current, asks_allocated, asks_created, asks_modified,
}
use bluetooth_ots_rs.Cli.Listing.{only, word, header}

module _ {Uuid : Type 0} where
  -- The titles of the sizes that are asked for, with a stroke between them.
  abbrev pub size_titles : (current allocated : Bool) → List (Piece Uuid)
  size_titles true true = Piece.text "current" ∷ Piece.text "/" ∷ Piece.text "allocated" ∷ []
  size_titles true false = Piece.text "current" ∷ []
  size_titles false true = Piece.text "allocated" ∷ []
  size_titles false false = []

  -- The titles of the times that are asked for: the stroke stands in front of `modified` also where
  -- nothing is in front of it.
  abbrev pub time_titles : (created modified : Bool) → List (Piece Uuid)
  time_titles true true = Piece.text "created" ∷ Piece.text "/" ∷ Piece.text "modified" ∷ []
  time_titles true false = Piece.text "created" ∷ []
  time_titles false true = Piece.text "/" ∷ Piece.text "modified" ∷ []
  time_titles false false = []

  -- The titles of the columns. The title `time` ends its line.
  abbrev pub title_line : ListArgs → List (Piece Uuid)
  title_line a =
      six (Piece.text "index") a (Piece.text "\tid" ∷ []) (Piece.text "\tname" ∷ [])
        (Piece.text "\ttype" ∷ [])
        (Piece.text "\tsize " ∷ size_titles (asks_current a) (asks_allocated a))
        (Piece.text "\ttime " ∷ Piece.newline ∷ time_titles (asks_created a) (asks_modified a))
        (Piece.text "\tprops" ∷ [])

  size_titles_lem :
      (current allocated : Bool)
      → word "\tsize "
          ++ only current (word "current")
          ++ only allocated (only current (word "/") ++ word "allocated")
        ≡ Piece.text "\tsize " ∷ size_titles current allocated
  size_titles_lem true true = refl
  size_titles_lem true false = refl
  size_titles_lem false true = refl
  size_titles_lem false false = refl

  time_titles_lem :
      (created modified : Bool)
      → (Piece.text "\ttime " ∷ Piece.newline ∷ [])
          ++ only created (word "created")
          ++ only modified (only modified (word "/") ++ word "modified")
        ≡ Piece.text "\ttime " ∷ Piece.newline ∷ time_titles created modified
  time_titles_lem true true = refl
  time_titles_lem true false = refl
  time_titles_lem false true = refl
  time_titles_lem false false = refl

  -- The header of a table has these titles.
  pub header-title_line : (a : ListArgs) → header a ≡ title_line a
  unfolding header
  header-title_line a =
      six_lem (Piece.text "index") a _ _ _ _ _ _
      ∙ ap₂
          (λ size time.
            six (Piece.text "index") a (Piece.text "\tid" ∷ []) (Piece.text "\tname" ∷ [])
              (Piece.text "\ttype" ∷ []) size time (Piece.text "\tprops" ∷ []))
          (size_titles_lem (asks_current a) (asks_allocated a))
          (time_titles_lem (asks_created a) (asks_modified a))
