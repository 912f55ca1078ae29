-- ===== src/Cli/Listing/Layout.antt =====
-- cli/src/main.rs, `print_directory_data`: the lines of a listing column by column, as the flags of
-- the command ask for them.
use bluetooth_ots_rs.Base.{
  ℕ, ◌≡◌, refl, ap, ap₂, ◌∙◌, Bool, true, false, ◌||◌, Option, none, some, List, [], ◌∷◌, ◌++◌,
  append_assoc, append-nil,
}
use bluetooth_ots_rs.Cli.Args.{ListArgs}
use bluetooth_ots_rs.Cli.Command.{Piece}
use bluetooth_ots_rs.Cli.Listing.{only, shown_if, word, data_row}
use bluetooth_ots_rs.Core.Metadata.{Metadata}

-- What the flags ask for. The flag `--full` asks for all but the times.
module _ (a : ListArgs) where
  abbrev pub asks_id : Bool
  asks_id = a.id || a.full

  abbrev pub asks_name : Bool
  asks_name = a.name || a.full

  abbrev pub asks_type : Bool
  asks_type = a.type_ || a.full

  abbrev pub asks_current : Bool
  asks_current = a.cur_size || a.size || a.full

  abbrev pub asks_allocated : Bool
  asks_allocated = a.alloc_size || a.size || a.full

  abbrev pub asks_size : Bool
  asks_size = a.cur_size || a.alloc_size || a.size || a.full

  abbrev pub asks_created : Bool
  asks_created = a.crt_time || a.time

  abbrev pub asks_modified : Bool
  asks_modified = a.mod_time || a.time

  abbrev pub asks_time : Bool
  asks_time = a.crt_time || a.mod_time || a.time

  abbrev pub asks_properties : Bool
  asks_properties = a.props || a.full

module _ {Uuid : Type 0} where
  -- A column that is shown or left out.
  abbrev pub column : Bool → List (Piece Uuid) → List (List (Piece Uuid))
  column true cell = cell ∷ []
  column false cell = []

  -- The columns of one line, and its end.
  abbrev pub line : List (List (Piece Uuid)) → List (Piece Uuid)
  line [] = Piece.newline ∷ []
  line (cell ∷ cells) = cell ++ line cells

  line-column :
      (shown : Bool) (cell : List (Piece Uuid)) (cells : List (List (Piece Uuid)))
      → line (column shown cell ++ cells) ≡ only shown cell ++ line cells
  line-column true cell cells = refl
  line-column false cell cells = refl

  line-last :
      (shown : Bool) (cell : List (Piece Uuid))
      → line (column shown cell) ≡ only shown cell ++ (Piece.newline ∷ [])
  line-last true cell = refl
  line-last false cell = refl

  -- A line of six columns behind its first cell.
  abbrev pub six :
      Piece Uuid
      → ListArgs
      → (id name type_ size time properties : List (Piece Uuid)) → List (Piece Uuid)
  six first a id name type_ size time properties =
      first
      ∷ line (
          column (asks_id a) id
          ++ (column (asks_name a) name
              ++ (column (asks_type a) type_
                  ++ (column (asks_size a) size
                      ++ (column (asks_time a) time ++ column (asks_properties a) properties)))))

  pub six_right :
      (first : Piece Uuid) (a : ListArgs) (id name type_ size time properties : List (Piece Uuid))
      → (first ∷ [])
          ++ (only (asks_id a) id
              ++ (only (asks_name a) name
                  ++ (only (asks_type a) type_
                      ++ (only (asks_size a) size
                          ++ (only (asks_time a) time
                              ++ (only (asks_properties a) properties ++ (Piece.newline ∷ [])))))))
        ≡ six first a id name type_ size time properties
  six_right first a id name type_ size time properties =
      rw (line-column, line-column, line-column, line-column, line-column, line-last) refl

  pub six_lem :
      (first : Piece Uuid) (a : ListArgs) (id name type_ size time properties : List (Piece Uuid))
      → (first ∷ [])
          ++ only (asks_id a) id
          ++ only (asks_name a) name
          ++ only (asks_type a) type_
          ++ only (asks_size a) size
          ++ only (asks_time a) time
          ++ only (asks_properties a) properties
          ++ (Piece.newline ∷ [])
        ≡ six first a id name type_ size time properties
  six_lem first a id name type_ size time properties =
      simp append_assoc (six_right first a id name type_ size time properties)

  -- The cell of an identifier, which with its tabulator is left out where there is none.
  abbrev pub id_cell : Option ℕ → List (Piece Uuid)
  id_cell none = []
  id_cell (some n) = Piece.text "\t" ∷ Piece.number n ∷ []

  abbrev pub size_value : Option ℕ → List (Piece Uuid)
  size_value none = []
  size_value (some n) = Piece.number n ∷ []

  -- The sizes that are asked for and that the record has. The stroke stands in front of an allocated
  -- size where the current one is asked for, also if the record does not have it.
  abbrev pub sizes_cell : (current allocated : Bool) → Option ℕ → Option ℕ → List (Piece Uuid)
  sizes_cell true true c none = size_value c
  sizes_cell true true c (some n) = size_value c ++ (Piece.text "/" ∷ Piece.number n ∷ [])
  sizes_cell true false c n = size_value c
  sizes_cell false true c n = size_value n
  sizes_cell false false c n = []

  -- The line of a record of the directory. The cell of the times is empty.
  abbrev pub record_line : ListArgs → ℕ → Metadata Uuid → List (Piece Uuid)
  record_line a index meta =
      six (Piece.number index) a (id_cell meta.id) (Piece.text "\t" ∷ Piece.quoted meta.name ∷ [])
        (Piece.text "\t" ∷ Piece.uuid meta.type_ ∷ [])
        (Piece.text "\t"
          ∷ sizes_cell (asks_current a) (asks_allocated a) meta.current_size meta.allocated_size)
        (Piece.text "\t" ∷ []) (Piece.text "\t" ∷ Piece.properties meta.properties ∷ [])

  pub id_cell_lem :
      (id : Option ℕ) → shown_if id (λ n. Piece.text "\t" ∷ Piece.number n ∷ []) ≡ id_cell id
  id_cell_lem none = refl
  id_cell_lem (some n) = refl

  size_value_lem : (size : Option ℕ) → shown_if size (λ n. Piece.number n ∷ []) ≡ size_value size
  size_value_lem none = refl
  size_value_lem (some n) = refl

  sizes_cell_lem :
      (current allocated : Bool) (c n : Option ℕ)
      → word "\t"
          ++ only current (shown_if c λ n. Piece.number n ∷ [])
          ++ only allocated (shown_if n λ n. only current (word "/") ++ (Piece.number n ∷ []))
        ≡ Piece.text "\t" ∷ sizes_cell current allocated c n
  sizes_cell_lem true true c none =
      rw (size_value_lem c) (ap (◌∷◌ (Piece.text "\t")) (append-nil _))
  sizes_cell_lem true true c (some n) = rw (size_value_lem c) refl
  sizes_cell_lem true false c n = rw (size_value_lem c) (ap (◌∷◌ (Piece.text "\t")) (append-nil _))
  sizes_cell_lem false true c none = refl
  sizes_cell_lem false true c (some n) = refl
  sizes_cell_lem false false c n = refl

  -- The line that is printed for a record has these cells.
  pub data_row-record_line :
      (a : ListArgs) (index : ℕ) (meta : Metadata Uuid)
      → data_row a index meta ≡ record_line a index meta
  unfolding data_row
  data_row-record_line a index meta =
      six_lem (Piece.number index) a _ _ _ _ _ _
      ∙ ap₂
          (λ id size.
            six (Piece.number index) a id (Piece.text "\t" ∷ Piece.quoted meta.name ∷ [])
              (Piece.text "\t" ∷ Piece.uuid meta.type_ ∷ []) size (Piece.text "\t" ∷ [])
              (Piece.text "\t" ∷ Piece.properties meta.properties ∷ []))
          (id_cell_lem meta.id)
          (sizes_cell_lem (asks_current a) (asks_allocated a) meta.current_size meta.allocated_size)
