-- ===== src/Cli/Listing.antt =====
-- cli/src/main.rs, `ListArgs`: the table of objects, read one by one or from the directory object.
pub mod Rows
pub mod Detailed
pub mod Missing
pub mod Layout
pub mod Titles
pub mod Directory
use bluetooth_ots_rs.Base.{
  ℕ, zero, suc, Bool, true, false, Option, none, some, String, List, [], ◌∷◌, ◌++◌, ◌⊎◌, inl, inr,
  if◌then◌else◌,
}
use bluetooth_ots_rs.Base.Outcome.{map_err}
use bluetooth_ots_rs.Cli.Args.{ListArgs}
use bluetooth_ots_rs.Cli.Args.Columns
use bluetooth_ots_rs.Cli.Command.{
  Stop, failed, out_of_turns, ots_error, Quiet, ots, Piece, Cli, quietly, print,
}
use bluetooth_ots_rs.Client.Host.{Host}
use bluetooth_ots_rs.Base.Monad.{Action, ◌>>=◌, ◌>>◌, pure, throw, lift, attempt}
use bluetooth_ots_rs.Client.Objects
use bluetooth_ots_rs.Client.Operations
use bluetooth_ots_rs.Client.State.{Error, core, OtsClient}
use bluetooth_ots_rs.Client.Transfer
use bluetooth_ots_rs.Core.DirEntries.{DirEntries, dir_entries}
use bluetooth_ots_rs.Core.DirEntries
use bluetooth_ots_rs.Core.Error.{Error as CoreError}
use bluetooth_ots_rs.Core.Metadata.{Metadata}
use bluetooth_ots_rs.Core.Numbers.{Sizes}
use bluetooth_ots_rs.Crates.{Bitflags, UuidCrate}

module _ {Uuid : Type 0} where
  -- Pieces that are printed under a condition.
  abbrev pub only : Bool → List (Piece Uuid) → List (Piece Uuid)
  only true pieces = pieces
  only false pieces = []

  abbrev pub shown_if : {A : Type 0} → Option A → (A → List (Piece Uuid)) → List (Piece Uuid)
  shown_if none show = []
  shown_if (some a) show = show a

  abbrev pub word : String → List (Piece Uuid)
  word s = Piece.text s ∷ []

  -- `print_header`
  unfoldable pub header : ListArgs → List (Piece Uuid)
  header a =
      word "index"
      ++ only (Columns.id a) (word "\tid")
      ++ only (Columns.name a) (word "\tname")
      ++ only (Columns.type_ a) (word "\ttype")
      ++ only (Columns.any_size a) (
          word "\tsize "
          ++ only (Columns.cur_size a) (word "current")
          ++ only (Columns.alloc_size a) (only (Columns.cur_size a) (word "/") ++ word "allocated"))
      ++ only (Columns.any_time a) (
          (Piece.text "\ttime " ∷ Piece.newline ∷ [])
          ++ only (Columns.crt_time a) (word "created")
          ++ only (Columns.mod_time a) (only (Columns.mod_time a) (word "/") ++ word "modified"))
      ++ only (Columns.props a) (word "\tprops")
      ++ (Piece.newline ∷ [])

  -- One line of `print_directory_data`.
  unfoldable pub data_row : ListArgs → ℕ → Metadata Uuid → List (Piece Uuid)
  data_row a index meta =
      (Piece.number index ∷ [])
      ++ only (Columns.id a) (shown_if meta.id λ id. Piece.text "\t" ∷ Piece.number id ∷ [])
      ++ only (Columns.name a) (Piece.text "\t" ∷ Piece.quoted meta.name ∷ [])
      ++ only (Columns.type_ a) (Piece.text "\t" ∷ Piece.uuid meta.type_ ∷ [])
      ++ only (Columns.any_size a) (
          word "\t"
          ++ only (Columns.cur_size a) (shown_if meta.current_size λ n. Piece.number n ∷ [])
          ++ only (Columns.alloc_size a) (
              shown_if meta.allocated_size
                λ n. only (Columns.cur_size a) (word "/") ++ (Piece.number n ∷ [])))
      ++ only (Columns.any_time a) (word "\t")
      ++ only (Columns.props a) (Piece.text "\t" ∷ Piece.properties meta.properties ∷ [])
      ++ (Piece.newline ∷ [])

module _ (overflow_checks : Bool) (b : Bitflags) (u : UuidCrate) (h : Host u.Uuid) (c : OtsClient h)
    (a : ListArgs) where
  abbrev pub when : Bool → Cli h (Unit {0}) → Cli h (Unit {0})
  when true m = m
  when false m = pure tt

  print_id : Cli h (Unit {0})
  print_id = do
    id ← quietly h (ots h (Objects.id b u h c))
    print h (shown_if id λ n. Piece.text "\t" ∷ Piece.number n ∷ [])

  print_name : Cli h (Unit {0})
  print_name = do
    name ← quietly h (ots h (Objects.name b u h c))
    print h (Piece.text "\t" ∷ Piece.quoted name ∷ [])

  print_type : Cli h (Unit {0})
  print_type = do
    type_ ← quietly h (ots h (Objects.type_ b u h c))
    print h (Piece.text "\t" ∷ Piece.uuid type_ ∷ [])

  print_size : Cli h (Unit {0})
  print_size = do
    size ← quietly h (ots h (Objects.size b u h c))
    print h (word "\t")
    when (Columns.cur_size a) (print h (Piece.number size.current ∷ []))
    when (Columns.alloc_size a)
        (print h (only (Columns.cur_size a) (word "/") ++ (Piece.number size.allocated ∷ [])))

  print_created : Cli h (Unit {0})
  print_created = do
    dt ← quietly h (ots h (Objects.first_created b u h c))
    print h (shown_if dt λ t. Piece.time t ∷ [])

  print_modified : Cli h (Unit {0})
  print_modified = do
    dt ← quietly h (ots h (Objects.last_modified b u h c))
    print h (shown_if dt λ t. only (Columns.crt_time a) (word "/") ++ (Piece.time t ∷ []))

  print_time : Cli h (Unit {0})
  print_time = do
    print h (word "\t")
    when (Columns.crt_time a) print_created
    when (Columns.mod_time a) print_modified

  print_properties : Cli h (Unit {0})
  print_properties = do
    properties ← quietly h (ots h (Objects.properties b u h c))
    print h (Piece.text "\t" ∷ Piece.properties properties ∷ [])

  -- One line of `print_directory_iter`.
  unfoldable pub print_row : ℕ → Cli h (Unit {0})
  unfolding print_id print_name print_type print_size print_time print_properties print_created
      print_modified
  print_row index = do
    print h (Piece.number index ∷ [])
    when (Columns.id a) print_id
    when (Columns.name a) print_name
    when (Columns.type_ a) print_type
    when (Columns.any_size a) print_size
    when (Columns.any_time a) print_time
    when (Columns.props a) print_properties
    print h (Piece.newline ∷ [])

  -- `for index in 0..`, with a bounded number of turns.
  unfoldable pub rows : (turns index : ℕ) → Cli h (Unit {0})
  rows zero index = throw out_of_turns
  rows (suc turns) index = do
    print_row index
    more ← quietly h (ots h (Objects.next b u h c))
    if more then rows turns (suc index) else pure tt

  unfoldable pub print_directory_iter : (turns : ℕ) → Cli h (Unit {0})
  print_directory_iter turns = do quietly h (ots h (Operations.first b u h c)); rows turns 0

  -- `let meta = ent?`, and the line, given the turns to come.
  unfoldable pub print_entry :
      (DirEntries → Cli h (Unit {0}))
      → ℕ
      → Option (CoreError ⊎ Metadata u.Uuid) × DirEntries
      → Cli h (Unit {0})
  print_entry more index (none, d) = pure tt
  print_entry more index (some (inl e), d) = throw (failed (ots_error (core e)))
  print_entry more index (some (inr meta), d) = do print h (data_row a index meta); more d

  unfoldable pub entries : (turns index : ℕ) → DirEntries → Cli h (Unit {0})
  unfolding print_entry
  entries zero index d = throw out_of_turns
  entries (suc turns) index d = do
    turn ← lift (map_err absurd (DirEntries.next b u d))
    print_entry (entries turns (suc index)) index turn

  unfoldable pub print_directory_data : (turns : ℕ) → List ℕ → Cli h (Unit {0})
  print_directory_data turns bytes = entries turns 0 (dir_entries bytes)

  from_directory : (turns : ℕ) → Error h ⊎ List ℕ → Cli h (Unit {0})
  from_directory turns (inr bytes) = print_directory_data turns bytes
  from_directory turns (inl e) = print_directory_iter turns

  -- `ots.go_to(0).await.is_ok()` looks at no more than whether there was an error.
  try_directory : (turns : ℕ) → Error h ⊎ Bool → Cli h (Unit {0})
  try_directory turns (inr found) = do
    contents ← quietly h (attempt (Transfer.read overflow_checks b u h c 0 none))
    from_directory turns contents
  try_directory turns (inl e) = print_directory_iter turns

  directory_first : (turns : ℕ) → Bool → Cli h (Unit {0})
  directory_first turns true = do
    found ← quietly h (attempt (Objects.go_to b u h c 0))
    try_directory turns found
  directory_first turns false = print_directory_iter turns

  -- `ListArgs::run`
  unfoldable pub run : (turns : ℕ) → Cli h (Unit {0})
  unfolding directory_first try_directory from_directory
  run turns = do print h (header a); directory_first turns a.dir
