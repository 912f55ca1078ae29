-- ===== src/Cli/Listing/Detailed/Row.antt =====
-- cli/src/main.rs, `print_directory_iter` with any columns: the whole line, and the table.
use bluetooth_ots_rs.Base.{ℕ, ◌≡◌, refl, Bool, List, [], ◌∷◌, ◌++◌}
use bluetooth_ots_rs.Base.Monad.{◌>>◌}
use bluetooth_ots_rs.Cli.Args.{ListArgs}
use bluetooth_ots_rs.Cli.Args.Columns
use bluetooth_ots_rs.Cli.Command.{Piece, Cli, print}
use bluetooth_ots_rs.Cli.Listing.{
  only, shown_if, word, when, print_id, print_name, print_type, print_size, print_created,
  print_modified, print_time, print_properties, print_row,
}
use bluetooth_ots_rs.Cli.Listing.Detailed.{
  detail_row, Column, OnlyPrints, seq-OnlyPrints, when-OnlyPrints, column_print, column_read,
  column_seq, column_when,
}
use bluetooth_ots_rs.Client.Host.{Host}
use bluetooth_ots_rs.Client.Objects
use bluetooth_ots_rs.Client.Objects.Described.{
  Details, Reads, after_optional, optional_view, id-value, name-value, type_-value, size-value,
  first_created-value, last_modified-value, properties-value,
}
use bluetooth_ots_rs.Client.Served.{Object, Serves}
use bluetooth_ots_rs.Client.State.{OtsClient}
use bluetooth_ots_rs.Core.Numbers.{Sizes}
use bluetooth_ots_rs.Crates.{Bitflags, UuidCrate}

module _ (overflow_checks : Bool) (b : Bitflags) (u : UuidCrate) (h : Host u.Uuid) (c : OtsClient h)
    (a : ListArgs) (chr : h.CharId) (s : Serves h c chr) (r : Reads h c chr s)
    (d : Object → Details u.Uuid) where
  abbrev Part : Cli h (Unit {0}) → Type 0
  Part m = Column overflow_checks b u h c a chr s r d m

  part_print : (pieces : List (Piece u.Uuid)) → Part (print h pieces)
  part_print pieces = column_print overflow_checks b u h c a chr s r d pieces

  part_id : Part (print_id overflow_checks b u h c a)
  unfolding print_id
  part_id =
      column_read overflow_checks b u h c a chr s r d (Objects.id b u h c) (λ o. (d o).id)
        (after_optional b u h c chr s r c.id_chr) _
        (λ id. shown_if id λ n. Piece.text "\t" ∷ Piece.number n ∷ [])
        (optional_view b u h c chr s r c.id_chr)
        (λ o w is e. id-value b u h c chr s r o (d o) is w e) λ id w out. refl

  part_name : Part (print_name overflow_checks b u h c a)
  unfolding print_name
  part_name =
      column_read overflow_checks b u h c a chr s r d (Objects.name b u h c) (λ o. (d o).name)
        r.after_read _ (λ name. Piece.text "\t" ∷ Piece.quoted name ∷ []) r.read_view
        (λ o w is e. name-value b u h c chr s r o (d o) is w e) λ name w out. refl

  part_type : Part (print_type overflow_checks b u h c a)
  unfolding print_type
  part_type =
      column_read overflow_checks b u h c a chr s r d (Objects.type_ b u h c) (λ o. (d o).type_)
        r.after_read _ (λ t. Piece.text "\t" ∷ Piece.uuid t ∷ []) r.read_view
        (λ o w is e. type_-value b u h c chr s r o (d o) is w e) λ t w out. refl

  -- Both sizes, under the columns for them.
  abbrev size_cells : Sizes → List (Piece u.Uuid)
  size_cells size =
      word "\t"
      ++ (only (Columns.cur_size a) (Piece.number size.current ∷ [])
          ++ only (Columns.alloc_size a)
              (only (Columns.cur_size a) (word "/") ++ (Piece.number size.allocated ∷ [])))

  abbrev Shows : Cli h (Unit {0}) → List (Piece u.Uuid) → Type 0
  Shows m pieces = OnlyPrints overflow_checks b u h c a chr s r d m pieces

  abbrev when_on : Bool → Cli h (Unit {0}) → Cli h (Unit {0})
  when_on flag m = when overflow_checks b u h c a flag m

  seq-Shows :
      (m n : Cli h (Unit {0})) (x y : List (Piece u.Uuid))
      → Shows m x
      → Shows n y
      → Shows (m >> n) (x ++ y)
  seq-Shows m n x y p q = seq-OnlyPrints overflow_checks b u h c a chr s r d m n x y p q

  when-Shows :
      (flag : Bool) (x : List (Piece u.Uuid)) → Shows (when_on flag (print h x)) (only flag x)
  when-Shows flag x =
      when-OnlyPrints overflow_checks b u h c a chr s r d flag (print h x) x λ w out. refl

  part_size : Part (print_size overflow_checks b u h c a)
  unfolding print_size
  part_size =
      column_read overflow_checks b u h c a chr s r d (Objects.size b u h c) (λ o. (d o).size)
        r.after_read _ size_cells r.read_view
        (λ o w is e. size-value b u h c chr s r o (d o) is w e)
        λ size.
          let current = Piece.number size.current ∷ [] in
          let allocated =
            only (Columns.cur_size a) (word "/") ++ (Piece.number size.allocated ∷ []) in
          let show_current = when_on (Columns.cur_size a) (print h current) in
          let show_allocated = when_on (Columns.alloc_size a) (print h allocated) in
          seq-Shows (print h (word "\t")) (show_current >> show_allocated) (word "\t") _
            (λ w out. refl)
            (seq-Shows show_current show_allocated _ _ (when-Shows (Columns.cur_size a) current)
              (when-Shows (Columns.alloc_size a) allocated))

  part_created : Part (print_created overflow_checks b u h c a)
  unfolding print_created
  part_created =
      column_read overflow_checks b u h c a chr s r d (Objects.first_created b u h c)
        (λ o. (d o).first_created) (after_optional b u h c chr s r c.crt_chr) _
        (λ dt. shown_if dt λ t. Piece.time t ∷ []) (optional_view b u h c chr s r c.crt_chr)
        (λ o w is e. first_created-value b u h c chr s r o (d o) is w e) λ dt w out. refl

  part_modified : Part (print_modified overflow_checks b u h c a)
  unfolding print_modified
  part_modified =
      column_read overflow_checks b u h c a chr s r d (Objects.last_modified b u h c)
        (λ o. (d o).last_modified) (after_optional b u h c chr s r c.mod_chr) _
        (λ dt. shown_if dt λ t. only (Columns.crt_time a) (word "/") ++ (Piece.time t ∷ []))
        (optional_view b u h c chr s r c.mod_chr)
        (λ o w is e. last_modified-value b u h c chr s r o (d o) is w e) λ dt w out. refl

  part_properties : Part (print_properties overflow_checks b u h c a)
  unfolding print_properties
  part_properties =
      column_read overflow_checks b u h c a chr s r d (Objects.properties b u h c)
        (λ o. (d o).properties) r.after_read _ (λ n. Piece.text "\t" ∷ Piece.properties n ∷ [])
        r.read_view (λ o w is e. properties-value b u h c chr s r o (d o) is w e) λ n w out. refl

  abbrev both : {m n : Cli h (Unit {0})} → Part m → Part n → Part (m >> n)
  both x y = column_seq overflow_checks b u h c a chr s r d x y

  abbrev under : (flag : Bool) {m : Cli h (Unit {0})} → Part m → Part (when_on flag m)
  under flag x = column_when overflow_checks b u h c a chr s r d flag x

  part_time : Part (print_time overflow_checks b u h c a)
  unfolding print_time
  part_time =
      both (part_print (word "\t"))
        (both (under (Columns.crt_time a) part_created) (under (Columns.mod_time a) part_modified))

  pub part_row : (index : ℕ) → Part (print_row overflow_checks b u h c a index)
  unfolding print_row
  part_row index = both (part_print (Piece.number index ∷ [])) (
      both (under (Columns.id a) part_id) (
        both (under (Columns.name a) part_name) (
          both (under (Columns.type_ a) part_type) (
            both (under (Columns.any_size a) part_size) (
              both (under (Columns.any_time a) part_time) (
                both (under (Columns.props a) part_properties)
                  (part_print (Piece.newline ∷ []))))))))

  -- The line is the one of the object's details.
  pub row-cells : (index : ℕ) (o : Object) → (part_row index).cells o ≡ detail_row a index (d o)
  unfolding part_row part_time part_id part_name part_type part_size part_created part_modified
      part_properties part_print column_seq column_print column_when column_read
  row-cells index o = refl

  -- The state behind a line does not depend on its index.
  pub row-behind : (index : ℕ) (w : h.World) → (part_row index).behind w ≡ (part_row 0).behind w
  unfolding part_row part_print column_seq column_print
  row-behind index w = refl
