-- ===== src/Cli/Listing/Detailed.antt =====
-- cli/src/main.rs, `print_directory_iter` with any columns: the parts of a line.
pub mod Row
pub mod Lines
pub mod Table
use bluetooth_ots_rs.Base.{
  ℕ, ◌≤◌, ◌≡◌, refl, sym, ap, ◌∙◌, Bool, true, false, if◌then◌else◌, Option, none, some, List, [],
  ◌∷◌, ◌++◌, append_assoc, append-nil, length, get_elem?, All,
}
use bluetooth_ots_rs.Base.Monad.{◌>>=◌, ◌>>◌, pure}
use bluetooth_ots_rs.Base.Outcome.{Outcome, ok}
use bluetooth_ots_rs.Cli.Args.{ListArgs}
use bluetooth_ots_rs.Cli.Args.Columns
use bluetooth_ots_rs.Cli.Command.{Stop, Piece, Cli, ots, quietly, print}
use bluetooth_ots_rs.Cli.Listing.{
  only, shown_if, word, when, print_id, print_name, print_type, print_size, print_created,
  print_modified, print_time, print_properties, print_row, print_directory_iter,
}
use bluetooth_ots_rs.Cli.Listing.Rows.{session, result_out, listed, iter-listed}
use bluetooth_ots_rs.Cli.Select.Chosen.Steps.{All-get_elem?, server}
use bluetooth_ots_rs.Client.Host.{Host}
use bluetooth_ots_rs.Client.Objects.Described.{
  Details, Reads, IsDescribed, IsCurrent, after_optional, optional_view, id-value, name-value,
  type_-value, size-value, first_created-value, last_modified-value, properties-value,
}
use bluetooth_ots_rs.Client.Served.{Object, Serves}
use bluetooth_ots_rs.Client.State.{OtsClient, Client}
use bluetooth_ots_rs.Crates.{Bitflags, UuidCrate}

-- The line of an object.
abbrev pub detail_row : {Uuid : Type 0} → ListArgs → ℕ → Details Uuid → List (Piece Uuid)
detail_row a index d =
    (Piece.number index ∷ [])
    ++ (only (Columns.id a) (shown_if d.id λ n. Piece.text "\t" ∷ Piece.number n ∷ [])
        ++ (only (Columns.name a) (Piece.text "\t" ∷ Piece.quoted d.name ∷ [])
            ++ (only (Columns.type_ a) (Piece.text "\t" ∷ Piece.uuid d.type_ ∷ [])
                ++ (only (Columns.any_size a) (
                      word "\t"
                      ++ (only (Columns.cur_size a) (Piece.number d.size.current ∷ [])
                          ++ only (Columns.alloc_size a) (
                              only (Columns.cur_size a) (word "/")
                              ++ (Piece.number d.size.allocated ∷ []))))
                    ++ (only (Columns.any_time a) (
                          word "\t"
                          ++ (only (Columns.crt_time a)
                                (shown_if d.first_created λ t. Piece.time t ∷ [])
                              ++ only (Columns.mod_time a) (
                                  shown_if d.last_modified λ t.
                                    only (Columns.crt_time a) (word "/") ++ (Piece.time t ∷ []))))
                        ++ (only (Columns.props a)
                              (Piece.text "\t" ∷ Piece.properties d.properties ∷ [])
                            ++ (Piece.newline ∷ [])))))))

module _ (overflow_checks : Bool) (b : Bitflags) (u : UuidCrate) (h : Host u.Uuid) (c : OtsClient h)
    (a : ListArgs) (chr : h.CharId) (s : Serves h c chr) (r : Reads h c chr s)
    (d : Object → Details u.Uuid) where
  abbrev Described : Object → Type 0
  Described o = IsDescribed b u h c chr s r o (d o)

  abbrev Current : Object → h.World → Type 0
  Current o w = IsCurrent b u h c chr s r o w

  -- A part of a line: what it prints for an object, and the state behind it, in which the server is
  -- as it was.
  record Column (m : Cli h (Unit {0})) : Type 0 where
    cells : Object → List (Piece u.Uuid)
    behind : h.World → h.World
    kept : (w : h.World) → s.view (behind w) ≡ s.view w
    prints :
        (o : Object) (w : h.World) (out : List (Piece u.Uuid))
        → Described o
        → Current o w
        → m (session w out) ≡ (ok tt, session (behind w) (out ++ cells o))

  kept-Current : (o : Object) (w w' : h.World) → s.view w' ≡ s.view w → Current o w → Current o w'
  kept-Current o w w' k e = ap (λ v. get_elem? v.objects v.cursor) k ∙ e

  -- A part that prints and does nothing else.
  abbrev OnlyPrints : Cli h (Unit {0}) → List (Piece u.Uuid) → Type 0
  OnlyPrints m pieces =
      (w : h.World) (out : List (Piece u.Uuid))
      → m (session w out) ≡ (ok tt, session w (out ++ pieces))

  seq-OnlyPrints :
      (m n : Cli h (Unit {0})) (x y : List (Piece u.Uuid))
      → OnlyPrints m x
      → OnlyPrints n y
      → OnlyPrints (m >> n) (x ++ y)
  seq-OnlyPrints m n x y p q w out =
      rw (p w out) (q w (out ++ x) ∙ ap (λ all. (ok tt, session w all)) (append_assoc out x y))

  when-OnlyPrints :
      (flag : Bool) (m : Cli h (Unit {0})) (x : List (Piece u.Uuid))
      → OnlyPrints m x
      → OnlyPrints (when overflow_checks b u h c a flag m) (only flag x)
  when-OnlyPrints true m x p w out = p w out
  when-OnlyPrints false m x p w out = ap (λ all. (ok tt, session w all)) (sym (append-nil out))

  print-OnlyPrints : (x : List (Piece u.Uuid)) → OnlyPrints (print h x) x
  print-OnlyPrints x w out = refl

  column_print : (pieces : List (Piece u.Uuid)) → Column (print h pieces)
  column_print pieces = record {
    cells = λ o. pieces;
    behind = λ w. w;
    kept = λ w. refl;
    prints = λ o w out is e. refl;
  }

  -- A value of the object, and what is printed of it.
  column_read :
      {A : Type 0} (m : Client h A) (value : Object → A) (behind : h.World → h.World)
      (run : A → Cli h (Unit {0})) (show : A → List (Piece u.Uuid))
      → ((w : h.World) → s.view (behind w) ≡ s.view w)
      → ((o : Object) (w : h.World) → Described o → Current o w → m w ≡ (ok (value o), behind w))
      → ((v : A) → OnlyPrints (run v) (show v))
      → Column (quietly h (ots h m) >>= run)
  column_read m value behind run show kept reads shows = record {
    cells = λ o. show (value o);
    behind = behind;
    kept = kept;
    prints = λ o w out is e. rw (reads o w is e) (shows (value o) (behind w) out);
  }

  column_seq : {m n : Cli h (Unit {0})} → Column m → Column n → Column (m >> n)
  column_seq x y = record {
    cells = λ o. x.cells o ++ y.cells o;
    behind = λ w. y.behind (x.behind w);
    kept = λ w. y.kept (x.behind w) ∙ x.kept w;
    prints = λ o w out is e. rw (x.prints o w out is e) (
        y.prints o (x.behind w) (out ++ x.cells o) is (kept-Current o w (x.behind w) (x.kept w) e)
        ∙ ap (λ all. (ok tt, session (y.behind (x.behind w)) all))
            (append_assoc out (x.cells o) (y.cells o)));
  }

  when_kept :
      (flag : Bool) {m : Cli h (Unit {0})} (x : Column m) (w : h.World)
      → s.view (if flag then x.behind w else w) ≡ s.view w
  when_kept true x w = x.kept w
  when_kept false x w = refl

  when_prints :
      (flag : Bool) {m : Cli h (Unit {0})} (x : Column m) (o : Object) (w : h.World)
      (out : List (Piece u.Uuid))
      → Described o
      → Current o w
      → when overflow_checks b u h c a flag m (session w out)
        ≡ (ok tt, session (if flag then x.behind w else w) (out ++ only flag (x.cells o)))
  when_prints true x o w out is e = x.prints o w out is e
  when_prints false x o w out is e = ap (λ all. (ok tt, session w all)) (sym (append-nil out))

  column_when :
      (flag : Bool) {m : Cli h (Unit {0})}
      → Column m
      → Column (when overflow_checks b u h c a flag m)
  column_when flag x = record {
    cells = λ o. only flag (x.cells o);
    behind = λ w. if flag then x.behind w else w;
    kept = λ w. when_kept flag x w;
    prints = λ o w out is e. when_prints flag x o w out is e;
  }
