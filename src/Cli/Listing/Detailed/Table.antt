-- ===== src/Cli/Listing/Detailed/Table.antt =====
-- cli/src/main.rs, `ListArgs::run` with any columns.
use bluetooth_ots_rs.Base.{
  ℕ, ◌≤◌, ◌≡◌, refl, ap, ap₂, fun_ext, ◌∙◌, Bool, false, some, List, ◌++◌, length, get_elem?, All,
}
use bluetooth_ots_rs.Base.Outcome.{ok}
use bluetooth_ots_rs.Cli.Args.{ListArgs}
use bluetooth_ots_rs.Cli.Command.{Piece}
use bluetooth_ots_rs.Cli.Listing.{header, print_row, run}
use bluetooth_ots_rs.Cli.Listing.Titles.{title_line, header-title_line}
use bluetooth_ots_rs.Cli.Listing.Detailed.{detail_row, Described}
use bluetooth_ots_rs.Cli.Listing.Detailed.Lines.{details_line, detail_row-details_line}
use bluetooth_ots_rs.Cli.Listing.Detailed.Row.{part_row, row-cells, row-behind}
use bluetooth_ots_rs.Cli.Listing.Rows.{session, result_out, listed, iter-listed}
use bluetooth_ots_rs.Cli.Select.Chosen.Steps.{All-get_elem?, server}
use bluetooth_ots_rs.Client.Host.{Host}
use bluetooth_ots_rs.Client.Objects.Described.{Details, Reads}
use bluetooth_ots_rs.Client.Served.{Object, Serves}
use bluetooth_ots_rs.Client.State.{OtsClient}
use bluetooth_ots_rs.Crates.{Bitflags, UuidCrate}

module _ (overflow_checks : Bool) (b : Bitflags) (u : UuidCrate) (h : Host u.Uuid) (c : OtsClient h)
    (a : ListArgs) (chr : h.CharId) (s : Serves h c chr) (r : Reads h c chr s)
    (d : Object → Details u.Uuid) (has_list : c.olcp_chr ≡ some chr) where
  row-detailed :
      (os : List Object) (k : ℕ) (o : Object) (w : h.World) (out : List (Piece u.Uuid))
      → All (Described overflow_checks b u h c a chr s r d) os
      → s.view w ≡ server os k
      → get_elem? os k ≡ some o
      → print_row overflow_checks b u h c a k (session w out) ≡ (
        ok tt,
        session
            ((part_row overflow_checks b u h c a chr s r d 0).behind w)
            (out ++ detail_row a k (d o)),
      )
  row-detailed os k o w out described v at =
      let part = part_row overflow_checks b u h c a chr s r d k in
      part.prints o w out
        (All-get_elem? (Described overflow_checks b u h c a chr s r d) k os described at)
        (ap (λ v. get_elem? v.objects v.cursor) v ∙ at)
      ∙ rw
          (
            row-behind overflow_checks b u h c a chr s r d k w,
            row-cells overflow_checks b u h c a chr s r d k o,
          )
          refl

  -- In front of a server that follows the specification, and with a value of each characteristic for
  -- each object, a listing without the directory object prints the titles of the columns that the
  -- flags ask for, and then one line for each object, in the order of the list, with its index and its
  -- details in the order of the titles, and ends; as many turns as there are objects are enough. On
  -- an empty list it prints the titles and ends in the server's error. The titles are broken into two
  -- lines behind the word `time`, the stroke in front of `modified` also stands where no `created` is
  -- in front of it, and `--full` does not ask for the times.
  pub run-detailed :
      (turns : ℕ) (w : h.World) (out : List (Piece u.Uuid))
      → a.dir ≡ false
      → All (Described overflow_checks b u h c a chr s r d) (s.view w).objects
      → length (s.view w).objects ≤ turns
      → result_out (run overflow_checks b u h c a turns (session w out))
        ≡ listed (λ k o. details_line a k (d o)) (s.view w).objects (out ++ title_line a)
  unfolding run
  run-detailed turns w out plain described enough = simp plain (
      iter-listed overflow_checks b u h c a chr s has_list (s.view w).objects
        (λ k o. detail_row a k (d o)) (part_row overflow_checks b u h c a chr s r d 0).behind
        (part_row overflow_checks b u h c a chr s r d 0).kept
        (λ k o w' out' v at. row-detailed (s.view w).objects k o w' out' described v at) turns
        (s.view w).cursor w (out ++ header a) refl enough
      ∙ ap₂ (λ cells t. listed cells (s.view w).objects (out ++ t))
          (fun_ext λ k. fun_ext λ o. detail_row-details_line a k (d o))
          (header-title_line {Uuid = u.Uuid} a))
