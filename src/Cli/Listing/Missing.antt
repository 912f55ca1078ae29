-- ===== src/Cli/Listing/Missing.antt =====
-- cli/src/main.rs, `ListArgs::run` with the directory object, where there is no such object.
use bluetooth_ots_rs.Base.{
  ℕ, ◌≡◌, refl, ◌∙◌, ap, arith, Bool, true, Option, some, List, ◌++◌, length, le→ltb,
}
use bluetooth_ots_rs.Base.Outcome.{ok}
use bluetooth_ots_rs.Cli.Args.{ListArgs}
use bluetooth_ots_rs.Cli.Command.{Piece}
use bluetooth_ots_rs.Cli.Listing.{
  header, print_directory_data, run, directory_first, try_directory, from_directory,
}
use bluetooth_ots_rs.Cli.Listing.Rows.{session}
use bluetooth_ots_rs.Client.Host.{Host}
use bluetooth_ots_rs.Client.Objects.{go_to}
use bluetooth_ots_rs.Client.Objects.Select.{selection}
use bluetooth_ots_rs.Client.Operations.{list_feature_go_to}
use bluetooth_ots_rs.Client.Served.{Server, Serves, serve, place_of}
use bluetooth_ots_rs.Client.Served.Exchange.{exchanged-view}
use bluetooth_ots_rs.Client.Served.Moves.{Move, behind, go_to-serve}
use bluetooth_ots_rs.Client.State.{OtsClient}
use bluetooth_ots_rs.Client.Transfer.{read}
use bluetooth_ots_rs.Core.Codes.{ListRc}
use bluetooth_ots_rs.Core.Requests.{ListReq}
use bluetooth_ots_rs.Crates.{Bitflags, UuidCrate}

module _ (overflow_checks : Bool) (b : Bitflags) (u : UuidCrate) (h : Host u.Uuid) (c : OtsClient h)
    (a : ListArgs) (chr : h.CharId) (s : Serves h c chr) (has_list : c.olcp_chr ≡ some chr)
    (feature : b.contains c.list_features list_feature_go_to ≡ true) where
  -- The state behind the request to go to the directory object.
  abbrev pub asked : h.World → h.World
  asked w = behind b u h c chr s has_list (Move.to 0) w

  directory-missing :
      (v : Server)
      → place_of 0 v.objects ≡ length v.objects
      → serve (ListReq.go_to 0) v ≡ (ListRc.object_id_not_found, v)
  directory-missing v none_has_it =
      rw (none_has_it, le→ltb (length v.objects) (length v.objects) (omega arith)) refl

  go_to-missing :
      (w : h.World)
      → place_of 0 (s.view w).objects ≡ length (s.view w).objects
      → go_to b u h c 0 w ≡ (ok Bool.false, asked w)
  go_to-missing w e =
      go_to-serve b u h c chr s has_list 0 w feature (omega arith)
      ∙ ap (λ r. (selection h true r.0, asked w)) (directory-missing (s.view w) e)

  -- In front of a server that follows the specification, where no object has the identifier 0 of the
  -- directory object, a listing with the directory object goes on all the same: the server stays at
  -- its current object, and what can be read of that one is printed as a directory.
  pub run-missing :
      (turns : ℕ) (w w' : h.World) (out : List (Piece u.Uuid)) (bytes : List ℕ)
      → a.dir ≡ true
      → place_of 0 (s.view w).objects ≡ length (s.view w).objects
      → read overflow_checks b u h c 0 Option.none (asked w) ≡ (ok bytes, w')
      → (s.view (asked w) ≡ s.view w)
        × (run overflow_checks b u h c a turns (session w out)
            ≡ print_directory_data overflow_checks b u h c a turns bytes
                (session w' (out ++ header a)))
  unfolding run directory_first try_directory from_directory
  run-missing turns w w' out bytes dir e got = (
    exchanged-view h c chr s (ListReq.go_to 0) w (omega arith)
        ∙ ap (λ r. r.1) (directory-missing (s.view w) e),
    simp (dir, go_to-missing w e, got) refl,
  )
