-- ===== src/Cli/Listing/Rows.antt =====
-- cli/src/main.rs, `print_directory_iter`, in front of a server of the list control point.
use bluetooth_ots_rs.Base.{
  ℕ, zero, suc, ◌+◌, ◌<◌, ◌≤◌, ◌≡◌, refl, sym, ap, ◌∙◌, arith, Bool, some, List, [], ◌∷◌, ◌++◌,
  append_assoc, append-nil, length, drop, drop_all, get_elem?, ltb, inl, inr, Bool-cases,
  if◌then◌else◌,
}
use bluetooth_ots_rs.Base.Outcome.{Outcome, ok, err}
use bluetooth_ots_rs.Cli.Args.{ListArgs}
use bluetooth_ots_rs.Cli.Command.{Stop, failed, ots_error, Piece, Session}
use bluetooth_ots_rs.Cli.Listing.{print_row, rows, print_directory_iter}
use bluetooth_ots_rs.Cli.Select.Chosen.Steps.{
  server, next-inside, next-last, stepped, drop-get_elem?, lt-cases,
}
use bluetooth_ots_rs.Client.Host.{Host}
use bluetooth_ots_rs.Client.Served.{Object, Serves}
use bluetooth_ots_rs.Client.Served.Exchange.{exchanged-view}
use bluetooth_ots_rs.Client.Served.Moves.{Move, behind, first-serve}
use bluetooth_ots_rs.Client.State.{OtsClient, core}
use bluetooth_ots_rs.Core.Codes.{ListRc}
use bluetooth_ots_rs.Core.Error.{list_error}
use bluetooth_ots_rs.Core.Requests.{ListReq}
use bluetooth_ots_rs.Crates.{Bitflags, UuidCrate}

-- The lines of a table, from an index on.
abbrev pub table :
    {Uuid : Type 0} → (ℕ → Object → List (Piece Uuid)) → ℕ → List Object → List (Piece Uuid)
table cells k [] = []
table cells k (o ∷ os) = cells k o ++ table cells (suc k) os

module _ {Uuid : Type 0} {h : Host Uuid} where
  abbrev pub session : h.World → List (Piece Uuid) → Session h
  session w out = record { world = w; out = out }

  -- How a command ended, and all that was printed.
  abbrev pub result_out :
      Outcome (Stop h) (Unit {0}) × Session h → Outcome (Stop h) (Unit {0}) × List (Piece Uuid)
  result_out r = (r.0, r.1.out)

  -- What a listing of the objects ends in, and has printed behind what was printed before.
  abbrev pub listed :
      (ℕ → Object → List (Piece Uuid))
      → List Object
      → List (Piece Uuid)
      → Outcome (Stop h) (Unit {0}) × List (Piece Uuid)
  listed cells os out =
      if ltb 0 (length os)
      then (ok tt, out ++ table cells 0 os)
      else (err (failed (ots_error (core (list_error ListRc.no_object)))), out)

module _ (overflow_checks : Bool) (b : Bitflags) (u : UuidCrate) (h : Host u.Uuid) (c : OtsClient h)
    (a : ListArgs) (chr : h.CharId) (s : Serves h c chr) (has_list : c.olcp_chr ≡ some chr)
    (os : List Object) where
  abbrev forward_from : h.World → h.World
  forward_from w = stepped b u h c chr s has_list w

  module _ (cells : ℕ → Object → List (Piece u.Uuid)) (after_row : h.World → h.World)
      (row_view : (w : h.World) → s.view (after_row w) ≡ s.view w)
      (row : (k : ℕ) (o : Object) (w : h.World) (out : List (Piece u.Uuid))
        → s.view w ≡ server os k
        → get_elem? os k ≡ some o
        → print_row overflow_checks b u h c a k (session w out)
          ≡ (ok tt, session (after_row w) (out ++ cells k o))) where
    rows-table :
        (turns k : ℕ) (w : h.World) (out : List (Piece u.Uuid))
        → s.view w ≡ server os k
        → k < length os
        → length os ≤ k + turns
        → result_out (rows overflow_checks b u h c a turns k (session w out))
          ≡ (ok tt, out ++ table cells k (drop k os))
    unfolding rows
    rows-table zero k w out v lt enough = absurd (omega arith)
    rows-table (suc turns) k w out v lt enough =
        let (o, at, split) = drop-get_elem? k os lt in
        let viewed = row_view w ∙ v in
        rw (row k o w out v at, split)
          (elim (lt-cases (suc k) (length os)) [
            | inl l ↦
                let (p, q) = next-inside b u h c chr s has_list os k (after_row w) viewed l in
                rw p (
                  rows-table turns (suc k) (forward_from (after_row w)) (out ++ cells k o) q l
                    (omega arith)
                  ∙ ap (λ all. (ok tt, all)) (append_assoc out _ _))
            | inr g ↦
                let (p, q) = next-last b u h c chr s has_list os k (after_row w) viewed g in
                rw (p, drop_all (suc k) os g)
                  (ap (λ all. (ok tt, out ++ all)) (sym (append-nil (cells k o))))
          ])

    pub iter-listed :
        (turns k : ℕ) (w : h.World) (out : List (Piece u.Uuid))
        → s.view w ≡ server os k
        → length os ≤ turns
        → result_out (print_directory_iter overflow_checks b u h c a turns (session w out))
          ≡ listed cells os out
    unfolding print_directory_iter
    iter-listed turns k w out v enough =
        let viewed = exchanged-view h c chr s ListReq.first w tt in
        rw (first-serve b u h c chr s has_list w, v)
          (elim (Bool-cases (ltb 0 (length os))) [
            | inl l ↦ rw l (
                rows-table turns 0 (behind b u h c chr s has_list Move.to_first w) out
                  (rw (viewed, v, l) refl) (ground arith) (omega arith))
            | inr e ↦ rw e refl
          ])
