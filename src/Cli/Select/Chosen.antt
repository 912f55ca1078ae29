-- ===== src/Cli/Select/Chosen.antt =====
-- cli/src/main.rs, `ObjSel::select`, in front of a server of the list control point.
pub mod Steps
pub mod Refines
use bluetooth_ots_rs.Base.{
  ℕ, suc, ◌-◌, Option, none, some, List, [], ◌∷◌, length, ltb, ◌==◌, if◌then◌else◌,
}
use bluetooth_ots_rs.Base.Outcome.{Outcome, ok, err}
use bluetooth_ots_rs.Cli.Args.{ObjSel}
use bluetooth_ots_rs.Cli.Command.{
  Error, ots_error, Stop, failed, no_object, obj_id_error, same_bytes,
}
use bluetooth_ots_rs.Client.Host.{Host}
use bluetooth_ots_rs.Client.Served.{Object, Server, place_of}
use bluetooth_ots_rs.Client.State.{core}
use bluetooth_ots_rs.Core.Codes.{ListRc}
use bluetooth_ots_rs.Core.Error.{list_error}

-- The place of the first object with the name, or the length of the list.
abbrev pub name_place : List ℕ → List Object → ℕ
name_place name [] = 0
name_place name (o ∷ os) = if same_bytes o.name name then 0 else suc (name_place name os)

module _ {Uuid : Type 0} (h : Host Uuid) where
  abbrev pub Choice : Type 0
  Choice = Outcome (Stop h) (Unit {0}) × Server

  -- From an object of the list to a place at or behind it, along the list.
  abbrev pub along : ℕ → Server → Choice
  along place s =
      if ltb place (length s.objects)
      then (ok tt, record s { cursor = place })
      else (err (failed no_object), record s { cursor = length s.objects - 1 })

  -- The object at a place, from the first one on. An empty list is the server's error.
  abbrev pub reach : ℕ → Server → Choice
  reach place s =
      if ltb 0 (length s.objects)
      then along place s
      else (err (failed (ots_error (core (list_error ListRc.no_object)))), s)

  abbrev pub at_id : ℕ → Server → Choice
  at_id id s =
      if ltb (place_of id s.objects) (length s.objects)
      then (ok tt, record s { cursor = place_of id s.objects })
      else (err (failed obj_id_error), s)

  -- What a selection means: an index is a place, an identifier an object that has it, and a name the
  -- first object with that name. An index goes before an identifier, and that before a name.
  abbrev pub choose_by : Option ℕ → Option ℕ → Option (List ℕ) → Server → Choice
  choose_by (some index) id name s = reach index s
  choose_by none (some id) name s = at_id id s
  choose_by none none (some name) s = reach (name_place name s.objects) s
  choose_by none none none s = (err (failed obj_id_error), s)

  abbrev pub choose : ObjSel → Server → Choice
  choose sel s = choose_by sel.index sel.id sel.name s
