-- ===== src/Cli/Select.antt =====
-- cli/src/main.rs, `ObjSel::select`: the object that a command is for.
pub mod Chosen
use bluetooth_ots_rs.Base.{ℕ, zero, suc, Bool, Option, none, some, List, if◌then◌else◌}
use bluetooth_ots_rs.Cli.Args.{ObjSel}
use bluetooth_ots_rs.Cli.Command.{
  Stop, out_of_turns, no_object, obj_id_error, Quiet, ots, fail, same_bytes,
}
use bluetooth_ots_rs.Client.Host.{Host}
use bluetooth_ots_rs.Base.Monad.{◌>>=◌, ◌>>◌, pure, throw}
use bluetooth_ots_rs.Client.Objects.{name, next, go_to}
use bluetooth_ots_rs.Client.Operations.{first}
use bluetooth_ots_rs.Client.State.{OtsClient}
use bluetooth_ots_rs.Crates.{Bitflags, UuidCrate}

module _ (b : Bitflags) (u : UuidCrate) (h : Host u.Uuid) (c : OtsClient h) where
  -- `for _ in 0..req_index`
  unfoldable pub forward : ℕ → Quiet h (Unit {0})
  forward zero = pure tt
  forward (suc n) = do more ← ots h (next b u h c); if more then forward n else fail h no_object

  -- The `loop` by name, with a bounded number of turns.
  unfoldable pub search : (turns : ℕ) → List ℕ → Quiet h (Unit {0})
  search zero req_name = throw out_of_turns
  search (suc turns) req_name = do
    here ← ots h (name b u h c)
    if same_bytes here req_name then pure tt else (do
      more ← ots h (next b u h c)
      if more then search turns req_name else fail h no_object)

  by_name : (turns : ℕ) → Option (List ℕ) → Quiet h (Unit {0})
  by_name turns (some req_name) = do ots h (first b u h c); search turns req_name
  by_name turns none = fail h obj_id_error

  by_id : (turns : ℕ) → ObjSel → Option ℕ → Quiet h (Unit {0})
  by_id turns sel (some req_id) = do
    there ← ots h (go_to b u h c req_id)
    if there then pure tt else fail h obj_id_error
  by_id turns sel none = by_name turns sel.name

  by_index : (turns : ℕ) → ObjSel → Option ℕ → Quiet h (Unit {0})
  by_index turns sel (some req_index) = do ots h (first b u h c); forward req_index
  by_index turns sel none = by_id turns sel sel.id

  -- `ObjSel::select`
  unfoldable pub select : (turns : ℕ) → ObjSel → Quiet h (Unit {0})
  unfolding by_index by_id by_name
  select turns sel = by_index turns sel sel.index
