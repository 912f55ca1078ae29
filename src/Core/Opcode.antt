-- ===== src/Core/Opcode.antt =====
-- core/src/types.rs: `TryFrom<u8>` of the `impl_bc!` enums, with its cast in an `unsafe` block.
pub mod Exact
use bluetooth_ots_rs.Base.{ℕ, List, [], ◌∷◌, ◌==◌, if◌then◌else◌}
use bluetooth_ots_rs.Base.Outcome.{ok, err, undefined}
use bluetooth_ots_rs.Core.Codes.{CodeTable}
use bluetooth_ots_rs.Core.Error.{Result, bad_op_code}

module _ {A : Type 0} where
  -- The variant whose discriminant is the byte; a byte that is none is undefined behaviour.
  pub transmute : (A → ℕ) → List A → ℕ → Result A
  transmute discriminant [] raw = undefined
  transmute discriminant (v ∷ vs) raw =
      if discriminant v == raw then ok v else transmute discriminant vs raw

  unfoldable pub try_from : CodeTable A → ℕ → Result A
  unfolding transmute
  try_from c raw =
      if c.cond raw then transmute c.discriminant c.variants raw else err (bad_op_code c.type_ raw)
