-- ===== src/Cli/Transfer.antt =====
-- cli/src/main.rs, `ReadArgs` and `WriteArgs`: the data of an object, to and from files. What is
-- written to the standard error is left out.
pub mod Input
use bluetooth_ots_rs.Base.{
  ℕ, Bool, true, false, Option, none, some, List, [], ◌∷◌, ◌⊎◌, length, ltb, if◌then◌else◌,
}
use bluetooth_ots_rs.Base.Outcome.{ok, slice_to}
use bluetooth_ots_rs.Cli.Args.{ReadArgs, WriteArgs}
use bluetooth_ots_rs.Cli.Command.{
  Stop, failed, io_error, utf8_error, hex_error, Quiet, ots, fail, Piece, Cli, quietly, print,
  System,
}
use bluetooth_ots_rs.Cli.Hex.{chars, parse}
use bluetooth_ots_rs.Cli.Select.{select}
use bluetooth_ots_rs.Client.Host.{Host}
use bluetooth_ots_rs.Base.Monad.{◌>>=◌, ◌>>◌, pure, lift, call}
use bluetooth_ots_rs.Client.State.{OtsClient}
use bluetooth_ots_rs.Client.Transfer.{read, write}
use bluetooth_ots_rs.Core.Utf8.{validate}
use bluetooth_ots_rs.Crates.{Bitflags, UuidCrate}

-- `WriteMode::Truncate`, and `WriteMode::default()`.
abbrev pub write_mode : Bool → ℕ
write_mode truncate = if truncate then 0x02 else 0

module _ (overflow_checks : Bool) (b : Bitflags) (u : UuidCrate) (h : Host u.Uuid) (sys : System h)
    (c : OtsClient h) where
  abbrev pub io : {A : Type 0} → (h.World → (h.IoError ⊎ A) × h.World) → Quiet h A
  io m = call (λ e. failed (io_error e)) m

  save : Option sys.FileName → List ℕ → Cli h (Unit {0})
  save (some file) bytes = quietly h (io (sys.write_file file bytes))
  save none bytes = print h (Piece.hex_dump bytes ∷ [])

  -- `ReadArgs::run`
  unfoldable pub read_run : (turns : ℕ) → ReadArgs sys.FileName → Cli h (Unit {0})
  unfolding save
  read_run turns args = do
    quietly h (select b u h c turns args.object)
    bytes ← quietly h (ots h (read overflow_checks b u h c args.range.offset args.range.length))
    save args.file bytes

  -- `core::str::from_utf8(&data)?`
  checked_utf8 : List ℕ → Quiet h (List ℕ)
  checked_utf8 raw = elim (validate 0 0 [] raw) [ none ↦ pure raw | some e ↦ fail h (utf8_error e) ]

  unfoldable pub input : Option sys.FileName → Quiet h (List ℕ)
  unfolding checked_utf8
  input (some file) = if sys.is_dash file then io sys.read_stdin else io (sys.read_file file)
  input none = do
    raw ← io sys.read_stdin
    text ← checked_utf8 raw
    lift (parse (failed hex_error) none (chars 0 0 text))

  -- The bytes within the length that is asked for.
  unfoldable pub limit : Option ℕ → List ℕ → Quiet h (List ℕ)
  limit none bytes = pure bytes
  limit (some len) bytes = if ltb len (length bytes) then lift (slice_to len bytes) else pure bytes

  -- `WriteArgs::run`
  unfoldable pub write_run : (turns : ℕ) → WriteArgs sys.FileName → Quiet h (Unit {0})
  write_run turns args = do
    select b u h c turns args.object
    all ← input args.file
    bytes ← limit args.range.length all
    _ ← ots h (write overflow_checks b u h c args.range.offset bytes (write_mode args.truncate))
    pure tt
