-- ===== src/Cli/Transfer/Input.antt =====
-- cli/src/main.rs, `WriteArgs::run`: what is written to the object.
use bluetooth_ots_rs.Base.{ℕ, ◌-◌, min, ◌<◌, Bool, Option, none, some, List, map, length, take, All}
use bluetooth_ots_rs.Cli.Args.{WriteArgs}
use bluetooth_ots_rs.Cli.Command.{System}
use bluetooth_ots_rs.Client.Host.{Host}
use bluetooth_ots_rs.Client.State.{OtsClient}
use bluetooth_ots_rs.Core.Numbers.{Sizes}
use bluetooth_ots_rs.Crates.{Bitflags, UuidCrate}

abbrev pub IsAscii : ℕ → Type 0
IsAscii b = b < 0x80

-- White space of one byte.
abbrev pub IsPlain : List ℕ × ℕ → Type 0
IsPlain (space, byte) = All IsAscii space

-- The bytes that are left under a limit.
abbrev pub within : Option ℕ → List ℕ → List ℕ
within none bytes = bytes
within (some len) bytes = take len bytes

module _ (overflow_checks : Bool) (b : Bitflags) (u : UuidCrate) (h : Host u.Uuid) (sys : System h)
    (c : OtsClient h) where
  -- The bytes that are asked to be written, and those of them that the object takes behind the
  -- offset.
  abbrev pub wanted : WriteArgs sys.FileName → List (List ℕ × ℕ) → List ℕ
  wanted args bytes = within args.range.length (map (λ p. p.1) bytes)

  abbrev pub room : WriteArgs sys.FileName → Sizes → ℕ
  room args sizes = sizes.allocated - args.range.offset

  abbrev pub taken : WriteArgs sys.FileName → List (List ℕ × ℕ) → Sizes → ℕ
  taken args bytes sizes = min (length (wanted args bytes)) (room args sizes)
