-- ===== src/Cli/Command.antt =====
-- cli/src/main.rs: the errors of a command, and what it does besides calling the client.
use bluetooth_ots_rs.Base.{
  ℕ, Bool, true, false, String, List, [], ◌∷◌, ◌++◌, ◌⊎◌, ◌&&◌, ◌==◌, Option,
}
use bluetooth_ots_rs.Base.Outcome.{Outcome, map_err}
use bluetooth_ots_rs.Client.Host.{Host}
use bluetooth_ots_rs.Base.Monad.{Action}
use bluetooth_ots_rs.Client.State.{Client}
use bluetooth_ots_rs.Client.State.{Error as OtsError}
use bluetooth_ots_rs.Core.DateTime.{DateTime}
use bluetooth_ots_rs.Core.Error.{Utf8Error}

-- `==` of strings.
abbrev pub same_bytes : List ℕ → List ℕ → Bool
same_bytes [] [] = true
same_bytes [] (_ ∷ _) = false
same_bytes (_ ∷ _) [] = false
same_bytes (x ∷ xs) (y ∷ ys) = x == y && same_bytes xs ys

module _ {Uuid : Type 0} (h : Host Uuid) where
  pub data Error : Type 0 where
    io_error : h.IoError → Error
    bt_error : h.BtError → Error
    ots_error : OtsError h → Error
    utf8_error : Utf8Error → Error
    no_adapter no_device no_object obj_id_error hex_error : Error

  -- How a command stops early: with an error of the program, or, of a loop with a bounded number of
  -- turns, because they are used up.
  pub data Stop : Type 0 where
    failed : Error → Stop
    out_of_turns : Stop

  -- A part of a command that prints nothing.
  abbrev pub Quiet : Type 0 → Type 0
  Quiet A = Action h.World Stop A

  -- A call of the client under `?`.
  abbrev pub ots : {A : Type 0} → Client h A → Quiet A
  ots m w = let (r, w') = m w in (map_err (λ e. failed (ots_error e)) r, w')

  abbrev pub fail : {A : Type 0} → Error → Quiet A
  fail e w = (Outcome.err (failed e), w)

-- A piece of the standard output: a text of the program, or a value for the standard library or a
-- crate to format.
pub data Piece (Uuid : Type 0) : Type 0 where
  text : String → Piece Uuid
  number : ℕ → Piece Uuid
  quoted : List ℕ → Piece Uuid
  uuid : Uuid → Piece Uuid
  time : DateTime → Piece Uuid
  properties : ℕ → Piece Uuid
  action_features : ℕ → Piece Uuid
  list_features : ℕ → Piece Uuid
  hex_dump : List ℕ → Piece Uuid
  newline : Piece Uuid

module _ {Uuid : Type 0} (h : Host Uuid) where
  -- What is outside the program, with all that the command has printed.
  pub record Session : Type 0 where
    pub world : h.World
    pub out : List (Piece Uuid)

  abbrev pub Cli : Type 0 → Type 0
  Cli A = Action Session (Stop h) A

  abbrev pub quietly : {A : Type 0} → Quiet h A → Cli A
  quietly m s = let (r, w) = m s.world in (r, record s { world = w })

  abbrev pub print : List (Piece Uuid) → Cli (Unit {0})
  print pieces s = (Outcome.ok tt, record s { out = s.out ++ pieces })

-- What the commands call besides the client: the Bluetooth session, files and the standard input.
pub record Adapter (AdapterId : Type 0) : Type 0 where
  pub id : AdapterId
  pub mac_address : List ℕ
  pub name : List ℕ
  pub alias : List ℕ

pub record Device (DeviceId : Type 0) : Type 0 where
  pub id : DeviceId
  pub mac_address : List ℕ
  pub name : Option (List ℕ)
  pub connected : Bool

pub record System {Uuid : Type 0} (h : Host Uuid) : Type 1 where
  pub FileName : Type 0
  pub is_dash : FileName → Bool
  pub read_file : FileName → h.World → (h.IoError ⊎ List ℕ) × h.World
  pub write_file : FileName → List ℕ → h.World → (h.IoError ⊎ Unit {0}) × h.World
  pub read_stdin : h.World → (h.IoError ⊎ List ℕ) × h.World
  pub sleep : (seconds : ℕ) → h.World → h.World
  pub new_session : h.World → (h.BtError ⊎ Unit {0}) × h.World
  pub adapters : h.World → (h.BtError ⊎ List (Adapter h.AdapterId)) × h.World
  pub devices : h.World → (h.BtError ⊎ List (Device h.DeviceId)) × h.World
  pub start_discovery : h.World → (h.BtError ⊎ Unit {0}) × h.World
  pub stop_discovery : h.World → (h.BtError ⊎ Unit {0}) × h.World
  pub start_discovery_on : h.AdapterId → h.World → (h.BtError ⊎ Unit {0}) × h.World
  pub stop_discovery_on : h.AdapterId → h.World → (h.BtError ⊎ Unit {0}) × h.World
  pub connect_with_timeout : h.DeviceId → (seconds : ℕ) → h.World → (h.BtError ⊎ Unit {0}) × h.World
  pub disconnect : h.DeviceId → h.World → (h.BtError ⊎ Unit {0}) × h.World
