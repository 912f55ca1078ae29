-- ===== src/Cli/Args.antt =====
-- cli/src/cli.rs: the arguments of the command line, and which columns they ask for.
pub mod Features
pub mod Columns
use bluetooth_ots_rs.Base.{ℕ, Bool, Option, none, some, List, ◌⊎◌, inl, inr}

pub record InfoArgs : Type 0 where
  pub action : Bool
  pub list : Bool
  pub full : Bool

pub record ListArgs : Type 0 where
  pub id : Bool
  pub name : Bool
  pub type_ : Bool
  pub cur_size : Bool
  pub alloc_size : Bool
  pub size : Bool
  pub crt_time : Bool
  pub mod_time : Bool
  pub time : Bool
  pub props : Bool
  pub full : Bool
  pub dir : Bool

-- A `String` is its bytes.
pub record ObjSel : Type 0 where
  pub index : Option ℕ
  pub id : Option ℕ
  pub name : Option (List ℕ)

pub record RangeSel : Type 0 where
  pub offset : ℕ
  pub length : Option ℕ

-- `FileName` is the type of file names.
pub record ReadArgs (FileName : Type 0) : Type 0 where
  pub object : ObjSel
  pub range : RangeSel
  pub file : Option FileName

pub record WriteArgs (FileName : Type 0) : Type 0 where
  pub object : ObjSel
  pub range : RangeSel
  pub truncate : Bool
  pub file : Option FileName

pub data Action (FileName : Type 0) : Type 0 where
  info : InfoArgs → Action FileName
  list : ListArgs → Action FileName
  read : ReadArgs FileName → Action FileName
  write : WriteArgs FileName → Action FileName

-- An adapter or a device is given by its address or by its name.
abbrev pub MacOrName : Type 0
MacOrName = List ℕ ⊎ List ℕ

-- The parser of addresses is the one of `bluez_async::MacAddress`.
unfoldable pub mac_or_name : (parse : List ℕ → Option (List ℕ)) → List ℕ → MacOrName
mac_or_name parse val = elim (parse val) [ none ↦ inr val | some mac ↦ inl mac ]

pub record Args (FileName : Type 0) : Type 0 where
  pub disco : Option ℕ
  pub adapter : Option MacOrName
  pub device : MacOrName
  pub privileged : Bool
  pub action : Action FileName
