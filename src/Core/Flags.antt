-- ===== src/Core/Flags.antt =====
-- core/src/types.rs: the flag types that `bitflag_types!` declares, decoded and printed.
pub mod Laws
use bluetooth_ots_rs.Base.{
  ℕ, ◌+◌, ◌^◌, Bool, true, false, Option, none, some, String, List, [], ◌∷◌, length, if◌then◌else◌,
}
use Prim.Native.String.{◌++◌ as ◌<>◌}
use bluetooth_ots_rs.Base.Bytes.{from_le_bytes}
use bluetooth_ots_rs.Base.Outcome.{ok, err, ◌>>=◌, ◌>>◌, split_at}
use bluetooth_ots_rs.Core.Error.{
  Error, Result, bad_action_features, bad_list_features, bad_properties, check_size_exact,
}
use bluetooth_ots_rs.Crates.{Bitflags}

-- What the macro is given for one type: the error for unknown bits, and each flag with its bit and
-- the text that is printed for it.
pub record FlagTable : Type 0 where
  pub bad : ℕ → Error
  pub flags : List (ℕ × String)

abbrev pub action_feature : FlagTable
action_feature = record {
  bad = bad_action_features;
  flags =
      (0, "create")
      ∷ (1, "delete")
      ∷ (2, "checksum")
      ∷ (3, "execute")
      ∷ (4, "read")
      ∷ (5, "write")
      ∷ (6, "append")
      ∷ (7, "truncate")
      ∷ (8, "patch")
      ∷ (9, "abort")
      ∷ [];
}

abbrev pub list_feature : FlagTable
list_feature = record {
  bad = bad_list_features;
  flags = (0, "goto") ∷ (1, "order") ∷ (2, "numberof") ∷ (3, "clearmark") ∷ [];
}

abbrev pub property : FlagTable
property = record {
  bad = bad_properties;
  flags =
      (0, "delete")
      ∷ (1, "execute")
      ∷ (2, "read")
      ∷ (3, "write")
      ∷ (4, "append")
      ∷ (5, "truncate")
      ∷ (6, "patch")
      ∷ (7, "mark")
      ∷ [];
}

-- The bits of all flags; no two flags share one.
abbrev pub known : List (ℕ × String) → ℕ
known [] = 0
known ((bit, _) ∷ flags) = 2 ^ bit + known flags

module _ (b : Bitflags) (t : FlagTable) where
  -- `TryFrom<[u8; 4]>`
  unfoldable pub try_from_array : List ℕ → Result ℕ
  try_from_array raw =
      let val = from_le_bytes raw in
      elim (b.from_bits (known t.flags) val) [ none ↦ err (t.bad val) | some flags ↦ ok flags ]

  -- `TryFrom<&[u8]>`
  unfoldable pub try_from_slice : List ℕ → Result ℕ
  unfolding try_from_array
  try_from_slice raw = do
    check_size_exact 4 (length raw)
    (bytes, _) ← split_at 4 raw
    try_from_array bytes

-- `Display`: the loop over the flags, with what is written so far.
fmt_flags : Bitflags → List (ℕ × String) → ℕ → Bool → String → String
fmt_flags b [] bits first out = out
fmt_flags b ((bit, text) ∷ flags) bits first out =
    if b.contains bits (2 ^ bit)
    then fmt_flags b flags bits false (if first then out <> text else (out <> " ") <> text)
    else fmt_flags b flags bits first out

unfoldable pub display : Bitflags → FlagTable → ℕ → String
unfolding fmt_flags
display b t bits = fmt_flags b t.flags bits true ""
