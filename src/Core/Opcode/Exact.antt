-- ===== src/Core/Opcode/Exact.antt =====
-- core/src/types.rs: the tests of `impl_bc!` against the discriminants of the enums.
use bluetooth_ots_rs.Base.{
  ℕ, ◌≡◌, ◌≢◌, ◌↔◌, refl, subst, arith, List, [], ◌∷◌, ◌==◌, ◌⊎◌, inl, inr, Bool-cases,
}
use bluetooth_ots_rs.Core.Error.{bad_op_code}
use bluetooth_ots_rs.Base.Outcome.{ok, err, undefined, Returns}
use bluetooth_ots_rs.Core.Codes.{CodeTable}
use bluetooth_ots_rs.Core.Tables.{sort_order, list_op, list_rc, action_op, action_rc}
use bluetooth_ots_rs.Core.Opcode.{transmute, try_from}

-- A byte is decoded to a variant if and only if it is the variant's discriminant.
abbrev pub IsExact : {A : Type 0} → CodeTable A → ℕ → Type 0
IsExact {A} c raw = (v : A) → (try_from c raw ≡ ok v) ↔ (c.discriminant v ≡ raw)

-- A byte that no variant has as its discriminant is refused, with the enum's name and the byte.
abbrev pub IsRefused : {A : Type 0} → CodeTable A → ℕ → Type 0
IsRefused {A} c raw =
    ((v : A) → c.discriminant v ≢ raw) → try_from c raw ≡ err (bad_op_code c.type_ raw)

-- A byte is decoded to the variant that has it as its discriminant, and refused if there is none.
abbrev pub IsDecoder : {A : Type 0} → CodeTable A → ℕ → Type 0
IsDecoder c raw = IsExact c raw × IsRefused c raw

transmute-cases :
    {A : Type 0} (discriminant : A → ℕ) (variants : List A) (raw : ℕ)
    → ((v : A) × (transmute discriminant variants raw ≡ ok v))
      ⊎ (transmute discriminant variants raw ≡ undefined)
unfolding transmute
transmute-cases discriminant [] raw = inr refl
transmute-cases discriminant (v ∷ vs) raw = elim (Bool-cases (discriminant v == raw)) [
  | inl same ↦ inl (v, rw same refl)
  | inr other ↦ rw other (transmute-cases discriminant vs raw)
]

-- A decoder that returns for a byte, and is exact on it, refuses it if it is no discriminant.
returned-IsRefused :
    {A : Type 0} (c : CodeTable A) (raw : ℕ)
    → IsExact c raw
    → Returns (try_from c raw)
    → IsRefused c raw
unfolding try_from
returned-IsRefused c raw exact returns no_variant = elim (Bool-cases (c.cond raw)) [
  | inl set ↦ elim (transmute-cases c.discriminant c.variants raw) [
    | inl (v, e) ↦ absurd (no_variant v ((exact v).0 (rw set e)))
    | inr e ↦ absurd (subst Returns {y = undefined} (rw set e) returns)
  ]
  | inr unset ↦ rw unset refl
]

pub sort_order-Returns : (raw : ℕ) → Returns (try_from sort_order raw)
unfolding try_from
sort_order-Returns raw = ground arith

pub sort_order-IsExact : (raw : ℕ) → IsExact sort_order raw
unfolding try_from
sort_order-IsExact raw v = ground arith

pub list_op-Returns : (raw : ℕ) → Returns (try_from list_op raw)
unfolding try_from
list_op-Returns raw = ground arith

pub list_op-IsExact : (raw : ℕ) → IsExact list_op raw
unfolding try_from
list_op-IsExact raw v = ground arith

pub list_rc-Returns : (raw : ℕ) → Returns (try_from list_rc raw)
unfolding try_from
list_rc-Returns raw = ground arith

pub list_rc-IsExact : (raw : ℕ) → IsExact list_rc raw
unfolding try_from
list_rc-IsExact raw v = ground arith

pub action_op-Returns : (raw : ℕ) → Returns (try_from action_op raw)
unfolding try_from
action_op-Returns raw = ground arith

pub action_op-IsExact : (raw : ℕ) → IsExact action_op raw
unfolding try_from
action_op-IsExact raw v = ground arith

pub action_rc-Returns : (raw : ℕ) → Returns (try_from action_rc raw)
unfolding try_from
action_rc-Returns raw = ground arith

pub action_rc-IsExact : (raw : ℕ) → IsExact action_rc raw
unfolding try_from
action_rc-IsExact raw v = ground arith

decoder :
    {A : Type 0} (c : CodeTable A) (raw : ℕ)
    → IsExact c raw
    → Returns (try_from c raw)
    → IsDecoder c raw
decoder c raw exact returns = (exact, returned-IsRefused c raw exact returns)

-- For every raw value the cast of each of the five enums is defined: the decoder returns, with a
-- variant or with an error.
pub try_from-Returns :
    (raw : ℕ)
    → Returns (try_from sort_order raw)
      × Returns (try_from list_op raw)
      × Returns (try_from list_rc raw)
      × Returns (try_from action_op raw)
      × Returns (try_from action_rc raw)
try_from-Returns raw = (
  sort_order-Returns raw,
  list_op-Returns raw,
  list_rc-Returns raw,
  action_op-Returns raw,
  action_rc-Returns raw,
)

-- For each of the five enums a raw value is decoded to a variant if and only if it is the
-- discriminant of that variant, and a raw value that is the discriminant of none is refused with
-- the error that names the enum and the value.
pub try_from-IsDecoder :
    (raw : ℕ)
    → IsDecoder sort_order raw
      × IsDecoder list_op raw
      × IsDecoder list_rc raw
      × IsDecoder action_op raw
      × IsDecoder action_rc raw
try_from-IsDecoder raw = (
  decoder sort_order raw (sort_order-IsExact raw) (sort_order-Returns raw),
  decoder list_op raw (list_op-IsExact raw) (list_op-Returns raw),
  decoder list_rc raw (list_rc-IsExact raw) (list_rc-Returns raw),
  decoder action_op raw (action_op-IsExact raw) (action_op-Returns raw),
  decoder action_rc raw (action_rc-IsExact raw) (action_rc-Returns raw),
)
