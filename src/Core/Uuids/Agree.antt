-- ===== src/Core/Uuids/Agree.antt =====
-- core/src/types.rs, `uuid_from_raw`, and core/src/ids.rs: the forms of one UUID.
use bluetooth_ots_rs.Base.{ℕ, ◌+◌, ◌*◌, ◌^◌, ◌<◌, ◌≡◌, refl, sym, ap, ◌∙◌, arith, List, [], ◌∷◌}
use bluetooth_ots_rs.Base.Bits.{bit_or_disjoint}
use bluetooth_ots_rs.Base.Bytes.{
  IsByte, from_le_bytes, from_be_bytes, to_le_bytes, from_le_bytes-to_le_bytes,
}
use bluetooth_ots_rs.Base.Outcome.{ok, split_at}
use bluetooth_ots_rs.Core.Uuids.{uuid_base, from_short, uuid_from_raw, assigned}
use bluetooth_ots_rs.Crates.{UuidCrate}

-- The base UUID with a short value in its highest four bytes.
abbrev pub full_form : (a b c d : ℕ) → List ℕ
full_form a b c d =
    d ∷ c ∷ b ∷ a ∷ 0x00 ∷ 0x00 ∷ 0x10 ∷ 0x00 ∷ 0x80 ∷ 0x00 ∷ 0x00 ∷ 0x80 ∷ 0x5f ∷ 0x9b ∷ 0x34
    ∷ 0xfb ∷ []

two_bytes : (a b : ℕ) → from_le_bytes (a ∷ b ∷ []) ≡ from_le_bytes (a ∷ b ∷ 0 ∷ 0 ∷ [])
unfolding from_le_bytes
two_bytes a b = omega arith

module _ (u : UuidCrate) where
  open u use {from_u128, from_bytes, from_slice, from_slice_sixteen, from_u128_lem, from_fields_lem}

  from_short_sum : (v : ℕ) → from_short u v ≡ from_u128 (uuid_base + v * 2 ^ 96)
  unfolding from_short
  from_short_sum v = ap from_u128 (bit_or_disjoint 96 uuid_base v (omega arith))

  from_short_full :
      (a b c d : ℕ)
      → IsByte a
      → IsByte b
      → IsByte c
      → IsByte d
      → from_short u (from_le_bytes (a ∷ b ∷ c ∷ d ∷ [])) ≡ from_bytes (full_form a b c d)
  unfolding from_le_bytes from_be_bytes
  from_short_full a b c d ha hb hc hd =
      from_short_sum (from_le_bytes (a ∷ b ∷ c ∷ d ∷ []))
      ∙ ap from_u128 (omega arith)
      ∙ from_u128_lem (full_form a b c d) refl (omega arith)

  -- The UUID of a number of 16 bits.
  pub from_short-full_form :
      (a b : ℕ)
      → IsByte a
      → IsByte b
      → from_short u (from_le_bytes (a ∷ b ∷ [])) ≡ from_bytes (full_form a b 0 0)
  from_short-full_form a b ha hb =
      ap (from_short u) (two_bytes a b) ∙ from_short_full a b 0 0 ha hb (omega arith) (omega arith)

  assigned_short : (v : ℕ) → assigned u v ≡ from_short u v
  unfolding assigned from_be_bytes from_le_bytes
  assigned_short v =
      from_fields_lem v 0x0 0x1000 _ refl ∙ ap from_u128 (omega arith) ∙ sym (from_short_sum v)

  -- A UUID of two or of four bytes, lowest first, is the UUID of sixteen bytes, highest first, that
  -- the base UUID makes of it. A missing high half is zero.
  pub uuid_from_raw-full_form :
      (a b c d : ℕ)
      → IsByte a
      → IsByte b
      → IsByte c
      → IsByte d
      → (uuid_from_raw u (a ∷ b ∷ []) ≡ uuid_from_raw u (full_form a b 0 0))
        × (uuid_from_raw u (a ∷ b ∷ c ∷ d ∷ []) ≡ uuid_from_raw u (full_form a b c d))
  unfolding uuid_from_raw split_at
  uuid_from_raw-full_form a b c d ha hb hc hd = (
    rw (from_slice_sixteen (full_form a b 0 0) refl) (ap ok (from_short-full_form a b ha hb)),
    rw (from_slice_sixteen (full_form a b c d) refl) (ap ok (from_short_full a b c d ha hb hc hd)),
  )

  -- The constant for an assigned number of 16 bits is what the number's two bytes are read to.
  pub uuid_from_raw-assigned :
      (v : ℕ) → v < 2 ^ 16 → uuid_from_raw u (to_le_bytes 2 v) ≡ ok (assigned u v)
  unfolding uuid_from_raw split_at to_le_bytes
  uuid_from_raw-assigned v h =
      ap ok (ap (from_short u) (from_le_bytes-to_le_bytes 2 v h) ∙ sym (assigned_short v))
