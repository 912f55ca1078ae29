-- ===== src/Core/Metadata/Safe.antt =====
-- core/src/types.rs, `Metadata`: the parser on arbitrary bytes.
use bluetooth_ots_rs.Base.{
  ℕ, ◌+◌, ◌≤◌, arith, Bool, true, false, List, length, take, drop, ltb, length-drop, Bool-cases,
  inl, inr,
}
use bluetooth_ots_rs.Base.Outcome.{Returns, ◌>>=◌, ◌>>◌, >>=-Returns, split_at, split_at_within}
use bluetooth_ots_rs.Core.Error.{Error, Result, check_len}
use bluetooth_ots_rs.Core.Flags.{property, try_from_array}
use bluetooth_ots_rs.Core.Metadata.{
  read_size, read_time, read_properties, read_flags, read_type, read_fields, read_named,
  metadata_try_from,
}
use bluetooth_ots_rs.Core.Utf8.{from_utf8, from_utf8-Returns}
use bluetooth_ots_rs.Crates.{Bitflags, UuidCrate}

read_size-Returns : (set : Bool) (raw : List ℕ) → Returns (read_size set raw)
unfolding read_size
read_size-Returns set raw = ground arith

read_time-Returns : (set : Bool) (raw : List ℕ) → Returns (read_time set raw)
unfolding read_time
read_time-Returns set raw = ground arith

-- After a passed length check the rest of the function runs with that length.
check_len-Returns :
    {A : Type 0} (actual needed : ℕ) (m : Result A)
    → (needed ≤ actual → Returns m)
    → Returns (check_len actual needed >> m)
unfolding check_len
check_len-Returns actual needed m h = elim (Bool-cases (ltb actual needed)) [
  | inl e ↦ rw e tt
  | inr e ↦ rw e (h (ground arith))
]

-- A cut inside the list goes on with its two parts.
split_at-Returns :
    {A : Type 0} (n : ℕ) (xs : List ℕ) (f : List ℕ × List ℕ → Result A)
    → n ≤ length xs
    → Returns (f (take n xs, drop n xs))
    → Returns (split_at n xs >>= f)
split_at-Returns n xs f h k = rw (split_at_within {E = Error} n xs h) k

module _ (b : Bitflags) where
  try_from_array-Returns : (raw : List ℕ) → Returns (try_from_array b property raw)
  unfolding try_from_array
  try_from_array-Returns raw = ground arith

  read_properties-Returns : (set : Bool) (raw : List ℕ) → Returns (read_properties b set raw)
  unfolding read_properties
  read_properties-Returns false raw = tt
  read_properties-Returns true raw = check_len-Returns (length raw) 4 _ λ h.
      split_at-Returns 4 raw _ h (
        >>=-Returns (try_from_array b property (take 4 raw)) _ (try_from_array-Returns (take 4 raw))
          (λ _ _. tt))

  read_flags-Returns : (flags : ℕ) → Returns (read_flags b flags)
  unfolding read_flags
  read_flags-Returns flags = ground arith

module _ (b : Bitflags) (u : UuidCrate) where
  -- Two bytes at least are there, by the check before the name.
  read_type-Returns :
      (long : Bool) (raw : List ℕ) → 2 ≤ length raw → Returns (read_type b u long raw)
  unfolding read_type
  read_type-Returns long raw h = ground arith

  read_fields-Returns :
      (id : ℕ) (name : List ℕ) (flags : ℕ) (raw : List ℕ)
      → 2 ≤ length raw
      → Returns (read_fields b u id name flags raw)
  unfolding read_fields
  read_fields-Returns id name flags raw h = >>=-Returns _ _ (read_type-Returns _ raw h) λ (_, r1) _.
      >>=-Returns _ _ (read_size-Returns _ r1) λ (_, r2) _.
        >>=-Returns _ _ (read_size-Returns _ r2) λ (_, r3) _.
          >>=-Returns _ _ (read_time-Returns _ r3) λ (_, r4) _.
            >>=-Returns _ _ (read_time-Returns _ r4)
              λ (_, r5) _. >>=-Returns _ _ (read_properties-Returns b _ r5) λ _ _. tt

  read_named-Returns : (id n : ℕ) (raw : List ℕ) → Returns (read_named b u id n raw)
  unfolding read_named
  read_named-Returns id n raw = check_len-Returns (length raw) (n + 1 + 2) _ λ h.
      split_at-Returns n raw _ (omega arith) (
        >>=-Returns (from_utf8 (take n raw)) _ (from_utf8-Returns (take n raw)) λ name _.
          split_at-Returns 1 (drop n raw) _ (omega (arith, length-drop n raw)) (
            >>=-Returns (read_flags b _) _ (read_flags-Returns b _) λ flags _.
              read_fields-Returns id name flags _
                (omega (arith, length-drop n raw, length-drop 1 (drop n raw)))))

  -- On every byte string the parser of a record returns, with the metadata or with an error.
  pub metadata_try_from-Returns : (raw : List ℕ) → Returns (metadata_try_from b u raw)
  unfolding metadata_try_from
  metadata_try_from-Returns raw = check_len-Returns (length raw) 11 _ λ h.
      split_at-Returns 6 raw _ (omega arith) (
        split_at-Returns 1 (drop 6 raw) _ (omega (arith, length-drop 6 raw))
          (read_named-Returns _ _ _))
