-- ===== src/Core/Metadata/Times.antt =====
-- core/src/types.rs, `Metadata`: the two times that the parser reads.
use bluetooth_ots_rs.Base.{
  ℕ, ◌+◌, length, ◌≡◌, sym, ◌∙◌, arith, Bool, true, false, Option, none, some, List,
}
use bluetooth_ots_rs.Base.Bytes.{from_le_bytes}
use bluetooth_ots_rs.Base.Outcome.{ok, Ensures, >>=-Ensures, Ensures-ok, split_at}
use bluetooth_ots_rs.Core.DateTime.{DateTime}
use bluetooth_ots_rs.Core.Error.{check_len}
use bluetooth_ots_rs.Core.Metadata.{
  Metadata, read_type, read_size, read_time, read_properties, read_flags, type_uuid128,
  has_current_size, has_allocated_size, has_properties, read_fields, read_named, metadata_try_from,
  has_first_created,
}
use bluetooth_ots_rs.Core.Utf8.{from_utf8}
use bluetooth_ots_rs.Crates.{Bitflags, UuidCrate}

abbrev pub is_some {ℓ} : {A : Type ℓ} → Option A → Bool
is_some none = false
is_some (some _) = true

read_time-is_some :
    (set : Bool) (raw : List ℕ) (t : Option DateTime) (rest : List ℕ)
    → read_time set raw ≡ ok (t, rest)
    → is_some t ≡ set
unfolding read_time
read_time-is_some set raw t rest h = ground arith

module _ (b : Bitflags) (u : UuidCrate) where
  abbrev AlikeTimes : Metadata u.Uuid → Type 0
  AlikeTimes m = is_some m.last_modified ≡ is_some m.first_created

  read_fields-times :
      (id : ℕ) (name : List ℕ) (flags : ℕ) (raw : List ℕ)
      → Ensures AlikeTimes (read_fields b u id name flags raw)
  unfolding read_fields
  read_fields-times id name flags raw =
      let set : Bool = b.contains flags has_first_created in
      >>=-Ensures AlikeTimes (read_type b u (b.contains flags type_uuid128) raw) _ λ (_, r1) _.
        >>=-Ensures AlikeTimes (read_size (b.contains flags has_current_size) r1) _ λ (_, r2) _.
          >>=-Ensures AlikeTimes (read_size (b.contains flags has_allocated_size) r2) _ λ (_, r3) _.
            >>=-Ensures AlikeTimes (read_time set r3) _ λ (t, r4) e.
              >>=-Ensures AlikeTimes (read_time set r4) _ λ (t', r5) e'.
                >>=-Ensures AlikeTimes (read_properties b (b.contains flags has_properties) r5) _
                  λ _ _. read_time-is_some set r4 t' r5 e' ∙ sym (read_time-is_some set r3 t r4 e)

  read_named-times : (id n : ℕ) (raw : List ℕ) → Ensures AlikeTimes (read_named b u id n raw)
  unfolding read_named
  read_named-times id n raw = >>=-Ensures AlikeTimes (check_len (length raw) (n + 1 + 2)) _ λ _ _.
      >>=-Ensures AlikeTimes (split_at n raw) _ λ (bytes, r1) _.
        >>=-Ensures AlikeTimes (from_utf8 bytes) _ λ name _.
          >>=-Ensures AlikeTimes (split_at 1 r1) _ λ (flag, r2) _.
            >>=-Ensures AlikeTimes (read_flags b (from_le_bytes flag)) _
              λ flags _. read_fields-times id name flags r2

  -- In metadata that is parsed the time of the last modification is present if and only if the time
  -- of the creation is.
  pub metadata_try_from-times :
      (raw : List ℕ) (m : Metadata u.Uuid)
      → metadata_try_from b u raw ≡ ok m
      → is_some m.last_modified ≡ is_some m.first_created
  metadata_try_from-times raw m h = Ensures-ok AlikeTimes (metadata_try_from b u raw) times h
    where
      times : Ensures AlikeTimes (metadata_try_from b u raw)
      times =
          unfold metadata_try_from in
          >>=-Ensures AlikeTimes (check_len (length raw) 11) _ λ _ _.
            >>=-Ensures AlikeTimes (split_at 6 raw) _ λ (id, r1) _.
              >>=-Ensures AlikeTimes (split_at 1 r1) _ λ (n, r2) _. read_named-times _ _ r2
