-- ===== src/Client/Objects.antt =====
-- bluez-async-ots/src/lib.rs: what the client reads of the selected object, and how it selects one.
pub mod Select
pub mod Described
use bluetooth_ots_rs.Base.{ℕ, Bool, true, false, Option, none, some, List, ◌⊎◌, inl, inr}
use bluetooth_ots_rs.Base.Outcome.{Outcome, ok, err, map_err}
use bluetooth_ots_rs.Client.Host.{Host}
use bluetooth_ots_rs.Base.Monad.{Action, ◌>>=◌, ◌>>◌, pure, throw, call, attempt}
use bluetooth_ots_rs.Client.Operations.{do_previous, do_next, do_go_to}
use bluetooth_ots_rs.Client.State.{Error, bt, core, OtsClient, Client, from_core}
use bluetooth_ots_rs.Core.Codes.{ListRc}
use bluetooth_ots_rs.Core.DateTime.{DateTime, date_time_try_from}
use bluetooth_ots_rs.Core.Error.{list_error}
use bluetooth_ots_rs.Core.Flags.{property, try_from_slice}
use bluetooth_ots_rs.Core.Metadata.{Metadata}
use bluetooth_ots_rs.Core.Numbers.{Sizes, ule48_try_from, ule48_into, sizes_try_from}
use bluetooth_ots_rs.Core.Utf8.{from_utf8}
use bluetooth_ots_rs.Core.Uuids.{uuid_from_raw}
use bluetooth_ots_rs.Crates.{Bitflags, UuidCrate}

module _ (b : Bitflags) (u : UuidCrate) (h : Host u.Uuid) where
  read_value : h.CharId → Client h (List ℕ)
  read_value chr = call bt (h.read_characteristic_value chr)

  -- The value of a characteristic that the server may lack.
  read_optional : {A : Type 0} → Option h.CharId → (List ℕ → Client h A) → Client h (Option A)
  read_optional none decode = pure none
  read_optional (some chr) decode = do raw ← read_value chr; a ← decode raw; pure (some a)

  decode_id : List ℕ → Client h ℕ
  decode_id raw = do n ← from_core h (ule48_try_from raw); pure (ule48_into n)

  unfoldable pub id : OtsClient h → Client h (Option ℕ)
  unfolding read_optional read_value decode_id
  id c = read_optional c.id_chr decode_id

  unfoldable pub name : OtsClient h → Client h (List ℕ)
  unfolding read_value
  name c = do raw ← read_value c.name_chr; from_core h (from_utf8 raw)

  unfoldable pub type_ : OtsClient h → Client h u.Uuid
  unfolding read_value
  type_ c = do raw ← read_value c.type_chr; from_core h (uuid_from_raw u raw)

  unfoldable pub size : OtsClient h → Client h Sizes
  unfolding read_value
  size c = do raw ← read_value c.size_chr; from_core h (sizes_try_from raw)

  unfoldable pub first_created : OtsClient h → Client h (Option DateTime)
  unfolding read_optional read_value
  first_created c = read_optional c.crt_chr (λ raw. from_core h (date_time_try_from raw))

  unfoldable pub last_modified : OtsClient h → Client h (Option DateTime)
  unfolding read_optional read_value
  last_modified c = read_optional c.mod_chr (λ raw. from_core h (date_time_try_from raw))

  unfoldable pub properties : OtsClient h → Client h ℕ
  unfolding read_value
  properties c = do raw ← read_value c.prop_chr; from_core h (try_from_slice b property raw)

  -- `if let Ok(size) = self.size().await`
  abbrev sizes_or_none : Error h ⊎ Sizes → Option ℕ × Option ℕ
  sizes_or_none (inl e) = (none, none)
  sizes_or_none (inr s) = (some s.current, some s.allocated)

  -- `unwrap_or_default`
  abbrev properties_or_none : Error h ⊎ ℕ → ℕ
  properties_or_none (inl e) = 0
  properties_or_none (inr p) = p

  unfoldable pub metadata : OtsClient h → Client h (Metadata u.Uuid)
  metadata c = do
    id ← id c
    name ← name c
    type_ ← type_ c
    sizes ← attempt (size c)
    first_created ← first_created c
    last_modified ← last_modified c
    properties ← attempt (properties c)
    pure (record {
      id = id;
      name = name;
      type_ = type_;
      current_size = (sizes_or_none sizes).0;
      allocated_size = (sizes_or_none sizes).1;
      first_created = first_created;
      last_modified = last_modified;
      properties = properties_or_none properties;
    })

  -- `true` on success, and `false` on the result code that says that there is no such object.
  unfoldable pub selected : ListRc → Error h ⊎ Unit {0} → Client h Bool
  selected rc (inr done) = pure true
  selected ListRc.out_of_bounds (inl (core (list_error ListRc.out_of_bounds))) = pure false
  selected ListRc.object_id_not_found (inl (core (list_error ListRc.object_id_not_found))) =
      pure false
  selected rc (inl error) = throw error

  unfoldable pub previous : OtsClient h → Client h Bool
  unfolding selected
  previous c = do result ← attempt (do_previous b u h c); selected ListRc.out_of_bounds result

  unfoldable pub next : OtsClient h → Client h Bool
  unfolding selected
  next c = do result ← attempt (do_next b u h c); selected ListRc.out_of_bounds result

  unfoldable pub go_to : OtsClient h → (id : ℕ) → Client h Bool
  unfolding selected
  go_to c id = do result ← attempt (do_go_to b u h c id); selected ListRc.object_id_not_found result
