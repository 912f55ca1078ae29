-- ===== src/Client/Objects/Described.antt =====
-- bluez-async-ots/src/lib.rs, `id` to `metadata`, where each characteristic has a value for the
-- current object.
pub mod Whole
use bluetooth_ots_rs.Base.{ℕ, ◌≡◌, refl, ap, ◌∙◌, Option, none, some, List, get_elem?, inr}
use bluetooth_ots_rs.Base.Outcome.{ok, ◌>>=◌ as ◌then◌, >>=-both, ok_injective}
use bluetooth_ots_rs.Client.Host.{Host}
use bluetooth_ots_rs.Client.Objects.{
  read_value, read_optional, decode_id, id, name, type_, size, first_created, last_modified,
  properties, metadata,
}
use bluetooth_ots_rs.Client.Served.{Object, Serves}
use bluetooth_ots_rs.Client.State.{OtsClient, Client, from_core}
use bluetooth_ots_rs.Core.DateTime.{DateTime, date_time_try_from}
use bluetooth_ots_rs.Core.Error.{Result}
use bluetooth_ots_rs.Core.Flags.{property, try_from_slice}
use bluetooth_ots_rs.Core.Numbers.{Sizes, ule48_try_from, ule48_into, sizes_try_from}
use bluetooth_ots_rs.Core.Utf8.{from_utf8}
use bluetooth_ots_rs.Core.Uuids.{uuid_from_raw}
use bluetooth_ots_rs.Crates.{Bitflags, UuidCrate}

-- What the characteristics say of an object.
pub record Details (Uuid : Type 0) : Type 0 where
  pub id : Option ℕ
  pub name : List ℕ
  pub type_ : Uuid
  pub size : Sizes
  pub first_created : Option DateTime
  pub last_modified : Option DateTime
  pub properties : ℕ

-- Each characteristic has a value for the current object, and reading it leaves the server alone.
pub record Reads {Uuid : Type 0} (h : Host Uuid) (c : OtsClient h) (chr : h.CharId)
    (s : Serves h c chr) : Type 0 where
  pub value : h.CharId → Object → List ℕ
  pub after_read : h.World → h.World
  pub reads :
      (chr' : h.CharId) (w : h.World) (o : Object)
      → get_elem? (s.view w).objects (s.view w).cursor ≡ some o
      → h.read_characteristic_value chr' w ≡ (inr (value chr' o), after_read w)
  pub read_view : (w : h.World) → s.view (after_read w) ≡ s.view w

-- What the value of a characteristic that the server may lack is decoded to.
abbrev pub IsOptional : {Chr A : Type 0} → Option Chr → (Chr → Result A) → Option A → Type 0
IsOptional none decode v = v ≡ none
IsOptional {A = A} (some chr) decode v = (a : A) × (decode chr ≡ ok a) × (v ≡ some a)

module _ (b : Bitflags) (u : UuidCrate) (h : Host u.Uuid) (c : OtsClient h) (chr : h.CharId)
    (s : Serves h c chr) (r : Reads h c chr s) where
  -- Each value of the object is decoded to the detail.
  pub record IsDescribed (o : Object) (d : Details u.Uuid) : Type 0 where
    pub id_is :
        IsOptional c.id_chr (λ k. ule48_try_from (r.value k o) then λ n. ok (ule48_into n)) d.id
    pub name_is : from_utf8 (r.value c.name_chr o) ≡ ok d.name
    pub type_is : uuid_from_raw u (r.value c.type_chr o) ≡ ok d.type_
    pub size_is : sizes_try_from (r.value c.size_chr o) ≡ ok d.size
    pub created_is : IsOptional c.crt_chr (λ k. date_time_try_from (r.value k o)) d.first_created
    pub modified_is : IsOptional c.mod_chr (λ k. date_time_try_from (r.value k o)) d.last_modified
    pub properties_is : try_from_slice b property (r.value c.prop_chr o) ≡ ok d.properties

  -- The object is the current one.
  abbrev pub IsCurrent : Object → h.World → Type 0
  IsCurrent o w = get_elem? (s.view w).objects (s.view w).cursor ≡ some o

  pub read-IsCurrent : (o : Object) (w : h.World) → IsCurrent o w → IsCurrent o (r.after_read w)
  read-IsCurrent o w e = ap (λ v. get_elem? v.objects v.cursor) (r.read_view w) ∙ e

  abbrev pub after_optional : Option h.CharId → h.World → h.World
  after_optional none w = w
  after_optional (some k) w = r.after_read w

  pub optional-IsCurrent :
      (k : Option h.CharId) (o : Object) (w : h.World)
      → IsCurrent o w
      → IsCurrent o (after_optional k w)
  optional-IsCurrent none o w e = e
  optional-IsCurrent (some k) o w e = read-IsCurrent o w e

  pub optional_view : (k : Option h.CharId) (w : h.World) → s.view (after_optional k w) ≡ s.view w
  optional_view none w = refl
  optional_view (some k) w = r.read_view w

  module _ (o : Object) where
    read_value-value :
        (k : h.CharId) (w : h.World)
        → IsCurrent o w
        → read_value b u h k w ≡ (ok (r.value k o), r.after_read w)
    unfolding read_value
    read_value-value k w e = rw (r.reads k w o e) refl

    read_optional-value :
        {A : Type 0} (k : Option h.CharId) (decode : List ℕ → Result A) (run : List ℕ → Client h A)
        (v : Option A) (w : h.World)
        → ((raw : List ℕ) (a : A) (w' : h.World) → decode raw ≡ ok a → run raw w' ≡ (ok a, w'))
        → IsOptional k (λ k'. decode (r.value k' o)) v
        → IsCurrent o w
        → read_optional b u h k run w ≡ (ok v, after_optional k w)
    unfolding read_optional
    read_optional-value none decode run v w runs is e = rw is refl
    read_optional-value (some k) decode run v w runs (a, p, q) e =
        rw (read_value-value k w e, runs (r.value k o) a (r.after_read w) p, q) refl

    decode_id-value :
        (raw : List ℕ) (a : ℕ) (w : h.World)
        → (ule48_try_from raw then λ n. ok (ule48_into n)) ≡ ok a
        → decode_id b u h raw w ≡ (ok a, w)
    unfolding decode_id
    decode_id-value raw a w p =
        let (n, q, z) = >>=-both (ule48_try_from raw) (λ n. ok (ule48_into n)) p in
        rw (q, ok_injective (ule48_into n) a z) refl

    from_core-value :
        {A : Type 0} (decode : List ℕ → Result A) (raw : List ℕ) (a : A) (w : h.World)
        → decode raw ≡ ok a
        → from_core h (decode raw) w ≡ (ok a, w)
    from_core-value decode raw a w p = rw p refl

    module _ (d : Details u.Uuid) (is : IsDescribed o d) where
      pub id-value :
          (w : h.World) → IsCurrent o w → id b u h c w ≡ (ok d.id, after_optional c.id_chr w)
      unfolding id
      id-value w e =
          read_optional-value c.id_chr _ (decode_id b u h) d.id w decode_id-value is.id_is e

      pub name-value : (w : h.World) → IsCurrent o w → name b u h c w ≡ (ok d.name, r.after_read w)
      unfolding name
      name-value w e = rw (read_value-value c.name_chr w e, is.name_is) refl

      pub type_-value :
          (w : h.World) → IsCurrent o w → type_ b u h c w ≡ (ok d.type_, r.after_read w)
      unfolding type_
      type_-value w e = rw (read_value-value c.type_chr w e, is.type_is) refl

      pub size-value : (w : h.World) → IsCurrent o w → size b u h c w ≡ (ok d.size, r.after_read w)
      unfolding size
      size-value w e = rw (read_value-value c.size_chr w e, is.size_is) refl

      pub first_created-value :
          (w : h.World)
          → IsCurrent o w
          → first_created b u h c w ≡ (ok d.first_created, after_optional c.crt_chr w)
      unfolding first_created
      first_created-value w e =
          read_optional-value c.crt_chr date_time_try_from _ d.first_created w
            (from_core-value date_time_try_from) is.created_is e

      pub last_modified-value :
          (w : h.World)
          → IsCurrent o w
          → last_modified b u h c w ≡ (ok d.last_modified, after_optional c.mod_chr w)
      unfolding last_modified
      last_modified-value w e =
          read_optional-value c.mod_chr date_time_try_from _ d.last_modified w
            (from_core-value date_time_try_from) is.modified_is e

      pub properties-value :
          (w : h.World) → IsCurrent o w → properties b u h c w ≡ (ok d.properties, r.after_read w)
      unfolding properties
      properties-value w e = rw (read_value-value c.prop_chr w e, is.properties_is) refl
