-- ===== src/Client/Objects/Described/Whole.antt =====
-- bluez-async-ots/src/lib.rs, `metadata`, where each characteristic has a value for the current
-- object.
use bluetooth_ots_rs.Base.{◌≡◌, refl, ◌∙◌, some}
use bluetooth_ots_rs.Base.Outcome.{ok}
use bluetooth_ots_rs.Client.Host.{Host}
use bluetooth_ots_rs.Client.Objects.{metadata}
use bluetooth_ots_rs.Client.Objects.Described.{
  Details, Reads, IsDescribed, IsCurrent, after_optional, optional_view, optional-IsCurrent,
  read-IsCurrent, id-value, name-value, type_-value, size-value, first_created-value,
  last_modified-value, properties-value,
}
use bluetooth_ots_rs.Client.Served.{Object, Serves}
use bluetooth_ots_rs.Client.State.{OtsClient}
use bluetooth_ots_rs.Crates.{Bitflags, UuidCrate}

module _ (b : Bitflags) (u : UuidCrate) (h : Host u.Uuid) (c : OtsClient h) (chr : h.CharId)
    (s : Serves h c chr) (r : Reads h c chr s) (o : Object) (d : Details u.Uuid)
    (is : IsDescribed b u h c chr s r o d) where
  -- The state behind `metadata`.
  abbrev pub after_metadata : h.World → h.World
  after_metadata w =
      let named = r.after_read (after_optional b u h c chr s r c.id_chr w) in
      let sized = r.after_read (r.after_read named) in
      r.after_read
        (after_optional b u h c chr s r c.mod_chr (after_optional b u h c chr s r c.crt_chr sized))

  -- Where an object is the current one and the value of each characteristic is decoded to a
  -- detail, `metadata` gives exactly these details, and with them both sizes; it leaves the
  -- server as it is.
  pub metadata-value :
      (w : h.World)
      → IsCurrent b u h c chr s r o w
      → (metadata b u h c w ≡ (
        ok (record {
          id = d.id;
          name = d.name;
          type_ = d.type_;
          current_size = some d.size.current;
          allocated_size = some d.size.allocated;
          first_created = d.first_created;
          last_modified = d.last_modified;
          properties = d.properties;
        }),
        after_metadata w,
      ))
        × (s.view (after_metadata w) ≡ s.view w)
  unfolding metadata
  metadata-value w e =
      let e1 = optional-IsCurrent b u h c chr s r c.id_chr o w e in
      let e2 = read-IsCurrent b u h c chr s r o _ e1 in
      let e3 = read-IsCurrent b u h c chr s r o _ e2 in
      let e4 = read-IsCurrent b u h c chr s r o _ e3 in
      let e5 = optional-IsCurrent b u h c chr s r c.crt_chr o _ e4 in
      let e6 = optional-IsCurrent b u h c chr s r c.mod_chr o _ e5 in
      (
        rw
            (
              id-value b u h c chr s r o d is w e,
              name-value b u h c chr s r o d is _ e1,
              type_-value b u h c chr s r o d is _ e2,
              size-value b u h c chr s r o d is _ e3,
              first_created-value b u h c chr s r o d is _ e4,
              last_modified-value b u h c chr s r o d is _ e5,
              properties-value b u h c chr s r o d is _ e6,
            )
            refl,
        r.read_view _
            ∙ optional_view b u h c chr s r c.mod_chr _
            ∙ optional_view b u h c chr s r c.crt_chr _
            ∙ r.read_view _
            ∙ r.read_view _
            ∙ r.read_view _
            ∙ optional_view b u h c chr s r c.id_chr w,
      )
