-- ===== src/Cli/Select/Chosen/Refines.antt =====
-- cli/src/main.rs, `ObjSel::select`: what it selects, and that it ends.
use bluetooth_ots_rs.Base.{
  ℕ, ◌+◌, ◌^◌, ◌<◌, ◌≤◌, ◌≡◌, refl, ap, ◌∙◌, arith, true, Option, none, some, List, length, ltb,
  All, if◌then◌else◌, inl, inr, Bool-cases,
}
use bluetooth_ots_rs.Base.Outcome.{Outcome}
use bluetooth_ots_rs.Cli.Args.{ObjSel}
use bluetooth_ots_rs.Cli.Command.{Quiet, ots, fail, obj_id_error}
use bluetooth_ots_rs.Cli.Select.{forward, search, select}
use bluetooth_ots_rs.Cli.Select.Chosen.{along, reach, at_id, choose, choose_by, name_place}
use bluetooth_ots_rs.Cli.Select.Chosen.Steps.{IsNamed, server, shown, forward-along, search-along}
use bluetooth_ots_rs.Client.Host.{Host}
use bluetooth_ots_rs.Base.Monad.{◌>>=◌, ◌>>◌, pure}
use bluetooth_ots_rs.Client.Objects.{go_to}
use bluetooth_ots_rs.Client.Operations.{first, list_feature_go_to}
use bluetooth_ots_rs.Client.Served.{Server, Serves, place_of}
use bluetooth_ots_rs.Client.Served.Exchange.{exchanged-view}
use bluetooth_ots_rs.Client.Served.Moves.{Move, behind, first-serve, go_to-serve}
use bluetooth_ots_rs.Client.State.{OtsClient}
use bluetooth_ots_rs.Core.Requests.{ListReq}
use bluetooth_ots_rs.Crates.{Bitflags, UuidCrate}

-- An identifier has 48 bits.
abbrev pub FitsId : Option ℕ → Type 0
FitsId none = Unit {0}
FitsId (some id) = id < 2 ^ 48

module _ (b : Bitflags) (u : UuidCrate) (h : Host u.Uuid) (c : OtsClient h) (chr : h.CharId)
    (s : Serves h c chr) (has_list : c.olcp_chr ≡ some chr) where
  abbrev here : {E A : Type 0} → Outcome E A × h.World → Outcome E A × Server
  here r = shown b u h c chr s has_list r

  -- From the first object on, a loop that goes along the list reaches its place.
  from_first :
      (loop : Quiet h (Unit {0})) (place : ℕ) (w : h.World)
      → ((w' : h.World)
          → s.view w' ≡ server (s.view w).objects 0
          → 0 < length (s.view w).objects
          → here (loop w') ≡ along h place (server (s.view w).objects 0))
      → here ((ots h (first b u h c) >> loop) w) ≡ reach h place (s.view w)
  from_first loop place w goes =
      let viewed = exchanged-view h c chr s ListReq.first w tt in
      rw (first-serve b u h c chr s has_list w)
        (elim (Bool-cases (ltb 0 (length (s.view w).objects))) [
          | inl l ↦ rw l (
              goes (behind b u h c chr s has_list Move.to_first w) (viewed ∙ rw l refl)
                (ground arith))
          | inr e ↦ rw (e, viewed, e) refl
        ])

  along_zero : (place : ℕ) (v : Server) → along h (0 + place) v ≡ along h place v
  along_zero place v = ap (λ p. along h p v) (omega arith)

  select_id :
      (id : ℕ) (w : h.World)
      → b.contains c.list_features list_feature_go_to ≡ true
      → id < 2 ^ 48
      → here
          ((do there ← ots h (go_to b u h c id); if there then pure tt else fail h obj_id_error) w)
        ≡ at_id h id (s.view w)
  select_id id w feature fits =
      let viewed = exchanged-view h c chr s (ListReq.go_to id) w fits in
      rw (go_to-serve b u h c chr s has_list id w feature fits)
        (elim (Bool-cases (ltb (place_of id (s.view w).objects) (length (s.view w).objects))) [
          | inl l ↦ rw (l, viewed, l) refl
          | inr e ↦ rw (e, viewed, e) refl
        ])

  module _ (feature : b.contains c.list_features list_feature_go_to ≡ true) where
    -- In front of a server that follows the specification, with the feature to go to an object,
    -- whose objects have UTF-8 names, `select` does exactly what the selection means: an index
    -- reaches the object at that place, an identifier below 2^48 the object that has it, a name the
    -- first object with it, and where there is none the command ends with its error. The search by
    -- name ends: as many turns as there are objects are enough.
    pub select-choose :
        (turns : ℕ) (sel : ObjSel) (w : h.World)
        → All IsNamed (s.view w).objects
        → FitsId sel.id
        → length (s.view w).objects ≤ turns
        → here (select b u h c turns sel w) ≡ choose h sel (s.view w)
    unfolding select
    select-choose turns sel w named fits enough = go sel.index sel.id sel.name fits
      where
        go :
            (index id : Option ℕ) (name : Option (List ℕ))
            → FitsId id
            → here (select b u h c turns (record { index = index; id = id; name = name }) w)
              ≡ choose_by h index id name (s.view w)
        go (some index) id name fits = from_first (forward b u h c index) index w λ w' v lt.
            forward-along b u h c chr s has_list index (s.view w).objects 0 w' v lt
            ∙ along_zero index (server (s.view w).objects 0)
        go none (some id) name fits = select_id id w feature fits
        go none none (some name) fits =
            from_first (search b u h c turns name) (name_place name (s.view w).objects) w λ w' v lt.
              search-along b u h c chr s has_list turns name (s.view w).objects 0 w' v named lt
                (omega arith)
              ∙ along_zero (name_place name (s.view w).objects) (server (s.view w).objects 0)
        go none none none fits = refl
