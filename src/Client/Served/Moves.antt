-- ===== src/Client/Served/Moves.antt =====
-- bluez-async-ots/src/lib.rs: the functions that select an object, in front of a server of the list
-- control point.
use bluetooth_ots_rs.Base.{
  ℕ, ◌^◌, ◌<◌, ◌≡◌, refl, sym, ap, Bool, true, false, some, List, [], ◌∷◌, All,
}
use bluetooth_ots_rs.Base.Outcome.{Outcome, ok, err, map_err}
use bluetooth_ots_rs.Client.Host.{Host}
use bluetooth_ots_rs.Base.Monad.{◌>>◌, pure, after}
use bluetooth_ots_rs.Client.Objects.{previous, next, go_to}
use bluetooth_ots_rs.Client.Objects.Select.{
  selection, list_request-answered, previous-selection, next-selection, go_to-selection,
}
use bluetooth_ots_rs.Client.Operations.{
  first, last, list_operation, operation, expect, list_none, list_feature_go_to,
}
use bluetooth_ots_rs.Client.Served.{Server, Serves, serve}
use bluetooth_ots_rs.Client.Served.Exchange.{exchanged, request-response, exchanged-view}
use bluetooth_ots_rs.Client.State.{Error, core, OtsClient, Client}
use bluetooth_ots_rs.Core.Codes.{ListOp, ListRc}
use bluetooth_ots_rs.Core.Error.{list_error}
use bluetooth_ots_rs.Core.Requests.{ListReq, encode_list}
use bluetooth_ots_rs.Core.Requests.RoundTrip.{ListFits}
use bluetooth_ots_rs.Core.Responses.Shape.{list_outcome}
use bluetooth_ots_rs.Crates.{Bitflags, UuidCrate}

pub data Move : Type 0 where
  to_first to_last to_previous to_next : Move
  to : (id : ℕ) → Move

abbrev pub request_of : Move → ListReq
request_of Move.to_first = ListReq.first
request_of Move.to_last = ListReq.last
request_of Move.to_previous = ListReq.previous
request_of Move.to_next = ListReq.next
request_of (Move.to id) = ListReq.go_to id

-- How an operation that gives one value ends.
abbrev pub ended : {Uuid : Type 0} (h : Host Uuid) {A : Type 0} → A → ListRc → Outcome (Error h) A
ended h a ListRc.success = ok a
ended h a rc = err (core (list_error rc))

-- What a caller is told, from the result code.
abbrev pub told : {Uuid : Type 0} (h : Host Uuid) → Move → ListRc → Outcome (Error h) Bool
told h Move.to_first rc = ended h true rc
told h Move.to_last rc = ended h true rc
told h Move.to_previous rc = selection h false rc
told h Move.to_next rc = selection h false rc
told h (Move.to id) rc = selection h true rc

-- The moves on the server itself: what each tells, and the server behind the last.
abbrev pub walk :
    {Uuid : Type 0} (h : Host Uuid) → List Move → Server → List (Outcome (Error h) Bool) × Server
walk h [] v = ([], v)
walk h (m ∷ ms) v =
    let (rc, v') = serve (request_of m) v in
    let (answers, end) = walk h ms v' in (told h m rc ∷ answers, end)

module _ (b : Bitflags) (u : UuidCrate) (h : Host u.Uuid) (c : OtsClient h) where
  -- The client's operation for a move. Without a value of its own it is true where it ends well.
  abbrev pub perform : Move → Client h Bool
  perform Move.to_first = do first b u h c; pure true
  perform Move.to_last = do last b u h c; pure true
  perform Move.to_previous = previous b u h c
  perform Move.to_next = next b u h c
  perform (Move.to id) = go_to b u h c id

  -- A caller that makes the moves one after the other, and goes on after an error.
  abbrev pub perform_all : List Move → h.World → List (Outcome (Error h) Bool) × h.World
  perform_all [] w = ([], w)
  perform_all (m ∷ ms) w =
      let (answer, w') = perform m w in
      let (answers, end) = perform_all ms w' in (answer ∷ answers, end)

module _ (b : Bitflags) (u : UuidCrate) (h : Host u.Uuid) (w : h.World) where
  first-ended :
      (rc : ListRc)
      → after (map_err core (list_outcome ListOp.first rc []), w) (expect b u h list_none)
        ≡ (ended h tt rc, w)
  unfolding expect
  first-ended ListRc.success = refl
  first-ended ListRc.operation_not_supported = refl
  first-ended ListRc.invalid_parameter = refl
  first-ended ListRc.operation_failed = refl
  first-ended ListRc.out_of_bounds = refl
  first-ended ListRc.too_many_objects = refl
  first-ended ListRc.no_object = refl
  first-ended ListRc.object_id_not_found = refl

  last-ended :
      (rc : ListRc)
      → after (map_err core (list_outcome ListOp.last rc []), w) (expect b u h list_none)
        ≡ (ended h tt rc, w)
  last-ended rc = first-ended rc

  ended-true : (rc : ListRc) → after (ended h tt rc, w) (λ _. pure true) ≡ (ended h true rc, w)
  ended-true ListRc.success = refl
  ended-true ListRc.operation_not_supported = refl
  ended-true ListRc.invalid_parameter = refl
  ended-true ListRc.operation_failed = refl
  ended-true ListRc.out_of_bounds = refl
  ended-true ListRc.too_many_objects = refl
  ended-true ListRc.no_object = refl
  ended-true ListRc.object_id_not_found = refl

module _ (b : Bitflags) (u : UuidCrate) (h : Host u.Uuid) (c : OtsClient h) (chr : h.CharId)
    (s : Serves h c chr) (has_list : c.olcp_chr ≡ some chr) where
  -- The state behind a move.
  abbrev pub behind : Move → h.World → h.World
  behind m w = exchanged h c chr s (encode_list (request_of m)) w

  pub first-serve :
      (w : h.World)
      → first b u h c w ≡ (ended h tt (serve ListReq.first (s.view w)).0, behind Move.to_first w)
  unfolding list_operation operation
  first-serve w =
      rw
        (list_request-answered b u h c chr (serve ListReq.first (s.view w)).0 [] w _ ListOp.first
          ListReq.first has_list (request-response h c chr s ListReq.first w tt))
        (first-ended b u h _ _)

  pub last-serve :
      (w : h.World)
      → last b u h c w ≡ (ended h tt (serve ListReq.last (s.view w)).0, behind Move.to_last w)
  unfolding list_operation operation
  last-serve w =
      rw
        (list_request-answered b u h c chr (serve ListReq.last (s.view w)).0 [] w _ ListOp.last
          ListReq.last has_list (request-response h c chr s ListReq.last w tt))
        (last-ended b u h _ _)

  pub previous-serve :
      (w : h.World)
      → previous b u h c w
        ≡ (selection h false (serve ListReq.previous (s.view w)).0, behind Move.to_previous w)
  previous-serve w =
      previous-selection b u h c chr (serve ListReq.previous (s.view w)).0 [] w _ has_list
        (request-response h c chr s ListReq.previous w tt)

  pub next-serve :
      (w : h.World)
      → next b u h c w
        ≡ (selection h false (serve ListReq.next (s.view w)).0, behind Move.to_next w)
  next-serve w =
      next-selection b u h c chr (serve ListReq.next (s.view w)).0 [] w _ has_list
        (request-response h c chr s ListReq.next w tt)

  pub go_to-serve :
      (id : ℕ) (w : h.World)
      → b.contains c.list_features list_feature_go_to ≡ true
      → id < 2 ^ 48
      → go_to b u h c id w
        ≡ (selection h true (serve (ListReq.go_to id) (s.view w)).0, behind (Move.to id) w)
  go_to-serve id w feature fits =
      go_to-selection b u h c chr (serve (ListReq.go_to id) (s.view w)).0 [] w _ id feature has_list
        (request-response h c chr s (ListReq.go_to id) w fits)

  module _ (feature : b.contains c.list_features list_feature_go_to ≡ true) where
    perform-serve :
        (m : Move) (w : h.World)
        → ListFits (request_of m)
        → perform b u h c m w ≡ (told h m (serve (request_of m) (s.view w)).0, behind m w)
    perform-serve Move.to_first w fits = rw (first-serve w) (ended-true b u h _ _)
    perform-serve Move.to_last w fits = rw (last-serve w) (ended-true b u h _ _)
    perform-serve Move.to_previous w fits = previous-serve w
    perform-serve Move.to_next w fits = next-serve w
    perform-serve (Move.to id) w fits = go_to-serve id w feature fits

    -- A client of a server that follows the specification, with the feature to go to an object,
    -- refines the server: whatever moves a caller makes, one after the other and also after errors,
    -- with identifiers below 2^48, it is told of each what the server's result says, and the
    -- server ends at the object where these moves lead it.
    pub perform_all-walk :
        (ms : List Move) (w : h.World)
        → All (λ m. ListFits (request_of m)) ms
        → ((perform_all b u h c ms w).0, s.view (perform_all b u h c ms w).1) ≡ walk h ms (s.view w)
    perform_all-walk [] w fits = refl
    perform_all-walk (m ∷ ms) w (fit, fits) =
        let here = perform-serve m w fit in
        let there = exchanged-view h c chr s (request_of m) w fit in
        let rest = perform_all-walk ms (behind m w) fits in
        rw (here, sym there)
          (ap (λ r. (told h m (serve (request_of m) (s.view w)).0 ∷ r.0, r.1)) rest)
