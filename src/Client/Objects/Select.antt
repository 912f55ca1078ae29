-- ===== src/Client/Objects/Select.antt =====
-- bluez-async-ots/src/lib.rs, `previous`, `next` and `go_to`: how they read the server's answer.
use bluetooth_ots_rs.Base.{ℕ, ◌≡◌, refl, Bool, true, false, some, List}
use bluetooth_ots_rs.Base.Outcome.{Outcome, ok, err, map_err}
use bluetooth_ots_rs.Client.Host.{Host}
use bluetooth_ots_rs.Base.Monad.{settled, after}
use bluetooth_ots_rs.Client.Objects.{selected, previous, next, go_to}
use bluetooth_ots_rs.Client.Operations.{
  list_operation, list_request, operation, list_none, list_characteristic, require, expect,
  list_feature_go_to,
}
use bluetooth_ots_rs.Client.State.{Error, core, OtsClient, request}
use bluetooth_ots_rs.Core.Codes.{ListOp, ListRc}
use bluetooth_ots_rs.Core.Error.{list_error}
use bluetooth_ots_rs.Core.Requests.{ListReq, encode_list}
use bluetooth_ots_rs.Core.Responses.Shape.{list_outcome, list_bytes, decode_list-list_bytes}
use bluetooth_ots_rs.Crates.{Bitflags, UuidCrate}

-- Success selects an object, the one result code for a missing object does not, and each other
-- result code is an error.
abbrev pub selection : {Uuid : Type 0} (h : Host Uuid) → Bool → ListRc → Outcome (Error h) Bool
selection h by_id ListRc.success = ok true
selection h true ListRc.object_id_not_found = ok false
selection h false ListRc.out_of_bounds = ok false
selection h by_id rc = err (core (list_error rc))

module _ (b : Bitflags) (u : UuidCrate) (h : Host u.Uuid) (params : List ℕ) (w : h.World) where
  -- A request that moves the selection, once it has its answer.
  abbrev moved : ListOp → ListRc → ListRc → Outcome (Error h) Bool × h.World
  moved op missing rc =
      after (settled (after (map_err core (list_outcome op rc params), w) (expect b u h list_none)))
        (selected b u h missing)

  moved-previous :
      (rc : ListRc) → moved ListOp.previous ListRc.out_of_bounds rc ≡ (selection h false rc, w)
  unfolding expect selected
  moved-previous ListRc.success = refl
  moved-previous ListRc.operation_not_supported = refl
  moved-previous ListRc.invalid_parameter = refl
  moved-previous ListRc.operation_failed = refl
  moved-previous ListRc.out_of_bounds = refl
  moved-previous ListRc.too_many_objects = refl
  moved-previous ListRc.no_object = refl
  moved-previous ListRc.object_id_not_found = refl

  moved-next : (rc : ListRc) → moved ListOp.next ListRc.out_of_bounds rc ≡ (selection h false rc, w)
  moved-next rc = moved-previous rc

  moved-go_to :
      (rc : ListRc) → moved ListOp.go_to ListRc.object_id_not_found rc ≡ (selection h true rc, w)
  unfolding expect selected
  moved-go_to ListRc.success = refl
  moved-go_to ListRc.operation_not_supported = refl
  moved-go_to ListRc.invalid_parameter = refl
  moved-go_to ListRc.operation_failed = refl
  moved-go_to ListRc.out_of_bounds = refl
  moved-go_to ListRc.too_many_objects = refl
  moved-go_to ListRc.no_object = refl
  moved-go_to ListRc.object_id_not_found = refl

module _ (b : Bitflags) (u : UuidCrate) (h : Host u.Uuid) (c : OtsClient h) (chr : h.CharId)
    (rc : ListRc) (params : List ℕ) (w w' : h.World) where
  list_characteristic-some : c.olcp_chr ≡ some chr → list_characteristic b u h c w ≡ (ok chr, w)
  unfolding list_characteristic
  list_characteristic-some e = rw e refl

  pub list_request-answered :
      (op : ListOp) (req : ListReq)
      → c.olcp_chr ≡ some chr
      → request h c chr (encode_list req) w ≡ (ok (list_bytes op rc params), w')
      → list_request b u h c req w ≡ (map_err core (list_outcome op rc params), w')
  unfolding list_request
  list_request-answered op req e p =
      rw (list_characteristic-some e, p, decode_list-list_bytes op rc params) refl

  -- When a server with the list control point answers a request to step to the previous object
  -- with a result code, stepping gives true on success, false on `OutOfBounds`, and else the list
  -- error of the code.
  pub previous-selection :
      c.olcp_chr ≡ some chr
      → request h c chr (encode_list ListReq.previous) w
        ≡ (ok (list_bytes ListOp.previous rc params), w')
      → previous b u h c w ≡ (selection h false rc, w')
  unfolding previous list_operation operation
  previous-selection e p =
      rw (list_request-answered ListOp.previous ListReq.previous e p)
        (moved-previous b u h params w' rc)

  -- When a server with the list control point answers a request to step to the next object with a
  -- result code, stepping gives true on success, false on `OutOfBounds`, and else the list error of
  -- the code.
  pub next-selection :
      c.olcp_chr ≡ some chr
      → request h c chr (encode_list ListReq.next) w ≡ (ok (list_bytes ListOp.next rc params), w')
      → next b u h c w ≡ (selection h false rc, w')
  unfolding next list_operation operation
  next-selection e p =
      rw (list_request-answered ListOp.next ListReq.next e p) (moved-next b u h params w' rc)

  -- When a server with the list control point and the feature for it answers a request to go to an
  -- object with a result code, going there gives true on success, false on `ObjectIdNotFound`, and
  -- else the list error of the code.
  pub go_to-selection :
      (id : ℕ)
      → b.contains c.list_features list_feature_go_to ≡ true
      → c.olcp_chr ≡ some chr
      → request h c chr (encode_list (ListReq.go_to id)) w
        ≡ (ok (list_bytes ListOp.go_to rc params), w')
      → go_to b u h c id w ≡ (selection h true rc, w')
  unfolding go_to list_operation operation require
  go_to-selection id f e p =
      rw (f, list_request-answered ListOp.go_to (ListReq.go_to id) e p)
        (moved-go_to b u h params w' rc)
