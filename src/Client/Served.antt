-- ===== src/Client/Served.antt =====
-- A server of the list control point as the service specification describes it, and a host behind
-- which such a server stands.
pub mod Exchange
pub mod Moves
use bluetooth_ots_rs.Base.{
  ℕ, suc, ◌+◌, ◌-◌, ◌<◌, ◌≡◌, Bool, Option, none, some, List, [], ◌∷◌, inr, length, get_elem?, ltb,
  ◌==◌, if◌then◌else◌,
}
use bluetooth_ots_rs.Base.Bytes.{to_le_bytes}
use bluetooth_ots_rs.Client.Host.{Host}
use bluetooth_ots_rs.Client.State.{OtsClient, first_value}
use bluetooth_ots_rs.Core.Codes.{ListOp, ListRc}
use bluetooth_ots_rs.Core.Requests.{ListReq, encode_list}
use bluetooth_ots_rs.Core.Requests.Server.{parse_list}
use bluetooth_ots_rs.Core.Responses.Shape.{list_bytes}

pub record Object : Type 0 where
  pub id : ℕ
  pub name : List ℕ

-- The list of objects and the place of the current one.
pub record Server : Type 0 where
  pub objects : List Object
  pub cursor : ℕ

-- The place of the object with the identifier, or the length of the list.
abbrev pub place_of : ℕ → List Object → ℕ
place_of id [] = 0
place_of id (o ∷ os) = if o.id == id then 0 else suc (place_of id os)

-- The object at a place becomes the current one, if it is there.
abbrev pub move : Server → ℕ → ListRc → ListRc × Server
move s place missing =
    if ltb place (length s.objects)
    then (ListRc.success, record s { cursor = place })
    else (missing, s)

abbrev pub op_of : ListReq → ListOp
op_of ListReq.first = ListOp.first
op_of ListReq.last = ListOp.last
op_of ListReq.previous = ListOp.previous
op_of ListReq.next = ListOp.next
op_of (ListReq.go_to id) = ListOp.go_to
op_of (ListReq.order sort) = ListOp.order
op_of ListReq.number_of = ListOp.number_of
op_of ListReq.clear_mark = ListOp.clear_mark

-- The result of a request, and the server behind it. The server neither sorts nor marks.
abbrev pub serve : ListReq → Server → ListRc × Server
serve ListReq.first s = move s 0 ListRc.no_object
serve ListReq.last s = move s (length s.objects - 1) ListRc.no_object
serve ListReq.previous s =
    move s (if s.cursor == 0 then length s.objects else s.cursor - 1) ListRc.out_of_bounds
serve ListReq.next s = move s (s.cursor + 1) ListRc.out_of_bounds
serve (ListReq.go_to id) s = move s (place_of id s.objects) ListRc.object_id_not_found
serve (ListReq.order sort) s = (ListRc.operation_not_supported, s)
serve ListReq.number_of s = (ListRc.success, s)
serve ListReq.clear_mark s = (ListRc.operation_not_supported, s)

abbrev pub params : ListReq → Server → List ℕ
params ListReq.number_of s = to_le_bytes 4 (length s.objects)
params _ s = []

abbrev pub response : ListReq → Server → List ℕ
response r s = list_bytes (op_of r) (serve r s).0 (params r s)

-- The server stands behind the host: a request that is written to the control point is served, and
-- its response is the next value of the control point. All else that an exchange calls succeeds and
-- leaves the server alone, and so does reading the name of the current object.
pub record Serves {Uuid : Type 0} (h : Host Uuid) (c : OtsClient h) (chr : h.CharId) : Type 0 where
  pub view : h.World → Server
  pub stream : h.World → h.Stream
  pub after_start : h.World → h.World
  pub after_stream : h.World → h.World
  pub after_write : List ℕ → h.World → h.World
  pub after_events : h.Stream → h.World → h.World
  pub after_stop : h.World → h.World
  pub after_name : h.World → h.World
  pub starts : (w : h.World) → h.start_notify chr w ≡ (inr tt, after_start w)
  pub start_view : (w : h.World) → view (after_start w) ≡ view w
  pub streams :
      (w : h.World) → h.device_event_stream c.device_id w ≡ (inr (stream w), after_stream w)
  pub stream_view : (w : h.World) → view (after_stream w) ≡ view w
  pub writes :
      (bytes : List ℕ) (w : h.World)
      → h.write_characteristic_value chr bytes w ≡ (inr tt, after_write bytes w)
  pub write_view :
      (bytes : List ℕ) (r : ListReq) (w : h.World)
      → parse_list bytes ≡ some r
      → view (after_write bytes w) ≡ (serve r (view w)).1
  pub responds :
      (s : h.Stream) (bytes : List ℕ) (r : ListReq) (w : h.World)
      → parse_list bytes ≡ some r
      → first_value h chr (h.events_until_deadline s (after_write bytes w)).0
        ≡ some (response r (view w))
  pub events_world :
      (s : h.Stream) (w : h.World) → (h.events_until_deadline s w).1 ≡ after_events s w
  pub events_view : (s : h.Stream) (w : h.World) → view (after_events s w) ≡ view w
  pub stops : (w : h.World) → h.stop_notify chr w ≡ (inr tt, after_stop w)
  pub stop_view : (w : h.World) → view (after_stop w) ≡ view w
  pub names :
      (w : h.World) (o : Object)
      → get_elem? (view w).objects (view w).cursor ≡ some o
      → h.read_characteristic_value c.name_chr w ≡ (inr o.name, after_name w)
  pub name_view : (w : h.World) → view (after_name w) ≡ view w
