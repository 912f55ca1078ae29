-- ===== src/Core/Requests/Server.antt =====
-- What a server reads: the requests of the control points as the service specification lays them
-- out, an opcode and parameters of fixed widths, lowest byte first.
use bluetooth_ots_rs.Base.{ℕ, Option, none, some, List, [], ◌∷◌, length, reverse, take, drop}
use bluetooth_ots_rs.Base.{◌==◌, if◌then◌else◌}
use bluetooth_ots_rs.Base.Bytes.{from_le_bytes}
use bluetooth_ots_rs.Core.Codes.{SortOrder}
use bluetooth_ots_rs.Core.Requests.{ListReq, ActionReq}

abbrev sort_of : ℕ → Option SortOrder
sort_of n =
    if n == 0x01
    then some SortOrder.name_asc
    else if n == 0x02
    then some SortOrder.type_asc
    else if n == 0x03
    then some SortOrder.cur_size_asc
    else if n == 0x04
    then some SortOrder.crt_time_asc
    else if n == 0x05
    then some SortOrder.mod_time_asc
    else if n == 0x11
    then some SortOrder.name_desc
    else if n == 0x12
    then some SortOrder.type_desc
    else if n == 0x13
    then some SortOrder.cur_size_desc
    else if n == 0x14
    then some SortOrder.crt_time_desc
    else if n == 0x15
    then some SortOrder.mod_time_desc
    else none

order_request : List ℕ → Option ListReq
order_request (n ∷ []) = elim (sort_of n) [ none ↦ none | some s ↦ some (ListReq.order s) ]
order_request _ = none

plain_request : List ℕ → ListReq → Option ListReq
plain_request [] r = some r
plain_request (_ ∷ _) r = none

unfoldable pub parse_list : List ℕ → Option ListReq
unfolding plain_request order_request
parse_list [] = none
parse_list (op ∷ params) =
    if op == 0x01
    then plain_request params ListReq.first
    else if op == 0x02
    then plain_request params ListReq.last
    else if op == 0x03
    then plain_request params ListReq.previous
    else if op == 0x04
    then plain_request params ListReq.next
    else if op == 0x05
    then (if length params == 6 then some (ListReq.go_to (from_le_bytes params)) else none)
    else if op == 0x06
    then order_request params
    else if op == 0x07
    then plain_request params ListReq.number_of
    else if op == 0x08
    then plain_request params ListReq.clear_mark
    else none

-- Two numbers of four bytes each.
abbrev pub first_four : List ℕ → ℕ
first_four params = from_le_bytes (take 4 params)

abbrev pub second_four : List ℕ → ℕ
second_four params = from_le_bytes (take 4 (drop 4 params))

module _ {Uuid : Type 0} where
  plain_action : List ℕ → ActionReq Uuid → Option (ActionReq Uuid)
  plain_action [] r = some r
  plain_action (_ ∷ _) r = none

  mode_request : ℕ → ℕ → List ℕ → Option (ActionReq Uuid)
  mode_request offset length (mode ∷ []) = some (ActionReq.write offset length mode)
  mode_request offset length _ = none

-- The type of a new object has sixteen bytes, which come lowest first like any other value. They are
-- given highest first, as a UUID is written.
unfoldable pub parse_action : List ℕ → Option (ActionReq (List ℕ))
unfolding plain_action mode_request
parse_action [] = none
parse_action (op ∷ params) =
    if op == 0x01
    then (if length params == 20
        then some (ActionReq.create (first_four params) (reverse (drop 4 params)))
        else none)
    else if op == 0x02
    then plain_action params ActionReq.delete
    else if op == 0x03
    then (if length params == 8
        then some (ActionReq.check_sum (first_four params) (second_four params))
        else none)
    else if op == 0x04
    then some (ActionReq.execute params)
    else if op == 0x05
    then (if length params == 8
        then some (ActionReq.read (first_four params) (second_four params))
        else none)
    else if op == 0x06
    then mode_request (first_four params) (second_four params) (drop 8 params)
    else if op == 0x07
    then plain_action params ActionReq.abort
    else none
