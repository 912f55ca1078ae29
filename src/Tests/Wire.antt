-- ===== src/Tests/Wire.antt =====
-- The theorems on the core crate, applied to bytes as they go over the air.
use bluetooth_ots_rs.Base.{ℕ, ◌+◌, ◌*◌, ◌^◌, ◌≡◌, ◌↔◌, arith, false, some, List, [], ◌∷◌, replicate}
use bluetooth_ots_rs.Base.Bytes.{to_le_bytes}
use bluetooth_ots_rs.Base.Outcome.{ok, Returns}
use bluetooth_ots_rs.Core.Flags.{action_feature, list_feature, property, try_from_slice, display}
use bluetooth_ots_rs.Core.Flags.Laws.{
  flags_outcome, set_texts, unwords, try_from_slice-flags, display-unwords,
}
use bluetooth_ots_rs.Core.L2cap.{AddressType, L2capSockAddr, to_sockaddr, from_sockaddr}
use bluetooth_ots_rs.Core.L2cap.RoundTrip.{from_sockaddr-to_sockaddr}
use bluetooth_ots_rs.Core.Opcode.Exact.{IsDecoder, try_from-IsDecoder}
use bluetooth_ots_rs.Core.Requests.{ListReq, ActionReq, encode_list, encode_action}
use bluetooth_ots_rs.Core.Requests.RoundTrip.{
  parse_list-encode_list, encode_list-go_to_wrap, parse_action-encode_action,
}
use bluetooth_ots_rs.Core.Requests.Server.{parse_list, parse_action}
use bluetooth_ots_rs.Core.Responses.{ListRes, ActionRes, decode_list, decode_action}
use bluetooth_ots_rs.Core.Responses.Accept.{
  IsListResponse, IsActionResponse, decode_list_iff, decode_action_iff,
}
use bluetooth_ots_rs.Core.Responses.Total.{decode-Returns}
use bluetooth_ots_rs.Core.Tables.{sort_order, list_op, list_rc, action_op, action_rc}
use bluetooth_ots_rs.Core.Uuids.{uuid_from_raw}
use bluetooth_ots_rs.Core.Uuids.Agree.{full_form, uuid_from_raw-full_form}
use bluetooth_ots_rs.Tests.Instances.{bits, uuids, length-uuid_bytes, uuid_bytes}

try_from-IsDecoder_example :
    IsDecoder sort_order 0x10
    × IsDecoder list_op 0x10
    × IsDecoder list_rc 0x10
    × IsDecoder action_op 0x10
    × IsDecoder action_rc 0x10
try_from-IsDecoder_example = try_from-IsDecoder 0x10

parse_list-encode_list_example :
    parse_list (encode_list (ListReq.go_to 0x10203)) ≡ some (ListReq.go_to 0x10203)
parse_list-encode_list_example = parse_list-encode_list (ListReq.go_to 0x10203) (omega arith)

encode_list-go_to_wrap_example :
    encode_list (ListReq.go_to (5 + 1 * 2 ^ 48)) ≡ encode_list (ListReq.go_to 5)
encode_list-go_to_wrap_example = encode_list-go_to_wrap 5 1

parse_action-encode_action_example :
    parse_action (encode_action uuid_bytes (ActionReq.create 16 0x2ACA))
    ≡ some (ActionReq.create 16 (0xCA ∷ 0x2A ∷ replicate 14 0))
unfolding to_le_bytes
parse_action-encode_action_example =
    parse_action-encode_action uuid_bytes length-uuid_bytes (ActionReq.create 16 0x2ACA)
      (omega arith)

decode-Returns_example :
    Returns (decode_list (0x70 ∷ 7 ∷ 1 ∷ 9 ∷ [])) × Returns (decode_action (0x70 ∷ 7 ∷ 1 ∷ 9 ∷ []))
decode-Returns_example = decode-Returns (0x70 ∷ 7 ∷ 1 ∷ 9 ∷ [])

decode_list_iff_example :
    (decode_list (0x70 ∷ 1 ∷ 1 ∷ []) ≡ ok ListRes.none)
    ↔ IsListResponse (0x70 ∷ 1 ∷ 1 ∷ []) ListRes.none
decode_list_iff_example = decode_list_iff (0x70 ∷ 1 ∷ 1 ∷ []) ListRes.none

decode_action_iff_example :
    (decode_action (0x60 ∷ 2 ∷ 1 ∷ []) ≡ ok ActionRes.none)
    ↔ IsActionResponse (0x60 ∷ 2 ∷ 1 ∷ []) ActionRes.none
decode_action_iff_example = decode_action_iff (0x60 ∷ 2 ∷ 1 ∷ []) ActionRes.none

try_from_slice-flags_example :
    (try_from_slice bits action_feature (0x31 ∷ 2 ∷ 0 ∷ 0 ∷ [])
      ≡ flags_outcome action_feature 10 (0x31 ∷ 2 ∷ 0 ∷ 0 ∷ []))
    × (try_from_slice bits list_feature (0x31 ∷ 2 ∷ 0 ∷ 0 ∷ [])
        ≡ flags_outcome list_feature 4 (0x31 ∷ 2 ∷ 0 ∷ 0 ∷ []))
    × (try_from_slice bits property (0x31 ∷ 2 ∷ 0 ∷ 0 ∷ [])
        ≡ flags_outcome property 8 (0x31 ∷ 2 ∷ 0 ∷ 0 ∷ []))
try_from_slice-flags_example = try_from_slice-flags bits (0x31 ∷ 2 ∷ 0 ∷ 0 ∷ [])

display-unwords_example : display bits property 5 ≡ unwords (set_texts bits property.flags 5)
display-unwords_example = display-unwords bits property 5

uuid_from_raw-full_form_example :
    (uuid_from_raw uuids (0xbe ∷ 0x2a ∷ []) ≡ uuid_from_raw uuids (full_form 0xbe 0x2a 0 0))
    × (uuid_from_raw uuids (0xbe ∷ 0x2a ∷ 1 ∷ 2 ∷ [])
        ≡ uuid_from_raw uuids (full_form 0xbe 0x2a 1 2))
uuid_from_raw-full_form_example =
    uuid_from_raw-full_form uuids 0xbe 0x2a 1 2 (omega arith) (omega arith) (omega arith)
      (omega arith)

abbrev two_sizes : List ℕ
two_sizes = 1 ∷ 0 ∷ 0 ∷ 0 ∷ 2 ∷ 0 ∷ 0 ∷ 0 ∷ []

abbrev peer : L2capSockAddr
peer = record { addr = 1 ∷ 2 ∷ 3 ∷ 4 ∷ 5 ∷ 6 ∷ []; type_ = AddressType.random; psm = 0x25; cid = 0 }

from_sockaddr-to_sockaddr_example :
    from_sockaddr 31 false (to_sockaddr 31 false peer) ≡ ok (record peer { psm = 0x2500 })
from_sockaddr-to_sockaddr_example = from_sockaddr-to_sockaddr 31 false peer
