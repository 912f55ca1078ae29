-- ===== src/Core/Responses.antt =====
-- core/src/types.rs: `ListRes` and `ActionRes`, decoded from a response of the server.
pub mod Shape
pub mod Total
pub mod Accept
use bluetooth_ots_rs.Base.{ℕ, ◌-◌, List, drop, take, length}
use bluetooth_ots_rs.Base.Bytes.{from_le_bytes}
use bluetooth_ots_rs.Base.Outcome.{ok, err, ◌>>=◌, ◌>>◌, index, split_at, slice_from}
use bluetooth_ots_rs.Core.Codes.{ListOp, ListRc, ActionOp, ActionRc}
use bluetooth_ots_rs.Core.Tables.{list_op, list_rc, action_op, action_rc}
use bluetooth_ots_rs.Core.Error.{
  Result, bad_response, list_error, action_error, check_len, check_size_exact,
}
use bluetooth_ots_rs.Core.Opcode.{try_from}

pub data ListRes : Type 0 where
  none : ListRes
  number_of : (count : ℕ) → ListRes

-- `u32::from_le_bytes(*raw[3..].as_ref().split_array_ref_().0)`
unfoldable pub read_u32_at_three : List ℕ → Result ℕ
unfolding slice_from split_at
read_u32_at_three raw = do
  tail ← slice_from 3 raw
  (bytes, _) ← split_at 4 tail
  ok (from_le_bytes bytes)

-- The length is 3 at least where 3 is taken from it, so that cannot overflow.
number_of_result : List ℕ → ListOp → Result ListRes
number_of_result raw ListOp.number_of = do
  check_size_exact 4 (length raw - 3)
  count ← read_u32_at_three raw
  ok (ListRes.number_of count)
number_of_result raw _ = ok ListRes.none

list_result : List ℕ → ListRc → Result ListRes
list_result raw ListRc.success = do
  op ← index raw 1
  code ← try_from list_op op
  number_of_result raw code
list_result raw rc = err (list_error rc)

list_response : List ℕ → ListOp → Result ListRes
list_response raw ListOp.response = do
  rc ← index raw 2
  code ← try_from list_rc rc
  list_result raw code
list_response raw _ = err bad_response

-- `TryFrom<&[u8]> for ListRes`
unfoldable pub decode_list : List ℕ → Result ListRes
unfolding list_response list_result number_of_result
decode_list raw = do
  check_len (length raw) 3
  op ← index raw 0
  code ← try_from list_op op
  list_response raw code

pub data ActionRes : Type 0 where
  none : ActionRes
  check_sum : (value : ℕ) → ActionRes
  execute : (param : List ℕ) → ActionRes

action_value : List ℕ → ActionOp → Result ActionRes
action_value raw ActionOp.check_sum = do
  check_size_exact 4 (length raw - 3)
  value ← read_u32_at_three raw
  ok (ActionRes.check_sum value)
action_value raw ActionOp.execute = do param ← slice_from 3 raw; ok (ActionRes.execute param)
action_value raw _ = ok ActionRes.none

action_result : List ℕ → ActionRc → Result ActionRes
action_result raw ActionRc.success = do
  op ← index raw 1
  code ← try_from action_op op
  action_value raw code
action_result raw rc = err (action_error rc)

action_response : List ℕ → ActionOp → Result ActionRes
action_response raw ActionOp.response = do
  rc ← index raw 2
  code ← try_from action_rc rc
  action_result raw code
action_response raw _ = err bad_response

-- `TryFrom<&[u8]> for ActionRes`
unfoldable pub decode_action : List ℕ → Result ActionRes
unfolding action_response action_result action_value
decode_action raw = do
  check_len (length raw) 3
  op ← index raw 0
  code ← try_from action_op op
  action_response raw code
