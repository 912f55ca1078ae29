-- ===== src/Core/Responses/Total.antt =====
-- core/src/types.rs, `ListRes` and `ActionRes`: the decoders on arbitrary bytes.
use bluetooth_ots_rs.Base.{ℕ, ◌-◌, arith, List, [], ◌∷◌, length, le→ltb}
use bluetooth_ots_rs.Base.Outcome.{ok, Returns, ◌>>=◌, ◌>>◌, >>=-Returns, index, slice_from}
use bluetooth_ots_rs.Core.Codes.{ListOp, ListRc, ActionOp, ActionRc}
use bluetooth_ots_rs.Core.Tables.{list_op, list_rc, action_op, action_rc}
use bluetooth_ots_rs.Core.Error.{check_len, check_size_exact}
use bluetooth_ots_rs.Core.Opcode.{try_from}
use bluetooth_ots_rs.Core.Opcode.Exact.{
  list_op-Returns, list_rc-Returns, action_op-Returns, action_rc-Returns,
}
use bluetooth_ots_rs.Core.Responses.{
  ListRes, ActionRes, decode_list, decode_action, read_u32_at_three, number_of_result, list_result,
  list_response, action_value, action_result, action_response,
}

u32-Returns :
    (a b c : ℕ) (params : List ℕ) {A : Type 0} (f : ℕ → A)
    → Returns (do
      check_size_exact 4 (length (a ∷ b ∷ c ∷ params) - 3)
      n ← read_u32_at_three (a ∷ b ∷ c ∷ params)
      ok (f n))
unfolding check_size_exact read_u32_at_three
u32-Returns a b c params f = ground arith

module _ (a b c : ℕ) (params : List ℕ) where
  number_of-Returns : (op : ListOp) → Returns (number_of_result (a ∷ b ∷ c ∷ params) op)
  unfolding number_of_result
  number_of-Returns ListOp.number_of = u32-Returns a b c params ListRes.number_of
  number_of-Returns _ = tt

  list_result-Returns : (rc : ListRc) → Returns (list_result (a ∷ b ∷ c ∷ params) rc)
  unfolding list_result index
  list_result-Returns ListRc.success =
      >>=-Returns (try_from list_op b) _ (list_op-Returns b) (λ op _. number_of-Returns op)
  list_result-Returns _ = tt

  list_response-Returns : (op : ListOp) → Returns (list_response (a ∷ b ∷ c ∷ params) op)
  unfolding list_response index
  list_response-Returns ListOp.response =
      >>=-Returns (try_from list_rc c) _ (list_rc-Returns c) (λ rc _. list_result-Returns rc)
  list_response-Returns _ = tt

  action_value-Returns : (op : ActionOp) → Returns (action_value (a ∷ b ∷ c ∷ params) op)
  unfolding action_value slice_from
  action_value-Returns ActionOp.check_sum = u32-Returns a b c params ActionRes.check_sum
  action_value-Returns ActionOp.execute = ground arith
  action_value-Returns _ = tt

  action_result-Returns : (rc : ActionRc) → Returns (action_result (a ∷ b ∷ c ∷ params) rc)
  unfolding action_result index
  action_result-Returns ActionRc.success =
      >>=-Returns (try_from action_op b) _ (action_op-Returns b) (λ op _. action_value-Returns op)
  action_result-Returns _ = tt

  action_response-Returns : (op : ActionOp) → Returns (action_response (a ∷ b ∷ c ∷ params) op)
  unfolding action_response index
  action_response-Returns ActionOp.response =
      >>=-Returns (try_from action_rc c) _ (action_rc-Returns c) (λ rc _. action_result-Returns rc)
  action_response-Returns _ = tt

decode_list-Returns : (raw : List ℕ) → Returns (decode_list raw)
unfolding decode_list check_len index
decode_list-Returns [] = tt
decode_list-Returns (_ ∷ []) = tt
decode_list-Returns (_ ∷ _ ∷ []) = tt
decode_list-Returns (a ∷ b ∷ c ∷ params) =
    rw (le→ltb (length (a ∷ b ∷ c ∷ params)) 3 (omega arith)) (
      >>=-Returns (try_from list_op a) _ (list_op-Returns a)
        (λ op _. list_response-Returns a b c params op))

decode_action-Returns : (raw : List ℕ) → Returns (decode_action raw)
unfolding decode_action check_len index
decode_action-Returns [] = tt
decode_action-Returns (_ ∷ []) = tt
decode_action-Returns (_ ∷ _ ∷ []) = tt
decode_action-Returns (a ∷ b ∷ c ∷ params) =
    rw (le→ltb (length (a ∷ b ∷ c ∷ params)) 3 (omega arith)) (
      >>=-Returns (try_from action_op a) _ (action_op-Returns a)
        (λ op _. action_response-Returns a b c params op))

-- On every byte string both decoders return: no index, slice or cast goes wrong.
pub decode-Returns : (raw : List ℕ) → Returns (decode_list raw) × Returns (decode_action raw)
decode-Returns raw = (decode_list-Returns raw, decode_action-Returns raw)
