-- ===== src/Core/Responses/Shape.antt =====
-- core/src/types.rs, `ListRes` and `ActionRes`: the decoders on the bytes of a response.
use bluetooth_ots_rs.Base.{
  ℕ, ◌-◌, ◌≡◌, refl, arith, List, [], ◌∷◌, length, ltb, if◌then◌else◌, le→ltb,
}
use bluetooth_ots_rs.Base.Bytes.{from_le_bytes}
use bluetooth_ots_rs.Base.Outcome.{ok, err, ◌>>=◌, ◌>>◌, index, slice_from_within}
use bluetooth_ots_rs.Core.Codes.{
  ListOp, ListRc, ActionOp, ActionRc, list_op_discriminant, list_rc_discriminant,
  action_op_discriminant, action_rc_discriminant,
}
use bluetooth_ots_rs.Core.Tables.{list_op, list_rc, action_op, action_rc}
use bluetooth_ots_rs.Core.Error.{
  Error, Result, not_enough_data, too_many_data, list_error, action_error, check_len,
  check_size_exact,
}
use bluetooth_ots_rs.Core.Opcode.{try_from}
use bluetooth_ots_rs.Core.Opcode.Exact.{
  list_op-IsExact, list_rc-IsExact, action_op-IsExact, action_rc-IsExact,
}
use bluetooth_ots_rs.Core.Responses.{
  ListRes, ActionRes, decode_list, decode_action, read_u32_at_three, number_of_result, list_result,
  action_value, action_result,
}

-- The bytes of a response: the response code, the opcode that is answered, the result, and
-- parameters.
abbrev pub list_bytes : ListOp → ListRc → List ℕ → List ℕ
list_bytes op rc params =
    list_op_discriminant ListOp.response
    ∷ list_op_discriminant op
    ∷ list_rc_discriminant rc
    ∷ params

-- Parameters that hold one 32-bit number and nothing else.
abbrev pub one_u32 {ℓ} : {A : Type ℓ} → (ℕ → A) → List ℕ → Result A
one_u32 f params =
    if ltb (length params) 4
    then err (not_enough_data (length params) 4)
    else if ltb 4 (length params)
    then err (too_many_data (length params) 4)
    else ok (f (from_le_bytes params))

abbrev pub list_outcome : ListOp → ListRc → List ℕ → Result ListRes
list_outcome ListOp.number_of ListRc.success params = one_u32 ListRes.number_of params
list_outcome _ ListRc.success params = ok ListRes.none
list_outcome _ rc params = err (list_error rc)

list_op_back : (op : ListOp) → try_from list_op (list_op_discriminant op) ≡ ok op
list_op_back op = (list_op-IsExact (list_op_discriminant op) op).1 refl

list_rc_back : (rc : ListRc) → try_from list_rc (list_rc_discriminant rc) ≡ ok rc
list_rc_back rc = (list_rc-IsExact (list_rc_discriminant rc) rc).1 refl

u32_outcome :
    (a b c : ℕ) (params : List ℕ) {A : Type 0} (f : ℕ → A)
    → (do
      check_size_exact 4 (length (a ∷ b ∷ c ∷ params) - 3)
      n ← read_u32_at_three (a ∷ b ∷ c ∷ params)
      ok (f n))
      ≡ one_u32 f params
unfolding check_size_exact read_u32_at_three
u32_outcome a b c [] f = refl
u32_outcome a b c (_ ∷ []) f = refl
u32_outcome a b c (_ ∷ _ ∷ []) f = refl
u32_outcome a b c (_ ∷ _ ∷ _ ∷ []) f = refl
u32_outcome a b c (_ ∷ _ ∷ _ ∷ _ ∷ []) f = refl
u32_outcome a b c (_ ∷ _ ∷ _ ∷ _ ∷ _ ∷ r) f = ground arith

module _ (params : List ℕ) where
  list_value :
      (op : ListOp)
      → number_of_result (list_bytes op ListRc.success params) op
        ≡ list_outcome op ListRc.success params
  unfolding number_of_result
  list_value ListOp.number_of = u32_outcome _ _ _ params ListRes.number_of
  list_value _ = refl

  list_result_lem :
      (op : ListOp) (rc : ListRc)
      → list_result (list_bytes op rc params) rc ≡ list_outcome op rc params
  unfolding list_result index
  list_result_lem op ListRc.success = rw (list_op_back op) (list_value op)
  list_result_lem ListOp.number_of _ = refl
  list_result_lem _ _ = refl

-- A response to the request `op` with the result `rc` is decoded, in every case, to what the
-- result and the parameters say.
pub decode_list-list_bytes :
    (op : ListOp) (rc : ListRc) (params : List ℕ)
    → decode_list (list_bytes op rc params) ≡ list_outcome op rc params
unfolding decode_list check_len index
decode_list-list_bytes op rc params =
    rw
      (
        le→ltb (length (list_bytes op rc params)) 3 (omega arith),
        list_op_back ListOp.response,
        list_rc_back rc,
      )
      (list_result_lem params op rc)

abbrev pub action_bytes : ActionOp → ActionRc → List ℕ → List ℕ
action_bytes op rc params =
    action_op_discriminant ActionOp.response
    ∷ action_op_discriminant op
    ∷ action_rc_discriminant rc
    ∷ params

abbrev pub action_outcome : ActionOp → ActionRc → List ℕ → Result ActionRes
action_outcome ActionOp.check_sum ActionRc.success params = one_u32 ActionRes.check_sum params
action_outcome ActionOp.execute ActionRc.success params = ok (ActionRes.execute params)
action_outcome _ ActionRc.success params = ok ActionRes.none
action_outcome _ rc params = err (action_error rc)

action_op_back : (op : ActionOp) → try_from action_op (action_op_discriminant op) ≡ ok op
action_op_back op = (action_op-IsExact (action_op_discriminant op) op).1 refl

action_rc_back : (rc : ActionRc) → try_from action_rc (action_rc_discriminant rc) ≡ ok rc
action_rc_back rc = (action_rc-IsExact (action_rc_discriminant rc) rc).1 refl

module _ (params : List ℕ) where
  action_value_lem :
      (op : ActionOp)
      → action_value (action_bytes op ActionRc.success params) op
        ≡ action_outcome op ActionRc.success params
  unfolding action_value
  action_value_lem ActionOp.check_sum = u32_outcome _ _ _ params ActionRes.check_sum
  action_value_lem ActionOp.execute = rw (
      slice_from_within {E = Error} 3 (action_bytes ActionOp.execute ActionRc.success params)
        (omega arith))
  action_value_lem _ = refl

  action_result_lem :
      (op : ActionOp) (rc : ActionRc)
      → action_result (action_bytes op rc params) rc ≡ action_outcome op rc params
  unfolding action_result index
  action_result_lem op ActionRc.success = rw (action_op_back op) (action_value_lem op)
  action_result_lem ActionOp.check_sum _ = refl
  action_result_lem ActionOp.execute _ = refl
  action_result_lem _ _ = refl

-- A response to the request `op` with the result `rc` is decoded, in every case, to what the
-- result and the parameters say.
pub decode_action-action_bytes :
    (op : ActionOp) (rc : ActionRc) (params : List ℕ)
    → decode_action (action_bytes op rc params) ≡ action_outcome op rc params
unfolding decode_action check_len index
decode_action-action_bytes op rc params =
    rw
      (
        le→ltb (length (action_bytes op rc params)) 3 (omega arith),
        action_op_back ActionOp.response,
        action_rc_back rc,
      )
      (action_result_lem params op rc)
