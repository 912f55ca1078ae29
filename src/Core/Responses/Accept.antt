-- ===== src/Core/Responses/Accept.antt =====
-- core/src/types.rs, `ListRes` and `ActionRes`: which bytes the decoders take.
use bluetooth_ots_rs.Base.{ℕ, ◌≡◌, refl, sym, ap, ◌∙◌, arith, ◌↔◌, List, [], ◌∷◌, length, le→ltb}
use bluetooth_ots_rs.Base.Outcome.{ok, ◌>>=◌, >>=-both, index}
use bluetooth_ots_rs.Core.Codes.{
  ListOp, ListRc, ActionOp, ActionRc, list_op_discriminant, list_rc_discriminant,
  action_op_discriminant, action_rc_discriminant,
}
use bluetooth_ots_rs.Core.Tables.{list_op, list_rc, action_op, action_rc}
use bluetooth_ots_rs.Core.Error.{check_len}
use bluetooth_ots_rs.Core.Opcode.{try_from}
use bluetooth_ots_rs.Core.Opcode.Exact.{
  list_op-IsExact, list_rc-IsExact, action_op-IsExact, action_rc-IsExact,
}
use bluetooth_ots_rs.Core.Responses.{
  ListRes, ActionRes, decode_list, decode_action, list_result, list_response, action_result,
  action_response,
}
use bluetooth_ots_rs.Core.Responses.Shape.{
  list_bytes, list_outcome, decode_list-list_bytes, action_bytes, action_outcome,
  decode_action-action_bytes,
}

-- What the list decoder accepts: a successful response, with the parameters that its value needs.
abbrev pub IsListResponse : List ℕ → ListRes → Type 0
IsListResponse raw res =
    (op : ListOp) × (params : List ℕ) × (raw ≡ list_bytes op ListRc.success params)
    × (list_outcome op ListRc.success params ≡ ok res)

module _ (a b c : ℕ) (params : List ℕ) (res : ListRes) where
  list_result_shape :
      (rc : ListRc)
      → list_result (a ∷ b ∷ c ∷ params) rc ≡ ok res
      → (rc ≡ ListRc.success) × ((op : ListOp) × (try_from list_op b ≡ ok op))
  unfolding list_result index
  list_result_shape ListRc.success h =
      let (op, e, _) = >>=-both (try_from list_op b) _ h in (refl, (op, e))
  list_result_shape _ h = cc

  list_response_shape :
      (op : ListOp)
      → list_response (a ∷ b ∷ c ∷ params) op ≡ ok res
      → (op ≡ ListOp.response)
        × (try_from list_rc c ≡ ok ListRc.success)
        × ((op : ListOp) × (try_from list_op b ≡ ok op))
  unfolding list_response index
  list_response_shape ListOp.response h =
      let (rc, e, k) = >>=-both (try_from list_rc c) _ h in
      let (s, t) = list_result_shape rc k in (refl, e ∙ ap ok s, t)
  list_response_shape _ h = cc

decode_list_steps :
    (a b c : ℕ) (params : List ℕ)
    → decode_list (a ∷ b ∷ c ∷ params) ≡ (try_from list_op a >>= list_response (a ∷ b ∷ c ∷ params))
unfolding decode_list check_len index
decode_list_steps a b c params = rw (le→ltb (length (a ∷ b ∷ c ∷ params)) 3 (omega arith))

decode_list_head :
    (a b c : ℕ) (params : List ℕ) (res : ListRes)
    → decode_list (a ∷ b ∷ c ∷ params) ≡ ok res
    → (op : ListOp) × (◌≡◌ {A = List ℕ} (a ∷ b ∷ c ∷ params) (list_bytes op ListRc.success params))
decode_list_head a b c params res h =
    let (op, e, k) =
      >>=-both (try_from list_op a) (list_response (a ∷ b ∷ c ∷ params))
        (sym (decode_list_steps a b c params) ∙ h) in
    let (s, t, u) = list_response_shape a b c params res op k in
    let first : list_op_discriminant ListOp.response ≡ a =
      (list_op-IsExact a ListOp.response).0 (e ∙ ap ok s) in
    let second : list_op_discriminant u.0 ≡ b = (list_op-IsExact b u.0).0 u.1 in
    let third : list_rc_discriminant ListRc.success ≡ c = (list_rc-IsExact c ListRc.success).0 t in
    (u.0, cc)

decode_list_shape :
    (raw : List ℕ) (res : ListRes) → decode_list raw ≡ ok res → IsListResponse raw res
decode_list_shape [] res h = unfold decode_list check_len in cc
decode_list_shape (_ ∷ []) res h = unfold decode_list check_len in cc
decode_list_shape (_ ∷ _ ∷ []) res h = unfold decode_list check_len in cc
decode_list_shape (a ∷ b ∷ c ∷ params) res h =
    let (op, e) = decode_list_head a b c params res h in
    (
      op,
      params,
      e,
      sym (decode_list-list_bytes op ListRc.success params) ∙ ap decode_list (sym e) ∙ h,
    )

-- A byte string is decoded to a value if and only if it is a successful response whose parameters
-- give that value.
pub decode_list_iff :
    (raw : List ℕ) (res : ListRes) → (decode_list raw ≡ ok res) ↔ IsListResponse raw res
decode_list_iff raw res = (
  decode_list_shape raw res,
  λ (op, params, e, o). ap decode_list e ∙ decode_list-list_bytes op ListRc.success params ∙ o,
)

-- What the action decoder accepts: a successful response, with the parameters that its value needs.
abbrev pub IsActionResponse : List ℕ → ActionRes → Type 0
IsActionResponse raw res =
    (op : ActionOp) × (params : List ℕ) × (raw ≡ action_bytes op ActionRc.success params)
    × (action_outcome op ActionRc.success params ≡ ok res)

module _ (a b c : ℕ) (params : List ℕ) (res : ActionRes) where
  action_result_shape :
      (rc : ActionRc)
      → action_result (a ∷ b ∷ c ∷ params) rc ≡ ok res
      → (rc ≡ ActionRc.success) × ((op : ActionOp) × (try_from action_op b ≡ ok op))
  unfolding action_result index
  action_result_shape ActionRc.success h =
      let (op, e, _) = >>=-both (try_from action_op b) _ h in (refl, (op, e))
  action_result_shape _ h = cc

  action_response_shape :
      (op : ActionOp)
      → action_response (a ∷ b ∷ c ∷ params) op ≡ ok res
      → (op ≡ ActionOp.response)
        × (try_from action_rc c ≡ ok ActionRc.success)
        × ((op : ActionOp) × (try_from action_op b ≡ ok op))
  unfolding action_response index
  action_response_shape ActionOp.response h =
      let (rc, e, k) = >>=-both (try_from action_rc c) _ h in
      let (s, t) = action_result_shape rc k in (refl, e ∙ ap ok s, t)
  action_response_shape _ h = cc

decode_action_steps :
    (a b c : ℕ) (params : List ℕ)
    → decode_action (a ∷ b ∷ c ∷ params)
      ≡ (try_from action_op a >>= action_response (a ∷ b ∷ c ∷ params))
unfolding decode_action check_len index
decode_action_steps a b c params = rw (le→ltb (length (a ∷ b ∷ c ∷ params)) 3 (omega arith))

decode_action_head :
    (a b c : ℕ) (params : List ℕ) (res : ActionRes)
    → decode_action (a ∷ b ∷ c ∷ params) ≡ ok res
    → (op : ActionOp) × (◌≡◌ {A = List ℕ}
        (a ∷ b ∷ c ∷ params)
        (action_bytes op ActionRc.success params))
decode_action_head a b c params res h =
    let (op, e, k) =
      >>=-both (try_from action_op a) (action_response (a ∷ b ∷ c ∷ params))
        (sym (decode_action_steps a b c params) ∙ h) in
    let (s, t, u) = action_response_shape a b c params res op k in
    let first : action_op_discriminant ActionOp.response ≡ a =
      (action_op-IsExact a ActionOp.response).0 (e ∙ ap ok s) in
    let second : action_op_discriminant u.0 ≡ b = (action_op-IsExact b u.0).0 u.1 in
    let third : action_rc_discriminant ActionRc.success ≡ c =
      (action_rc-IsExact c ActionRc.success).0 t in
    (u.0, cc)

decode_action_shape :
    (raw : List ℕ) (res : ActionRes) → decode_action raw ≡ ok res → IsActionResponse raw res
decode_action_shape [] res h = unfold decode_action check_len in cc
decode_action_shape (_ ∷ []) res h = unfold decode_action check_len in cc
decode_action_shape (_ ∷ _ ∷ []) res h = unfold decode_action check_len in cc
decode_action_shape (a ∷ b ∷ c ∷ params) res h =
    let (op, e) = decode_action_head a b c params res h in
    (
      op,
      params,
      e,
      sym (decode_action-action_bytes op ActionRc.success params) ∙ ap decode_action (sym e) ∙ h,
    )

-- A byte string is decoded to a value if and only if it is a successful response whose parameters
-- give that value.
pub decode_action_iff :
    (raw : List ℕ) (res : ActionRes) → (decode_action raw ≡ ok res) ↔ IsActionResponse raw res
decode_action_iff raw res = (
  decode_action_shape raw res,
  λ (op, params, e, o).
      ap decode_action e ∙ decode_action-action_bytes op ActionRc.success params ∙ o,
)
