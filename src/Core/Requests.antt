-- ===== src/Core/Requests.antt =====
-- core/src/types.rs: `ListReq` and `ActionReq`, and the bytes that are written for them.
pub mod Server
pub mod RoundTrip
use bluetooth_ots_rs.Base.{ℕ, List, [], ◌∷◌, ◌++◌, take}
use bluetooth_ots_rs.Base.Bytes.{to_le_bytes}
use bluetooth_ots_rs.Core.Codes.{
  SortOrder, ListOp, ActionOp, sort_order_discriminant, list_op_discriminant,
  action_op_discriminant,
}

pub data ListReq : Type 0 where
  first last previous next : ListReq
  go_to : (id : ℕ) → ListReq
  order : SortOrder → ListReq
  number_of clear_mark : ListReq

-- `From<&ListReq> for Vec<u8>`; `id` is a `u64`.
unfoldable pub encode_list : ListReq → List ℕ
encode_list ListReq.first = list_op_discriminant ListOp.first ∷ []
encode_list ListReq.last = list_op_discriminant ListOp.last ∷ []
encode_list ListReq.previous = list_op_discriminant ListOp.previous ∷ []
encode_list ListReq.next = list_op_discriminant ListOp.next ∷ []
encode_list (ListReq.go_to id) = list_op_discriminant ListOp.go_to ∷ take 6 (to_le_bytes 8 id)
encode_list (ListReq.order sort) =
    list_op_discriminant ListOp.order ∷ sort_order_discriminant sort ∷ []
encode_list ListReq.number_of = list_op_discriminant ListOp.number_of ∷ []
encode_list ListReq.clear_mark = list_op_discriminant ListOp.clear_mark ∷ []

-- A `WriteMode` is its bits.
pub data ActionReq (Uuid : Type 0) : Type 0 where
  create : (size : ℕ) → (type_ : Uuid) → ActionReq Uuid
  delete : ActionReq Uuid
  check_sum : (offset length : ℕ) → ActionReq Uuid
  execute : (param : List ℕ) → ActionReq Uuid
  read : (offset length : ℕ) → ActionReq Uuid
  write : (offset length mode : ℕ) → ActionReq Uuid
  abort : ActionReq Uuid

-- `size.to_le_bytes()[..4]` of a `usize`, which has 8 bytes on a 64-bit target.
abbrev pub low_four : ℕ → List ℕ
low_four n = take 4 (to_le_bytes 8 n)

-- `From<&ActionReq> for Vec<u8>`, over `Uuid::as_ref`.
unfoldable pub encode_action : {Uuid : Type 0} → (Uuid → List ℕ) → ActionReq Uuid → List ℕ
encode_action as_ref (ActionReq.create size type_) =
    action_op_discriminant ActionOp.create ∷ (low_four size ++ as_ref type_)
encode_action as_ref ActionReq.delete = action_op_discriminant ActionOp.delete ∷ []
encode_action as_ref (ActionReq.check_sum offset length) =
    action_op_discriminant ActionOp.check_sum ∷ (low_four offset ++ low_four length)
encode_action as_ref (ActionReq.execute param) = action_op_discriminant ActionOp.execute ∷ param
encode_action as_ref (ActionReq.read offset length) =
    action_op_discriminant ActionOp.read ∷ (low_four offset ++ low_four length)
encode_action as_ref (ActionReq.write offset length mode) =
    action_op_discriminant ActionOp.write ∷ ((low_four offset ++ low_four length) ++ (mode ∷ []))
encode_action as_ref ActionReq.abort = action_op_discriminant ActionOp.abort ∷ []
