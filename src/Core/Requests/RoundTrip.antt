-- ===== src/Core/Requests/RoundTrip.antt =====
-- core/src/types.rs, `ListReq` and `ActionReq`: their bytes as a server reads them.
use bluetooth_ots_rs.Base.{
  ℕ, ◌+◌, ◌*◌, ◌^◌, ◌<◌, ◌≡◌, refl, ap, ap₂, ◌∙◌, sym, arith, some, List, ◌∷◌, length, reverse,
}
use bluetooth_ots_rs.Base.Bytes.{
  from_le_bytes, to_le_bytes, length-to_le_bytes, from_le_bytes-to_le_bytes, take-to_le_bytes,
  to_le_bytes_wrap,
}
use bluetooth_ots_rs.Core.Codes.{SortOrder}
use bluetooth_ots_rs.Core.Requests.{ListReq, ActionReq, encode_list, encode_action, low_four}
use bluetooth_ots_rs.Core.Requests.Server.{parse_list, parse_action}

-- The identifier of an object has 48 bits.
abbrev pub ListFits : ListReq → Type 0
ListFits (ListReq.go_to id) = id < 2 ^ 48
ListFits _ = Unit {0}

go_to_round :
    (id : ℕ) → id < 2 ^ 48 → parse_list (encode_list (ListReq.go_to id)) ≡ some (ListReq.go_to id)
unfolding parse_list encode_list
go_to_round id h = rw (
  take-to_le_bytes 6 8 id (omega arith),
  length-to_le_bytes 6 id,
  from_le_bytes-to_le_bytes 6 id h,
)

order_round : (s : SortOrder) → parse_list (encode_list (ListReq.order s)) ≡ some (ListReq.order s)
unfolding parse_list encode_list
order_round SortOrder.name_asc = refl
order_round _ = refl

-- A server reads from an encoded list request the request itself, if the identifier of a `GoTo`
-- is below 2^48.
pub parse_list-encode_list : (r : ListReq) → ListFits r → parse_list (encode_list r) ≡ some r
parse_list-encode_list (ListReq.go_to id) h = go_to_round id h
parse_list-encode_list (ListReq.order s) h = order_round s
parse_list-encode_list _ h = unfold parse_list encode_list in refl

-- Identifiers that agree in their low 48 bits make the same request.
pub encode_list-go_to_wrap :
    (id n : ℕ) → encode_list (ListReq.go_to (id + n * 2 ^ 48)) ≡ encode_list (ListReq.go_to id)
unfolding encode_list
encode_list-go_to_wrap id n = ap (◌∷◌ 5) (
    take-to_le_bytes 6 8 (id + n * 2 ^ 48) (omega arith)
    ∙ to_le_bytes_wrap 6 id n
    ∙ sym (take-to_le_bytes 6 8 id (omega arith)))

abbrev pub ActionFits : {Uuid : Type 0} → ActionReq Uuid → Type 0
ActionFits (ActionReq.create size type_) = size < 2 ^ 32
ActionFits (ActionReq.check_sum offset length) = (offset < 2 ^ 32) × (length < 2 ^ 32)
ActionFits (ActionReq.read offset length) = (offset < 2 ^ 32) × (length < 2 ^ 32)
ActionFits (ActionReq.write offset length mode) = (offset < 2 ^ 32) × (length < 2 ^ 32)
ActionFits _ = Unit {0}

-- The request with the type of a new object as bytes, highest first.
abbrev pub with_bytes : {Uuid : Type 0} → (Uuid → List ℕ) → ActionReq Uuid → ActionReq (List ℕ)
with_bytes as_ref (ActionReq.create size type_) = ActionReq.create size (as_ref type_)
with_bytes as_ref ActionReq.delete = ActionReq.delete
with_bytes as_ref (ActionReq.check_sum offset length) = ActionReq.check_sum offset length
with_bytes as_ref (ActionReq.execute param) = ActionReq.execute param
with_bytes as_ref (ActionReq.read offset length) = ActionReq.read offset length
with_bytes as_ref (ActionReq.write offset length mode) = ActionReq.write offset length mode
with_bytes as_ref ActionReq.abort = ActionReq.abort

low_four-value : (n : ℕ) → n < 2 ^ 32 → from_le_bytes (low_four n) ≡ n
unfolding from_le_bytes to_le_bytes
low_four-value n h = omega arith

module _ {Uuid : Type 0} (as_ref : Uuid → List ℕ)
    (as_ref_length : (u : Uuid) → length (as_ref u) ≡ 16) where
  -- A server that reads every value lowest byte first, as the service specification says, reads from
  -- an encoded action request the request itself, if its sizes, offsets and lengths are below 2^32;
  -- only the type of a new object it reads with its sixteen bytes in reverse order, as `encode_action`
  -- sends them highest first.
  pub parse_action-encode_action :
      (r : ActionReq Uuid)
      → ActionFits r
      → parse_action (encode_action as_ref r) ≡ some (with_bytes (λ u. reverse (as_ref u)) r)
  unfolding parse_action encode_action to_le_bytes
  parse_action-encode_action (ActionReq.create size type_) h =
      rw (as_ref_length type_)
        (ap (λ n. some (ActionReq.create n (reverse (as_ref type_)))) (low_four-value size h))
  parse_action-encode_action ActionReq.delete h = refl
  parse_action-encode_action (ActionReq.check_sum o l) (ho, hl) =
      ap₂ (λ a b. some (ActionReq.check_sum a b)) (low_four-value o ho) (low_four-value l hl)
  parse_action-encode_action (ActionReq.execute param) h = refl
  parse_action-encode_action (ActionReq.read o l) (ho, hl) =
      ap₂ (λ a b. some (ActionReq.read a b)) (low_four-value o ho) (low_four-value l hl)
  parse_action-encode_action (ActionReq.write o l mode) (ho, hl) =
      ap₂ (λ a b. some (ActionReq.write a b mode)) (low_four-value o ho) (low_four-value l hl)
  parse_action-encode_action ActionReq.abort h = refl
