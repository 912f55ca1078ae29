-- ===== src/Client/Operations.antt =====
-- bluez-async-ots/src/lib.rs: the functions that `impl_fns!` declares, one for each request.
pub mod Gate
use bluetooth_ots_rs.Base.{ℕ, Bool, true, false, Option, none, some, List, not, ◌||◌, if◌then◌else◌}
use bluetooth_ots_rs.Client.Host.{Host}
use bluetooth_ots_rs.Base.Monad.{Action, ◌>>=◌, ◌>>◌, pure, throw}
use bluetooth_ots_rs.Client.State.{
  Error, not_supported, bad_response, OtsClient, Client, from_core, request,
}
use bluetooth_ots_rs.Core.Codes.{SortOrder}
use bluetooth_ots_rs.Core.Requests.{ListReq, ActionReq, encode_list, encode_action}
use bluetooth_ots_rs.Core.Responses.{ListRes, ActionRes, decode_list, decode_action}
use bluetooth_ots_rs.Crates.{Bitflags, UuidCrate}

-- The bits of `ActionFeature` and `ListFeature` that are tested.
abbrev pub action_feature_create : ℕ
action_feature_create = 0x01

abbrev pub action_feature_delete : ℕ
action_feature_delete = 0x02

abbrev pub action_feature_check_sum : ℕ
action_feature_check_sum = 0x04

abbrev pub action_feature_execute : ℕ
action_feature_execute = 0x08

abbrev pub action_feature_read : ℕ
action_feature_read = 0x10

abbrev pub action_feature_write : ℕ
action_feature_write = 0x20

abbrev pub action_feature_abort : ℕ
action_feature_abort = 0x200

abbrev pub list_feature_go_to : ℕ
list_feature_go_to = 0x01

abbrev pub list_feature_order : ℕ
list_feature_order = 0x02

abbrev pub list_feature_number_of : ℕ
list_feature_number_of = 0x04

abbrev pub list_feature_clear_mark : ℕ
list_feature_clear_mark = 0x08

-- The value that a response of the wanted form carries.
abbrev pub action_none : ActionRes → Option (Unit {0})
action_none ActionRes.none = some tt
action_none _ = none

abbrev pub action_check_sum : ActionRes → Option ℕ
action_check_sum (ActionRes.check_sum value) = some value
action_check_sum _ = none

abbrev pub action_execute : ActionRes → Option (List ℕ)
action_execute (ActionRes.execute param) = some param
action_execute _ = none

abbrev pub list_none : ListRes → Option (Unit {0})
list_none ListRes.none = some tt
list_none _ = none

abbrev pub list_number_of : ListRes → Option ℕ
list_number_of (ListRes.number_of count) = some count
list_number_of _ = none

module _ (b : Bitflags) (u : UuidCrate) (h : Host u.Uuid) where
  unfoldable pub action_request : OtsClient h → ActionReq u.Uuid → Client h ActionRes
  action_request c req = do
    res ← request h c c.oacp_chr (encode_action u.as_ref req)
    from_core h (decode_action res)

  unfoldable pub list_characteristic : OtsClient h → Client h h.CharId
  list_characteristic c = elim c.olcp_chr [ none ↦ throw not_supported | some chr ↦ pure chr ]

  unfoldable pub list_request : OtsClient h → ListReq → Client h ListRes
  unfolding list_characteristic
  list_request c req = do
    chr ← list_characteristic c
    res ← request h c chr (encode_list req)
    from_core h (decode_list res)

  -- The test of a feature flag, if the request has one.
  unfoldable pub require : ℕ → Option ℕ → Client h (Unit {0})
  require features none = pure tt
  require features (some feature) =
      if not (b.contains features feature) then throw not_supported else pure tt

  unfoldable pub expect : {Res A : Type 0} → (Res → Option A) → Res → Client h A
  expect wanted res = elim (wanted res) [ none ↦ throw bad_response | some a ↦ pure a ]

  -- The body of each function that the macro declares.
  unfoldable pub operation :
      {Res A : Type 0} → ℕ → Option ℕ → Client h Res → (Res → Option A) → Client h A
  unfolding require expect
  operation features feature exchange wanted = do
    require features feature
    res ← exchange
    expect wanted res

  unfoldable pub action_operation :
      {A : Type 0} → OtsClient h → ℕ → ActionReq u.Uuid → (ActionRes → Option A) → Client h A
  unfolding operation
  action_operation c feature req wanted =
      operation c.action_features (some feature) (action_request c req) wanted

  unfoldable pub list_operation :
      {A : Type 0} → OtsClient h → Option ℕ → ListReq → (ListRes → Option A) → Client h A
  unfolding operation
  list_operation c feature req wanted =
      operation c.list_features feature (list_request c req) wanted

  abbrev pub create : OtsClient h → (size : ℕ) → u.Uuid → Client h (Unit {0})
  create c size type_ =
      action_operation c action_feature_create (ActionReq.create size type_) action_none

  abbrev pub delete : OtsClient h → Client h (Unit {0})
  delete c = action_operation c action_feature_delete ActionReq.delete action_none

  abbrev pub check_sum : OtsClient h → (offset length : ℕ) → Client h ℕ
  check_sum c offset length =
      action_operation c action_feature_check_sum (ActionReq.check_sum offset length)
        action_check_sum

  abbrev pub execute : OtsClient h → List ℕ → Client h (List ℕ)
  execute c param =
      action_operation c action_feature_execute (ActionReq.execute param) action_execute

  abbrev pub do_read : OtsClient h → (offset length : ℕ) → Client h (Unit {0})
  do_read c offset length =
      action_operation c action_feature_read (ActionReq.read offset length) action_none

  abbrev pub do_write : OtsClient h → (offset length mode : ℕ) → Client h (Unit {0})
  do_write c offset length mode =
      action_operation c action_feature_write (ActionReq.write offset length mode) action_none

  abbrev pub abort : OtsClient h → Client h (Unit {0})
  abort c = action_operation c action_feature_abort ActionReq.abort action_none

  abbrev pub first : OtsClient h → Client h (Unit {0})
  first c = list_operation c none ListReq.first list_none

  abbrev pub last : OtsClient h → Client h (Unit {0})
  last c = list_operation c none ListReq.last list_none

  abbrev pub do_previous : OtsClient h → Client h (Unit {0})
  do_previous c = list_operation c none ListReq.previous list_none

  abbrev pub do_next : OtsClient h → Client h (Unit {0})
  do_next c = list_operation c none ListReq.next list_none

  abbrev pub do_go_to : OtsClient h → (id : ℕ) → Client h (Unit {0})
  do_go_to c id = list_operation c (some list_feature_go_to) (ListReq.go_to id) list_none

  abbrev pub order : OtsClient h → SortOrder → Client h (Unit {0})
  order c sort = list_operation c (some list_feature_order) (ListReq.order sort) list_none

  abbrev pub number_of : OtsClient h → Client h ℕ
  number_of c = list_operation c (some list_feature_number_of) ListReq.number_of list_number_of

  abbrev pub clear_mark : OtsClient h → Client h (Unit {0})
  clear_mark c = list_operation c (some list_feature_clear_mark) ListReq.clear_mark list_none
