-- ===== src/Core/Codes.antt =====
-- core/src/types.rs: the operation and result codes that `impl_bc!` declares, with their
-- discriminants and names.
use bluetooth_ots_rs.Base.{ℕ, Bool, String, List}

-- The enum that says which kind of code was bad.
pub data OpType : Type 0 where
  sort_order list_op list_rc action_op action_rc : OpType

pub data SortOrder : Type 0 where
  name_asc type_asc cur_size_asc crt_time_asc mod_time_asc : SortOrder
  name_desc type_desc cur_size_desc crt_time_desc mod_time_desc : SortOrder

pub data ListOp : Type 0 where
  first last previous next go_to order number_of clear_mark response : ListOp

pub data ListRc : Type 0 where
  success operation_not_supported invalid_parameter operation_failed : ListRc
  out_of_bounds too_many_objects no_object object_id_not_found : ListRc

pub data ActionOp : Type 0 where
  create delete check_sum execute read write abort response : ActionOp

pub data ActionRc : Type 0 where
  success operation_not_supported invalid_parameter insufficient_resources : ActionRc
  invalid_object channel_unavailable unsupported_type procedure_not_permitted : ActionRc
  object_locked operation_failed : ActionRc

-- What the macro is given for one enum: the test of a raw byte, and each variant with its
-- discriminant and its name.
pub record CodeTable (A : Type 0) : Type 0 where
  pub type_ : OpType
  pub cond : ℕ → Bool
  pub variants : List A
  pub discriminant : A → ℕ
  pub name : A → String

abbrev pub sort_order_discriminant : SortOrder → ℕ
sort_order_discriminant name_asc = 0x01
sort_order_discriminant type_asc = 0x02
sort_order_discriminant cur_size_asc = 0x03
sort_order_discriminant crt_time_asc = 0x04
sort_order_discriminant mod_time_asc = 0x05
sort_order_discriminant name_desc = 0x11
sort_order_discriminant type_desc = 0x12
sort_order_discriminant cur_size_desc = 0x13
sort_order_discriminant crt_time_desc = 0x14
sort_order_discriminant mod_time_desc = 0x15

abbrev pub list_op_discriminant : ListOp → ℕ
list_op_discriminant first = 0x01
list_op_discriminant last = 0x02
list_op_discriminant previous = 0x03
list_op_discriminant next = 0x04
list_op_discriminant go_to = 0x05
list_op_discriminant order = 0x06
list_op_discriminant number_of = 0x07
list_op_discriminant clear_mark = 0x08
list_op_discriminant response = 0x70

abbrev pub list_rc_discriminant : ListRc → ℕ
list_rc_discriminant success = 0x01
list_rc_discriminant operation_not_supported = 0x02
list_rc_discriminant invalid_parameter = 0x03
list_rc_discriminant operation_failed = 0x04
list_rc_discriminant out_of_bounds = 0x05
list_rc_discriminant too_many_objects = 0x06
list_rc_discriminant no_object = 0x07
list_rc_discriminant object_id_not_found = 0x08

abbrev pub action_op_discriminant : ActionOp → ℕ
action_op_discriminant create = 0x01
action_op_discriminant delete = 0x02
action_op_discriminant check_sum = 0x03
action_op_discriminant execute = 0x04
action_op_discriminant read = 0x05
action_op_discriminant write = 0x06
action_op_discriminant abort = 0x07
action_op_discriminant response = 0x60

abbrev pub action_rc_discriminant : ActionRc → ℕ
action_rc_discriminant success = 0x01
action_rc_discriminant operation_not_supported = 0x02
action_rc_discriminant invalid_parameter = 0x03
action_rc_discriminant insufficient_resources = 0x04
action_rc_discriminant invalid_object = 0x05
action_rc_discriminant channel_unavailable = 0x06
action_rc_discriminant unsupported_type = 0x07
action_rc_discriminant procedure_not_permitted = 0x08
action_rc_discriminant object_locked = 0x09
action_rc_discriminant operation_failed = 0x0a
