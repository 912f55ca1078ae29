-- ===== src/Core/Tables.antt =====
-- core/src/types.rs: the invocations of `impl_bc!`, one table for each enum.
use bluetooth_ots_rs.Base.{String, [], ◌∷◌, ◌&&◌, ◌||◌, leb, ◌==◌}
use bluetooth_ots_rs.Core.Codes.{CodeTable, OpType, SortOrder, ListOp, ListRc, ActionOp, ActionRc}
use bluetooth_ots_rs.Core.Codes.{
  sort_order_discriminant, list_op_discriminant, list_rc_discriminant, action_op_discriminant,
  action_rc_discriminant,
}

abbrev sort_order_name : SortOrder → String
sort_order_name SortOrder.name_asc = "NameAsc"
sort_order_name SortOrder.type_asc = "TypeAsc"
sort_order_name SortOrder.cur_size_asc = "CurSizeAsc"
sort_order_name SortOrder.crt_time_asc = "CrtTimeAsc"
sort_order_name SortOrder.mod_time_asc = "ModTimeAsc"
sort_order_name SortOrder.name_desc = "NameDesc"
sort_order_name SortOrder.type_desc = "TypeDesc"
sort_order_name SortOrder.cur_size_desc = "CurSizeDesc"
sort_order_name SortOrder.crt_time_desc = "CrtTimeDesc"
sort_order_name SortOrder.mod_time_desc = "ModTimeDesc"

abbrev list_op_name : ListOp → String
list_op_name ListOp.first = "First"
list_op_name ListOp.last = "Last"
list_op_name ListOp.previous = "Previous"
list_op_name ListOp.next = "Next"
list_op_name ListOp.go_to = "GoTo"
list_op_name ListOp.order = "Order"
list_op_name ListOp.number_of = "NumberOf"
list_op_name ListOp.clear_mark = "ClearMark"
list_op_name ListOp.response = "Response"

abbrev list_rc_name : ListRc → String
list_rc_name ListRc.success = "Success"
list_rc_name ListRc.operation_not_supported = "OperationNotSupported"
list_rc_name ListRc.invalid_parameter = "InvalidParameter"
list_rc_name ListRc.operation_failed = "OperationFailed"
list_rc_name ListRc.out_of_bounds = "OutOfBounds"
list_rc_name ListRc.too_many_objects = "TooManyObjects"
list_rc_name ListRc.no_object = "NoObject"
list_rc_name ListRc.object_id_not_found = "ObjectIdNotFound"

abbrev action_op_name : ActionOp → String
action_op_name ActionOp.create = "Create"
action_op_name ActionOp.delete = "Delete"
action_op_name ActionOp.check_sum = "CheckSum"
action_op_name ActionOp.execute = "Execute"
action_op_name ActionOp.read = "Read"
action_op_name ActionOp.write = "Write"
action_op_name ActionOp.abort = "Abort"
action_op_name ActionOp.response = "Response"

abbrev action_rc_name : ActionRc → String
action_rc_name ActionRc.success = "Success"
action_rc_name ActionRc.operation_not_supported = "OperationNotSupported"
action_rc_name ActionRc.invalid_parameter = "InvalidParameter"
action_rc_name ActionRc.insufficient_resources = "InsufficientResources"
action_rc_name ActionRc.invalid_object = "InvalidObject"
action_rc_name ActionRc.channel_unavailable = "ChannelUnavailable"
action_rc_name ActionRc.unsupported_type = "UnsupportedType"
action_rc_name ActionRc.procedure_not_permitted = "ProcedureNotPermitted"
action_rc_name ActionRc.object_locked = "ObjectLocked"
action_rc_name ActionRc.operation_failed = "OperationFailed"

abbrev pub sort_order : CodeTable SortOrder
sort_order = record {
  type_ = OpType.sort_order;
  cond = λ raw. leb 0x01 raw && leb raw 0x05 || leb 0x11 raw && leb raw 0x15;
  variants =
      SortOrder.name_asc ∷ SortOrder.type_asc ∷ SortOrder.cur_size_asc ∷ SortOrder.crt_time_asc
      ∷ SortOrder.mod_time_asc ∷ SortOrder.name_desc ∷ SortOrder.type_desc ∷ SortOrder.cur_size_desc
      ∷ SortOrder.crt_time_desc ∷ SortOrder.mod_time_desc ∷ [];
  discriminant = sort_order_discriminant;
  name = sort_order_name;
}

abbrev pub list_op : CodeTable ListOp
list_op = record {
  type_ = OpType.list_op;
  cond = λ raw. leb 0x01 raw && leb raw 0x08 || raw == 0x70;
  variants =
      ListOp.first ∷ ListOp.last ∷ ListOp.previous ∷ ListOp.next ∷ ListOp.go_to ∷ ListOp.order
      ∷ ListOp.number_of ∷ ListOp.clear_mark ∷ ListOp.response ∷ [];
  discriminant = list_op_discriminant;
  name = list_op_name;
}

abbrev pub list_rc : CodeTable ListRc
list_rc = record {
  type_ = OpType.list_rc;
  cond = λ raw. leb 0x01 raw && leb raw 0x08;
  variants =
      ListRc.success ∷ ListRc.operation_not_supported ∷ ListRc.invalid_parameter
      ∷ ListRc.operation_failed ∷ ListRc.out_of_bounds ∷ ListRc.too_many_objects ∷ ListRc.no_object
      ∷ ListRc.object_id_not_found ∷ [];
  discriminant = list_rc_discriminant;
  name = list_rc_name;
}

abbrev pub action_op : CodeTable ActionOp
action_op = record {
  type_ = OpType.action_op;
  cond = λ raw. leb 0x01 raw && leb raw 0x07 || raw == 0x60;
  variants =
      ActionOp.create ∷ ActionOp.delete ∷ ActionOp.check_sum ∷ ActionOp.execute ∷ ActionOp.read
      ∷ ActionOp.write ∷ ActionOp.abort ∷ ActionOp.response ∷ [];
  discriminant = action_op_discriminant;
  name = action_op_name;
}

abbrev pub action_rc : CodeTable ActionRc
action_rc = record {
  type_ = OpType.action_rc;
  cond = λ raw. leb 0x01 raw && leb raw 0x0a;
  variants =
      ActionRc.success ∷ ActionRc.operation_not_supported ∷ ActionRc.invalid_parameter
      ∷ ActionRc.insufficient_resources ∷ ActionRc.invalid_object ∷ ActionRc.channel_unavailable
      ∷ ActionRc.unsupported_type ∷ ActionRc.procedure_not_permitted ∷ ActionRc.object_locked
      ∷ ActionRc.operation_failed ∷ [];
  discriminant = action_rc_discriminant;
  name = action_rc_name;
}
