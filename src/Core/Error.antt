-- ===== src/Core/Error.antt =====
-- core/src/lib.rs: the error type and the length checks that every decoder starts with.
use bluetooth_ots_rs.Base.{ℕ, Option, ltb, if◌then◌else◌}
use bluetooth_ots_rs.Base.Outcome.{Outcome, ok, err, ◌>>◌}
use bluetooth_ots_rs.Core.Codes.{OpType, ListRc, ActionRc}

-- `core::str::Utf8Error`: how far the text is valid, and the length of the bad sequence if it is
-- not the end of the input that cuts it.
pub record Utf8Error : Type 0 where
  pub valid_up_to : ℕ
  pub error_len : Option ℕ

-- The payload of `BadUuid` belongs to the `uuid` crate and is left out.
pub data Error : Type 0 where
  bad_utf8 : Utf8Error → Error
  bad_uuid not_supported not_found no_response bad_response : Error
  bad_uuid_size : ℕ → Error
  list_error : ListRc → Error
  action_error : ActionRc → Error
  bad_action_features bad_list_features bad_properties bad_dir_flags : ℕ → Error
  not_enough_data : (actual needed : ℕ) → Error
  too_many_data : (actual needed : ℕ) → Error
  bad_op_code : OpType → ℕ → Error

abbrev pub Result {ℓ} : Type ℓ → Type ℓ
Result = Outcome Error

unfoldable pub check_len : ℕ → ℕ → Result (Unit {0})
check_len actual needed = if ltb actual needed then err (not_enough_data actual needed) else ok tt

-- `check_size::<T>` and `check_size_exact::<T>` are given the size of `T`.
unfoldable pub check_size : ℕ → ℕ → Result (Unit {0})
unfolding check_len
check_size size actual = check_len actual size

unfoldable pub check_len_exact : ℕ → ℕ → Result (Unit {0})
unfolding check_len
check_len_exact actual needed = do
  check_len actual needed
  if ltb needed actual then err (too_many_data actual needed) else ok tt

unfoldable pub check_size_exact : ℕ → ℕ → Result (Unit {0})
unfolding check_len_exact
check_size_exact size actual = check_len_exact actual size
