-- ===== src/Cli/Args/Columns.antt =====
-- cli/src/cli.rs: what `arg_flags!` declares for `ListArgs`.
use bluetooth_ots_rs.Base.{Bool, false, ◌||◌}
use bluetooth_ots_rs.Cli.Args.{ListArgs}

abbrev pub id : ListArgs → Bool
id a = false || a.id || a.full

abbrev pub name : ListArgs → Bool
name a = false || a.name || a.full

abbrev pub type_ : ListArgs → Bool
type_ a = false || a.type_ || a.full

abbrev pub cur_size : ListArgs → Bool
cur_size a = false || a.cur_size || a.size || a.full

abbrev pub alloc_size : ListArgs → Bool
alloc_size a = false || a.alloc_size || a.size || a.full

abbrev pub any_size : ListArgs → Bool
any_size a = false || a.cur_size || a.alloc_size || a.size || a.full

abbrev pub crt_time : ListArgs → Bool
crt_time a = false || a.crt_time || a.time

abbrev pub mod_time : ListArgs → Bool
mod_time a = false || a.mod_time || a.time

abbrev pub any_time : ListArgs → Bool
any_time a = false || a.crt_time || a.mod_time || a.time

abbrev pub props : ListArgs → Bool
props a = false || a.props || a.full
