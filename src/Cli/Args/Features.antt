-- ===== src/Cli/Args/Features.antt =====
-- cli/src/cli.rs: what `arg_flags!` declares for `InfoArgs`.
use bluetooth_ots_rs.Base.{Bool, false, ◌||◌}
use bluetooth_ots_rs.Cli.Args.{InfoArgs}

abbrev pub action : InfoArgs → Bool
action a = false || a.action || a.full

abbrev pub list : InfoArgs → Bool
list a = false || a.list || a.full
