-- ===== src/Lib.antt =====
-- The Object Transfer Service client: the protocol crate `core`, the client `bluez-async-ots`, and the
-- command `cli`.
--
-- The program has three parts. `core` holds the types of the protocol and their bytes: requests that
-- are written to the two control points, responses that come back, the values of the
-- characteristics, the records of the directory object, and the socket addresses and options of the
-- data channel. `bluez-async-ots` is the client: it finds the characteristics of a device, sends
-- requests and waits for the answers, and opens the data channel to read and write objects. `cli`
-- calls the client from the command line: it selects an object, lists the objects, and reads and
-- writes one.
--
-- Files, and the code that each is about:
--   Base.antt and Base/: lists, bytes and tests on native numbers, and in Base/Outcome.antt how a
--     Rust function ends: `ok` and `err` are the two sides of a `Result`, `panic` is a panic of the
--     current thread, and `undefined` is undefined behaviour.
--   Crates.antt: what is used of the crates `bitflags` and `uuid`, as records of operations with
--     the behaviour that their documentation states. All that uses them takes them as parameters.
--   Core/Codes, Core/Tables, Core/Opcode: core/src/types.rs, `impl_bc!`. A table holds the test, the
--     discriminants and the names of an enum; `try_from` tests the byte and then casts it.
--   Core/Error: core/src/lib.rs, `Error` and its checks.
--   Core/Requests, Core/Responses: core/src/types.rs, `ListReq`, `ActionReq`, `ListRes`, `ActionRes`.
--     `encode_list` and `encode_action` are `From<&_> for Vec<u8>`, `decode_list` and `decode_action`
--     are `TryFrom<&[u8]>`. Core/Requests/Server is not code of the repository: it is what a server
--     reads, from the formats of the service specification, each value with its lowest byte first.
--   Core/Flags: core/src/types.rs, `bitflag_types!`.
--   Core/Uuids: core/src/types.rs, `uuid_from_raw`, and core/src/ids.rs.
--   Core/Numbers: core/src/types.rs, `Ule48` and `Sizes`, and core/src/lib.rs, `Sizes`.
--   Core/DateTime: core/src/types.rs, `DateTime`; in Core/DateTime/Display its `Display`, and in
--     Core/DateTime/Convert its conversions for the optional features `time` and `chrono`.
--   Core/Utf8: `core::str::from_utf8`, written out by the table of well-formed byte sequences of the
--     Unicode standard. A string is its bytes.
--   Core/Metadata: core/src/types.rs, `Metadata`. `metadata_try_from` is cut in three at the points
--     where the length of what follows is known. Core/Metadata/Wire is the format of a
--     record in the service specification, each value with its lowest byte first.
--   Core/DirEntries: core/src/types.rs, `DirEntries`. `next` is a function on the state of the
--     iterator, and `drain` is a loop over it.
--   Core/L2cap: core/src/l2cap.rs. The byte order of the target and `AF_BLUETOOTH` are parameters,
--     and so is what a system call answers. Core/L2cap/Socket: the operations of `L2capSocket`.
--   Client/Host: what the client calls of `bluez-async`, `socket2` and `tokio`, as a record of
--     functions on a state `World`. Base/Monad: an asynchronous function passes that state on.
--   Client/State: bluez-async-ots/src/lib.rs, `Error`, `OtsClient` and `request`.
--   Client/Operations: the functions that `impl_fns!` declares. Client/Objects: `id` to `go_to`.
--   Client/Transfer: `socket` to `write_stream`. Client/Setup: `new`.
--   Client/Transport: bluez-async-ots/src/l2cap.rs, `connect`, under the timeout of `socket`.
--     Client/Transport/Poll: `L2capStream` as `AsyncRead` and `AsyncWrite`.
--   Client/Served is not code of the repository: it is a server of the list control point as the
--     service specification describes it, with its objects and its current object, and the record
--     `Serves` says what it means that such a server stands behind a host. `Reads`, in
--     Client/Objects/Described, says that each characteristic has a value for the current object.
--   Cli/Args: cli/src/cli.rs. Cli/Command: cli/src/main.rs, `Error`, and what a command calls besides
--     the client. What a command prints is a list of pieces, in the order of printing.
--   Cli/Select: `ObjSel::select`. Cli/Listing: `ListArgs`; Cli/Listing/Layout and Cli/Listing/Titles
--     are not code of the repository but describe the lines of a table column by column. Cli/Hex and Cli/Transfer: `ReadArgs` and
--     `WriteArgs`. Cli/Main: `main` and `InfoArgs`.
--   Tests/: concrete instances of the parameters, and the theorems of the list below applied to them.
--
-- Widths and fuel. A byte is a number; where a theorem needs it below 256 it says so. `usize` has 64
-- bits: `low_four` cuts 4 of its 8 bytes, and `sub_usize` panics or wraps at 2^64, as the build has
-- overflow checks or not. `drain` has one unit of fuel for each turn; `remaining` counts the bytes
-- that are left and the end of the iteration, and `drain_ends` says how much fuel that asks for. The
-- loops of Cli/Select, Cli/Listing and Client/Transport/Poll have a number of turns; it is enough to
-- have as many as there are objects, or one more than there are records in the directory or wakes
-- without data. All other recursion is on the structure of lists and numbers.
-- The index of a line, an `i32` of the program, is a number without a bound.
--
-- Not modelled: the parsing of the command line, which is done by the crate `clap`; `serde`; the texts
-- of errors; the note that `WriteArgs::run` prints to the standard error; the calls inside `debug!`
-- and `trace!`, which are there only with a logging feature; conversions that only hand out a field;
-- failures of memory allocation; a caller that drops a future before it is done.
pub mod Base
pub mod Crates
pub mod Core
pub mod Client
pub mod Cli
pub mod Tests
