-- ===== src/Lib.antt =====
-- Rock Paper Scissors Battle Royale: a model of the server and the client in C, and what holds of
-- them.
--
-- The program. Clients connect to a server over TCP and exchange text lines. `src/server.c` polls
-- the sockets, accepts connections, reads bytes into each player's buffer, hands whole lines to
-- `handle_command` of `src/server_commands.c`, writes out what is queued, and calls
-- `advance_match_timers` of `src/server_state.c`. That file is the state machine of a match: lobby,
-- setup, active round, repick, game over. It calls `src/game.c` for readiness, rounds and pairs,
-- and `src/chase_simulation.c` for the chase, in which living players run after those they can eat.
-- `src/protocol.c` is the buffered transport. Structs and constants are in `src/common.h`.
--
-- The files.
--   State        src/common.h and the predicates of src/game.h: `Player`, `ServerState`, `Phase`.
--                State/Slots: reading and writing the 32 slots.
--   Game         src/game.c: `init_server_state`, `admitted_count`, `start_round`, `rps_result` and
--                so on; Game/Pairs: `build_pairs`. Game/Counts, Game/Pairs/Cover and
--                Game/Pairs/Nearest hold their theorems.
--   Chase        src/chase_simulation.c, function by function; Chase/Choice, Chase/Prey, Chase/Tick.
--   Protocol     src/protocol.c: `queue_line`, `flush_player_output`, `read_into_player_buffer`,
--                `pop_line`, `send_line`; Protocol/Buffers, Protocol/Framing, Protocol/Flush,
--                Protocol/SendLine.
--   Server       src/server_state.c up to `reevaluate_state`: broadcasts, snapshots, drops, the end
--                of a match. Server/Lines: what is printed. Server/Slots: the invariant `Inv` and
--                the relation `Goes`; Server/Queue, Server/Knot, Server/Counts and Server/Snapshot.
--   Match        src/server_state.c: `maybe_admit_player`, `reset_match`, the timers,
--                `resolve_round`. Match/Moves: the relation `Moves`; Match/Ends, Match/Phases,
--                Match/Timers, and Match/Live, where the recursion is tied; Match/Writes
--                and Match/Resolve; Match/Rematch, Match/Deadline.
--   Commands     src/server_commands.c: the parser, the handlers, `add_player`; Commands/Parse,
--                Commands/Slots, Commands/Spawn, Commands/Grid, Commands/Names,
--                Commands/Handlers, Commands/Dispatch.
--   Loop         src/server.c: the passes of the event loop; Loop/Select, Loop/Served,
--                Loop/Reads, Loop/Writes, Loop/Runs.
--   Client       src/client_state.h, and the table of players of src/client_text_messages.c.
--                Client/Messages: `parse_state_snapshot_line`; Client/General:
--                `parse_general_line`; Client/Dispatch: the dispatch table and
--                `handle_server_line`; Client/Pump: src/client_network.c. Client/Inv: what holds
--                between two lines; Client/PlayerLine, Client/Table and Client/Snapshot: the server's
--                snapshot read by the client; Client/Pump/Stream, Client/Pump/Chunks and
--                Client/Pump/Ends: the stream of bytes.
--                Client/Handshake: a HELLO and its answer.
--   Client/Ui    src/client_text.c: its helpers, `send_command_checked` and `maybe_send_hello`;
--                Client/Ui/Keys: the keys; Client/Ui/Draw: `render_ui` and what it calls;
--                Client/Ui/Main: `main`. Client/Ui/Commands, Client/Ui/Inv, Client/Ui/Branches,
--                Client/Ui/Bounds, Client/Ui/Plan and Client/Ui/Runs: what the client keeps and what
--                it sends; Client/Ui/Cells and Client/Ui/Grid: the drawn grid.
--   Float, Text  IEEE floats with rounding to nearest even, bytes, and the conversions of printf and
--                scanf that the sources use.
--   Base         shared helpers: lists and Boolean tests over the native numbers.
--   Tests        runs at fixed inputs.
--
-- How the code is modelled. A function on `ServerState *` takes the state and returns the new one.
-- A flag is a Bool, a buffer with its count is the list of its used bytes, -1 for an index is
-- `none`. The state also holds the value of `time(NULL)`, which stays the same within a pass of the
-- loop, and the list of the sockets that were closed. Player ids, round numbers and times are natural
-- numbers and do not wrap; the casts of the seconds that are left to `int` are left out, which
-- differs from the source only from 2 ^ 31 seconds on. There is one NaN, printed as `nan`, where
-- printf writes `-nan` for one with its sign set.
--
-- Recursion and fuel. A broadcast that cannot queue its line drops the player and calls
-- `reevaluate_state`, which may broadcast again. The functions take that call as the argument `re`;
-- `reevaluate_at n` allows `n` nested calls. Each comes after a drop, so 32 levels, one for each
-- slot, are enough. The loops over the lines of a read, in the server and in the client, allow 1024
-- rounds, since each takes a byte of a buffer of 1024; the loop of a flush gets 8192 answers of
-- `send`, one for each byte of the buffer.
--
-- What is not modelled. Opening and listening on sockets (`create_listen_socket`,
-- `connect_to_server`), the set-up of ncurses, the refresh and the pause of a frame, and `fatal`:
-- they only call the operating system. What it answers is an argument: `Io` for a pass of the
-- server's loop, `Ready` for a round of the client's pump, `Frame` for a frame of the client, with
-- the keys that wait, `sends k` for the end of call number `k` of `send_line` in the client, `Send`
-- and `Recv` for a call.
pub mod Base
pub mod Float
pub mod Text
pub mod State
pub mod Game
pub mod Chase
pub mod Protocol
pub mod Server
pub mod Match
pub mod Commands
pub mod Loop
pub mod Client
pub mod Tests
