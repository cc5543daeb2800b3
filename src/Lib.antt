-- ===== src/Lib.antt =====
-- A model of parts of XPilot-FXI, a game server, and theorems about them. Functions are translated
-- clause by clause; names are those of the source in lower case.
--
-- - Ids: src/server/id.c, the pool of identifiers. `Ids` holds its static variables; `init_id`,
--   `peek_id`, `request_id` and `release_id` are `init_ID`, `peek_ID`, `request_ID` and
--   `release_ID`, with `none` for `exit`. The counters wrap at 2 ^ 32.
-- - Net: src/common/net.c, the buffers between a socket and the packets. `Sockbuf` is `sockbuf_t`;
--   Net/Sockbuf has `Sockbuf_init` to `Sockbuf_write`, Net/Recv `Sockbuf_read` and `Sockbuf_copy`,
--   Net/Format the format strings of packets, Net/Print `Packet_printf` and Net/Scan
--   `Packet_scanf`, which fetches more bytes by `Sockbuf_read`. What `send` and `recv` answer is a
--   list that is given; where it ends too soon the result is `none`. Net/Wire says what the bytes
--   of a packet are.
-- - Connections: src/server/netserver.c, the connections of the clients over the buffers of Net.
--   Connections/Server has the table `Conn` with `Conn_set_state` and `Destroy_connection`;
--   Connections/Reliable is `Send_reliable`, Connections/Acks `Receive_ack`, Connections/Handshake
--   `Handle_listening`, Connections/Login `Handle_setup`, `Handle_login` and `Receive_play`,
--   Connections/Input `Handle_input` and `Input`, and Connections/Arrival `Setup_connection`. Code
--   on the table answers `none` where a call of the kernel does not return or the source has no
--   defined behaviour. What it hands to the kernel and to the rest of the server is logged in
--   `calls`; what those answer is given, in `incoming` and `outgoing` for `recv` and `send`, and in
--   `Login`, `Resources` and `Outside` for the rest. Connections/Packets,
--   Connections/Introductions and Connections/Bursts have the functions that send one packet,
--   Connections/Frames the start and the end of a frame, and Connections/Types the packet types.
--   Connections/Commands has the handlers of settings, `Receive_power` and its kin, and
--   Connections/Actions those of what players do, as `Receive_keyboard`; the work that they leave to
--   other parts of the server, as `Handle_keyboard`, comes as a list of what it does to the table:
--   connections that it destroys, and packets that it prints into their reliable data.
--   Connections/Session is a client from its arrival to its play.
-- - Talk: `Handle_talk` of src/server/netserver.c (Talk/Messages) and the search for a player by a
--   name or an id of src/server/command.c (Talk/Lookup). The players are a table like `Players` with
--   `GetInd`; `undefined` and `none` are undefined behaviour: an access past the end of `GetInd`, a
--   number past the range of `int`, or the team of a player that has none.
-- - Scheduler: src/server/sched.c, the table of input handlers, which a connection enters and leaves.
--   `install_input` and `remove_input` have the names of the source, and `none` is `ServerExit`.
-- - Strings: src/common/strcasecmp.c, the comparison of nicks.
-- - LinkedList: src/common/list.c, circular doubly linked lists in a memory (LinkedList/Heap) where
--   access to what is not allocated fails. LinkedList/Links says which list a memory holds.
-- - Names: src/common/checknames.c, the checks and repairs of names from clients, as byte lists.
-- - Objects: src/server/object.c with the parts of src/server/shot.c that it calls, the pool of the
--   objects in play. Objects/World has the globals that they use and `object_remove` for
--   `Object_remove`, Objects/Loops the loops over the pool: `objects_remove_timed_out` is
--   `Objects_remove_timed_out`, and `ball_treasure_add` and `ball_detach` are `Ball_treasure_add`
--   and `Ball_detach`; `none` is an access through a null pointer. The pool has 16384 objects, as
--   in the source.
-- - Teams: src/server/team.c, counts over the players (Teams/Players), and in Teams/Choice the
--   choice of a team (`team_find_available` for `Team_find_available`) and of a base
--   (`team_pick_free_base` for `Team_pick_free_base`) for a new player. The players and the teams
--   are arguments, a random fraction is a function.
-- - Scores: src/server/score.c, what a kill is worth (`rate` for `Rate`) and the scores and
--   counters after a treasure is destroyed (`punish_team` for `Punish_team`), over the players of
--   Teams/Players. Scores are taken to be whole, though the source keeps them as doubles.
--
-- The server uses all of the parts: a name that a client sends is scanned by `Packet_scanf` and
-- then checked, a connection prints its replies into one buffer and sends them from another, a player
-- that enters takes an identifier, a team and a base, and the treasure of a ball that times out is
-- found again in the pool.
--
-- Loops run on the structure of a list where there is one. `LIST_Clear` and `LIST_FindItemRange`
-- run on fuel, of which one more than the number of nodes is enough, since a round takes or passes
-- one; the loop of `Handle_input` has the rounds that `Outside` gives it, with none of them assumed
-- enough (Connections/Rounds is about more rounds); `decimal` in Names has 11 rounds, enough for
-- any `int`. Lengths and offsets of buffers are natural numbers, as no caller makes them negative or
-- near 2 ^ 31.
--
-- Not modelled: error messages; the contents of data that lists point to; floating point; the rest
-- of the server, which needs the whole state of a game.
pub mod Prelude
pub mod Ids
pub mod Strings
pub mod Names
pub mod LinkedList
pub mod Net
pub mod Objects
pub mod Teams
pub mod Scores
pub mod Connections
pub mod Talk
pub mod Scheduler
