-- ===== src/Lib.antt =====
-- War3 Battle Tool: a lobby server, in which players register, open rooms and join them, and a
-- desktop client that carries a LAN game of Warcraft III between the players of a room.
--
-- The parts, and the files that model them. A file stands under the name of its module.
--
-- Protocol: crates/protocol, shared by the server and the client.
--   Protocol/AddrSafety models crates/protocol/src/addr_safety.rs: `is_safe_external_addr`. An address
--   is its octets or its segments. Protocol/AddrSafety/Blocks reads the test as CIDR blocks.
--   Protocol/War3 models crates/protocol/src/war3.rs: `War3Version`, `broadcast_packet`,
--   `parse_gameinfo` and `decode_stat_string`. Bytes are numbers; an index or a slice out of range,
--   and `0u8 - 1`, is a panic, which `Checked` makes a value. How `String::from_utf8_lossy` reads
--   bytes as text is a parameter.
--   Protocol/Messages models crates/protocol/src/messages.rs: the messages, and `validate`.
-- Server: crates/server.
--   Server/Channel is the `mpsc` channel of 64 messages of each connection; a sender is its number.
--   Server/State models crates/server/src/state.rs: `AppState`, with a function for each method.
--   Server/State/Consistent says what holds between players and rooms.
--   Server/Ws models crates/server/src/ws.rs: `handle_register`, `handle_create_room` and so on are
--   the arms of the match in `handle_socket`; Server/Ws/Upnp and Server/Ws/Join are two larger arms;
--   Server/Ws/Loop is the loop around them, the end of a connection, and `spawn_cleanup_task` of
--   crates/server/src/main.rs.
--   Server/Ws/Tasks has the same handlers as tasks, a section under a lock at a time, for any
--   interleaving: `message_task`, `end_task` and `cleanup_task`. A handler that is dropped is a task that
--   the schedule does not come back to.
--   Server/System puts the connections together: a state of the server, the sessions that are open,
--   `ws_handler` of crates/server/src/main.rs as `accept` and `finish`, and the steps that may follow
--   each other in any order.
--   Server/Tunnel models crates/server/src/tunnel.rs: `TunnelState`; Server/Tunnel/Pairing models
--   `handle_tunnel` up to the relay as one section, Server/Tunnel/Ends the same code by the sections in
--   which it holds a lock, with those of other ends between them, and Server/Tunnel/Relay the loop of
--   `relay`. Server/Tunnel/Joined has the two loops of a tunnel with the channels between them.
--   Server/Origin models the `Origin` check and `real_ip` of crates/server/src/main.rs. The crate `url`
--   is a parameter: a parser that gives a record of what the code reads of a `Url`. Server/Entry is
--   `ws_handler` and `tunnel_handler` of that file, up to the upgrade of the request.
-- Client: crates/client.
--   Client/App models `War3App` of crates/client/src/app.rs: its state, and the starts and aborts of its
--   tasks. A task that is spawned has a number and is in a list until it is aborted or ends.
--   Client/App/Server is `handle_server_message`, Client/App/Network is `process_network_events`, and
--   Client/App/Frame is `update`, with what the buttons of crates/client/src/ui/lobby.rs, the wizard
--   and the settings do.
--   Client/Bridge models `bridge_tcp_ws_with_swap` of crates/client/src/net/tunnel.rs: an iteration of
--   each of its three loops, given what `select!` chose and how the writes end. Client/Bridge/Heard
--   keeps beside the bridge all that it has read.
--   Client/Tunnel models the rest of that file: `run_host_tunnel`, `run_joiner_tunnel` and the two
--   tasks that try QUIC meanwhile; Client/Quic the strategies of crates/client/src/net/quic.rs.
--   Client/Discovery models crates/client/src/net/discovery.rs, over how each attempt to connect and
--   each iteration of a session ends; Client/CmdSender crates/client/src/cmd_sender.rs.
--   Client/LogPanel models `LogPanel` of crates/client/src/ui/log_panel.rs, Client/Logging the layer
--   and the clean-up of crates/client/src/logging.rs, Client/Config the settings of
--   crates/client/src/config.rs, Client/ViewerUrl `web_viewer_base_url` and Client/LobbyPanel the panel
--   of crates/client/src/ui/lobby.rs, Client/Wizard crates/client/src/ui/setup_wizard.rs,
--   Client/Timeline crates/client/src/ui/timeline.rs, Client/Settings the form of crates/client/src/ui/settings.rs with the file that it saves to, and
--   Client/Packet `check_room` of crates/client/src/net/packet.rs.
--
-- Spike has the two experiments: Spike/Packet and Spike/Checksum model `build_packet` and `ip_checksum` of
-- crates/spike-packet/src/main.rs, Spike/Proxy `run_udp_proxy` of crates/spike-raw-udp/src/main.rs.
--
-- Game joins the parts: a client's bridge, the server's tunnel and the other client's bridge.
--
-- Prelude holds the names that the parts share, HashMap the `HashMap` of Rust's standard library: an
-- association list, whose order stands for the order, unspecified in Rust, in which the map is iterated.
--
-- Parameters and bounds. `Env` has what the handlers call and Rust code under crates/ does not define:
-- the parser of JSON messages and the parser and printer of addresses. Identifiers that the code draws
-- at random are arguments; a step of Server/System asks that they are new. The time is an argument, in
-- nanoseconds, and `elapsed` does not fall below 0. Counters keep their saturation: `current_players`
-- stops at 255 and at 0. Two functions run on fuel: the printing of a port, whose five digits are enough
-- for a `u16`, and the folding of the checksum's carries, for which two rounds are enough for a `u32`.
--
-- What is not modelled. In Server/System a handler runs to its end before anything else happens, and so
-- does `handle_join_room`, with its messages and tokens. Server/Ws/Tasks cuts the handlers
-- into the sections in which they hold a lock of `AppState` and lets the sections of others come between;
-- what is sent to the clients is left out there, and so are the tables of the tunnels. The countdown of a
-- web viewer ends a connection like any other end. Log lines are left out, and so are the routes and the
-- static files of main.rs. Of the client the drawing is left out, and what sockets, quinn, rustls, igd
-- and the file system do: a call of these is an argument that says how it ends. The slider of the
-- dialog and `recv_from` are arguments too: that the one keeps within its range and the other within
-- its buffer is a hypothesis. The user does one thing
-- in a frame at most. The background task of a tunnel sends its results at any place among the events of
-- the run, or never; a run that is aborted is not modelled, and when the stream reaches the bridge is the
-- bridge's argument.
mod Prelude
pub mod HashMap
pub mod Protocol
pub mod Server
pub mod Client
pub mod Game
pub mod Spike
