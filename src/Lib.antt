-- ===== src/Lib.antt =====
-- The terminal protocol of blit: what a server sends of a terminal and what a client makes of it, the
-- server's session behind it, and the STUN and TURN messages of the WebRTC forwarder.
--
-- crates/remote/src/lib.rs holds the wire protocol, the frame of a terminal, the client's terminal
-- that updates are applied to, and the server's builder of updates. The server calls
-- `build_update_msg` with the frame to show and the frame that the client last got; the client reads
-- the message with `parse_server_msg` and hands its payload to `TerminalState::feed_compressed`,
-- which changes the client's frame. crates/server/src/lib.rs keeps the session: the PTYs, and for each
-- client what it subscribes to, shows and was sent; `handle_client` takes the clients' messages, and
-- `tick` sends frames. crates/webrtc-forwarder/src/turn.rs speaks STUN and TURN. The files:
--
-- Base      helpers: words and slices of bytes, sets of bits, exclusive or, UTF-8, loops, maps
-- Wire      tags and messages: `ServerMsg`; Wire/Client the builders `msg_*`; Wire/Server the
--           messages built in crates/server/src/lib.rs (`pty_list_msg`, `build_search_results_msg`
--           and those built in place by the client handler); Wire/Parse `parse_server_msg`
-- Cell      the 12 bytes of a cell: `encode_cell`, `encode_color` and what `cell_style` reads
-- Frame     `FrameState`; Frame/Draw its writers (`set_cell`, `fill_rect`, `write_text`, ...),
--           Frame/Wrap `wrap_text_lines`, Frame/Read its readers (`get_text`, `get_ansi_text`, ...),
--           Frame/Valid the invariant
-- Terminal  `TerminalState`: Terminal/Ops the operations on cells, Terminal/Payload
--           `apply_payload`, Terminal/Feed `feed_compressed` and `feed_compressed_batch`
-- Diff      `build_update_msg`: Diff/Patch `build_patch_op`, Diff/Scroll `detect_vertical_scroll`,
--           Diff/Fill `append_full_width_fill_ops`, Diff/Update the choice of operations and the
--           message
-- Dom       `Dom` and `CallbackRenderer`
-- Server    crates/server/src/lib.rs: Server/Client `ClientState` and the operations on it,
--           Server/Session `Session`, the ids of PTYs and their sizes, Server/Create what the messages
--           that create a PTY ask for, Server/Handler and Server/Reply the arms of `handle_client`,
--           Server/Dispatch its loop, Server/Delivery the way of a frame to a client; the invariant of
--           a client is in Server/Client/Valid, that of a session in Server/Session/Keeps
-- Stun      crates/webrtc-forwarder/src/turn.rs: Stun the messages, Stun/Turn the exchanges
-- Transport the framing of messages on a stream: `read_frame`, `write_frame`, `make_frame` of the server
--           and of crates/cli/src/transport.rs
-- Cli       `parse_escapes` of crates/cli/src/agent.rs, `shell_escape` of crates/cli/src/transport.rs
-- Tests     concrete frames, messages and sessions
--
-- A `u8`, `u16`, `u32` or `usize` is a number; a wrap or a saturation of the source is written out,
-- and a theorem that needs a bound states it. A `usize` is unbounded but in `batch_loop`, whose
-- caller is the browser's module, for wasm32: there it has 32 bits. A `TerminalState` is the frame
-- that it wraps. A mutable borrow is passed and given back. Bytes read out of range read as 0: each
-- such read of the source stands behind a test of the length, and the tests are in the model, but for
-- the text of a cell (`content_at`): where its length says 5 or 6 in the last cell of the grid, the
-- source panics, and the model gives what is left of the cells. Where the writing of a cell
-- (Frame/Draw) is out of range, the source panics, and in the model the cells become more than the
-- grid has, which no valid frame has. A `BTreeMap` of overflow strings is a list in the order of its
-- keys. A string is its UTF-8 bytes, or, where the source takes it apart by characters, its code
-- points. Compression (crate lz4_flex) and the display width of characters (crate unicode-width) are
-- parameters.
--
-- In the server a map or a set is a list of keys, in the order of their entry, a time is a number,
-- and the channel to a client is the messages that wait in it. What the session asks of the operating
-- system is written down in `os_calls`; what the operating system gives (`spawn_pty`,
-- `respawn_child`) is the record `System`, and the terminal behind a PTY any `PtyDriver`. A lock is
-- held over a whole handler; `tick` lets go of it while it builds an update, and there other steps
-- come between (Server/Delivery). A transaction id, HMAC-SHA1, MD5 and `String::from_utf8_lossy` are
-- parameters of Stun; the datagrams that arrive in time are a list.
--
-- Loops `while` run on fuel: `batch_loop` on the length of the batch, since a round reads four bytes;
-- `fill_row` on the width of the rectangle, since a round goes on by a column; `fill_loop` on the
-- number of rows, since a round goes on by a row; `attrs_loop` on the length of the attributes, since a
-- round reads four bytes; `read_pages` on the number of lines, since a round goes on by the rows of a
-- terminal, of which it has one at least; `escape_loop` on the length of the text, since a round takes a
-- byte; `strip` on the length of the text, since a round takes a character.
--
-- Not modelled: the server's estimates in floating point and the rest of `tick`, its sockets and
-- processes, the relay tasks of TURN, the terminal driver, the browser, the rest of the command line,
-- the gateway, the web server and fonts.
pub mod Base
pub mod Wire
pub mod Cell
pub mod Frame
pub mod Terminal
pub mod Diff
pub mod Dom
pub mod Stun
pub mod Server
pub mod Transport
pub mod Cli
pub mod Tests
