-- ===== src/Lib.antt =====
-- Verification of freeswitch-esl-tokio, a client of FreeSWITCH's event socket (ESL).
--
-- The program. Bytes that arrive on a TCP connection go into a buffer (src/buffer.rs), out of which
-- a parser (src/protocol.rs) cuts messages: header lines up to a blank line, and a body of the
-- length that `Content-Length` gives. A message is the reply to a command (`EslResponse` of
-- src/command.rs) or carries an event (src/event.rs), whose headers name the states of a channel
-- (src/channel.rs) and may hold arrays (src/variables). Commands are turned into bytes by
-- `to_wire_format` (src/command.rs), and the commands of FreeSWITCH's API are built and read in
-- src/commands.
--
-- The files.
--   Prelude, Text     bytes, `Result`, and the functions of Rust's `str` that the source calls
--   Constants         src/constants.rs
--   Error             src/error.rs: `EslError`
--   Buffer            src/buffer.rs: `EslBuffer` is the record of its bytes and its position; the
--                     operations have the names of the methods, but `data` is `unread`
--   Headers           the `HashMap<String, String>` of headers, an association list
--   Protocol          src/protocol.rs: `EslParser`, `add_data`, `parse_message`; a method returns
--                     the parser that it leaves behind and its result. Framer is the abstract
--                     parser without buffer and position; Refinement, Resume, Stream, Progress
--                     and Segmentation lead from it to streams cut into chunks. Events has
--                     `parse_event` in its three formats; Plain, Written, Restored and RoundTrip
--                     are about the plain one, Formats is about the other two, Mapped about all
--   Variables         src/variables: `EslArray`, `MultipartBody`
--   Event             src/event.rs: `EslEvent`, the event types, the plain format
--   Command           src/command.rs: `EslResponse`, `CommandBuilder`, `EslCommand`
--   Channel           src/channel.rs and the accessors of src/event.rs that read it
--   Commands          src/commands: quoting, splitting, channel variables, applications, endpoints
--                     and `originate` (Builder; Line, Arguments and Restored read it back), and the
--                     `uuid_` and `conference` commands
--   App               src/app/dptools.rs: the application commands
--   Connection        src/connection.rs: the status, and `dispatch_event` over a bounded channel
--                     (Queue, Overflow, Notices). Reader is `reader_loop_inner` in its two halves, parsing
--                     and reading, and Session its loop as a relation over what the reads return,
--                     with no call and no receiver beside it;
--                     Chunks, Stream, Ending, Status, Liveness and Bounds are about it. Client is
--                     `send_command`; Calls has the steps of any number of calls beside the reader
--                     task, and Slot, Routing, Attended, Phase, Order and Late follow the reply
--                     slot. Handshake is `connect_inner`, with Leftover and Connect about what it
--                     takes from the stream. Methods are those of `EslClient`; Open has the ways to
--                     connect and to disconnect
--   Tracker           examples/channel_tracker.rs: Tracked is `TrackedChannel`, Bootstrap reads the
--                     list of channels, Main has the loop of `main`. Views and Heard are about
--                     single events, Started, Fields and Rows about the list, Dumps, Said,
--                     Jobs and Arrival about the dump of a channel, and Refinement about the loop; Start has
--                     what comes before it
--   Filter            examples/event_filter.rs: its arguments (Arguments, Choices, Accepted)
--                     and its Output
--   Wire              the `match` of a text in the `FromStr` of an enum
--   Tests             the theorems at concrete inputs
--
-- Conventions. A text is the list of its bytes in UTF-8. A method that mutates takes the state and
-- returns the new one; an early return of an error is the `err` of `Result`. The loops are
-- structural recursion, so none runs on fuel but `Text.Decimal.digits`, whose bound is the number
-- itself and one more, and no number has more digits than that. `usize` has 64 bits. The upper
-- and the lower case are right as far as a comparison with ASCII texts can tell.
--
-- Parameters. The crate percent_encoding is `percent_decode` and `percent_encode`; the order in
-- which a `HashMap` is walked is `order`, of which the theorems use that it gives a permutation of
-- the entries; the crate indexmap is the record `Commands.Originate.IndexMap`, and the channel of
-- tokio the record `Connection.MpscChannel`. The crates serde_json and quick_xml are the records
-- `Protocol.Events.SerdeJson` and `Protocol.Events.XmlReader`: what a text is parsed to (for the
-- tracker it is `Tracker.Bootstrap.JsonRows`). The socket is the list of what its reads return, each
-- with the time, and whether a write fails is an argument. A sender of a oneshot channel is the number
-- of the call that waits for it.
--
-- Time is a number of nanoseconds. Calls and the reader task take turns at the points where the source
-- awaits, in any order; the reader task handles a message in one step, since it awaits only the lock
-- of the reply slot, which nobody holds over another await.
--
-- Not modelled: of the programs in examples what they log, and all of the four that only call the
-- library and print; and the capacity of the buffer.
pub mod Prelude
pub mod Constants
pub mod Text
pub mod Wire
pub mod Error
pub mod Buffer
pub mod Headers
pub mod Protocol
pub mod Variables
pub mod Event
pub mod Command
pub mod Channel
pub mod Commands
pub mod App
pub mod Connection
pub mod Tracker
pub mod Filter
pub mod Tests
