-- ===== src/Lib.antt =====
-- Verification of minihttp, the HTTP/1 and websocket library tk-http.
--
-- The program. src/base_serializer.rs writes the messages of server and client: a state machine
-- whose methods append to an output buffer. In the other direction src/server/headers.rs and
-- src/client/parser.rs read the head of a message and choose how its body ends;
-- src/body_parser.rs then keeps account of the body, with the decoder of src/chunked.rs where it is
-- chunked. The values of Connection, Transfer-Encoding and Expect are tested by src/headers.rs, the
-- middle part of a request line is taken apart by src/server/request_target.rs, and status codes
-- and versions are tables in src/enums. After an upgrade the codecs of src/websocket/codec.rs read
-- and write the frames of src/websocket/zero_copy.rs. The rest joins these parts to sockets, timers
-- and user code.
--
-- The files.
--   Base, and the files below it: lists over the native numbers, results, bits, ASCII, digits.
--   Buffer: the byte buffer of the crates tk_bufstream and netbuf as an interface of three
--     operations and their laws. The development is parametric in it; a plain list meets it.
--   Version, Status: src/enums.
--   HeaderValue: is_close, is_chunked and is_continue of src/headers.rs.
--   Serializer: src/base_serializer.rs. State has the types MessageState and HeaderError, Head the
--     methods up to the headers (response_status, request_line, response_continue, add_header,
--     format_header, add_length, add_chunked), Finish the others (done_headers, write_body, and
--     done, here finish). A method takes state and buffer and returns both, or panics. Trace has
--     sequences of calls, Wire the bytes of whole messages.
--   Chunked: State of src/chunked.rs; turn is the body of its loop.
--   BodyProgress: BodyProgress of src/body_parser.rs.
--   RequestTarget: parse of src/server/request_target.rs.
--   RequestHead: scan_headers of src/server/headers.rs, on what httparse has read of a request. Kind
--     names the arms of its loop. RequestHead/Head: Head, HeaderIter and parse_headers of the same
--     file, with ResponseConfig and the start of a response of src/server/encoder.rs. EndToEnd
--     has the iterator run to its end.
--   Exchange: a request and its response, from its headers to the last byte that is written.
--   Server: src/server/proto.rs, with the modes of src/server/recv_mode.rs. State has the types
--     (PureProto is Connection) and new_body, Reads do_reads, Writes do_writes, Process new, process,
--     timeout and poll. Queue, Sound, Rounds, Turns, Progress and Process/Laws lead from a round of
--     either loop to a whole poll, Process/Wakeups to the life of a connection.
--   Client: src/client/parser.rs. Scan has scan_headers and new_body, Head the iterator of
--     src/client/head.rs and parse_headers, Reader read_and_parse of Parser: read_headers is its first
--     loop, read_body the second. Bodies and StreamEnd follow a body through its pieces. Of
--     src/client/proto.rs Connection has PureProto with poll_writing, Polls poll_reading, which polls
--     that Parser, and poll_complete, Sending start_send and get_timeout; Sound has its invariant,
--     which InFlight and Sends are about, and load, the fuel that the loop of poll_complete needs.
--   Handshake: get_handshake of src/server/websocket.rs (Upgrade), and the texts of the keys of
--     src/websocket/keys.rs (Keys), which Base64 reads back.
--   Utf8: str::from_utf8 and str::trim of the standard library, as they are documented.
--   Websocket: Frame::parse (Parse) and Frame::write (Write) of src/websocket/zero_copy.rs, and the
--     codecs of src/websocket/codec.rs (Codec).
--
-- How the code is rendered. Bytes and characters are numbers, text is its bytes. A panic is a value
-- of the type Run, an error a value of the type Result. A usize is taken to have 64 bits. Where the
-- code may overflow, in the decoder of src/chunked.rs, an overflow is a panic, as in a build with
-- overflow checks. The loop of that decoder runs on fuel: each round leaves fewer bytes to look at,
-- so one more round than the buffer has bytes is enough. So does the loop of trim, which takes a
-- byte at least in each round. In Frame::parse the sum of the
-- frame's parts is not checked against 2^64, since the limit bounds it.
--
-- Code outside the repository is a parameter: the buffer (Buffer), the reads of the crate byteorder
-- (Websocket/Frame, ByteOrder), parse_chunk_size and Request::parse of the crate httparse (Chunked,
-- SizeParser, RequestHead/Head, RequestParser, and Client/Head, ResponseParser), the digest of the
-- crate sha1 (Handshake/Keys), each with the documented laws that the proofs
-- use and with an instance that meets them. For a connection of the server the socket is a list of
-- what the next reads bring and what the next flushes send, the clock a function of the number of
-- times it was read, and the application (Server/State, Service) its answers with their states; what
-- is done to requests is recorded with the connection. Of the parser of responses the socket and the
-- codec are rendered likewise; its first loop takes an event of the socket in each round. A
-- connection of the client lends its socket to that parser and gives each of its polls the fuel
-- `bound`; since a loop of the parser may come to no end, running out is an outcome of its own there,
-- as is a panic of the parser (Client/Connection, Outcome). What the encoder of a request puts into
-- the cells that it shares with parser and connection comes with the answers of the application
-- (Signals). A panic in the code of the application is not rendered. The loops run on fuel; work and turns
-- (Server/Sound, Server/Turns/Ends) say how much is enough. The mask that the crate rand draws is an argument, and
-- so is the dispatcher of parse_headers.
--
-- Not modelled: sockets, futures, timers, which the wrapper Proto of src/client/proto.rs sets, and
-- the connection in src/websocket/dispatcher.rs; the methods of
-- src/server/encoder.rs and src/client/encoder.rs, which pass on to the serializer or wait for the
-- socket; the texts of errors and panics, and the configuration builders.
pub mod Base
pub mod Buffer
pub mod Status
pub mod Version
pub mod HeaderValue
pub mod Serializer
pub mod Utf8
pub mod Websocket
pub mod Chunked
pub mod BodyProgress
pub mod RequestTarget
pub mod RequestHead
pub mod Exchange
pub mod Server
pub mod Client
pub mod Handshake
