-- ===== src/Lib.antt =====
-- rusnmp: a client library for SNMP v1, v2c and v3. This is a model of its codec, of its v1/v2c client,
-- of its trap receiver and of the security model of v3, with theorems about them.
--
-- The parts of the program and where they are modelled:
-- - src/error.rs, `SnmpError`: Error. The texts of `SnmpError::Decode` are the constructors of
--   `DecodeText`, with the numbers that `format!` puts into them. `Outcome` is `Result` with two more
--   constructors: `panicked` for a panic, and `out_of_fuel`, which the program does not have.
-- - src/types.rs, `Oid`, `Value`, `VarBind`, `Version`: Types, and their text functions (`from_str`,
--   `Display`, `Debug`, `as_str`): Types.Text. A text is the list of its UTF-8 bytes. What the functions
--   use of the standard library (`parse`, `split`, `join`, `to_string`, `from_utf8`) is written out.
-- - src/codec.rs, `BerEncoder` and the encoders of contents: Codec.Encoder. The encoder is its buffer, and
--   a method with `&mut self` maps a buffer to the next.
-- - src/codec.rs, `BerDecoder` and the decoders of contents: Codec.Decoder. The decoder is a slice and an
--   index, and a method is a `Run` (module Run) on it: the index comes back beside an error too.
-- - src/codec.rs, `encode_get_request` and the other requests: Codec.Pdu; `decode_response`:
--   Codec.Response.
-- - src/client.rs, `SnmpClient`: Client, and `walk` in Client.Walk and Client.Subtree. The socket is the
--   list of what the network does at each exchange that is still to come: the send fails, nothing comes
--   within the timeout, the receive fails, or a datagram comes. The client also keeps the log of what
--   it sent. A client whose list is used up times out.
-- - src/trap.rs, `TrapReceiver`: Trap. What `recv_from` yields is a list of arrivals, a socket address is
--   of any type. Nothing in the repository writes a v1 trap: its layout is `v1_content` in
--   Trap.VersionOne.
-- - src/v3.rs, `UsmCredentials` and `EngineState`: V3; the messages of v3: V3.Messages; keys,
--   authentication and encryption: V3.Crypto. The digests, MACs and ciphers of the crates are the record
--   `Crypto`, an argument of what uses them; `CryptoLaws` (V3.Crypto.Ciphers) is what their documentation
--   says of lengths and inverses.
-- - src/v3_client.rs, the client of v3: V3.Client has the lines that find, put in and check an
--   authentication code; V3.Client.State the state, the counters, the discovery, the keys and `new`;
--   V3.Client.Requests what a request does (`send_request`, and `get_bulk`, which repeats its lines
--   without the check of the code) and the requests; V3.Client.Walk `walk`, whose loop and scan are those of
--   src/client.rs. V3.Client.Requests.Course lists the courses of a request as an indexed type.
-- The client and the receiver call the codec only: requests go through `encode_*_request`, answers
-- through `decode_response`, and `TrapReceiver` and src/v3.rs use `BerDecoder` themselves.
--
-- Numbers. A byte, a u32 or a usize is a natural number, a usize has 64 bits. Sums on usize, shifts and
-- casts wrap as in a release build and the wrap-around is written out. i64 and i32 are integers with
-- their casts in Prelude.Int. A slice is shorter than 2 ^ 63, which Rust guarantees, and theorems that
-- need it say so.
--
-- Loops. The loop over the variable bindings has the length of its slice as fuel, since a round takes two
-- bytes at least. The loop of `walk` has one round more than there are exchanges, since a round
-- uses up an exchange. `decode_oid` has the number of its bytes as fuel. The loop that
-- feeds a hasher with the repeated password has its 1048576 bytes as fuel, and a round feeds one
-- at least. The digits of a u32 are ten at most, the fuel of `decimal`. The other loops are recursions
-- on a list or on a number of rounds that the code counts.
--
-- The proofs of round trips rest on two predicates on readers. `Reads p a bs` (Codec.Decoder.Reads) says
-- that `p` takes `bs` off the front of what is left and returns `a`; `Gives` (Codec.Decoder.Gives) says
-- which outcome it ends with. The proofs of termination rest on `Guarded` (Codec.Decoder.Guarded): a
-- reader keeps its slice, moves forward inside it and does not run out of fuel.
--
-- What a walk is for is said of an agent with entries in the lexicographic order of their identifiers
-- (Client.Walk.Mib): the entries below the root. `Walker` (Client.Walk.Conversation) is what a walk needs
-- of a client, and both clients fill it: the request of a round, the network, the log of what was sent,
-- and the packet that asks for what follows an identifier, which is described apart from the code that
-- makes it. `Serves` is a conversation with such an agent, each packet with its answer; `Walked` says of a
-- run that it sent the packets of a conversation, in order, up to its end.
--
-- Not modelled: how addresses are parsed, sockets bound (`TrapReceiver::bind`) and random numbers drawn,
-- which the constructors of the client take as arguments; logging; src/lib.rs, which only passes names on.
pub mod Prelude
pub mod Error
pub mod Run
pub mod Types
pub mod Codec
pub mod Client
pub mod Trap
pub mod V3
