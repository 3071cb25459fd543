-- ===== src/Trap.antt =====
-- src/trap.rs: `TrapReceiver`. A socket address is of any type `Addr`; what the socket delivers is a
-- list of events.
pub mod Ends
pub mod Receive
pub mod Notify
pub mod VersionOne
pub mod VersionThree
mod Examples
use rusnmp.Prelude.{ℕ, List, [], ◌∷◌, take, Option, none, some, ◌==◌, if◌then◌else◌}
use rusnmp.Prelude.Int.{ℤ, as_i32, as_u32}
use rusnmp.Error.{
  Outcome, ok, err, panicked, out_of_fuel, io, decode, expected_trap_v1, expected_trap_v2,
}
use rusnmp.Run.{pure, fail, lift, eval, ◌>>=◌, ◌>>◌}
use rusnmp.Types.{Oid, VarBind, Version, v1, v2c, v3}
use rusnmp.Codec.Decoder.{
  Reader, new, read_tag, read_length, read_raw, read_tlv, read_sequence, read_integer,
  read_octet_string, read_oid,
}
use rusnmp.Codec.Response.{version_of, read_varbinds}

abbrev pub Ipv4 : Type 0
Ipv4 = ℕ × ℕ × ℕ × ℕ

pub record Trap (Addr : Type 0) : Type 0 where
  pub source : Addr
  pub version : Version
  pub community : List ℕ
  pub varbinds : List VarBind
  pub enterprise : Option Oid
  pub agent_addr : Option Ipv4
  pub generic_trap : Option ℤ
  pub specific_trap : Option ℤ
  pub timestamp : Option ℕ

abbrev pub pdu_trap_v1 : ℕ
pdu_trap_v1 = 0xA4

abbrev pub pdu_trap_v2 : ℕ
pdu_trap_v2 = 0xA7

-- `addr_data.len() == 4` and the four bytes.
unfoldable pub agent_addr_of : List ℕ → Option Ipv4
agent_addr_of (a ∷ b ∷ c ∷ d ∷ []) = some (a, b, c, d)
agent_addr_of _ = none

-- Three integers that are read and dropped, and the bindings.
unfoldable pub read_notification_pdu : Reader (List VarBind)
read_notification_pdu = do
  request_id ← read_integer
  error_status ← read_integer
  error_index ← read_integer
  vbl ← read_sequence
  lift (eval read_varbinds vbl)

unfoldable pub read_v3_header : Reader (Unit {0})
read_v3_header = do
  msg_id ← read_integer
  max_size ← read_integer
  flags ← read_octet_string
  security_model ← read_integer
  pure tt

unfoldable pub read_v3_scoped : Reader (List VarBind)
unfolding read_notification_pdu
read_v3_scoped = do
  context_engine_id ← read_octet_string
  context_name ← read_octet_string
  pdu_tag ← read_tag
  pdu_len ← read_length
  pdu_data ← read_raw pdu_len
  lift (eval read_notification_pdu (new pdu_data))

module _ {Addr : Type 0} where
  unfoldable pub read_v1_pdu : List ℕ → Addr → Reader (Trap Addr)
  unfolding agent_addr_of
  read_v1_pdu community source = do
    enterprise ← read_oid
    (tag, addr_data) ← read_tlv
    generic_trap ← read_integer
    specific_trap ← read_integer
    timestamp ← read_integer
    vbl ← read_sequence
    varbinds ← lift (eval read_varbinds vbl)
    pure (record {
      source = source;
      version = v1;
      community = community;
      varbinds = varbinds;
      enterprise = some enterprise;
      agent_addr = agent_addr_of addr_data;
      generic_trap = some (as_i32 generic_trap);
      specific_trap = some (as_i32 specific_trap);
      timestamp = some (as_u32 timestamp);
    })

  unfoldable pub decode_v1_trap : Addr → Reader (Trap Addr)
  unfolding read_v1_pdu
  decode_v1_trap source = do
    community ← read_octet_string
    pdu_tag ← read_tag
    if pdu_tag == pdu_trap_v1
        then (do
          pdu_len ← read_length
          pdu_data ← read_raw pdu_len
          lift (eval (read_v1_pdu community source) (new pdu_data)))
        else fail (decode (expected_trap_v1 pdu_tag))

  -- What v2c and v3 notifications fill in.
  abbrev pub notification : Addr → Version → List ℕ → List VarBind → Trap Addr
  notification source version community varbinds = record {
    source = source;
    version = version;
    community = community;
    varbinds = varbinds;
    enterprise = none;
    agent_addr = none;
    generic_trap = none;
    specific_trap = none;
    timestamp = none;
  }

  unfoldable pub decode_v2c_trap : Addr → Reader (Trap Addr)
  unfolding read_notification_pdu
  decode_v2c_trap source = do
    community ← read_octet_string
    pdu_tag ← read_tag
    if pdu_tag == pdu_trap_v2
        then (do
          pdu_len ← read_length
          pdu_data ← read_raw pdu_len
          varbinds ← lift (eval read_notification_pdu (new pdu_data))
          pure (notification source v2c community varbinds))
        else fail (decode (expected_trap_v2 pdu_tag))

  unfoldable pub decode_v3_trap : Addr → Reader (Trap Addr)
  unfolding read_v3_header read_v3_scoped
  decode_v3_trap source = do
    header ← read_sequence
    lift (eval read_v3_header header)
    security_params ← read_octet_string
    scoped ← read_sequence
    varbinds ← lift (eval read_v3_scoped scoped)
    pure (notification source v3 [] varbinds)

  unfoldable pub decode_by_version : Version → Addr → Reader (Trap Addr)
  unfolding decode_v1_trap decode_v2c_trap decode_v3_trap
  decode_by_version v1 source = decode_v1_trap source
  decode_by_version v2c source = decode_v2c_trap source
  decode_by_version v3 source = decode_v3_trap source

  unfoldable pub read_trap : Addr → Reader (Trap Addr)
  unfolding version_of decode_by_version
  read_trap source = do
    ver ← read_integer
    version ← lift (version_of ver)
    decode_by_version version source

  unfoldable pub decode_trap : List ℕ → Addr → Outcome (Trap Addr)
  unfolding read_trap
  decode_trap bytes source =
      eval (do msg ← read_sequence; lift (eval (read_trap source) msg)) (new bytes)

-- What `recv_from` yields: a datagram with its sender, or an error.
pub data Arrival (Addr : Type 0) : Type 0 where
  datagram : List ℕ → Addr → Arrival Addr
  failure : Arrival Addr

-- The state of a call of `recv`: it returned, or waits for another arrival.
pub data Recv (Addr : Type 0) : Type 0 where
  returned : Outcome (Trap Addr) → List (Arrival Addr) → Recv Addr
  waiting : Recv Addr

module _ {Addr : Type 0} where
  unfoldable pub on_decoded : Outcome (Trap Addr) → List (Arrival Addr) → Recv Addr → Recv Addr
  on_decoded (ok trap) rest continue = returned (ok trap) rest
  on_decoded (err e) rest continue = continue
  on_decoded panicked rest continue = returned panicked rest
  on_decoded out_of_fuel rest continue = returned out_of_fuel rest

  -- The loop of `recv`: the buffer holds 65535 bytes, an undecodable datagram is passed over.
  unfoldable pub recv : List (Arrival Addr) → Recv Addr
  unfolding on_decoded decode_trap
  recv [] = waiting
  recv (failure ∷ rest) = returned (err io) rest
  recv (datagram bytes source ∷ rest) =
      on_decoded (decode_trap (take 65535 bytes) source) rest (recv rest)
