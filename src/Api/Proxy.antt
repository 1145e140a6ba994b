-- ===== src/Api/Proxy.antt =====
-- src/api/proxy.rs: a connection that may begin with a header of the PROXY protocol. The header is
-- parsed by the crate `ppp` and the bytes come from a socket: both are parameters.
pub mod Header
pub mod Reads
pub mod Writes
mod Tests
use acme_dns_rust.Base.{
  ℕ, zero, suc, ◌-◌, Bool, true, false, ◌&&◌, Option, none, some, List, [], ◌∷◌, ◌++◌, ◌==◌,
  if◌then◌else◌, leb, length, drop, String,
}
use acme_dns_rust.Base.Outcome.{Outcome, ok, err, panic, Error, ErrorKind}
use acme_dns_rust.Api.Metrics.{Bytes}
use acme_dns_rust.Config.Listener.{ProxyProtocol, enabled, disabled}

-- What a poll of a future or a stream answers. `pending true` has arranged to be woken, `pending
-- false` has not.
pub data Poll {ℓ} (A : Type ℓ) : Type ℓ where
  ready : Outcome A → Poll A
  pending : Bool → Poll A

-- What the socket answers to a read: bytes (none at the end of the stream), an error, or nothing
-- yet, and then it wakes the task when bytes arrive.
pub data Read : Type 0 where
  bytes : Bytes → Read
  failed : Error → Read
  waiting : Read

-- The socket: a read into a buffer with so much room, and a read that appends to a vector.
pub record Reader (T : Type 0) : Type 0 where
  pub poll_read : ℕ → T → Read × T
  pub poll_read_buf : T → Read × T

pub data SocketAddr : Type 0 where
  v4 : Bytes → ℕ → SocketAddr
  v6 : Bytes → ℕ → (flow scope : ℕ) → SocketAddr

-- `ppp::model::Addresses`, as far as the source of the connection goes.
pub data Addresses : Type 0 where
  ipv4 : Bytes → Option ℕ → Addresses
  ipv6 : Bytes → Option ℕ → Addresses
  other : String → Addresses

-- `ppp::parse_header`: `Err(Incomplete)`, `Err(Failure)`, or the bytes after the header and what
-- the header says.
pub data Parsed : Type 0 where
  incomplete failure : Parsed
  header : Bytes → Addresses → Parsed

pub record ProxyStream (T : Type 0) : Type 0 where
  pub stream : T
  pub buffered : Option Bytes
  pub start_of_data : ℕ

-- `source`
unfoldable pub source : {T : Type 0} → T → ProxyProtocol → ProxyStream T
source stream enabled = record { stream = stream; buffered = some []; start_of_data = 0 }
source stream disabled = record { stream = stream; buffered = none; start_of_data = 0 }

abbrev pub port_or_default : Option ℕ → ℕ
port_or_default none = 0
port_or_default (some port) = port

unfoldable pub format_header : Addresses → Outcome SocketAddr
format_header (ipv4 address port) = ok (v4 address (port_or_default port))
format_header (ipv6 address port) = ok (v6 address (port_or_default port) 0 0)
format_header (other address) = err (Error.io ErrorKind.other address)

abbrev pub map_some {ℓ} : {A : Type ℓ} → Outcome A → Outcome (Option A)
map_some (ok a) = ok (some a)
map_some (err e) = err e
map_some panic = panic

-- What a read leaves: its answer and the bytes in the caller's buffer.
pub record ReadResult : Type 0 where
  pub answer : Poll (Unit {0})
  pub written : Bytes

abbrev pub answer_of : Read → Poll (Unit {0})
answer_of (bytes b) = ready (ok tt)
answer_of (failed e) = ready (err e)
answer_of waiting = pending true

abbrev pub bytes_of : Read → Bytes
bytes_of (bytes b) = b
bytes_of _ = []

abbrev pub panicked : ReadResult
panicked = record { answer = ready panic; written = [] }

-- A task that awaits a future: it is polled again when it is woken, and only then.
pub data Awaited (T : Type 0) : Type 0 where
  finished : Outcome (Option SocketAddr) → ProxyStream T → Awaited T
  hung out_of_fuel : Awaited T

abbrev pub settle :
    {T : Type 0}
    → Poll (Option SocketAddr) × ProxyStream T
    → (ProxyStream T → Awaited T)
    → Awaited T
settle (ready result, s) again = finished result s
settle (pending true, s) again = again s
settle (pending false, s) again = hung

module _ {T : Type 0} (reader : Reader T) (parse_header : Bytes → Parsed) where
  -- `get_header`, on the buffer and what the parser makes of it. On an incomplete header it
  -- answers `Pending`, although the read before it was ready and no one is to wake the task.
  unfoldable pub get_header : ProxyStream T → Poll (Option SocketAddr) × ProxyStream T
  unfolding format_header
  get_header s = elim s.buffered [
    | none ↦ (ready panic, s)
    | some buffered ↦ elim (parse_header buffered) [
      | incomplete ↦ (pending false, s)
      | failure ↦ (ready (err (Error.io ErrorKind.invalid_data "Proxy Parser Error")), s)
      | header remaining addresses ↦ (
        ready (map_some (format_header addresses)),
        record s { start_of_data = length buffered - length remaining },
      )
    ]
  ]

  -- `RealAddrFuture::poll`
  unfoldable pub poll_addr : ProxyStream T → Poll (Option SocketAddr) × ProxyStream T
  poll_addr s = elim s.buffered [
    | none ↦ (ready (ok none), s)
    | some buffered ↦
        let (read, stream) = reader.poll_read_buf s.stream in
        elim read [
          | waiting ↦ (pending true, record s { stream = stream })
          | failed e ↦ (ready (err e), record s { stream = stream })
          | bytes b ↦
              let s' : ProxyStream T = record s {
                stream = stream;
                buffered = some (buffered ++ b);
              } in
              if length b == 0
              then (
                ready (
                    err (
                      Error.io ErrorKind.unexpected_eof
                        "Stream finished before end of proxy protocol header")),
                s',
              )
              else get_header s'
        ]
  ]

  -- `real_addr().await` in `wrap`, which hands the connection on whatever the answer is.
  unfoldable pub await_addr : ℕ → ProxyStream T → Awaited T
  await_addr zero s = out_of_fuel
  await_addr (suc fuel) s = settle (poll_addr s) (await_addr fuel)

module _ {T : Type 0} (reader : Reader T) where
  -- `AsyncRead::poll_read`: the buffered bytes after the header first, then a read of the socket
  -- into the room that is left. `put_slice` panics where the room is too small, and a slice
  -- where its start lies past the end.
  unfoldable pub poll_read : ℕ → ProxyStream T → ReadResult × ProxyStream T
  poll_read room s = elim s.buffered [
    | none ↦
        let (read, stream) = reader.poll_read room s.stream in
        (record { answer = answer_of read; written = bytes_of read }, record s { stream = stream })
    | some buffered ↦
        let rest = drop s.start_of_data buffered in
        let (read, stream) = reader.poll_read (room - length rest) s.stream in
        if leb s.start_of_data (length buffered) && leb (length rest) room
        then (
          record { answer = answer_of read; written = rest ++ bytes_of read },
          record s { stream = stream; buffered = none },
        )
        else (panicked, record s { buffered = none })
  ]
