-- ===== src/Api/Proxy/Header.antt =====
-- Reading the header takes no byte away from the connection, on any branch.
use acme_dns_rust.Base.{
  ℕ, suc, ◌-◌, ◌<◌, ◌≡◌, refl, false, Option, none, some, [], ◌++◌, length, drop, arith,
  append_assoc, append-nil, drop-length_sub,
}
use acme_dns_rust.Base.Outcome.{ok}
use acme_dns_rust.Api.Metrics.{Bytes}
use acme_dns_rust.Api.Proxy.{
  ready, pending, Read, bytes, failed, waiting, Reader, Addresses, Parsed, incomplete, header,
  ProxyStream, format_header, map_some, get_header, poll_addr, bytes_of, finished, await_addr,
}

-- The bytes that a socket is still to give, and how its reads take from them.
pub record Content {T : Type 0} (reader : Reader T) : Type 0 where
  pub left : T → Bytes
  pub taken :
      (room : ℕ) (t : T)
      → left t ≡ bytes_of (reader.poll_read room t).0 ++ left (reader.poll_read room t).1
  pub taken_buf :
      (t : T) → left t ≡ bytes_of (reader.poll_read_buf t).0 ++ left (reader.poll_read_buf t).1

-- The parser gives back the end of what it was given.
abbrev pub TakesPrefix : (Bytes → Parsed) → Type 0
TakesPrefix parse_header =
    (input remaining : Bytes) (a : Addresses)
    → parse_header input ≡ header remaining a
    → (front : Bytes) × (input ≡ front ++ remaining)

abbrev pub or_empty : Option Bytes → Bytes
or_empty none = []
or_empty (some b) = b

abbrev pub buffer : {T : Type 0} → ProxyStream T → Bytes
buffer s = or_empty s.buffered

module _ {T : Type 0} (reader : Reader T) (content : Content reader) where
  -- All that came and is to come, the header with it.
  abbrev pub received : ProxyStream T → Bytes
  received s = buffer s ++ content.left s.stream

  -- What is still to be read through the connection.
  abbrev pub unread : ProxyStream T → Bytes
  unread s = drop s.start_of_data (buffer s) ++ content.left s.stream

abbrev pub conn : {T : Type 0} → T → Option Bytes → ℕ → ProxyStream T
conn t b n = record { stream = t; buffered = b; start_of_data = n }

module _ {T : Type 0} (reader : Reader T) (parse_header : Bytes → Parsed) where
  get_header-keeps :
      (s : ProxyStream T)
      → ((get_header reader parse_header s).1.stream ≡ s.stream)
        × ((get_header reader parse_header s).1.buffered ≡ s.buffered)
  unfolding get_header
  get_header-keeps s = ground arith

  -- The buffer after a poll: the bytes read are added to it.
  poll_addr-conn :
      (t : T) (b : Bytes) (n : ℕ)
      → ((poll_addr reader parse_header (conn t (some b) n)).1.stream ≡ (reader.poll_read_buf t).1)
        × ((poll_addr reader parse_header (conn t (some b) n)).1.buffered
            ≡ some (b ++ bytes_of (reader.poll_read_buf t).0))
  unfolding poll_addr
  poll_addr-conn t b n = by_read (reader.poll_read_buf t).0 refl
    where
      by_read :
          (r : Read)
          → (reader.poll_read_buf t).0 ≡ r
          → ((poll_addr reader parse_header (conn t (some b) n)).1.stream
              ≡ (reader.poll_read_buf t).1)
            × ((poll_addr reader parse_header (conn t (some b) n)).1.buffered
                ≡ some (b ++ bytes_of (reader.poll_read_buf t).0))
      by_read (bytes c) e =
          ground (arith, get_header-keeps (conn (reader.poll_read_buf t).1 (some (b ++ c)) n))
      by_read (failed x) e = ground (arith, append-nil b)
      by_read waiting e = ground (arith, append-nil b)

  poll_addr-none :
      (t : T) (n : ℕ)
      → poll_addr reader parse_header (conn t none n) ≡ (ready (ok none), conn t none n)
  unfolding poll_addr
  poll_addr-none t n = refl

module _ {T : Type 0} (reader : Reader T) (content : Content reader)
    (parse_header : Bytes → Parsed) where
  received-poll_addr-conn :
      (t : T) (b : Option Bytes) (n : ℕ)
      → received reader content (poll_addr reader parse_header (conn t b n)).1
        ≡ received reader content (conn t b n)
  received-poll_addr-conn t none n = rw (poll_addr-none reader parse_header t n)
  received-poll_addr-conn t (some b) n =
      let (same, more) = poll_addr-conn reader parse_header t b n in
      rw (same, more, content.taken_buf t) (append_assoc b _ _)

  -- Whatever a poll for the header answers, errors included, no byte of the connection is lost:
  -- what is buffered and what the socket has left are together the same as before.
  pub received-poll_addr :
      (s : ProxyStream T)
      → received reader content (poll_addr reader parse_header s).1 ≡ received reader content s
  received-poll_addr s = received-poll_addr-conn s.stream s.buffered s.start_of_data

-- What a poll answers once the socket has given bytes and the header is complete.
module _ {T : Type 0} (reader : Reader T) (parse_header : Bytes → Parsed)
    (prefix : TakesPrefix parse_header) (t t' : T) (b c remaining : Bytes) (n : ℕ) (a : Addresses)
    (got : reader.poll_read_buf t ≡ (bytes c, t')) (some_bytes : 0 < length c)
    (parsed : parse_header (b ++ c) ≡ header remaining a) where
  pub poll_addr-header : poll_addr reader parse_header (conn t (some b) n) ≡ (
    ready (map_some (format_header a)),
    conn t' (some (b ++ c)) (length (b ++ c) - length remaining),
  )
  unfolding poll_addr get_header
  poll_addr-header = ground arith

  pub drop-header : drop (length (b ++ c) - length remaining) (b ++ c) ≡ remaining
  drop-header =
      let (front, e) = prefix (b ++ c) remaining a parsed in
      drop-length_sub (b ++ c) front remaining e

  -- Then the bytes that the connection still gives are those after the header and those that the
  -- socket has left, and the answer is the address in the header.
  pub unread-poll_addr :
      (content : Content reader)
      → ((poll_addr reader parse_header (conn t (some b) n)).0 ≡ ready (map_some (format_header a)))
        × (unread reader content (poll_addr reader parse_header (conn t (some b) n)).1
            ≡ remaining ++ content.left t')
  unread-poll_addr content = rw poll_addr-header (refl, rw drop-header)

  pub await_addr-header :
      (fuel : ℕ)
      → await_addr reader parse_header (suc fuel) (conn t (some b) n)
        ≡ finished
            (map_some (format_header a))
            (conn t' (some (b ++ c)) (length (b ++ c) - length remaining))
  unfolding await_addr
  await_addr-header fuel = rw poll_addr-header

module _ {T : Type 0} (reader : Reader T) (parse_header : Bytes → Parsed) (t t' : T) (b c : Bytes)
    (n : ℕ) (got : reader.poll_read_buf t ≡ (bytes c, t')) (some_bytes : 0 < length c)
    (partial : parse_header (b ++ c) ≡ incomplete) where
  pub poll_addr-incomplete :
      poll_addr reader parse_header (conn t (some b) n) ≡ (pending false, conn t' (some (b ++ c)) n)
  unfolding poll_addr get_header
  poll_addr-incomplete = ground arith
