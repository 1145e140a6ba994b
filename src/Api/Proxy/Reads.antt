-- ===== src/Api/Proxy/Reads.antt =====
-- Reading through the connection: `poll_read`.
use acme_dns_rust.Base.{
  ℕ, suc, ◌-◌, ◌≤◌, ◌<◌, ◌≡◌, refl, sym, ap, ◌∙◌, ◌↔◌, Option, none, some, [], ◌++◌, length, drop,
  arith, append_assoc, drop-nil,
}
use acme_dns_rust.Base.Outcome.{ok, panic}
use acme_dns_rust.Api.Metrics.{Bytes}
use acme_dns_rust.Api.Proxy.{
  ready, bytes, Reader, Addresses, Parsed, header, ProxyStream, source, format_header, map_some,
  answer_of, bytes_of, poll_read, finished, poll_addr, await_addr,
}
use acme_dns_rust.Config.Listener.{enabled, disabled}
use acme_dns_rust.Api.Proxy.Header.{
  Content, TakesPrefix, buffer, unread, conn, await_addr-header, drop-header,
}

-- The buffered bytes fit into the room of the caller's buffer, and the header lies within them.
abbrev pub Fits : {T : Type 0} → ℕ → ProxyStream T → Type 0
Fits room s =
    (s.start_of_data ≤ length (buffer s)) × (length (drop s.start_of_data (buffer s)) ≤ room)

module _ {T : Type 0} (reader : Reader T) (room : ℕ) (t : T) (n : ℕ) where
  poll_read-none : poll_read reader room (conn t none n) ≡ (
    record {
      answer = answer_of (reader.poll_read room t).0;
      written = bytes_of (reader.poll_read room t).0;
    },
    conn (reader.poll_read room t).1 none n,
  )
  unfolding poll_read
  poll_read-none = refl

  poll_read-some :
      (b : Bytes)
      → n ≤ length b
      → length (drop n b) ≤ room
      → poll_read reader room (conn t (some b) n) ≡ (
        record {
          answer = answer_of (reader.poll_read (room - length (drop n b)) t).0;
          written = drop n b ++ bytes_of (reader.poll_read (room - length (drop n b)) t).0;
        },
        conn (reader.poll_read (room - length (drop n b)) t).1 none n,
      )
  unfolding poll_read
  poll_read-some b h k = ground arith

module _ {T : Type 0} (reader : Reader T) (content : Content reader) where
  unread-poll_read-conn :
      (room : ℕ) (t : T) (b : Option Bytes) (n : ℕ)
      → Fits room (conn t b n)
      → unread reader content (conn t b n)
        ≡ (poll_read reader room (conn t b n)).0.written
          ++ unread reader content (poll_read reader room (conn t b n)).1
  unread-poll_read-conn room t none n h =
      rw (poll_read-none reader room t n, drop-nil) (content.taken room t)
  unread-poll_read-conn room t (some b) n h =
      rw (poll_read-some reader room t n b h.0 h.1, drop-nil)
        (ap (◌++◌ (drop n b)) (content.taken _ t) ∙ sym (append_assoc (drop n b) _ _))

  -- If the buffered bytes after the header fit into the caller's buffer, what was unread before a
  -- read is what the read wrote into the caller's buffer followed by what is unread after it,
  -- whatever the read answers.
  pub unread-poll_read :
      (room : ℕ) (s : ProxyStream T)
      → Fits room s
      → unread reader content s
        ≡ (poll_read reader room s).0.written ++ unread reader content (poll_read reader room s).1
  unread-poll_read room s h = unread-poll_read-conn room s.stream s.buffered s.start_of_data h

-- A read of a connection with buffered bytes panics exactly when the bytes after the header do
-- not fit into the caller's buffer.
pub poll_read-panic_iff :
    {T : Type 0} (reader : Reader T) (room : ℕ) (t : T) (b : Bytes) (n : ℕ)
    → n ≤ length b
    → ((poll_read reader room (conn t (some b) n)).0.answer ≡ ready panic)
      ↔ (room < length (drop n b))
unfolding poll_read
poll_read-panic_iff reader room t b n h = ground arith

-- For a connection with the PROXY protocol whose first bytes hold the whole header, and a parser
-- that gives back the end of its input, the task that awaits the client's address finishes with
-- the address in the header, and the first read into a buffer that is large enough gives exactly
-- the bytes after the header, followed by those that the socket gives.
pub source-accept :
    {T : Type 0} (reader : Reader T) (parse_header : Bytes → Parsed)
    → TakesPrefix parse_header
    → (t t' t'' : T) (c remaining more : Bytes) (a : Addresses) (fuel room : ℕ)
    → reader.poll_read_buf t ≡ (bytes c, t')
    → 0 < length c
    → parse_header c ≡ header remaining a
    → length remaining ≤ room
    → reader.poll_read (room - length remaining) t' ≡ (bytes more, t'')
    → (s : ProxyStream T) × (await_addr reader parse_header (suc fuel) (source t enabled)
        ≡ finished (map_some (format_header a)) s)
      × ((poll_read reader room s).0
          ≡ record { answer = ready (ok tt); written = remaining ++ more })
unfolding source
source-accept reader parse_header prefix t t' t'' c remaining more a fuel room got some_bytes parsed
      fits next =
    (
      conn t' (some c) (length c - length remaining),
      await_addr-header reader parse_header prefix t t' [] c remaining 0 a got some_bytes parsed
          fuel,
      read,
    )
  where
    after_header : drop (length c - length remaining) c ≡ remaining
    after_header =
        drop-header reader parse_header prefix t t' [] c remaining 0 a got some_bytes parsed

    read :
        (poll_read reader room (conn t' (some c) (length c - length remaining))).0
        ≡ record { answer = ready (ok tt); written = remaining ++ more }
    read = rw (
      poll_read-some reader room t' (length c - length remaining) c (omega arith)
          (rw after_header fits),
      after_header,
      next,
    )

-- Without the PROXY protocol nothing is read before the first read of the client.
pub source-plain :
    {T : Type 0} (reader : Reader T) (parse_header : Bytes → Parsed) (t : T) (fuel room : ℕ)
    → (await_addr reader parse_header (suc fuel) (source t disabled)
        ≡ finished (ok none) (source t disabled))
      × ((poll_read reader room (source t disabled)).0 ≡ record {
        answer = answer_of (reader.poll_read room t).0;
        written = bytes_of (reader.poll_read room t).0;
      })
unfolding source await_addr poll_addr poll_read
source-plain reader parse_header t fuel room = (refl, refl)
