-- ===== src/Api/Connection/Segments.antt =====
-- An HTTPS connection behind the PROXY protocol whose header comes in one read or in two: the
-- futures of src/api/proxy.rs and src/api/tls.rs together.
use acme_dns_rust.Base.{
  ℕ, zero, suc, ◌<◌, ◌≡◌, ◌≢◌, refl, ap, ◌∙◌, true, false, Option, some, [], ◌++◌, length, ◌-◌,
  arith, ◌⊎◌, inl, inr,
}
use acme_dns_rust.Base.Outcome.{Outcome, ok, err, Error, ErrorKind}
use acme_dns_rust.Config.Listener.{enabled}
use acme_dns_rust.Facade.{Cert}
use acme_dns_rust.Api.Metrics.{Bytes}
use acme_dns_rust.Api.Proxy.{
  ready, Reader, bytes, Addresses, ipv4, ipv6, other, Parsed, incomplete, failure, header,
  ProxyStream, source, poll_addr, get_header, format_header, map_some,
}
use acme_dns_rust.Api.Proxy.Header.{
  Content, TakesPrefix, unread, conn, poll_addr-header, poll_addr-incomplete, drop-header,
}
use acme_dns_rust.Api.Tls.{Rustls, Cached, load_cert}
use acme_dns_rust.Api.Tls.Cache.{IsValid, current, load_cert-current}
use acme_dns_rust.Api.Connection.{
  done, stuck, Connecting, reading, connected, with_real_addr, with_tls, while_reading,
  poll_connecting, poll_join, secure, secured,
}
use acme_dns_rust.Api.Connection.Join.{secure_connected}

-- The bytes of the first read that are left for the client's session: those after a header, and
-- all of them if there is no header in them.
abbrev pub passed : Parsed → Bytes → Bytes
passed incomplete c = c
passed failure c = c
passed (header remaining a) c = remaining

format_header-connected :
    {T : Type 0} (a : Addresses) (s : ProxyStream T)
    → with_real_addr (ready (map_some (format_header a)), s) ≡ connected s
unfolding with_real_addr format_header
format_header-connected (ipv4 address port) s = refl
format_header-connected (ipv6 address port) s = refl
format_header-connected (other address) s = refl

module _ {T : Type 0} (reader : Reader T) (content : Content reader) (parse_header : Bytes → Parsed)
    (prefix : TakesPrefix parse_header) where
  -- A connection that has all of the header after a read, or no header.
  abbrev pub Passes : Bytes → T → Connecting T → Type 0
  Passes rest t c =
      (s : ProxyStream T) × (c ≡ connected s) × (unread reader content s ≡ rest ++ content.left t)

  header-Passes :
      (t t' : T) (b c remaining : Bytes) (a : Addresses)
      → reader.poll_read_buf t ≡ (bytes c, t')
      → 0 < length c
      → parse_header (b ++ c) ≡ header remaining a
      → Passes remaining t' (with_real_addr (poll_addr reader parse_header (conn t (some b) 0)))
  header-Passes t t' b c remaining a got some_bytes e = (
    conn t' (some (b ++ c)) (length (b ++ c) - length remaining),
    ap with_real_addr
          (poll_addr-header reader parse_header prefix t t' b c remaining 0 a got some_bytes e)
        ∙ format_header-connected a (conn t' (some (b ++ c)) (length (b ++ c) - length remaining)),
    rw (drop-header reader parse_header prefix t t' b c remaining 0 a got some_bytes e) refl,
  )

  poll_addr-failure :
      (t t' : T) (c : Bytes)
      → reader.poll_read_buf t ≡ (bytes c, t')
      → 0 < length c
      → parse_header c ≡ failure
      → poll_addr reader parse_header (conn t (some []) 0)
        ≡ (ready (err (Error.io ErrorKind.invalid_data "Proxy Parser Error")), conn t' (some c) 0)
  unfolding poll_addr get_header
  poll_addr-failure t t' c got some_bytes invalid = ground arith

  failure-Passes :
      (t t' : T) (c : Bytes)
      → reader.poll_read_buf t ≡ (bytes c, t')
      → 0 < length c
      → parse_header c ≡ failure
      → Passes c t' (with_real_addr (poll_addr reader parse_header (conn t (some []) 0)))
  unfolding with_real_addr
  failure-Passes t t' c got some_bytes e =
      (conn t' (some c) 0, rw (poll_addr-failure t t' c got some_bytes e) refl, refl)

  -- A first read without a part of a header only.
  first_read-Passes :
      (t t' : T) (c : Bytes) (p : Parsed)
      → reader.poll_read_buf t ≡ (bytes c, t')
      → 0 < length c
      → parse_header c ≡ p
      → p ≢ incomplete
      → Passes (passed p c) t' (with_real_addr (poll_addr reader parse_header (conn t (some []) 0)))
  first_read-Passes t t' c incomplete got some_bytes e whole = absurd (whole refl)
  first_read-Passes t t' c failure got some_bytes e whole = failure-Passes t t' c got some_bytes e
  first_read-Passes t t' c (header remaining a) got some_bytes e whole =
      header-Passes t t' [] c remaining a got some_bytes e

  -- An HTTPS connection behind the PROXY protocol, with a valid cache, a current configuration
  -- and a first read that gives some bytes and not only a part of a header: if there are more
  -- polls than its acceptor has to wait for, the handshake is made with the current configuration
  -- on a connection that gives exactly the bytes after the header, or all bytes if there is no
  -- header in them, and then those that the socket has left, whether the address in the header is
  -- supported or not.
  pub secured-first_read :
      {Key Chain Config Tls : Type 0} (rustls : Rustls Key Chain Config)
      (accept : Config → ProxyStream T → Outcome Tls) (answer : Outcome (Option Cert))
      (cache : Cached Config) (config : Config) (fuel waits : ℕ) (t t' : T) (c : Bytes)
      → IsValid rustls cache
      → current rustls cache.config answer ≡ ok config
      → waits < fuel
      → reader.poll_read_buf t ≡ (bytes c, t')
      → 0 < length c
      → parse_header c ≢ incomplete
      → (s : ProxyStream T) × (secured reader parse_header rustls accept fuel waits enabled t answer
            cache
          ≡ done (accept config s))
        × (unread reader content s ≡ passed (parse_header c) c ++ content.left t')
  unfolding secured source poll_connecting with_real_addr
  secured-first_read rustls accept answer cache config fuel waits t t' c v now enough got some_bytes
        whole =
      let loaded = (load_cert-current rustls answer cache v).0 ∙ now in
      let (s, passes, kept) = first_read-Passes t t' c (parse_header c) got some_bytes refl whole in
      (
        s,
        secure_connected reader parse_header accept (load_cert rustls answer cache).0 fuel waits
              (reading true (conn t (some []) 0)) s passes enough
            ∙ ap (λ o. done (with_tls accept s o)) loaded,
        kept,
      )

  -- An HTTPS connection whose PROXY header comes in two reads, the first with a part of it only
  -- and the next with the rest, and whose acceptor succeeds after some polls, fewer than the task
  -- is given: if the acceptor is ready at the first poll, the task is stuck for good although the
  -- rest of the header is there; if it has to wait, its wake-up saves the connection, and the
  -- handshake is made on one that gives exactly the bytes after the header.
  pub secure-segments :
      {Config Tls : Type 0} (accept : Config → ProxyStream T → Outcome Tls) (config : Config)
      (fuel waits : ℕ) (t t' t'' : T) (c c' remaining : Bytes) (a : Addresses)
      → waits < fuel
      → reader.poll_read_buf t ≡ (bytes c, t')
      → 0 < length c
      → parse_header c ≡ incomplete
      → reader.poll_read_buf t' ≡ (bytes c', t'')
      → 0 < length c'
      → parse_header (c ++ c') ≡ header remaining a
      → let w =
          secure reader parse_header accept
            (ok config)
            fuel
            waits
            (reading true (source t enabled)) in
        ((waits ≡ 0) × (w ≡ stuck))
        ⊎ ((0 < waits)
            × (s : ProxyStream T) × (w ≡ done (accept config s))
            × (unread reader content s ≡ remaining ++ content.left t''))
  unfolding secure source poll_connecting poll_join with_real_addr while_reading
  secure-segments accept config zero waits t t' t'' c c' remaining a enough got some_bytes partial
        got' some_bytes' whole =
      absurd (omega arith)
  secure-segments accept config (suc fuel) zero t t' t'' c c' remaining a enough got some_bytes
        partial got' some_bytes' whole =
      inl (
        refl,
        rw (poll_addr-incomplete reader parse_header t t' [] c 0 got some_bytes partial) refl,
      )
  secure-segments accept config (suc fuel) (suc waits) t t' t'' c c' remaining a enough got
        some_bytes partial got' some_bytes' whole =
      let (s, passes, kept) = header-Passes t' t'' c c' remaining a got' some_bytes' whole in
      inr (
        omega arith,
        s,
        rw (poll_addr-incomplete reader parse_header t t' [] c 0 got some_bytes partial) (
            secure_connected reader parse_header accept (ok config) fuel waits
              (reading false (conn t' (some c) 0)) s passes (omega arith)),
        kept,
      )
