-- ===== src/Api/Connection/Join.antt =====
-- The join of the header of the PROXY protocol and the acceptor, of `wrap_higher` in
-- src/api/tls.rs: what bytes the handshake gets, and when the task is stuck.
use acme_dns_rust.Base.{ℕ, zero, suc, ◌<◌, ◌≡◌, refl, ◌∙◌, Bool, true, false, Option, arith}
use acme_dns_rust.Base.Outcome.{Outcome, ok, err, panic, Error}
use acme_dns_rust.Api.Metrics.{Bytes}
use acme_dns_rust.Api.Proxy.{
  Poll, ready, pending, SocketAddr, Reader, Parsed, ProxyStream, poll_addr,
}
use acme_dns_rust.Api.Proxy.Header.{Content, received, received-poll_addr}
use acme_dns_rust.Api.Connection.{
  Waited, done, stuck, unfinished, Connecting, reading, connected, panicking, with_real_addr,
  with_tls, while_reading, poll_connecting, poll_join, secure,
}

module _ {T Config Tls : Type 0} (reader : Reader T) (content : Content reader)
    (parse_header : Bytes → Parsed) (accept : Config → ProxyStream T → Outcome Tls)
    (config : Outcome Config) (all : Bytes) where
  -- The bytes that came and are to come are those of `all`.
  abbrev pub Holds : Connecting T → Type 0
  Holds (reading wakes s) = received reader content s ≡ all
  Holds (connected s) = received reader content s ≡ all
  Holds panicking = Unit {0}

  -- How the task ends, if it does.
  pub data Ends (w : Waited Tls) : Type 0 where
    is_stuck : w ≡ stuck → Ends w
    goes_on : w ≡ unfinished → Ends w
    panics : w ≡ done panic → Ends w
    refused : (e : Error) → config ≡ err e → w ≡ done (err e) → Ends w
    shakes_hands :
        (c : Config) (s : ProxyStream T)
        → config ≡ ok c
        → w ≡ done (accept c s)
        → received reader content s ≡ all
        → Ends w

  with_real_addr-Holds :
      (p : Poll (Option SocketAddr)) (s : ProxyStream T)
      → received reader content s ≡ all
      → Holds (with_real_addr (p, s))
  unfolding with_real_addr
  with_real_addr-Holds (ready (ok addr)) s h = h
  with_real_addr-Holds (ready (err e)) s h = h
  with_real_addr-Holds (ready panic) s h = tt
  with_real_addr-Holds (pending wakes) s h = h

  poll_connecting-Holds :
      (c : Connecting T) → Holds c → Holds (poll_connecting reader parse_header accept config c)
  unfolding poll_connecting
  poll_connecting-Holds (reading wakes s) h =
      with_real_addr-Holds (poll_addr reader parse_header s).0 (poll_addr reader parse_header s).1
        (received-poll_addr reader content parse_header s ∙ h)
  poll_connecting-Holds (connected s) h = h
  poll_connecting-Holds panicking h = tt

  with_tls-Ends :
      (answer : Outcome Config) (s : ProxyStream T)
      → config ≡ answer
      → received reader content s ≡ all
      → Ends (done (with_tls accept s answer))
  with_tls-Ends (ok c) s e h = shakes_hands c s e refl h
  with_tls-Ends (err x) s e h = refused x e refl
  with_tls-Ends panic s e h = panics refl

  while_reading-Ends :
      (wakes : Bool) (answer : Outcome Config) (next : Waited Tls)
      → config ≡ answer
      → Ends next
      → Ends (while_reading wakes answer next)
  unfolding while_reading
  while_reading-Ends true (ok c) next e h = h
  while_reading-Ends false (ok c) next e h = is_stuck refl
  while_reading-Ends wakes (err x) next e h = refused x e refl
  while_reading-Ends wakes panic next e h = panics refl

  poll_join-Ends :
      (c : Connecting T) (waits : ℕ) (again : ℕ → Connecting T → Waited Tls)
      → Holds c
      → ((k : ℕ) (c' : Connecting T) → Holds c' → Ends (again k c'))
      → Ends (poll_join reader parse_header accept config c waits again)
  unfolding poll_join
  poll_join-Ends panicking waits again h rest = panics refl
  poll_join-Ends (connected s) zero again h rest = with_tls-Ends config s refl h
  poll_join-Ends (connected s) (suc waits) again h rest = rest waits (connected s) h
  poll_join-Ends (reading wakes s) zero again h rest =
      while_reading-Ends wakes config _ refl (rest zero (reading wakes s) h)
  poll_join-Ends (reading wakes s) (suc waits) again h rest = rest waits (reading wakes s) h

  -- However the polls of an HTTPS connection's task go, on any reads of the socket and any delay
  -- of its acceptor, the task is stuck, not yet over, ended by a panic or by the error of the
  -- acceptor, or it makes the handshake with the acceptor's configuration on a connection that
  -- has lost no byte: what it has buffered and what the socket has left are what the socket had
  -- at the start.
  pub secure-Ends :
      (fuel waits : ℕ) (c : Connecting T)
      → Holds c
      → Ends (secure reader parse_header accept config fuel waits c)
  unfolding secure
  secure-Ends zero waits c h = goes_on refl
  secure-Ends (suc fuel) waits c h =
      poll_join-Ends (poll_connecting reader parse_header accept config c) waits _
        (poll_connecting-Holds c h) (secure-Ends fuel)

-- The join once the connection is there.
module _ {T Config Tls : Type 0} (reader : Reader T) (parse_header : Bytes → Parsed)
    (accept : Config → ProxyStream T → Outcome Tls) (config : Outcome Config) where
  pub secure_connected :
      (fuel waits : ℕ) (c : Connecting T) (s : ProxyStream T)
      → poll_connecting reader parse_header accept config c ≡ connected s
      → waits < fuel
      → secure reader parse_header accept config fuel waits c ≡ done (with_tls accept s config)
  unfolding secure poll_join poll_connecting
  secure_connected zero waits c s e h = absurd (omega arith)
  secure_connected (suc fuel) zero c s e h = rw (secure, e) refl
  secure_connected (suc fuel) (suc waits) c s e h =
      rw (secure, e) (secure_connected fuel waits (connected s) s refl (omega arith))
