-- ===== src/Api/Connection.antt =====
-- The connections that src/api/mod.rs accepts for HTTPS: the future of `wrap` in
-- src/api/proxy.rs, joined with the acceptor in `wrap_higher` of src/api/tls.rs. The handshake of
-- tokio-rustls is a parameter.
pub mod Join
pub mod Segments
mod Tests
use acme_dns_rust.Base.{ℕ, zero, suc, Bool, true, false, Option}
use acme_dns_rust.Base.Outcome.{Outcome, ok, err, panic}
use acme_dns_rust.Config.Listener.{ProxyProtocol}
use acme_dns_rust.Api.Metrics.{Bytes}
use acme_dns_rust.Api.Proxy.{
  Poll, ready, pending, SocketAddr, Reader, Parsed, ProxyStream, source, poll_addr,
}
use acme_dns_rust.Api.Tls.{Rustls, Cached, load_cert}
use acme_dns_rust.Facade.{Cert}

-- What becomes of a task: an end, or that nothing wakes it any more.
pub data Waited (A : Type 0) : Type 0 where
  done : Outcome A → Waited A
  stuck unfinished : Waited A

-- The future in `wrap`: it waits for the client's address, and something is to wake the task or
-- not; or it is over, with the connection or with a panic.
pub data Connecting (T : Type 0) : Type 0 where
  reading : Bool → ProxyStream T → Connecting T
  connected : ProxyStream T → Connecting T
  panicking : Connecting T

-- The address is only for the log, and so is an error.
unfoldable pub with_real_addr :
    {T : Type 0} → Poll (Option SocketAddr) × ProxyStream T → Connecting T
with_real_addr (ready (ok addr), s) = connected s
with_real_addr (ready (err e), s) = connected s
with_real_addr (ready panic, s) = panicking
with_real_addr (pending wakes, s) = reading wakes s

abbrev pub with_tls :
    {A Config Tls : Type 0} → (Config → A → Outcome Tls) → A → Outcome Config → Outcome Tls
with_tls accept conn (ok config) = accept config conn
with_tls accept conn (err e) = err e
with_tls accept conn panic = panic

-- `try_join!` when the acceptor is over and the connection is not: an error and a panic end the
-- join, and otherwise the connection alone can wake the task.
unfoldable pub while_reading :
    {Config Tls : Type 0} → Bool → Outcome Config → Waited Tls → Waited Tls
while_reading true (ok config) next = next
while_reading false (ok config) next = stuck
while_reading wakes (err e) next = done (err e)
while_reading wakes panic next = done panic

module _ {T Config Tls : Type 0} (reader : Reader T) (parse_header : Bytes → Parsed)
    (accept : Config → ProxyStream T → Outcome Tls) (config : Outcome Config) where
  -- A future that is over is not polled again.
  unfoldable pub poll_connecting : Connecting T → Connecting T
  poll_connecting (reading wakes s) = with_real_addr (poll_addr reader parse_header s)
  poll_connecting (connected s) = connected s
  poll_connecting panicking = panicking

  -- The rest of a poll of the task, and the polls that follow. The acceptor waits for the database
  -- and sees to it that the task is polled again; `waits` is the number of polls in which it is not
  -- yet over.
  unfoldable pub poll_join : Connecting T → ℕ → (ℕ → Connecting T → Waited Tls) → Waited Tls
  poll_join panicking waits again = done panic
  poll_join (connected s) zero again = done (with_tls accept s config)
  poll_join (connected s) (suc waits) again = again waits (connected s)
  poll_join (reading wakes s) zero again = while_reading wakes config (again zero (reading wakes s))
  poll_join (reading wakes s) (suc waits) again = again waits (reading wakes s)

  -- The future in `wrap_higher`: every poll of the task polls both futures of the join, whichever
  -- of them woke it. The fuel bounds the polls.
  unfoldable pub secure : ℕ → ℕ → Connecting T → Waited Tls
  secure zero waits connecting = unfinished
  secure (suc fuel) waits connecting = poll_join (poll_connecting connecting) waits (secure fuel)

module _ {T Key Chain Config Tls : Type 0} (reader : Reader T) (parse_header : Bytes → Parsed)
    (rustls : Rustls Key Chain Config) (accept : Config → ProxyStream T → Outcome Tls) where
  -- One connection, given what the facade answers to its acceptor, and the cache at that time.
  unfoldable pub secured :
      ℕ → ℕ → ProxyProtocol → T → Outcome (Option Cert) → Cached Config → Waited Tls
  secured fuel waits proxy socket answer cache =
      secure reader parse_header accept (load_cert rustls answer cache).0 fuel waits
        (reading true (source socket proxy))
