-- ===== src/Dns/Server.antt =====
-- src/dns/mod.rs: the name server and its socket. The server of trust-dns is a task that runs once
-- it has the socket.
use acme_dns_rust.Base.{true, List, [], ◌∷◌, String}
use acme_dns_rust.Base.Outcome.{Outcome, ok, err, panic, Error}
use acme_dns_rust.Api.Listeners.{Poll, pending, ready}
use acme_dns_rust.Dns.Records.{Name}

abbrev pub root : Name
root = record { labels = []; fqdn = true }

-- `Dns`: the address, and the zones of the catalogue with their authorities.
pub record Dns (Authority : Type 0) : Type 0 where
  pub addr : String
  pub zones : List (Name × Authority)

abbrev pub new : {Authority : Type 0} → String → Authority → Dns Authority
new addr authority = record { addr = addr; zones = (root, authority) ∷ [] }

-- The task of `block_until_done`, behind its `JoinHandle`.
pub data ServerTask : Type 0 where
  serving panicked : ServerTask
  ended : Outcome (Unit {0}) → ServerTask

abbrev pub poll_server : ServerTask → Poll
poll_server serving = pending
poll_server panicked = ready (err (Error.message "task panicked"))
poll_server (ended result) = ready result

abbrev pub served : {Socket : Type 0} → Outcome Socket → ServerTask → Poll
served (ok udp) task = poll_server task
served (err e) task = ready (err e)
served panic task = ready panic

-- `spawn`
unfoldable pub spawn :
    {Authority Socket : Type 0} → (String → Outcome Socket) → Dns Authority → ServerTask → Poll
spawn bind dns task = served (bind dns.addr) task
