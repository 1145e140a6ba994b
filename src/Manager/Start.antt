-- ===== src/Manager/Start.antt =====
-- src/cert.rs: how the certificate manager starts. The client of the authority looks its directory
-- up first; then the loop of `spawn` runs as a task.
use acme_dns_rust.Base.{String}
use acme_dns_rust.Base.Outcome.{ok, err, panic, Error}
use acme_dns_rust.Api.Listeners.{Poll, pending, ready, Task, poll_task}

-- `and_then`
abbrev pub and_then : Poll → Poll → Poll
and_then pending next = pending
and_then (ready (ok _)) next = next
and_then (ready (err e)) next = ready (err e)
and_then (ready panic) next = ready panic

-- `.await??` on a blocking task: a panic in it is an error here.
abbrev pub joined : Poll → Poll
joined pending = pending
joined (ready (ok _)) = ready (ok tt)
joined (ready (err e)) = ready (err e)
joined (ready panic) = ready (err (Error.message "task panicked"))

-- `CertManager::new`, on what the lookup of the directory is at.
unfoldable pub new : (String → Poll) → String → Poll
new from_url acme = joined (from_url acme)

-- `CertManager::spawn`, on what its task is at.
unfoldable pub spawn : Task → Poll
spawn task = poll_task task

-- `CertManager::new(…).and_then(CertManager::spawn)`
unfoldable pub cert_manager : (String → Poll) → String → Task → Poll
unfolding new spawn
cert_manager from_url acme task = and_then (new from_url acme) (spawn task)
