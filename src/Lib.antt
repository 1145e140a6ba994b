-- ===== src/Lib.antt =====
-- acme-dns-rust, a name server and HTTP API for ACME challenges that renews its own certificate.
--
-- The program has three tasks around one database. The HTTP API registers domains; the name server
-- answers queries from configured records, the text of a domain, and the challenge of the
-- certificate that is being renewed; the certificate manager takes the renewal job with
-- `start_cert`, writes proofs into the domain's text, asks the authority to look at the name
-- server, and ends the job with `stop_cert`. All reach the database through the facade traits.
--
-- Base: tests, lists, words, dictionaries, the outcomes of fallible code (`Ok`, `Err`, a panic).
-- Util, Util/Words, Util/Errors: src/util.rs, the casts between i64 and u64, the clock, and `error`.
-- Facade: the data of src/facade/cert.rs and src/facade/domain.rs, and the facade traits as a
--   record. Facade/Memory: the in-memory facade, every method. Facade/Single, Lease, Jobs,
--   Consistency: the protocol of `start_cert` and `stop_cert`, and what keeps a store consistent.
--   Facade/Workers: any number of workers as a step relation on the store and the jobs they hold.
--   The clock, the uuids and bcrypt are the record `Env`; the order in which a HashMap is
--   iterated is the record `Order`.
-- Facade/Postgres: the same traits on Postgres, every method with its statements. In it, Columns
--   and Tables state what the statements do to the tables `domain` and `cert`, as a record of laws;
--   Rows is a database of that kind. Sim, Refines, Starts, Calls, Runs: the two implementations
--   next to each other. Races: calls that overlap, split after their SELECT. Serial: those that do
--   not. Errors: failures. Typed: what the rows that Sql/Schema allows decode to.
-- Manager: src/cert.rs, over a facade and a client of the authority (`Acme`, for the crate
--   acme-lib). The loop of `validate` runs on fuel; Manager/Loop says how much is enough.
--   Manager/Start: its start. Manager/Postgres: the manager on Postgres and in memory, next to
--   each other; in it, Storable and Keeps: what a renewal keeps of the store.
-- Sql: a Postgres database as the crate sqlx shows it, with transactions. Sql/Schema: the columns of
--   the table `cert` of migrations/postgres/20200811125158_initial.sql. Sql/Text: the texts that a
--   database can hold, which are those without a NUL; the laws of Tables ask for them.
-- Persist: src/acme.rs on that database; Persist/Table states what the four statements do to the
--   table `acme`. Persist/Races: two calls of `put` that overlap.
-- Dns/Records, Dns/Authority: src/dns/authority.rs. Names and sets of records of trust-dns are the
--   record `TrustDns`, the system's resolver and UTF-8 are fields of `Authority`.
--   Dns/Authority/Postgres: its answers on Postgres and in memory, next to each other.
--   Dns/Authority/Object: the trait through which the catalogue sees the authority.
-- Dns/Server: src/dns/mod.rs, on a socket and a server that are parameters.
-- Dns/Handler: src/dns/handler.rs, around a catalogue that is a parameter.
-- Api/Proxy: src/api/proxy.rs, polls of a socket that is a list of what its reads give; ppp's
--   parser is a parameter. `await_addr` runs on fuel, the number of polls. Api/Proxy/Writes: the
--   writing side.
-- Api/Tls: src/api/tls.rs, the cached configuration; rustls is a parameter. Api/Tls/Concurrent:
--   `load_cert` as a step relation on any number of connections.
-- Api/Connection: the future of `wrap` in src/api/proxy.rs under the `try_join!` of src/api/tls.rs,
--   poll by poll: each poll of the task polls both futures, and the acceptor is over after a number
--   of polls that is a parameter, as the handshake is. `secure` runs on fuel, the number of polls;
--   Segments says how much is enough.
-- Api/Metrics: `remove_zero_metrics` of src/api/metrics.rs; its loop runs on the input's length and
--   one, since every round but the last takes a byte.
-- Api/Http: requests, answers, and the counter of src/api/metrics.rs. Api/Http/Wrapper: the whole
--   of `metrics_wrapper`, with its histogram as what has been observed.
-- Api/Endpoint: the endpoint of src/api/metrics.rs; the registry and its encoder are a parameter.
-- Api/Routes: src/api/routes.rs; JSON is a parameter. Api/Routes/Postgres: the routes on Postgres
--   and in memory, next to each other.
-- Api/Server: `serve` of src/api/mod.rs, as a run over the events of the stream and the tasks.
-- Api/Listeners: `new` of src/api/mod.rs, by what a poll of it answers for each state of its tasks.
-- Config/File: src/config/mod.rs; the file system and the parser of TOML are parameters.
-- Config/Resolver: src/config/dns.rs.
-- Config/Value, Config/Listener, Config/Records: the visitors of src/config/listener.rs and
--   src/config/records.rs, over the values that serde hands to them.
-- Program: src/lib.rs, by what a poll of each branch of its `select!` answers. The runtime, the
--   connection to the database, its migrations and the sockets are the record `Outside`; what the
--   parts have come to is the record `Moment`. Its exit code is that of src/main.rs.
-- Program/Events: the name server, the routes and the manager at work on one facade, composed here as
--   events that are handled one after the other, and
--   Program/Events/Postgres the whole of it on Postgres and in memory, next to each other. A renewal
--   is a call of `manage`, which the interval of src/cert.rs does not make at present.
--   Program/Events/Challenge: the text of a domain while its renewal waits.
--
-- Machine words keep their wrap-around: a clock is a u64, stored as an i64, and the theorems that
-- compare times ask for clocks below 2^63.
--
-- Not modelled: tracing; the buckets of the histograms; the texts that errors are given on the way
-- up; the random numbers behind uuids. A call of an asynchronous function is one step, and the tasks
-- meet at the facade only, but for the calls in Facade/Postgres/Races and Persist/Races, the
-- connections in Api/Tls/Concurrent, and the two futures in Api/Connection.
pub mod Base
pub mod Util
pub mod Config
pub mod Facade
pub mod Dns
pub mod Api
pub mod Manager
pub mod Sql
pub mod Persist
pub mod Program
