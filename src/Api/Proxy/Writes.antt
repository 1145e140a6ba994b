-- ===== src/Api/Proxy/Writes.antt =====
-- Writing through the connection of src/api/proxy.rs: every operation of `AsyncWrite` is passed on
-- to the socket.
mod Tests
use acme_dns_rust.Base.{
  ℕ, ◌≡◌, refl, sym, ap, ◌∙◌, Bool, Bool-cases, inl, inr, true, false, Option, none, some, List,
  ◌++◌, leb, length, drop, ◌&&◌, ◌-◌, arith,
}
use acme_dns_rust.Base.Outcome.{Outcome, ok, panic}
use acme_dns_rust.Api.Metrics.{Bytes}
use acme_dns_rust.Api.Proxy.Header.{conn}
use acme_dns_rust.Api.Proxy.{
  Poll, Read, Reader, Parsed, ProxyStream, poll_read, poll_addr, answer_of, bytes_of,
}

-- The writing side of a socket.
pub record Writer (T : Type 0) : Type 0 where
  pub poll_write : Bytes → T → Poll ℕ × T
  pub poll_flush : T → Poll (Unit {0}) × T
  pub poll_shutdown : T → Poll (Unit {0}) × T
  pub poll_write_vectored : List Bytes → T → Poll ℕ × T
  pub is_write_vectored : T → Bool

-- `Pin::new(&mut self.stream)`
abbrev pub on_stream : {T A : Type 0} → (T → A × T) → ProxyStream T → A × ProxyStream T
on_stream f s = let (answer, t) = f s.stream in (answer, record s { stream = t })

-- `impl AsyncWrite for ProxyStream`
unfoldable pub writes : {T : Type 0} → Writer T → Writer (ProxyStream T)
writes writer = record {
  poll_write = λ b s. on_stream (writer.poll_write b) s;
  poll_flush = λ s. on_stream writer.poll_flush s;
  poll_shutdown = λ s. on_stream writer.poll_shutdown s;
  poll_write_vectored = λ bs s. on_stream (writer.poll_write_vectored bs) s;
  is_write_vectored = λ s. writer.is_write_vectored s.stream;
}

-- The two orders of the operations at one place.
abbrev pub CommuteAt : {T A B : Type 0} → (T → A × T) → (T → B × T) → T → Type 0
CommuteAt f g t =
    ((f (g t).1).0 ≡ (f t).0) × ((g (f t).1).0 ≡ (g t).0) × ((f (g t).1).1 ≡ (g (f t).1).1)

-- The two directions of a connection do not see each other.
pub record IsDuplex {T R : Type 0} (read : ℕ → T → R × T) (writer : Writer T) : Type 0 where
  pub write : (room : ℕ) (b : Bytes) (t : T) → CommuteAt (read room) (writer.poll_write b) t
  pub flush : (room : ℕ) (t : T) → CommuteAt (read room) writer.poll_flush t
  pub shutdown : (room : ℕ) (t : T) → CommuteAt (read room) writer.poll_shutdown t
  pub write_vectored :
      (room : ℕ) (bs : List Bytes) (t : T) → CommuteAt (read room) (writer.poll_write_vectored bs) t

module _ {T A : Type 0} (reader : Reader T) (op : T → A × T) (room : ℕ)
    (h : (left : ℕ) (t : T) → CommuteAt (reader.poll_read left) op t) where
  commute_buffered :
      (t : T) (b : Option Bytes) (n : ℕ)
      → CommuteAt (poll_read reader room) (on_stream op) (conn t b n)
  unfolding poll_read
  commute_buffered t none n =
      let (same, same', ends) = h room t in
      (
        ap (λ r. record { answer = answer_of r; written = bytes_of r }) same,
        same',
        ap (λ u. conn u none n) ends,
      )
  commute_buffered t (some b) n =
      let rest = drop n b in
      let (same, same', ends) = h (room - length rest) t in
      elim (Bool-cases (leb n (length b) && leb (length rest) room)) [
        | inl fits ↦ rw fits (
          ap (λ r. record { answer = answer_of r; written = rest ++ bytes_of r }) same,
          same',
          ap (λ u. conn u none n) ends,
        )
        | inr too_long ↦ rw too_long (refl, refl, refl)
      ]

-- If reads and writes of the socket do not see each other, those of the connection do not, whatever
-- is buffered: the answers and the end are the same in both orders.
pub writes-IsDuplex :
    {T : Type 0} (reader : Reader T) (writer : Writer T)
    → IsDuplex reader.poll_read writer
    → IsDuplex (poll_read reader) (writes writer)
unfolding writes
writes-IsDuplex reader writer h = record {
  write = λ room b s.
      commute_buffered reader (writer.poll_write b) room (λ left t. h.write left b t) s.stream
        s.buffered s.start_of_data;
  flush = λ room s.
      commute_buffered reader writer.poll_flush room (λ left t. h.flush left t) s.stream s.buffered
        s.start_of_data;
  shutdown = λ room s.
      commute_buffered reader writer.poll_shutdown room (λ left t. h.shutdown left t) s.stream
        s.buffered s.start_of_data;
  write_vectored = λ room bs s.
      commute_buffered reader (writer.poll_write_vectored bs) room
        (λ left t. h.write_vectored left bs t) s.stream s.buffered s.start_of_data;
}
