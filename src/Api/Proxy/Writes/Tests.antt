-- ===== src/Api/Proxy/Writes/Tests.antt =====
-- A socket with a list of bytes to read and one of the bytes written.
use acme_dns_rust.Base.{refl, List, [], ◌∷◌, ◌++◌, length, take, drop, false}
use acme_dns_rust.Base.Outcome.{ok}
use acme_dns_rust.Api.Metrics.{Bytes}
use acme_dns_rust.Api.Proxy.{ready, bytes, Reader, poll_read}
use acme_dns_rust.Api.Proxy.Writes.{Writer, writes, IsDuplex, writes-IsDuplex}

abbrev Socket : Type 0
Socket = Bytes × Bytes

abbrev reader : Reader Socket
reader = record {
  poll_read = λ room s. (bytes (take room s.0), (drop room s.0, s.1));
  poll_read_buf = λ s. (bytes s.0, ([], s.1));
}

abbrev joined : List Bytes → Bytes
joined [] = []
joined (b ∷ bs) = b ++ joined bs

abbrev writer : Writer Socket
writer = record {
  poll_write = λ b s. (ready (ok (length b)), (s.0, s.1 ++ b));
  poll_flush = λ s. (ready (ok tt), s);
  poll_shutdown = λ s. (ready (ok tt), s);
  poll_write_vectored = λ bs s. (ready (ok (length (joined bs))), (s.0, s.1 ++ joined bs));
  is_write_vectored = λ s. false;
}

socket-IsDuplex : IsDuplex reader.poll_read writer
socket-IsDuplex = record {
  write = λ room b t. (refl, refl, refl);
  flush = λ room t. (refl, refl, refl);
  shutdown = λ room t. (refl, refl, refl);
  write_vectored = λ room bs t. (refl, refl, refl);
}

writes-IsDuplex_example : IsDuplex (poll_read reader) (writes writer)
writes-IsDuplex_example = writes-IsDuplex reader writer socket-IsDuplex
