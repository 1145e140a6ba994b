-- ===== src/Api/Connection/Tests.antt =====
-- Connections with a header of one byte, over scripted sockets.
use acme_dns_rust.Base.{
  ℕ, ◌<◌, true, ◌&&◌, ◌≡◌, refl, ◌⊎◌, none, some, List, [], ◌∷◌, ◌++◌, ◌==◌, if◌then◌else◌, arith,
  String,
}
use acme_dns_rust.Base.Outcome.{Outcome, ok}
use acme_dns_rust.Config.Listener.{enabled}
use acme_dns_rust.Api.Metrics.{Bytes}
use acme_dns_rust.Api.Proxy.{
  Read, bytes, Reader, other, Parsed, incomplete, failure, header, ProxyStream, bytes_of, source,
}
use acme_dns_rust.Api.Proxy.Header.{Content, TakesPrefix, unread}
use acme_dns_rust.Api.Tls.{Rustls, empty_cache}
use acme_dns_rust.Api.Connection.{done, stuck, reading, secure, secured}
use acme_dns_rust.Api.Connection.Join.{Ends, secure-Ends}
use acme_dns_rust.Api.Connection.Segments.{passed, secured-first_read, secure-segments}

abbrev next : List Read → Read × List Read
next [] = (bytes [], [])
next (r ∷ rs) = (r, rs)

abbrev script : Reader (List Read)
script = record { poll_read = λ room rs. next rs; poll_read_buf = next }

abbrev bytes_left : List Read → Bytes
bytes_left [] = []
bytes_left (r ∷ rs) = bytes_of r ++ bytes_left rs

bytes_left-next : (rs : List Read) → bytes_left rs ≡ bytes_of (next rs).0 ++ bytes_left (next rs).1
bytes_left-next [] = refl
bytes_left-next (r ∷ rs) = refl

abbrev script_content : Content script
script_content = record {
  left = bytes_left;
  taken = λ room rs. bytes_left-next rs;
  taken_buf = bytes_left-next;
}

-- A header is the byte 1, and names an address that is not supported.
abbrev parse : Bytes → Parsed
parse [] = incomplete
parse (x ∷ r) = if x == 1 then header r (other "unix") else failure

parse-TakesPrefix : TakesPrefix parse
parse-TakesPrefix [] remaining a e = cc
parse-TakesPrefix (x ∷ r) remaining a e = (x ∷ [], ground arith)

abbrev rustls : Rustls String String (List String)
rustls = record {
  rsa_private_keys = λ text. some (text ∷ []);
  certs = λ text. some text;
  new = [];
  set_single_cert = λ chain key config. ok (chain ∷ key ∷ config);
  set_protocols = λ protocols config. config;
}

abbrev accept : List String → ProxyStream (List Read) → Outcome (List String)
accept config s = ok config

abbrev packet : List Read
packet = bytes (1 ∷ 7 ∷ []) ∷ bytes (8 ∷ []) ∷ []

secured-first_read_example :
    (s : ProxyStream (List Read)) × (secured script parse rustls accept 2 1 enabled packet
        (ok none)
        (empty_cache rustls)
      ≡ done (accept [] s))
    × (unread script script_content s ≡ passed (parse (1 ∷ 7 ∷ [])) (1 ∷ 7 ∷ []) ++ 8 ∷ [])
secured-first_read_example =
    secured-first_read script script_content parse parse-TakesPrefix rustls accept (ok none)
      (empty_cache rustls) [] 2 1 packet (bytes (8 ∷ []) ∷ []) (1 ∷ 7 ∷ []) tt refl (omega arith)
      refl (omega arith) (λ e. cc)

-- A header is the bytes 1 and 2.
abbrev parse_two : Bytes → Parsed
parse_two [] = incomplete
parse_two (x ∷ []) = if x == 1 then incomplete else failure
parse_two (x ∷ y ∷ r) = if x == 1 && y == 2 then header r (other "unix") else failure

parse_two-TakesPrefix : TakesPrefix parse_two
parse_two-TakesPrefix [] remaining a e = cc
parse_two-TakesPrefix (x ∷ []) remaining a e = ground arith
parse_two-TakesPrefix (x ∷ y ∷ r) remaining a e = (x ∷ y ∷ [], ground arith)

abbrev segments : List Read
segments = bytes (1 ∷ []) ∷ bytes (2 ∷ 7 ∷ []) ∷ bytes (8 ∷ []) ∷ []

-- The acceptor is over at the second poll.
abbrev one_wait : ℕ
one_wait = 1

secure-segments_example :
    let w =
      secure script parse_two accept (ok []) 3 one_wait (reading true (source segments enabled)) in
    ((one_wait ≡ 0) × (w ≡ stuck))
    ⊎ ((0 < one_wait)
        × (s : ProxyStream (List Read)) × (w ≡ done (accept [] s))
        × (unread script script_content s ≡ (7 ∷ []) ++ 8 ∷ []))
secure-segments_example =
    secure-segments script script_content parse_two parse_two-TakesPrefix accept [] 3 one_wait
      segments (bytes (2 ∷ 7 ∷ []) ∷ bytes (8 ∷ []) ∷ []) (bytes (8 ∷ []) ∷ []) (1 ∷ [])
      (2 ∷ 7 ∷ []) (7 ∷ []) (other "unix") (omega arith) refl (omega arith) refl refl (omega arith)
      refl

secure-Ends_example :
    Ends script script_content parse_two accept
      (ok [])
      (1 ∷ 2 ∷ 7 ∷ 8 ∷ [])
      (secure script parse_two accept (ok []) 3 1 (reading true (source segments enabled)))
unfolding source
secure-Ends_example =
    secure-Ends script script_content parse_two accept (ok []) (1 ∷ 2 ∷ 7 ∷ 8 ∷ []) 3 1
      (reading true (source segments enabled)) refl
