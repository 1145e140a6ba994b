-- ===== src/Api/Proxy/Tests.antt =====
-- Connections over a scripted socket and a small parser, and the theorems at them.
use acme_dns_rust.Base.{◌≡◌, refl, some, List, [], ◌∷◌, ◌++◌, ◌==◌, if◌then◌else◌, arith}
use acme_dns_rust.Base.Outcome.{ok}
use acme_dns_rust.Api.Metrics.{Bytes}
use acme_dns_rust.Api.Proxy.{
  ready, Read, bytes, waiting, Reader, v4, Addresses, ipv4, Parsed, incomplete, failure, header,
  ProxyStream, source, format_header, map_some, get_header, poll_addr, bytes_of, poll_read,
  finished, await_addr,
}
use acme_dns_rust.Config.Listener.{enabled}
use acme_dns_rust.Api.Proxy.Header.{
  Content, TakesPrefix, received, unread, conn, received-poll_addr,
}
use acme_dns_rust.Api.Proxy.Reads.{unread-poll_read, source-accept}

-- A socket that answers as it is told, and then is at its end.
abbrev next : List Read → Read × List Read
next [] = (bytes [], [])
next (r ∷ rs) = (r, rs)

abbrev script : Reader (List Read)
script = record { poll_read = λ room rs. next rs; poll_read_buf = next }

abbrev bytes_left : List Read → Bytes
bytes_left [] = []
bytes_left (r ∷ rs) = bytes_of r ++ bytes_left rs

bytes_left-next : (rs : List Read) → bytes_left rs ≡ bytes_of (next rs).0 ++ bytes_left (next rs).1
bytes_left-next [] = refl
bytes_left-next (r ∷ rs) = refl

abbrev script_content : Content script
script_content = record {
  left = bytes_left;
  taken = λ room rs. bytes_left-next rs;
  taken_buf = bytes_left-next;
}

-- A header is the byte 1; after a byte 2 more is wanted.
abbrev client : Addresses
client = ipv4 (127 ∷ 0 ∷ 0 ∷ 1 ∷ []) (some 443)

abbrev parse : Bytes → Parsed
parse [] = incomplete
parse (x ∷ r) = if x == 1 then header r client else if x == 2 then incomplete else failure

parse-TakesPrefix : TakesPrefix parse
parse-TakesPrefix [] remaining a e = cc
parse-TakesPrefix (x ∷ r) remaining a e = (x ∷ [], ground arith)

abbrev packet : List Read
packet = bytes (1 ∷ 7 ∷ 8 ∷ []) ∷ waiting ∷ []

accepted :
    await_addr script parse 1 (source packet enabled)
    ≡ finished
        (ok (some (v4 (127 ∷ 0 ∷ 0 ∷ 1 ∷ []) 443)))
        (record { stream = waiting ∷ []; buffered = some (1 ∷ 7 ∷ 8 ∷ []); start_of_data = 1 })
unfolding await_addr poll_addr get_header source format_header
accepted = refl

received-poll_addr_example :
    received script script_content (poll_addr script parse (source packet enabled)).1
    ≡ received script script_content (source packet enabled)
received-poll_addr_example = received-poll_addr script script_content parse (source packet enabled)

abbrev parsed : ProxyStream (List Read)
parsed = conn (waiting ∷ []) (some (1 ∷ 7 ∷ 8 ∷ [])) 1

unread-poll_read_example :
    unread script script_content parsed
    ≡ (poll_read script 16 parsed).0.written
      ++ unread script script_content (poll_read script 16 parsed).1
unread-poll_read_example =
    unread-poll_read script script_content 16 parsed (omega arith, omega arith)

abbrev two_packets : List Read
two_packets = bytes (1 ∷ 7 ∷ []) ∷ bytes (8 ∷ []) ∷ []

source-accept_example :
    (s : ProxyStream (List Read)) × (await_addr script parse 1 (source two_packets enabled)
      ≡ finished (map_some (format_header client)) s)
    × ((poll_read script 16 s).0 ≡ record { answer = ready (ok tt); written = 7 ∷ 8 ∷ [] })
source-accept_example =
    source-accept script parse parse-TakesPrefix two_packets (bytes (8 ∷ []) ∷ []) [] (1 ∷ 7 ∷ [])
      (7 ∷ []) (8 ∷ []) client 0 16 refl (omega arith) refl (omega arith) refl
