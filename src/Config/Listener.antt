-- ===== src/Config/Listener.antt =====
-- src/config/listener.rs: the address of a listener, and whether it speaks the PROXY protocol.
use acme_dns_rust.Base.{true, false, Option, none, some, String}
use acme_dns_rust.Base.Outcome.{Outcome, ok, err, Error, ◌>>=◌, ◌>>◌}
use acme_dns_rust.Config.Value.{Value, string, boolean, seq, Values, nil, cons}

pub data ProxyProtocol : Type 0 where
  enabled disabled : ProxyProtocol

-- `Deserialize for ProxyProtocol`
unfoldable pub deserialize_proxy : Value → Outcome ProxyProtocol
deserialize_proxy (boolean true) = ok enabled
deserialize_proxy (boolean false) = ok disabled
deserialize_proxy _ = err (Error.message "invalid type")

abbrev pub default_proxy : ProxyProtocol
default_proxy = disabled

abbrev pub Listener : Type 0
Listener = Option String × ProxyProtocol

abbrev pub deserialize_string : Value → Outcome String
deserialize_string (string s) = ok s
deserialize_string _ = err (Error.message "invalid type")

-- `seq.next_element::<ProxyProtocol>()?.unwrap_or_default()`, and what is left of the sequence.
unfoldable pub next_proxy : Values → Outcome (ProxyProtocol × Values)
unfolding deserialize_proxy
next_proxy nil = ok (default_proxy, nil)
next_proxy (cons v rest) = do proxy ← deserialize_proxy v; ok (proxy, rest)

unfoldable pub visit_seq : Values → Outcome (Listener × Values)
unfolding next_proxy
visit_seq nil = ok ((none, default_proxy), nil)
visit_seq (cons v rest) = do
  listener ← deserialize_string v
  (proxy, left) ← next_proxy rest
  ok ((some listener, proxy), left)

unfoldable pub visit_str : String → Listener
visit_str value = (some value, disabled)

-- `listener::deserialize`. Whether the deserializer accepts elements that the visitor has left is
-- its own affair: `end_of_seq` stands for that.
unfoldable pub deserialize : (Values → Outcome (Unit {0})) → Value → Outcome Listener
unfolding visit_seq visit_str
deserialize end_of_seq (string s) = ok (visit_str s)
deserialize end_of_seq (seq vs) = do (listener, left) ← visit_seq vs; end_of_seq left; ok listener
deserialize end_of_seq _ = err (Error.message "invalid type")
