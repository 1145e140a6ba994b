-- ===== src/Facade/Postgres/Columns.antt =====
-- The columns of the tables `domain` and `cert`, as the facade binds and reads them.
use acme_dns_rust.Base.{◌≡◌, refl, Option, none, some, List, [], ◌∷◌, String}
use acme_dns_rust.Base.Int.{pos}
use acme_dns_rust.Base.Outcome.{ok}
use acme_dns_rust.Sql.{SqlValue, null, text, bigint, integer, SqlRow}
use acme_dns_rust.Facade.{State, Cert, Domain}
use acme_dns_rust.Facade.Postgres.{
  encode_state, decode_state, encode_option, decode_option, decode_cert, decode_domain,
  bind_update_cert, bind_create_cert, bind_create_domain, bind_update_domain,
}

-- The columns as the rows hold them: the state as a number, and an absent text as NULL.
abbrev pub state_column : State → SqlValue
state_column State.ok = integer (pos 0)
state_column State.updating = integer (pos 1)

abbrev pub text_column : Option String → SqlValue
text_column none = null
text_column (some s) = text s

abbrev pub cert_row : Cert → SqlRow
cert_row c =
    text c.id
    ∷ bigint c.update
    ∷ state_column c.state
    ∷ text_column c.cert
    ∷ text_column c.private
    ∷ text c.domain
    ∷ []

abbrev pub domain_row : Domain → SqlRow
domain_row d = text d.id ∷ text d.username ∷ text d.password ∷ text_column d.txt ∷ []

-- The arguments of the UPDATE statements, in the order of their numbers.
abbrev pub cert_changes : Cert → List SqlValue
cert_changes c =
    bigint c.update
    ∷ state_column c.state
    ∷ text_column c.cert
    ∷ text_column c.private
    ∷ text c.domain
    ∷ text c.id
    ∷ []

abbrev pub domain_changes : Domain → List SqlValue
domain_changes d = text d.username ∷ text d.password ∷ text_column d.txt ∷ text d.id ∷ []

encode_state-state_column : (s : State) → encode_state s ≡ state_column s
unfolding encode_state
encode_state-state_column State.ok = refl
encode_state-state_column State.updating = refl

encode_option-text_column : (o : Option String) → encode_option o ≡ text_column o
encode_option-text_column none = refl
encode_option-text_column (some s) = refl

pub bind_update_cert-cert_changes : (c : Cert) → bind_update_cert c ≡ cert_changes c
unfolding bind_update_cert
bind_update_cert-cert_changes c =
    rw
      (
        encode_state-state_column c.state,
        encode_option-text_column c.cert,
        encode_option-text_column c.private,
      )
      refl

pub bind_create_cert-cert_row : (c : Cert) → bind_create_cert c ≡ cert_row c
unfolding bind_create_cert
bind_create_cert-cert_row c =
    rw
      (
        encode_state-state_column c.state,
        encode_option-text_column c.cert,
        encode_option-text_column c.private,
      )
      refl

pub bind_create_domain-domain_row : (d : Domain) → bind_create_domain d ≡ domain_row d
unfolding bind_create_domain
bind_create_domain-domain_row d = rw (encode_option-text_column d.txt) refl

pub bind_update_domain-domain_changes : (d : Domain) → bind_update_domain d ≡ domain_changes d
unfolding bind_update_domain
bind_update_domain-domain_changes d = rw (encode_option-text_column d.txt) refl

decode_state-state_column : (s : State) → decode_state (state_column s) ≡ ok s
unfolding decode_state
decode_state-state_column State.ok = refl
decode_state-state_column State.updating = refl

decode_option-text_column : (o : Option String) → decode_option (text_column o) ≡ ok o
decode_option-text_column none = refl
decode_option-text_column (some s) = refl

pub decode_cert-cert_row : (c : Cert) → decode_cert (cert_row c) ≡ ok c
unfolding decode_cert
decode_cert-cert_row c =
    rw
      (
        decode_state-state_column c.state,
        decode_option-text_column c.cert,
        decode_option-text_column c.private,
      )
      refl

pub decode_domain-domain_row : (d : Domain) → decode_domain (domain_row d) ≡ ok d
unfolding decode_domain
decode_domain-domain_row d = rw (decode_option-text_column d.txt) refl
