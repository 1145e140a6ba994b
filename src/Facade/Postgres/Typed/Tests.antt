-- ===== src/Facade/Postgres/Typed/Tests.antt =====
-- A row that the table may hold.
use acme_dns_rust.Base.{refl, [], ◌∷◌, arith}
use acme_dns_rust.Base.Int.{pos}
use acme_dns_rust.Sql.{null, text, bigint, integer, SqlRow}
use acme_dns_rust.Sql.Schema.{HasRow, cert_table}
use acme_dns_rust.Facade.Postgres.Samples.{cert}
use acme_dns_rust.Facade.Postgres.Typed.{DecodesCert, decode_cert-DecodesCert}

-- Of a state that the program does not know.
abbrev row : SqlRow
row = text cert.id ∷ bigint (pos 1000) ∷ integer (pos 2) ∷ null ∷ text "pem" ∷ text cert.domain ∷ []

row-HasRow : HasRow cert_table row
row-HasRow = (refl, (omega arith, (omega arith, (tt, (tt, (refl, tt))))))

decode_cert-DecodesCert_example : DecodesCert row
decode_cert-DecodesCert_example = decode_cert-DecodesCert row row-HasRow
