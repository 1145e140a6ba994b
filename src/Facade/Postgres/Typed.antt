-- ===== src/Facade/Postgres/Typed.antt =====
-- The types of what the program reads from the database.
mod Tests
use acme_dns_rust.Base.{
  ℕ, zero, suc, ◌^◌, ◌<◌, ◌≡◌, refl, sym, ap, subst, ◌∙◌, ◌≢◌, ◌⊎◌, inl, inr, Option, none, some,
  List, [], ◌∷◌, arith, String,
}
use acme_dns_rust.Base.Int.{ℤ, pos, negsuc}
use acme_dns_rust.Base.Outcome.{Outcome, ok, err, Error, Outcome-cases}
use acme_dns_rust.Util.Words.{IsI64, to_i64-IsI64}
use acme_dns_rust.Sql.{SqlValue, null, text, bigint, integer, bytea, SqlRow}
use acme_dns_rust.Sql.Schema.{
  Column, not_null, nullable, char, varchar, int4, int8, HasColumn, HasRow, cert_table, char_value,
  int8_value, int4_value, text_value,
}
use acme_dns_rust.Api.Metrics.{Bytes}
use acme_dns_rust.Facade.{State, Cert, Domain}
use acme_dns_rust.Persist.{PersistKey, bind_key, bind_key_value}
use acme_dns_rust.Facade.Postgres.{
  decode_state, decode_cert, decode_domain, encode_state, encode_option, bind_update_cert,
  bind_create_cert, bind_create_domain, bind_update_domain,
}
use acme_dns_rust.Facade.Postgres.Columns.{
  state_column, text_column, cert_row, domain_row, decode_cert-cert_row, decode_domain-domain_row,
}
use acme_dns_rust.Facade.Postgres.Tables.{StorableCert, StorableDomain}

abbrev pub state_of : SqlRow → Option ℤ
state_of (_ ∷ _ ∷ integer z ∷ _) = some z
state_of _ = none

-- A column that a cell of a table has.
option_of :
    (v : SqlValue) → HasColumn (nullable varchar) v → (o : Option String) × (v ≡ text_column o)
option_of v h = elim (text_value v h) [ inl e ↦ (none, e) | inr (s, e) ↦ (some s, e) ]

state_cases :
    (z : ℤ)
    → ((s : State) × (integer z ≡ state_column s))
      ⊎ (((e : Error) × (decode_state (integer z) ≡ err e)) × (z ≢ pos 0) × (z ≢ pos 1))
unfolding decode_state
state_cases (pos zero) = inl (State.ok, refl)
state_cases (pos (suc zero)) = inl (State.updating, refl)
state_cases (pos (suc (suc n))) = inr ((_, refl), (λ e. ground arith), (λ e. ground arith))
state_cases (negsuc n) = inr ((_, refl), (λ e. cc), (λ e. cc))

-- A row of the table is that of a certificate, or its state is unknown and it is refused.
abbrev pub DecodesCert : SqlRow → Type 0
DecodesCert row =
    ((c : Cert) × (decode_cert row ≡ ok c) × (cert_row c ≡ row))
    ⊎ (((e : Error) × (decode_cert row ≡ err e))
        × (state_of row ≢ some (pos 0))
        × (state_of row ≢ some (pos 1)))

decode_cells :
    (id domain : String) (update z : ℤ) (cert private : Option String)
    → DecodesCert (
        text id
        ∷ bigint update
        ∷ integer z
        ∷ text_column cert
        ∷ text_column private
        ∷ text domain
        ∷ [])
unfolding decode_cert
decode_cells id domain update z cert private = elim (state_cases z) [
  | inl (s, e) ↦
      let c : Cert = record {
        id = id;
        update = update;
        state = s;
        cert = cert;
        private = private;
        domain = domain;
      } in
      subst
        (λ v.
          DecodesCert (
            text id
            ∷ bigint update
            ∷ v
            ∷ text_column cert
            ∷ text_column private
            ∷ text domain
            ∷ []))
        (sym e) (inl (c, decode_cert-cert_row c, refl))
  | inr ((e, failed), not_ok, not_updating) ↦
      inr (
        (e, rw failed refl),
        (λ p. not_ok (let q = p in cc)),
        (λ p. not_updating (let q = p in cc)),
      )
]

-- A row with the types of the columns of the table cert is decoded to a certificate that has
-- exactly this row, or it is refused with an error, and then its state is neither 0 nor 1.
pub decode_cert-DecodesCert : (row : SqlRow) → HasRow cert_table row → DecodesCert row
decode_cert-DecodesCert [] h = absurd h
decode_cert-DecodesCert (v0 ∷ []) (h0, h) = absurd h
decode_cert-DecodesCert (v0 ∷ v1 ∷ []) (h0, (h1, h)) = absurd h
decode_cert-DecodesCert (v0 ∷ v1 ∷ v2 ∷ []) (h0, (h1, (h2, h))) = absurd h
decode_cert-DecodesCert (v0 ∷ v1 ∷ v2 ∷ v3 ∷ []) (h0, (h1, (h2, (h3, h)))) = absurd h
decode_cert-DecodesCert (v0 ∷ v1 ∷ v2 ∷ v3 ∷ v4 ∷ []) (h0, (h1, (h2, (h3, (h4, h))))) = absurd h
decode_cert-DecodesCert (v0 ∷ v1 ∷ v2 ∷ v3 ∷ v4 ∷ v5 ∷ v6 ∷ row)
      (h0, (h1, (h2, (h3, (h4, (h5, h)))))) =
    absurd h
decode_cert-DecodesCert (v0 ∷ v1 ∷ v2 ∷ v3 ∷ v4 ∷ v5 ∷ []) (h0, (h1, (h2, (h3, (h4, (h5, h6)))))) =
    let (id, e0) = char_value 32 v0 h0 in
    let (update, e1) = int8_value v1 h1 in
    let (z, e2) = int4_value v2 h2 in
    let (cert, e3) = option_of v3 h3 in
    let (private, e4) = option_of v4 h4 in
    let (domain, e5) = char_value 32 v5 h5 in
    rw (e0, e1, e2, e3, e4, e5) (decode_cells id domain update z cert private)
