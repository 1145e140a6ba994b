-- ===== src/Facade/Postgres/Rows.antt =====
-- A database that runs the statements on two lists of rows.
mod Lists
use acme_dns_rust.Base.{
  ◌≡◌, refl, sym, ap, ◌∙◌, ◌≢◌, Bool, true, false, Option, none, some, List, [], ◌∷◌, ◌++◌,
  if◌then◌else◌, String, str_eq,
}
use acme_dns_rust.Base.Outcome.{Outcome, ok, err, panic, Error, ◌>>=◌}
use acme_dns_rust.Sql.{SqlValue, text, bigint, SqlRow, Postgres}
use acme_dns_rust.Facade.{Cert, Domain}
use acme_dns_rust.Facade.Postgres.{
  first_cert_sql, update_cert_sql, create_cert_sql, create_domain_sql, find_domain_sql,
  update_domain_sql, decode_cert, decode_domain, bind_update_cert, bind_create_cert,
  bind_create_domain, bind_update_domain, encode_state,
}
use acme_dns_rust.Facade.Postgres.Columns.{
  cert_row, domain_row, decode_cert-cert_row, decode_domain-domain_row,
}
use acme_dns_rust.Facade.Postgres.Tables.{
  rows_of, View, SelectsCert, empty, one, FitsCert, FitsDomain, SetsCert, SetsDomain, Tables,
}
use acme_dns_rust.Facade.Postgres.Rows.Lists.{
  find_by, update_by, find_by-update_by, find_by-append, find_by_head,
}

pub record Rows : Type 0 where
  pub certs : List Cert
  pub domains : List Domain

abbrev pub cert_id : Cert → String
cert_id c = c.id

abbrev pub domain_id : Domain → String
domain_id d = d.id

abbrev with_row : {A : Type 0} → Outcome A → (A → Rows) → Rows → Outcome (Unit {0}) × Rows
with_row (ok a) change db = (ok tt, change a)
with_row (err e) change db = (err e, db)
with_row panic change db = (panic, db)

unfoldable pub run_update_cert : List SqlValue → Rows → Outcome (Unit {0}) × Rows
run_update_cert (update ∷ state ∷ cert ∷ private ∷ domain ∷ id ∷ []) db =
    with_row (decode_cert (id ∷ update ∷ state ∷ cert ∷ private ∷ domain ∷ []))
      (λ c. record db { certs = update_by cert_id c db.certs }) db
run_update_cert _ db = (err (Error.sqlx "arguments"), db)

unfoldable pub run_update_domain : List SqlValue → Rows → Outcome (Unit {0}) × Rows
run_update_domain (username ∷ password ∷ txt ∷ id ∷ []) db =
    with_row (decode_domain (id ∷ username ∷ password ∷ txt ∷ []))
      (λ d. record db { domains = update_by domain_id d db.domains }) db
run_update_domain _ db = (err (Error.sqlx "arguments"), db)

unfoldable pub run_execute : String → List SqlValue → Rows → Outcome (Unit {0}) × Rows
run_execute sql args db =
    if str_eq sql update_cert_sql
    then run_update_cert args db
    else if str_eq sql create_cert_sql
    then with_row (decode_cert args) (λ c. record db { certs = db.certs ++ c ∷ [] }) db
    else if str_eq sql create_domain_sql
    then with_row (decode_domain args) (λ d. record db { domains = db.domains ++ d ∷ [] }) db
    else if str_eq sql update_domain_sql
    then run_update_domain args db
    else (err (Error.sqlx "statement"), db)

abbrev pub first_rows : List Cert → List SqlRow
first_rows [] = []
first_rows (c ∷ cs) = cert_row c ∷ []

abbrev find_rows : List SqlValue → Rows → List SqlRow
find_rows (text id ∷ []) db = rows_of (find_by domain_id id db.domains)
find_rows _ db = []

unfoldable pub run_fetch : String → List SqlValue → Rows → Outcome (List SqlRow) × Rows
run_fetch sql args db =
    if str_eq sql first_cert_sql
    then (ok (first_rows db.certs), db)
    else if str_eq sql find_domain_sql
    then (ok (find_rows args db), db)
    else (err (Error.sqlx "statement"), db)

abbrev pub rows_postgres : Postgres Rows
rows_postgres = record {
  begin = λ db. ok tt;
  commit = λ db. ok tt;
  execute = run_execute;
  fetch = run_fetch;
}

abbrev pub view : Rows → View
view db = record {
  cert_at = λ k. find_by cert_id k db.certs;
  domain_at = λ k. find_by domain_id k db.domains;
}

pub first_selects : (db : Rows) → SelectsCert (view db) (first_rows db.certs)
first_selects db = go db.certs refl
  where
    go : (cs : List Cert) → cs ≡ db.certs → SelectsCert (view db) (first_rows cs)
    go [] e = empty (λ k. ap (find_by cert_id k) (sym e)) refl
    go (c ∷ cs) e = one c (ap (find_by cert_id c.id) (sym e) ∙ find_by_head cert_id c cs) refl

unfoldable pub rows_tables : Tables rows_postgres
unfolding run_fetch run_execute run_update_cert run_update_domain
rows_tables = record {
  view = view;
  begins = λ db. refl;
  commits = λ db. refl;
  first_cert_law = λ db. (first_rows db.certs, refl, first_selects db);
  update_cert_law = λ c db fits there.
      rw (decode_cert-cert_row c)
        (refl, (λ k. find_by-update_by cert_id c k db.certs there, λ k. refl));
  create_cert_law = λ c db fits new.
      rw (decode_cert-cert_row c) (refl, (λ k. find_by-append cert_id c k db.certs new, λ k. refl));
  create_domain_law = λ d db fits new.
      rw (decode_domain-domain_row d)
        (refl, (λ k. find_by-append domain_id d k db.domains new, λ k. refl));
  update_domain_law = λ d db fits there.
      rw (decode_domain-domain_row d)
        (refl, (λ k. find_by-update_by domain_id d k db.domains there, λ k. refl));
  find_domain_law = λ k db wide. refl;
}
