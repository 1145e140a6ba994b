-- ===== src/Facade/Postgres/Tables.antt =====
-- The tables `domain` and `cert` of migrations/postgres/20200811125158_initial.sql, and what the
-- database's documentation says of the statements of `DatabaseFacade` on them.
use acme_dns_rust.Base.{◌≡◌, ◌≢◌, Option, none, some, List, [], ◌∷◌, if◌then◌else◌, String, str_eq}
use acme_dns_rust.Base.Outcome.{ok}
use acme_dns_rust.Sql.Text.{IsText, IsChar, IsVarchar}
use acme_dns_rust.Sql.{text, SqlRow, Postgres}
use acme_dns_rust.Facade.{Cert, Domain}
use acme_dns_rust.Facade.Postgres.{
  first_cert_sql, update_cert_sql, create_cert_sql, create_domain_sql, find_domain_sql,
  update_domain_sql, bind_update_cert, bind_create_cert, bind_create_domain, bind_update_domain,
}
use acme_dns_rust.Facade.Postgres.Columns.{
  bind_create_cert-cert_row, bind_create_domain-domain_row, bind_update_cert-cert_changes,
  bind_update_domain-domain_changes, cert_changes, cert_row, domain_changes, domain_row,
}

abbrev pub CertTexts : Cert → Type 0
CertTexts c = IsVarchar c.cert × IsVarchar c.private

abbrev pub StorableCert : Cert → Type 0
StorableCert c = IsChar 32 c.id × IsChar 32 c.domain × CertTexts c

abbrev pub StorableDomain : Domain → Type 0
StorableDomain d = IsChar 32 d.id × IsChar 32 d.username × IsChar 60 d.password × IsVarchar d.txt

abbrev pub rows_of : Option Domain → List SqlRow
rows_of none = []
rows_of (some d) = domain_row d ∷ []

-- The rows by their primary keys.
pub record View : Type 0 where
  pub cert_at : String → Option Cert
  pub domain_at : String → Option Domain

-- LIMIT 1 without an order.
pub data SelectsCert (view : View) (answer : List SqlRow) : Type 0 where
  empty : ((k : String) → view.cert_at k ≡ none) → answer ≡ [] → SelectsCert view answer
  one : (c : Cert) → view.cert_at c.id ≡ some c → answer ≡ cert_row c ∷ [] → SelectsCert view answer

-- The foreign key and the unique index of `cert` allow the row.
pub record FitsCert (view : View) (c : Cert) : Type 0 where
  pub width : StorableCert c
  pub known : view.domain_at c.domain ≢ none
  pub alone : (k : String) (x : Cert) → view.cert_at k ≡ some x → x.domain ≡ c.domain → k ≡ c.id

-- The unique indices of `domain` allow the row.
pub record FitsDomain (view : View) (d : Domain) : Type 0 where
  pub width : StorableDomain d
  pub alone :
      (k : String) (x : Domain)
      → view.domain_at k ≡ some x
      → k ≢ d.id
      → (x.username ≢ d.username) × (x.password ≢ d.password)

-- The statement has succeeded, and the row is the one of its key.
abbrev pub SetsCert : Cert → View → View → Type 0
SetsCert c before after =
    ((k : String) → after.cert_at k ≡ (if str_eq c.id k then some c else before.cert_at k))
    × ((k : String) → after.domain_at k ≡ before.domain_at k)

abbrev pub SetsDomain : Domain → View → View → Type 0
SetsDomain d before after =
    ((k : String) → after.domain_at k ≡ (if str_eq d.id k then some d else before.domain_at k))
    × ((k : String) → after.cert_at k ≡ before.cert_at k)

-- A database in working order that holds the two tables.
pub record Tables {Db : Type 0} (pg : Postgres Db) : Type 0 where
  pub view : Db → View
  pub begins : (db : Db) → pg.begin db ≡ ok tt
  pub commits : (db : Db) → pg.commit db ≡ ok tt
  pub first_cert_law :
      (db : Db)
      → (answer : List SqlRow) × (pg.fetch first_cert_sql [] db ≡ (ok answer, db))
        × SelectsCert (view db) answer
  pub update_cert_law :
      (c : Cert) (db : Db)
      → FitsCert (view db) c
      → (view db).cert_at c.id ≢ none
      → ((pg.execute update_cert_sql (cert_changes c) db).0 ≡ ok tt)
        × SetsCert c (view db) (view (pg.execute update_cert_sql (cert_changes c) db).1)
  pub create_cert_law :
      (c : Cert) (db : Db)
      → FitsCert (view db) c
      → (view db).cert_at c.id ≡ none
      → ((pg.execute create_cert_sql (cert_row c) db).0 ≡ ok tt)
        × SetsCert c (view db) (view (pg.execute create_cert_sql (cert_row c) db).1)
  pub create_domain_law :
      (d : Domain) (db : Db)
      → FitsDomain (view db) d
      → (view db).domain_at d.id ≡ none
      → ((pg.execute create_domain_sql (domain_row d) db).0 ≡ ok tt)
        × SetsDomain d (view db) (view (pg.execute create_domain_sql (domain_row d) db).1)
  pub update_domain_law :
      (d : Domain) (db : Db)
      → FitsDomain (view db) d
      → (view db).domain_at d.id ≢ none
      → ((pg.execute update_domain_sql (domain_changes d) db).0 ≡ ok tt)
        × SetsDomain d (view db) (view (pg.execute update_domain_sql (domain_changes d) db).1)
  pub find_domain_law :
      (k : String) (db : Db)
      → IsText k
      → pg.fetch find_domain_sql (text k ∷ []) db ≡ (ok (rows_of ((view db).domain_at k)), db)

-- The laws on what the facade binds.
module _ {Db : Type 0} (pg : Postgres Db) (tables : Tables pg) where
  pub execute-update_cert_sql :
      (c : Cert) (db : Db)
      → FitsCert (tables.view db) c
      → (tables.view db).cert_at c.id ≢ none
      → ((pg.execute update_cert_sql (bind_update_cert c) db).0 ≡ ok tt)
        × SetsCert c
            (tables.view db)
            (tables.view (pg.execute update_cert_sql (bind_update_cert c) db).1)
  execute-update_cert_sql c db fits here =
      rw (bind_update_cert-cert_changes c) (tables.update_cert_law c db fits here)

  pub execute-create_cert_sql :
      (c : Cert) (db : Db)
      → FitsCert (tables.view db) c
      → (tables.view db).cert_at c.id ≡ none
      → ((pg.execute create_cert_sql (bind_create_cert c) db).0 ≡ ok tt)
        × SetsCert c
            (tables.view db)
            (tables.view (pg.execute create_cert_sql (bind_create_cert c) db).1)
  execute-create_cert_sql c db fits here =
      rw (bind_create_cert-cert_row c) (tables.create_cert_law c db fits here)

  pub execute-create_domain_sql :
      (d : Domain) (db : Db)
      → FitsDomain (tables.view db) d
      → (tables.view db).domain_at d.id ≡ none
      → ((pg.execute create_domain_sql (bind_create_domain d) db).0 ≡ ok tt)
        × SetsDomain d
            (tables.view db)
            (tables.view (pg.execute create_domain_sql (bind_create_domain d) db).1)
  execute-create_domain_sql d db fits here =
      rw (bind_create_domain-domain_row d) (tables.create_domain_law d db fits here)

  pub execute-update_domain_sql :
      (d : Domain) (db : Db)
      → FitsDomain (tables.view db) d
      → (tables.view db).domain_at d.id ≢ none
      → ((pg.execute update_domain_sql (bind_update_domain d) db).0 ≡ ok tt)
        × SetsDomain d
            (tables.view db)
            (tables.view (pg.execute update_domain_sql (bind_update_domain d) db).1)
  execute-update_domain_sql d db fits here =
      rw (bind_update_domain-domain_changes d) (tables.update_domain_law d db fits here)
