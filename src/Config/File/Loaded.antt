-- ===== src/Config/File/Loaded.antt =====
-- What a configuration that could be loaded holds.
use acme_dns_rust.Base.{
  ◌≡◌, refl, ap, subst, inl, inr, Option, Option-cases, none, some, [], String,
}
use acme_dns_rust.Base.Outcome.{Outcome, ok, bind_inversion, then_inversion, ok_injective}
use acme_dns_rust.Api.Metrics.{Bytes}
use acme_dns_rust.Dns.Records.{TrustDns}
use acme_dns_rust.Config.Value.{
  Value, string, integer, boolean, seq, table, Values, nil, cons, Entries,
}
use acme_dns_rust.Config.Listener.{
  Listener, disabled, deserialize_string, next_proxy, visit_seq, visit_str,
  deserialize as deserialize_listener,
}
use acme_dns_rust.Config.Records.{deserialize as deserialize_records}
use acme_dns_rust.Config.Records.Built.{AllNames, deserialize-AllNames}
use acme_dns_rust.Config.File.{
  Api, Config, Serde, field, required, defaulted, with_table, listener_field, deserialize_api,
  deserialize_general, deserialize_config, load_config, path_or_default,
}

-- A listener without an address does not speak the PROXY protocol.
abbrev pub IsListener : Listener → Type 0
IsListener (none, proxy) = proxy ≡ disabled
IsListener (some addr, proxy) = Unit

visit_seq-IsListener :
    (vs left : Values) (listener : Listener)
    → visit_seq vs ≡ ok (listener, left)
    → IsListener listener
unfolding visit_seq
visit_seq-IsListener nil left listener e = subst IsListener (ap (λ p. p.0) (ok_injective e)) refl
visit_seq-IsListener (cons v rest) left listener e =
    let (addr, _, e1) = bind_inversion (deserialize_string v) _ e in
    let ((proxy, left'), _, e2) = bind_inversion (next_proxy rest) _ e1 in
    subst IsListener (ap (λ p. p.0) (ok_injective e2)) tt

deserialize_listener-IsListener :
    (end_of_seq : Values → Outcome (Unit {0})) (v : Value) (listener : Listener)
    → deserialize_listener end_of_seq v ≡ ok listener
    → IsListener listener
unfolding deserialize_listener visit_str
deserialize_listener-IsListener end_of_seq (string s) listener e =
    subst IsListener (ok_injective e) tt
deserialize_listener-IsListener end_of_seq (seq vs) listener e =
    let ((found, left), read, e1) = bind_inversion (visit_seq vs) _ e in
    subst IsListener (ok_injective (then_inversion (end_of_seq left) _ e1))
      (visit_seq-IsListener vs left found read)
deserialize_listener-IsListener end_of_seq _ listener e = cc

module _ {RecordSet : Type 0} (dns : TrustDns RecordSet) (serde : Serde) where
  listener_field-IsListener :
      (name : String) (entries : Entries) (listener : Listener)
      → listener_field dns serde name entries ≡ ok listener
      → IsListener listener
  listener_field-IsListener name entries listener e = elim (Option-cases (field name entries)) [
    | inl missing ↦ subst IsListener (ok_injective (rw missing at e)) refl
    | inr (v, found) ↦ deserialize_listener-IsListener serde.end_of_seq v listener (rw found at e)
  ]

  abbrev pub ListenersOf : Api → Type 0
  ListenersOf api = IsListener api.http × IsListener api.https × IsListener api.prom

  deserialize_api-ListenersOf :
      (entries : Entries) (api : Api) → deserialize_api dns serde entries ≡ ok api → ListenersOf api
  unfolding deserialize_api
  deserialize_api-ListenersOf entries api e =
      let (http, read, e1) = bind_inversion (listener_field dns serde "http" entries) _ e in
      let (https, read', e2) = bind_inversion (listener_field dns serde "https" entries) _ e1 in
      let (prom, read'', e3) = bind_inversion (listener_field dns serde "prom" entries) _ e2 in
      subst ListenersOf (ok_injective e3) (
        listener_field-IsListener "http" entries http read,
        listener_field-IsListener "https" entries https read',
        listener_field-IsListener "prom" entries prom read'',
      )

  table_inversion :
      {A : Type 0} (deserialize : Entries → Outcome A) (o : Option Value) (a : A)
      → required (with_table deserialize) o ≡ ok a
      → (entries : Entries) × (deserialize entries ≡ ok a)
  table_inversion deserialize (some (table entries)) a e = (entries, e)
  table_inversion deserialize (some (string s)) a e = cc
  table_inversion deserialize (some (integer n)) a e = cc
  table_inversion deserialize (some (boolean b)) a e = cc
  table_inversion deserialize (some (seq vs)) a e = cc
  table_inversion deserialize none a e = cc

  records_inversion :
      (o : Option Value) (records : _)
      → defaulted [] (deserialize_records dns serde.parsers) o ≡ ok records
      → AllNames dns serde.parsers records
  records_inversion none records e = subst (AllNames dns serde.parsers) (ok_injective e) tt
  records_inversion (some v) records e = deserialize-AllNames dns serde.parsers v records e

  -- What a configuration promises to the server that it is given to.
  pub record IsLoaded (config : Config RecordSet) : Type 0 where
    pub listeners : ListenersOf config.api
    pub records : AllNames dns serde.parsers config.records

  deserialize_config-IsLoaded :
      (entries : Entries) (config : Config RecordSet)
      → deserialize_config dns serde entries ≡ ok config
      → IsLoaded config
  unfolding deserialize_config
  deserialize_config-IsLoaded entries config e =
      let (general, _, e1) =
        bind_inversion
          (required (with_table (deserialize_general dns serde)) (field "general" entries)) _ e in
      let (api, read, e2) =
        bind_inversion (required (with_table (deserialize_api dns serde)) (field "api" entries)) _
          e1 in
      let (records, read', e3) =
        bind_inversion
          (defaulted [] (deserialize_records dns serde.parsers) (field "records" entries)) _ e2 in
      let (api_entries, read'') =
        table_inversion (deserialize_api dns serde) (field "api" entries) api read in
      subst IsLoaded (ok_injective e3) (record {
        listeners = deserialize_api-ListenersOf api_entries api read'';
        records = records_inversion (field "records" entries) records read';
      })

  -- In a configuration that could be loaded, no listener without an address speaks the PROXY
  -- protocol, every configured name is fully qualified, and every set of records is of type TXT,
  -- A or CNAME, was empty with a time to live below 2^32 at first, and had each of its data, of
  -- its own type, added and accepted.
  pub load_config-IsLoaded :
      (read : String → Outcome Bytes) (parse : Bytes → Outcome Value) (path : Option String)
      (config : Config RecordSet)
      → load_config dns serde read parse path ≡ ok config
      → IsLoaded config
  unfolding load_config
  load_config-IsLoaded read parse path config e =
      let (file, _, e1) = bind_inversion (read (path_or_default dns serde path)) _ e in
      let (value, _, e2) = bind_inversion (parse file) _ e1 in
      let (entries, e3) = table_inversion (deserialize_config dns serde) (some value) config e2 in
      deserialize_config-IsLoaded entries config e3
