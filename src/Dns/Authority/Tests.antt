-- ===== src/Dns/Authority/Tests.antt =====
-- The name server over record sets that are lists, and its theorems there.
use acme_dns_rust.Base.{
  ◌≡◌, refl, Bool, true, false, Option, none, some, List, [], ◌∷◌, ◌++◌, if◌then◌else◌,
}
use acme_dns_rust.Base.Int.{pos}
use acme_dns_rust.Base.Map.{string_key}
use acme_dns_rust.Base.Outcome.{ok, panic}
use acme_dns_rust.Facade.{State, Cert, Domain, Env, new_domain}
use acme_dns_rust.Facade.Memory.{
  Memory, Order, memory_facade, update_domain, start_cert, first_cert,
}
use acme_dns_rust.Facade.Single.{single, unstarted}
use acme_dns_rust.Api.Metrics.{Bytes, bytes_eq}
use acme_dns_rust.Dns.Records.{Name, RecordType, v4, v6, RecordData, Record, TrustDns}
use acme_dns_rust.Dns.Authority.{
  records, Query, Authority, acme_challenge_label, txt_record, add_hosts, lookup_cname, lookup_pre,
  search_records,
}
use acme_dns_rust.Dns.Authority.Static.{Configured, lookup_pre-Configured}
use acme_dns_rust.Dns.Authority.Answers.{
  IsOpen, search_records-update_domain, search_records-panic_after_start,
}

abbrev labels_eq : List Bytes → List Bytes → Bool
labels_eq [] [] = true
labels_eq (a ∷ as') (b ∷ bs) = if bytes_eq a b then labels_eq as' bs else false
labels_eq _ _ = false

abbrev no_labels : List Bytes → Bool
no_labels [] = true
no_labels (l ∷ ls) = false

abbrev no_records : List Record → Bool
no_records [] = true
no_records (r ∷ rs) = false

abbrev at : Bytes → Name
at label = record { labels = label ∷ []; fqdn = true }

-- The names are those of `lists`, whose sets keep their records in order.
abbrev lists : TrustDns (List Record)
lists = record {
  name_is_empty = λ name. no_labels name.labels;
  name_eq = λ m n. labels_eq m.labels n.labels;
  show_name = λ name. "host";
  with_ttl = λ name type ttl. [];
  add_rdata = λ r set. (set ++ record { name = at []; ttl = 0; rdata = r } ∷ [], true);
  is_empty = no_records;
  set_name = λ set. at [];
  records = λ set. set;
  from_record = λ r. r ∷ [];
}

abbrev alias_set : List Record
alias_set = record { name = at (98 ∷ []); ttl = 9; rdata = RecordData.cname (at (99 ∷ [])) } ∷ []

abbrev text_set : List Record
text_set = record { name = at (98 ∷ []); ttl = 9; rdata = RecordData.txt ("hello" ∷ []) } ∷ []

abbrev authority : Authority (List Record)
authority = record {
  origin = at (97 ∷ []);
  records = (at (98 ∷ []), (RecordType.cname, alias_set) ∷ (RecordType.txt, text_set) ∷ []) ∷ [];
  lookup_host = λ host. ok (v6 [] ∷ v4 (1 ∷ 2 ∷ 3 ∷ 4 ∷ []) ∷ []);
  from_utf8 = λ label. some "u1";
}

abbrev first : List Cert → Option Cert
first [] = none
first (c ∷ cs) = some c

abbrev order : Order
order = record { next = first; next_nil = refl; next_single = λ c. refl }

abbrev addresses : List Record
addresses = record { name = at []; ttl = 0; rdata = RecordData.a (1 ∷ 2 ∷ 3 ∷ 4 ∷ []) } ∷ []

alias_resolved :
    lookup_pre lists authority (at (98 ∷ [])) RecordType.a ≡ ok (some (records addresses))
unfolding lookup_pre lookup_cname add_hosts
alias_resolved = refl

text_found : lookup_pre lists authority (at (98 ∷ [])) RecordType.txt ≡ ok (some (records text_set))
unfolding lookup_pre
text_found = refl

lookup_pre-Configured_example :
    Configured lists authority (at (98 ∷ [])) RecordType.a (records addresses)
lookup_pre-Configured_example =
    lookup_pre-Configured lists authority (at (98 ∷ [])) RecordType.a (records addresses)
      alias_resolved

abbrev ask : Bytes → RecordType → Query
ask label type = record { name = at label; query_type = type }

abbrev empty_store : Memory
empty_store = unstarted []

IsOpen-ask :
    (label : Bytes)
    → bytes_eq (98 ∷ []) label ≡ false
    → IsOpen lists authority (ask label RecordType.txt) label
unfolding lookup_pre
IsOpen-ask label h = record {
  type = refl;
  labelled = refl;
  named = refl;
  unanswered = rw (h, lookup_pre);
}

abbrev domain : Domain
domain = record { id = "u1"; username = "u2"; password = "hashed"; txt = none }

abbrev with_text : Domain
with_text = record domain { txt = some "proof" }

abbrev cert : Cert
cert = record {
  id = "c";
  update = pos 0;
  state = State.updating;
  cert = none;
  private = none;
  domain = "u1";
}

abbrev store : Memory
store = single cert (("u1", with_text) ∷ [])

store-first : first_cert order store ≡ some cert
unfolding first_cert
store-first = refl

search_records-update_domain_example :
    ((update_domain with_text (single cert (("u1", domain) ∷ []))).0 ≡ ok tt)
    × ((search_records lists authority
          (memory_facade order)
          (ask (120 ∷ []) RecordType.txt)
          (update_domain with_text (single cert (("u1", domain) ∷ []))).1).0
        ≡ ok (txt_record lists authority (at (120 ∷ [])) "proof"))
search_records-update_domain_example =
    search_records-update_domain lists authority order (ask (120 ∷ []) RecordType.txt) (120 ∷ [])
      "u1" "proof" with_text domain (single cert (("u1", domain) ∷ [])) (IsOpen-ask (120 ∷ []) refl)
      refl refl refl refl

abbrev env : Env
env = record { now = 1000; uuid = λ n. "u1"; hash = λ password. ok "hashed" }

env-domain :
    new_domain env ≡ ok (record { id = "u1"; username = "u1"; password = "hashed"; txt = none })
unfolding new_domain
env-domain = refl

search_records-panic_after_start_example :
    (search_records lists authority
      (memory_facade order)
      (ask acme_challenge_label RecordType.txt)
      (start_cert order env empty_store).1).0
    ≡ panic
search_records-panic_after_start_example =
    search_records-panic_after_start lists authority order env []
      (record { id = "u1"; username = "u1"; password = "hashed"; txt = none })
      (ask acme_challenge_label RecordType.txt) env-domain (IsOpen-ask acme_challenge_label refl)
