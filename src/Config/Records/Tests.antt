-- ===== src/Config/Records/Tests.antt =====
-- The records of a small file, over sets that are lists.
use acme_dns_rust.Base.{◌≡◌, refl, true, false, List, [], ◌∷◌, ◌++◌, String}
use acme_dns_rust.Base.Int.{pos}
use acme_dns_rust.Base.Outcome.{ok}
use acme_dns_rust.Dns.Records.{Name, RecordType, RecordData, Record, TrustDns}
use acme_dns_rust.Config.Value.{Value, string, integer, seq, table, nil, cons, Entries, end, entry}
use acme_dns_rust.Config.Records.{
  Parsers, insert_by, deserialize_u32, record_type, record_data, add_all, visit_seq,
  deserialize_set, visit_types, deserialize_sets, visit_names, deserialize,
}

abbrev name : Name
name = record { labels = (97 ∷ []) ∷ []; fqdn = true }

abbrev lists : TrustDns (List Record)
lists = record {
  name_is_empty = λ name. false;
  name_eq = λ m n. true;
  show_name = λ name. "host";
  with_ttl = λ name type ttl. [];
  add_rdata = λ r set. (set ++ record { name = name; ttl = 0; rdata = r } ∷ [], true);
  is_empty = λ set. false;
  set_name = λ set. name;
  records = λ set. set;
  from_record = λ r. r ∷ [];
}

abbrev parsers : Parsers
parsers = record {
  parse_name = λ s. ok (record name { fqdn = false });
  parse_ip = λ s. ok (1 ∷ 1 ∷ 1 ∷ 1 ∷ []);
}

abbrev texts : String → Value
texts s = seq (cons (integer (pos 200)) (cons (string s) nil))

abbrev file_entries : Entries
file_entries =
    entry "TXT" (texts "one") (entry "A" (texts "1.1.1.1") (entry "TXT" (texts "two") end))

abbrev txt_set : String → List Record
txt_set s = record { name = name; ttl = 0; rdata = RecordData.txt (s ∷ []) } ∷ []

abbrev a_set : List Record
a_set = record { name = name; ttl = 0; rdata = RecordData.a (1 ∷ 1 ∷ 1 ∷ 1 ∷ []) } ∷ []

sets_read :
    deserialize_sets lists parsers name (table file_entries)
    ≡ ok ((RecordType.txt, txt_set "two") ∷ (RecordType.a, a_set) ∷ [])
unfolding deserialize_sets visit_types record_type deserialize_set visit_seq deserialize_u32 add_all
    record_data insert_by
sets_read = refl

file_read :
    deserialize lists parsers (table (entry "a." (table file_entries) end))
    ≡ ok ((name, (RecordType.txt, txt_set "two") ∷ (RecordType.a, a_set) ∷ []) ∷ [])
unfolding deserialize visit_names deserialize_sets visit_types record_type deserialize_set visit_seq
    deserialize_u32 add_all record_data insert_by
file_read = refl
