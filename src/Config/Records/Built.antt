-- ===== src/Config/Records/Built.antt =====
-- Every configured set is one that the file describes.
use acme_dns_rust.Base.{
  ℕ, ◌^◌, ◌<◌, ◌≡◌, refl, sym, subst, ◌⊎◌, inl, inr, Bool, true, false, [], ◌∷◌, arith, Bool-cases,
  String,
}
use acme_dns_rust.Base.Int.{pos, negsuc}
use acme_dns_rust.Base.Map.{Map}
use acme_dns_rust.Base.Outcome.{ok, bind_inversion}
use acme_dns_rust.Dns.Records.{Name, RecordType, type_eq, RecordData, TrustDns, Preconfigured}
use acme_dns_rust.Dns.Authority.Static.{type_eq_sound}
use acme_dns_rust.Config.Value.{
  Value, string, integer, boolean, seq, table, Values, nil, cons, Entries, end, entry,
}
use acme_dns_rust.Config.Listener.{deserialize_string}
use acme_dns_rust.Config.Records.{
  Parsers, insert_by, deserialize_u32, record_type, record_data, added, add_all, visit_seq,
  deserialize_set, visit_types, deserialize_sets, visit_names, deserialize,
}

deserialize_u32-bound : (v : Value) (n : ℕ) → deserialize_u32 v ≡ ok n → n < 2 ^ 32
unfolding deserialize_u32
deserialize_u32-bound (integer (pos m)) n e = ground arith
deserialize_u32-bound (integer (negsuc m)) n e = cc
deserialize_u32-bound (string s) n e = cc
deserialize_u32-bound (boolean b) n e = cc
deserialize_u32-bound (seq vs) n e = cc
deserialize_u32-bound (table es) n e = cc

module _ {RecordSet : Type 0} (dns : TrustDns RecordSet) (parsers : Parsers) where
  -- A set that is empty at first, with a time to live of 32 bits, and to which data of its own type
  -- were added, each accepted.
  pub data Built (name : Name) (type : RecordType) : RecordSet → Type 0 where
    fresh : (ttl : ℕ) → ttl < 2 ^ 32 → Built name type (dns.with_ttl name type ttl)
    more :
        (before after : RecordSet) (text : String) (rdata : RecordData)
        → Built name type before
        → record_data dns parsers type text ≡ ok rdata
        → dns.add_rdata rdata before ≡ (after, true)
        → Built name type after

  added_inversion :
      (r : RecordSet × Bool) (set : RecordSet) → added dns parsers r ≡ ok set → r ≡ (set, true)
  added_inversion (set', true) set e = cc
  added_inversion (set', false) set e = cc

  add_all-Built :
      (name : Name) (type : RecordType) (set result : RecordSet) (vs : Values)
      → Built name type set
      → add_all dns parsers type set vs ≡ ok result
      → Built name type result
  unfolding add_all
  add_all-Built name type set result nil b e =
      let same : set ≡ result = cc in subst (Built name type) same b
  add_all-Built name type set result (cons v rest) b e =
      let (text, _, e1) = bind_inversion (deserialize_string v) _ e in
      let (rdata, made, e2) = bind_inversion (record_data dns parsers type text) _ e1 in
      let (next, accepted, e3) =
        bind_inversion (added dns parsers (dns.add_rdata rdata set)) _ e2 in
      add_all-Built name type next result rest
        (more set next text rdata b made (added_inversion _ next accepted)) e3

  deserialize_set-Built :
      (name : Name) (type : RecordType) (v : Value) (set : RecordSet)
      → deserialize_set dns parsers name type v ≡ ok set
      → Built name type set
  unfolding deserialize_set visit_seq
  deserialize_set-Built name type (seq (cons v rest)) set e =
      let (ttl, read, e1) = bind_inversion (deserialize_u32 v) _ e in
      add_all-Built name type (dns.with_ttl name type ttl) set rest
        (fresh ttl (deserialize_u32-bound v ttl read)) e1
  deserialize_set-Built name type _ set e = cc

  -- A type that the file can name, with a set built for it and for a fully qualified name.
  pub data IsConfigured (type : RecordType) (set : RecordSet) : Type 0 where
    configured :
        (name : Name)
        → name.fqdn ≡ true
        → (type ≡ RecordType.txt) ⊎ ((type ≡ RecordType.a) ⊎ (type ≡ RecordType.cname))
        → Built name type set
        → IsConfigured type set

  abbrev pub AllSets : Map RecordType RecordSet → Type 0
  AllSets [] = Unit
  AllSets ((type, set) ∷ m) = IsConfigured type set × AllSets m

  -- Every name is fully qualified, and all of its sets are as described.
  abbrev pub AllNames : Preconfigured RecordSet → Type 0
  AllNames [] = Unit
  AllNames ((name, sets) ∷ m) = ((name.fqdn ≡ true) × AllSets sets) × AllNames m

  insert_by-AllSets :
      (type : RecordType) (set : RecordSet) (m : Map RecordType RecordSet)
      → IsConfigured type set
      → AllSets m
      → AllSets (insert_by type_eq type set m)
  unfolding insert_by
  insert_by-AllSets type set [] h hs = (h, tt)
  insert_by-AllSets type set ((type', set') ∷ m) h (h', hs) =
      elim (Bool-cases (type_eq type' type)) [
        | inl same ↦
            rw same (subst (λ u. IsConfigured u set) (sym (type_eq_sound type' type same)) h, hs)
        | inr other ↦ rw other (h', insert_by-AllSets type set m h hs)
      ]

  insert_by-AllNames :
      (name : Name) (sets : Map RecordType RecordSet) (m : Preconfigured RecordSet)
      → name.fqdn ≡ true
      → AllSets sets
      → AllNames m
      → AllNames (insert_by dns.name_eq name sets m)
  unfolding insert_by
  insert_by-AllNames name sets [] q h hs = ((q, h), tt)
  insert_by-AllNames name sets ((name', sets') ∷ m) q h ((q', h'), hs) =
      elim (Bool-cases (dns.name_eq name' name)) [
        | inl same ↦ rw same ((q', h), hs)
        | inr other ↦ rw other ((q', h'), insert_by-AllNames name sets m q h hs)
      ]

  record_type_named :
      (s : String) (type : RecordType)
      → record_type s ≡ ok type
      → (type ≡ RecordType.txt) ⊎ ((type ≡ RecordType.a) ⊎ (type ≡ RecordType.cname))
  unfolding record_type
  record_type_named s type e = ground arith

  visit_types-AllSets :
      (name : Name) (res sets : Map RecordType RecordSet) (entries : Entries)
      → name.fqdn ≡ true
      → AllSets res
      → visit_types dns parsers name res entries ≡ ok sets
      → AllSets sets
  unfolding visit_types
  visit_types-AllSets name res sets end q h e = let same : res ≡ sets = cc in subst AllSets same h
  visit_types-AllSets name res sets (entry key v rest) q h e =
      let (type, named, e1) = bind_inversion (record_type key) _ e in
      let (set, read, e2) = bind_inversion (deserialize_set dns parsers name type v) _ e1 in
      visit_types-AllSets name (insert_by type_eq type set res) sets rest q
        (insert_by-AllSets type set res
          (configured name q (record_type_named key type named)
            (deserialize_set-Built name type v set read))
          h)
        e2

  deserialize_sets-AllSets :
      (name : Name) (v : Value) (sets : Map RecordType RecordSet)
      → name.fqdn ≡ true
      → deserialize_sets dns parsers name v ≡ ok sets
      → AllSets sets
  unfolding deserialize_sets
  deserialize_sets-AllSets name (table entries) sets q e =
      visit_types-AllSets name [] sets entries q tt e
  deserialize_sets-AllSets name _ sets q e = cc

  visit_names-AllNames :
      (res m : Preconfigured RecordSet) (entries : Entries)
      → AllNames res
      → visit_names dns parsers res entries ≡ ok m
      → AllNames m
  unfolding visit_names
  visit_names-AllNames res m end h e = let same : res ≡ m = cc in subst AllNames same h
  visit_names-AllNames res m (entry key v rest) h e =
      let (parsed, _, e1) = bind_inversion (parsers.parse_name key) _ e in
      let name = record parsed { fqdn = true } in
      let (sets, read, e2) = bind_inversion (deserialize_sets dns parsers name v) _ e1 in
      visit_names-AllNames (insert_by dns.name_eq name sets res) m rest
        (insert_by-AllNames name sets res refl (deserialize_sets-AllSets name v sets refl read) h)
        e2

  -- If the records of a file can be read, every configured name is fully qualified, and every set
  -- is of type TXT, A or CNAME, was empty with a time to live below 2^32 at first, and had each
  -- of its data, of its own type, added and accepted.
  pub deserialize-AllNames :
      (v : Value) (m : Preconfigured RecordSet) → deserialize dns parsers v ≡ ok m → AllNames m
  unfolding deserialize
  deserialize-AllNames (table entries) m e = visit_names-AllNames [] m entries tt e
  deserialize-AllNames _ m e = cc
