-- ===== src/Config/Records/Last.antt =====
-- Which set a type gets when the file names it more than once.
use acme_dns_rust.Base.{
  ◌≡◌, refl, ap, subst, ◌∙◌, inl, inr, Bool, true, false, Option, none, some, [], ◌∷◌, arith,
  Bool-cases, ==_iff, if◌then◌else◌, String,
}
use acme_dns_rust.Base.Map.{Map}
use acme_dns_rust.Base.Outcome.{Outcome, ok, bind_inversion}
use acme_dns_rust.Dns.Records.{Name, RecordType, type_eq, TrustDns, get_by}
use acme_dns_rust.Dns.Authority.Static.{type_eq_sound}
use acme_dns_rust.Config.Value.{Value, table, Entries, end, entry}
use acme_dns_rust.Config.Records.{
  Parsers, insert_by, record_type, deserialize_set, visit_types, deserialize_sets,
}

type_eq_refl : (t : RecordType) → type_eq t t ≡ true
type_eq_refl RecordType.a = refl
type_eq_refl RecordType.txt = refl
type_eq_refl RecordType.cname = refl
type_eq_refl RecordType.soa = refl
type_eq_refl (RecordType.unnamed n) = (==_iff n n).1 refl

get_by-insert_by :
    {V : Type 0} (u t : RecordType) (v : V) (m : Map RecordType V)
    → get_by type_eq t (insert_by type_eq u v m)
      ≡ (if type_eq u t then some v else get_by type_eq t m)
unfolding insert_by
get_by-insert_by u t v [] = refl
get_by-insert_by u t v ((j, w) ∷ m) = ground (
  arith,
  get_by-insert_by u t v m,
  type_eq_sound j u,
  type_eq_sound u t,
  type_eq_sound j t,
  type_eq_refl t,
  type_eq_refl j,
)

abbrev pub or_else : {A : Type 0} → Option A → Option A → Option A
or_else (some a) o = some a
or_else none o = o

abbrev is_type : RecordType → Outcome RecordType → Bool
is_type t (ok u) = type_eq u t
is_type t _ = false

abbrev to_option : {A : Type 0} → Outcome A → Option A
to_option (ok a) = some a
to_option _ = none

module _ {RecordSet : Type 0} (dns : TrustDns RecordSet) (parsers : Parsers) (name : Name) where
  -- The set of the last entry whose key is the type's.
  abbrev pub last_set : RecordType → Entries → Option RecordSet
  last_set t end = none
  last_set t (entry key v rest) = or_else (last_set t rest) (
      if is_type t (record_type key)
      then to_option (deserialize_set dns parsers name t v)
      else none)

  or_else_assoc :
      {A : Type 0} (o p q : Option A) → or_else o (or_else p q) ≡ or_else (or_else o p) q
  or_else_assoc (some a) p q = refl
  or_else_assoc none p q = refl

  inserted :
      (t type : RecordType) (set : RecordSet) (key : String) (v : Value)
      (res : Map RecordType RecordSet)
      → record_type key ≡ ok type
      → deserialize_set dns parsers name type v ≡ ok set
      → get_by type_eq t (insert_by type_eq type set res)
        ≡ or_else
            (if is_type t (record_type key)
              then to_option (deserialize_set dns parsers name t v)
              else none)
            (get_by type_eq t res)
  inserted t type set key v res named read =
      get_by-insert_by type t set res
      ∙ rw named (elim (Bool-cases (type_eq type t)) [
        | inl same ↦
            rw
              (
                same,
                subst (λ u. deserialize_set dns parsers name u v ≡ ok set)
                    (type_eq_sound type t same) read,
              )
              refl
        | inr other ↦ rw other refl
      ])

  visit_types-last :
      (t : RecordType) (res sets : Map RecordType RecordSet) (entries : Entries)
      → visit_types dns parsers name res entries ≡ ok sets
      → get_by type_eq t sets ≡ or_else (last_set t entries) (get_by type_eq t res)
  unfolding visit_types
  visit_types-last t res sets end e = let same : sets ≡ res = cc in ap (get_by type_eq t) same
  visit_types-last t res sets (entry key v rest) e =
      let (type, named, e1) = bind_inversion (record_type key) _ e in
      let (set, read, e2) = bind_inversion (deserialize_set dns parsers name type v) _ e1 in
      visit_types-last t (insert_by type_eq type set res) sets rest e2
      ∙ ap (or_else (last_set t rest)) (inserted t type set key v res named read)
      ∙ or_else_assoc (last_set t rest) _ (get_by type_eq t res)

  or_else-none : {A : Type 0} (o : Option A) → or_else o none ≡ o
  or_else-none (some a) = refl
  or_else-none none = refl

  -- If the records of a name can be read, a lookup by type gives the set of the last entry with
  -- that type, and nothing if no entry has it.
  pub deserialize_sets-last :
      (t : RecordType) (sets : Map RecordType RecordSet) (entries : Entries)
      → deserialize_sets dns parsers name (table entries) ≡ ok sets
      → get_by type_eq t sets ≡ last_set t entries
  unfolding deserialize_sets
  deserialize_sets-last t sets entries e =
      visit_types-last t [] sets entries e ∙ or_else-none (last_set t entries)
