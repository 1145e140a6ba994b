-- ===== src/Config/Resolver.antt =====
-- src/config/dns.rs: the resolver that the configuration names.
mod Tests
use acme_dns_rust.Base.{
  ℕ, ◌≡◌, refl, sym, subst, ◌∙◌, ◌↔◌, inl, inr, Bool, true, false, ◌||◌, Bool-cases, Option, none,
  some, if◌then◌else◌, String, str_eq, eq_iff, starts_with, arith,
}
use acme_dns_rust.Base.Outcome.{Outcome, ok, err, panic, Error}
use acme_dns_rust.Dns.Records.{IpAddr}
use acme_dns_rust.Config.Value.{Value, string}

-- `NameServerConfigGroup`: the groups of trust-dns that the source names, or one address that is
-- asked in clear.
pub data NameServers : Type 0 where
  cloudflare cloudflare_https cloudflare_tls : NameServers
  from_ips_clear : (ip : IpAddr) (port : ℕ) → NameServers

-- `res.parse()` and `from_ips_clear(&[ip], 53, false)`
abbrev pub clear_group : Option IpAddr → Outcome (Option NameServers)
clear_group (some ip) = ok (some (from_ips_clear ip 53))
clear_group none = err (Error.message "invalid IP address syntax")

-- The match on a string that is there.
unfoldable pub group_of : (String → Option IpAddr) → String → Outcome (Option NameServers)
group_of parse_ip s =
    if str_eq s "cloudflare"
    then ok (some cloudflare)
    else if str_eq s "cloudflare_https"
    then ok (some cloudflare_https)
    else if str_eq s "cloudflare_tls"
    then ok (some cloudflare_tls)
    else if starts_with s "tls://"
    then panic
    else if starts_with s "https://"
    then panic
    else clear_group (parse_ip s)

-- `dns::deserialize`. A file without the field has `none`.
unfoldable pub deserialize : (String → Option IpAddr) → Option Value → Outcome (Option NameServers)
deserialize parse_ip none = ok none
deserialize parse_ip (some (string s)) = group_of parse_ip s
deserialize parse_ip (some _) = err (Error.message "invalid type")

clear_group_total : (ip : Option IpAddr) → ¬ (clear_group ip ≡ panic)
clear_group_total (some ip) e = cc
clear_group_total none e = cc

-- A resolver that the source has no table for yet.
abbrev pub is_url : String → Bool
is_url s = starts_with s "tls://" || starts_with s "https://"

named : (s name : String) → is_url name ≡ false → str_eq s name ≡ true → is_url s ≡ false
named s name plain same = subst (λ t. is_url t ≡ false) (sym ((eq_iff s name).0 same)) plain

module _ (parse_ip : String → Option IpAddr) (s : String) where
  -- The tests come in the order of the arguments: the three names, and the two prefixes.
  group_of_named :
      str_eq s "cloudflare" || str_eq s "cloudflare_https" || str_eq s "cloudflare_tls" ≡ true
      → (¬ (group_of parse_ip s ≡ panic)) × (is_url s ≡ false)
  unfolding group_of
  group_of_named h = elim (Bool-cases (str_eq s "cloudflare")) [
    | inl is ↦ (rw is (λ e. cc), named s "cloudflare" refl is)
    | inr not_1 ↦ elim (Bool-cases (str_eq s "cloudflare_https")) [
      | inl is ↦ (rw (not_1, is) (λ e. cc), named s "cloudflare_https" refl is)
      | inr not_2 ↦
          let is = rw (not_1, not_2) at h in
          (rw (not_1, not_2, is) (λ e. cc), named s "cloudflare_tls" refl is)
    ]
  ]

  group_of_other :
      str_eq s "cloudflare" || str_eq s "cloudflare_https" || str_eq s "cloudflare_tls" ≡ false
      → (group_of parse_ip s ≡ panic) ↔ (is_url s ≡ true)
  unfolding group_of
  group_of_other h = ground (arith, clear_group_total (parse_ip s))

-- Reading a string as the resolver of the configuration panics exactly if the string begins with
-- tls:// or https://, whatever the parser of addresses answers.
pub deserialize-panic_iff :
    (parse_ip : String → Option IpAddr) (s : String)
    → (deserialize parse_ip (some (string s)) ≡ panic)
      ↔ ((starts_with s "tls://" || starts_with s "https://") ≡ true)
unfolding deserialize
deserialize-panic_iff parse_ip s =
    elim (Bool-cases
      (str_eq s "cloudflare" || str_eq s "cloudflare_https" || str_eq s "cloudflare_tls")) [
        | inl known ↦
            let (answered, plain) = group_of_named parse_ip s known in
            ((λ e. absurd (answered e)), (λ e. let clash = sym plain ∙ e in cc))
        | inr other ↦ group_of_other parse_ip s other
      ]
