-- ===== src/Config/Value.antt =====
-- What serde hands to the visitors of the configuration: a value of the TOML file, as far as the
-- visitors tell values apart.
use acme_dns_rust.Base.{Bool, String}
use acme_dns_rust.Base.Int.{ℤ}

mutual
  pub data Value : Type 0 where
    string : String → Value
    integer : ℤ → Value
    boolean : Bool → Value
    seq : Values → Value
    table : Entries → Value

  pub data Values : Type 0 where
    nil : Values
    cons : Value → Values → Values

  pub data Entries : Type 0 where
    end : Entries
    entry : String → Value → Entries → Entries
