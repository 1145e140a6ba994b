-- ===== src/Facade/Postgres/Samples.antt =====
-- Certificates, domains and environments to run the database with.
use acme_dns_rust.Base.{◌≡◌, refl, sym, subst, ◌∙◌, some, List, [], ◌∷◌, zero, suc, Option, none}
use acme_dns_rust.Base.Map.{string_key}
use acme_dns_rust.Base.Outcome.{ok, ok_injective}
use acme_dns_rust.Facade.{Cert, Domain, new_domain, State, Env}
use acme_dns_rust.Facade.Memory.{Order}
use acme_dns_rust.Facade.Single.{unstarted, IsConsistent}
use acme_dns_rust.Facade.Postgres.Sim.{Sim}
use acme_dns_rust.Facade.Postgres.Starts.{IsNew, CanStart}
use acme_dns_rust.Facade.Postgres.Rows.{Rows, rows_tables}
use acme_dns_rust.Base.Int.{pos}

abbrev pub first : List Cert → Option Cert
first [] = none
first (c ∷ cs) = some c

abbrev pub order : Order
order = record { next = first; next_nil = refl; next_single = λ c. refl }

abbrev pub env : Env
env = record {
  now = 1000;
  uuid = λ n. elim n [
    | zero ↦ "00000000000000000000000000000000"
    | suc zero ↦ "11111111111111111111111111111111"
    | suc (suc zero) ↦ "22222222222222222222222222222222"
    | suc (suc (suc m)) ↦ "33333333333333333333333333333333"
  ];
  hash = λ password. ok "hhhhhhhhhhhhhhhhhhhhhhhhhhhhhhhhhhhhhhhhhhhhhhhhhhhhhhhhhhhh";
}

abbrev pub other_env : Env
other_env = record {
  now = 1000;
  uuid = λ n. elim n [
    | zero ↦ "44444444444444444444444444444444"
    | suc zero ↦ "55555555555555555555555555555555"
    | suc (suc zero) ↦ "66666666666666666666666666666666"
    | suc (suc (suc m)) ↦ "77777777777777777777777777777777"
  ];
  hash = λ password. ok "iiiiiiiiiiiiiiiiiiiiiiiiiiiiiiiiiiiiiiiiiiiiiiiiiiiiiiiiiiii";
}

abbrev pub domain : Domain
domain = record {
  id = "11111111111111111111111111111111";
  username = "22222222222222222222222222222222";
  password = "hhhhhhhhhhhhhhhhhhhhhhhhhhhhhhhhhhhhhhhhhhhhhhhhhhhhhhhhhhhh";
  txt = none;
}

abbrev pub other_domain : Domain
other_domain = record {
  id = "55555555555555555555555555555555";
  username = "66666666666666666666666666666666";
  password = "iiiiiiiiiiiiiiiiiiiiiiiiiiiiiiiiiiiiiiiiiiiiiiiiiiiiiiiiiiii";
  txt = none;
}

abbrev pub proved : Domain
proved = record domain { txt = some "proof" }

abbrev pub cert : Cert
cert = record {
  id = "33333333333333333333333333333333";
  update = pos 1000;
  state = State.updating;
  cert = none;
  private = none;
  domain = "11111111111111111111111111111111";
}

abbrev pub idle : Cert
idle = record cert { state = State.ok }

abbrev pub no_rows : Rows
no_rows = record { certs = []; domains = [] }

pub no_rows-Sim : Sim (rows_tables.view no_rows) (unstarted [])
unfolding rows_tables
no_rows-Sim = record { certs = λ k. refl; domains = λ k. refl; width = λ k c e. cc }

pub domain-IsNew : IsNew (unstarted []) domain
domain-IsNew = record {
  width = ((refl, refl), (refl, refl), (refl, refl), tt);
  unused = refl;
  alone = λ k x e. cc;
}

pub env-domain : new_domain env ≡ ok domain
unfolding new_domain
env-domain = refl

pub nothing-IsConsistent : IsConsistent (unstarted [])
nothing-IsConsistent = record { held = tt; named = λ k d e. cc }

pub env-CanStart : CanStart env (unstarted [])
env-CanStart = record {
  wide = (refl, refl);
  new =
      λ _ d made. subst (IsNew (unstarted [])) (ok_injective (sym env-domain ∙ made)) domain-IsNew;
}
