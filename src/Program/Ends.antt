-- ===== src/Program/Ends.antt =====
-- When the program ends on its own.
use acme_dns_rust.Base.{
  ◌≡◌, refl, sym, ap, subst, ◌∙◌, ◌↔◌, ◌⊎◌, inl, inr, Option, none, some, List, [], ◌∷◌, ◌++◌,
  String,
}
use acme_dns_rust.Base.Outcome.{
  Outcome, ok, err, panic, bind_inversion, then_inversion, ok_injective,
}
use acme_dns_rust.Config.File.{Api, Config}
use acme_dns_rust.Api.Listeners.{Poll, pending, ready, running, try_join, Tasks, listen}
use acme_dns_rust.Api.Listeners.Joined.{if_configured, Binds, listen-try_join}
use acme_dns_rust.Dns.Authority.{Authority}
use acme_dns_rust.Dns.Authority.Object.{new as new_authority}
use acme_dns_rust.Dns.Server.{serving, new as new_dns, spawn}
use acme_dns_rust.Manager.Start.{
  and_then, joined, new as new_manager, spawn as spawn_manager, cert_manager,
}
use acme_dns_rust.Program.{Outside, Moment, setup_database, branches, run, Selects, main}

abbrev pub AllPending : List Poll → Type 0
AllPending [] = Unit {0}
AllPending (p ∷ ps) = (p ≡ pending) × AllPending ps

-- All tasks run.
abbrev pub all_running : Tasks
all_running = record { http = running; https = running; prom = running }

abbrev pub NoListener : Api → Type 0
NoListener api = (api.http.0 ≡ none) × (api.https.0 ≡ none) × (api.prom.0 ≡ none)

AllPending-Selects : (ps : List Poll) (o : Outcome (Unit {0})) → AllPending ps → ¬ Selects ps o
AllPending-Selects [] o h s = s
AllPending-Selects (p ∷ ps) o (waits, h) (inl e) = cc
AllPending-Selects (p ∷ ps) o (waits, h) (inr s) = AllPending-Selects ps o h s

-- With its tasks running, the API is ready exactly if it has none.
joined_running :
    (https http prom : Option String)
    → ((https ≡ none)
        × (http ≡ none)
        × (prom ≡ none)
        × (try_join (
              if_configured https running
              ++ if_configured http running
              ++ if_configured prom running)
            ≡ ready (ok tt)))
      ⊎ ((¬ ((https ≡ none) × (http ≡ none) × (prom ≡ none)))
          × (try_join (
                if_configured https running
                ++ if_configured http running
                ++ if_configured prom running)
              ≡ pending))
joined_running none none none = inl (refl, refl, refl, refl)
joined_running (some a) none none = inr (λ h. (let e = h.0 in cc), refl)
joined_running (some a) none (some c) = inr (λ h. (let e = h.0 in cc), refl)
joined_running (some a) (some b) none = inr (λ h. (let e = h.0 in cc), refl)
joined_running (some a) (some b) (some c) = inr (λ h. (let e = h.0 in cc), refl)
joined_running none (some b) none = inr (λ h. (let e = h.1 in cc), refl)
joined_running none (some b) (some c) = inr (λ h. (let e = h.1 in cc), refl)
joined_running none none (some c) = inr (λ h. (let e = h.2 in cc), refl)

ready_value : {o o' : Outcome (Unit {0})} → ready o ≡ ready o' → o ≡ o'
ready_value e = cc

module _ {Options Pool Socket RecordSet : Type 0} (outside : Outside Options Pool Socket) where
  -- The other parts work and nothing has ended them: the directory is still looked up or has been
  -- found, the manager's loop and the name server run, and no one has pressed Ctrl-C.
  pub record IsQuiet (config : Config RecordSet) (moment : Moment) : Type 0 where
    pub directory :
        (moment.from_url config.general.acme ≡ pending)
        ⊎ (moment.from_url config.general.acme ≡ ready (ok tt))
    pub manager : moment.manager ≡ running
    pub socket : (udp : Socket) × (outside.bind_udp config.general.dns ≡ ok udp)
    pub server : moment.server ≡ serving
    pub ctrl_c : moment.ctrl_c ≡ pending

  manager_waits :
      (config : Config RecordSet) (moment : Moment)
      → IsQuiet config moment
      → cert_manager moment.from_url config.general.acme moment.manager ≡ pending
  unfolding cert_manager new_manager spawn_manager
  manager_waits config moment quiet = elim quiet.directory [
    | inl looks ↦ ap (λ p. and_then (joined p) (spawn_manager moment.manager)) looks
    | inr found ↦
        ap (λ p. and_then (joined p) (spawn_manager moment.manager)) found
        ∙ ap spawn_manager quiet.manager
  ]

  server_waits :
      (config : Config RecordSet) (authority : Authority RecordSet) (moment : Moment)
      → IsQuiet config moment
      → spawn outside.bind_udp (new_dns config.general.dns authority) moment.server ≡ pending
  unfolding spawn
  server_waits config authority moment quiet = rw (quiet.socket.1, quiet.server) refl

  run_inversion :
      (config : Config RecordSet) (moment : Moment) (polls : List Poll)
      → run outside (ok config) moment ≡ ok polls
      → (authority : Authority RecordSet) × (polls ≡ branches outside config authority moment)
  unfolding run
  run_inversion config moment polls e =
      let e1 = then_inversion outside.runtime _ e in
      let (pool, _, e2) = bind_inversion (setup_database outside config.general.db) _ e1 in
      let (authority, _, e3) =
        bind_inversion
          (new_authority outside.parse_name outside.lower_name outside.lookup_host outside.from_utf8
            config.general.name config.records)
          _ e2 in
      (authority, sym (ok_injective e3))

  -- What can end the program, if all but the API is quiet.
  branches_end :
      (config : Config RecordSet) (authority : Authority RecordSet) (moment : Moment)
      (o : Outcome (Unit {0}))
      → IsQuiet config moment
      → Selects (branches outside config authority moment) o
      → listen outside.bind config.api moment.tasks ≡ ready o
  unfolding branches
  branches_end config authority moment o quiet (inl e) = e
  branches_end config authority moment o quiet (inr later) = absurd (
      AllPending-Selects
        (cert_manager moment.from_url config.general.acme moment.manager
          ∷ spawn outside.bind_udp (new_dns config.general.dns authority) moment.server
          ∷ moment.ctrl_c
          ∷ [])
        o
        (
          manager_waits config moment quiet,
          (server_waits config authority moment quiet, (quiet.ctrl_c, tt)),
        )
        later)

  -- If a start of the program succeeds whose sockets can be bound, whose tasks for the API, the
  -- manager and the name server keep running, whose lookup of the authority's directory has not
  -- failed, and no one has pressed Ctrl-C, then it ends exactly if no listener is configured, and
  -- it ends with success.
  pub run-ends_iff :
      (config : Config RecordSet) (moment : Moment) (polls : List Poll) (o : Outcome (Unit {0}))
      → run outside (ok config) moment ≡ ok polls
      → Binds outside.bind config.api.http.0
      → Binds outside.bind config.api.https.0
      → Binds outside.bind config.api.prom.0
      → moment.tasks ≡ all_running
      → IsQuiet config moment
      → Selects polls o ↔ (NoListener config.api × (o ≡ ok tt))
  unfolding branches
  run-ends_iff config moment polls o started b b' b'' tasks quiet =
      let (authority, shape) = run_inversion config moment polls started in
      let joined =
        ap (listen outside.bind config.api) tasks
        ∙ listen-try_join outside.bind config.api all_running b b' b'' in
      subst (λ ps. Selects ps o ↔ (NoListener config.api × (o ≡ ok tt))) (sym shape)
        (elim (joined_running config.api.https.0 config.api.http.0 config.api.prom.0) [
          | inl (h, h', h'', ends) ↦ (
            λ s. (
              (h', h, h''),
              sym (
                  ready_value
                    (sym ends ∙ sym joined ∙ branches_end config authority moment o quiet s)),
            ),
            λ (_, is). inl (joined ∙ ends ∙ ap ready (sym is)),
          )
          | inr (some_one, waiting) ↦ (
            λ s.
                (let clash =
                    sym waiting ∙ sym joined ∙ branches_end config authority moment o quiet s in
                  cc),
            λ ((h, h', h''), is). absurd (some_one (h', h, h'')),
          )
        ])

-- The exit code is 0 exactly for a success.
pub main-ok_iff : (o : Outcome (Unit {0})) → main o ≡ 0 ↔ (o ≡ ok tt)
unfolding main
main-ok_iff (ok tt) = (λ e. refl, λ e. refl)
main-ok_iff (err cause) = (λ e. cc, λ e. cc)
main-ok_iff panic = (λ e. cc, λ e. cc)
