-- ===== src/Tasks/HealthChecks.antt =====
-- The tasks of broker/tasks/route53.py that make and delete health checks.
pub mod Created
pub mod Deleted
pub mod Settled
use Prim.Native.String
use external_domain_broker.Prelude.{
  ℕ, suc, String, string_eq, ◌==◌, Bool, true, false, not, Option, none, some, List, [], ◌∷◌, ◌++◌,
  Result, ok, err, Error, aws_error, type_error, elem, filter, is_empty, map, if◌then◌else◌,
  or_raise,
}
use external_domain_broker.Text.{decimal}
use external_domain_broker.Text.Order.{str_leb}
use external_domain_broker.Models.{ServiceInstance, HealthCheck, Tag}
use external_domain_broker.Tasks.Work.{
  Work, Act, ◌>>=◌, ◌>>◌, pure, raise, lift, call, tried, load, save, unless, has_code,
}
use external_domain_broker.Tasks.Route53.{Route53}

-- `sorted(checks, key=lambda check: check["domain_name"])`
insert_check : HealthCheck → List HealthCheck → List HealthCheck
unfolding str_leb
insert_check c [] = c ∷ []
insert_check c (d ∷ ds) =
    let rest = insert_check c ds in
    if str_leb c.domain_name d.domain_name then c ∷ d ∷ ds else d ∷ rest

unfoldable pub sort_checks : List HealthCheck → List HealthCheck
unfolding insert_check
sort_checks [] = []
sort_checks (c ∷ cs) = insert_check c (sort_checks cs)

-- The domains of `check["domain_name"] for check in checks`.
abbrev pub domains_of : List HealthCheck → List String
domains_of checks = map (λ (c : HealthCheck). c.domain_name) checks

-- `xs if xs else []` of a column that may be `None`
abbrev pub listed {ℓ} : {A : Type ℓ} → Option (List A) → List A
listed none = []
listed (some xs) = xs

-- The caller reference, `f"{service_instance_id}-{idx}"`.
unfoldable pub caller_reference : String → ℕ → String
unfolding decimal
caller_reference id idx = String.◌++◌ id (String.◌++◌ "-" (decimal idx))

abbrev pub missing_domains : ServiceInstance → List String
unfolding filter
missing_domains i =
    filter (λ (d : String). not (elem d (domains_of (listed i.route53_health_checks))))
      i.domain_names

abbrev pub without_id : String → List HealthCheck → List HealthCheck
unfolding filter
without_id id checks = filter (λ (c : HealthCheck). not (c.health_check_id == id)) checks

abbrev pub unused_checks : ServiceInstance → List HealthCheck → List HealthCheck
unfolding filter
unused_checks i checks =
    filter (λ (c : HealthCheck). not (elem c.domain_name i.domain_names)) checks

module _ {W : Type 0} (r : Route53 W) where
  -- `_create_health_check`
  unfoldable pub create_health_check : ℕ → String → String → List Tag → Act W String
  unfolding caller_reference call pure ◌>>=◌
  create_health_check idx id domain tags = do
    health_check_id ← call (r.create_health_check (caller_reference id idx) domain)
    if is_empty tags
        then pure health_check_id
        else (do call (r.tag_health_check health_check_id tags); pure health_check_id)

  -- The loop of `_create_health_checks`, `enumerate` from `idx`.
  unfoldable pub create_each :
      ℕ → ServiceInstance → List String → List HealthCheck → Act W (List HealthCheck)
  unfolding create_health_check pure ◌>>=◌
  create_each idx i [] checks = pure checks
  create_each idx i (d ∷ ds) checks = do
    health_check_id ← create_health_check idx i.id d (listed i.tags)
    create_each (suc idx) i ds
        (checks ++ record { domain_name = d; health_check_id = health_check_id } ∷ [])

  -- `_create_health_checks`
  unfoldable pub create_health_checks :
      ServiceInstance → List String → List HealthCheck → Act W (List HealthCheck)
  unfolding create_each sort_checks pure ◌>>=◌
  create_health_checks i domains checks = do
    updated ← create_each 0 i domains checks
    pure (sort_checks updated)

  -- With at least one domain to make a check for, the checks are stored.
  unfoldable pub create_new_health_checks : String → Act W (Unit {0})
  unfolding load create_health_checks save ◌>>=◌
  create_new_health_checks id = do
    i ← load id
    if is_empty (missing_domains i) then save i else (do
      updated ← create_health_checks i (missing_domains i) (listed i.route53_health_checks)
      save (record i { route53_health_checks = some updated }))

  -- `_delete_health_check`
  unfoldable pub delete_health_check : String → Act W (Unit {0})
  unfolding unless has_code
  delete_health_check id = unless (has_code "NoSuchHealthCheck") (r.delete_health_check id)

  -- `_delete_health_checks`
  unfoldable pub delete_each : List HealthCheck → List HealthCheck → Act W (List HealthCheck)
  unfolding delete_health_check pure ◌>>=◌
  delete_each [] checks = pure checks
  delete_each (c ∷ cs) checks = do
    delete_health_check c.health_check_id
    delete_each cs (without_id c.health_check_id checks)

  unfoldable pub delete_unused_health_checks : String → Act W (Unit {0})
  unfolding load lift delete_each save ◌>>=◌
  delete_unused_health_checks id = do
    i ← load id
    checks ← lift (or_raise type_error i.route53_health_checks)
    if is_empty (unused_checks i checks) then save i else (do
      updated ← delete_each (unused_checks i checks) checks
      save (record i { route53_health_checks = some updated }))

  -- `None` is returned early.
  unfoldable pub delete_health_checks : String → Act W (Unit {0})
  unfolding load delete_each save pure ◌>>=◌
  delete_health_checks id = do
    i ← load id
    elim i.route53_health_checks [
      | none ↦ pure tt
      | some checks ↦ do
        updated ← delete_each checks checks
        save (record i { route53_health_checks = some updated })
    ]
