-- ===== src/Api/Provision.antt =====
-- `provision` of broker/api.py
use external_domain_broker.Prelude.{
  ℕ, String, string_eq, ◌==◌, Option, none, some, List, [], ◌∷◌, ◌++◌, Result, ok, err, bad_request,
  plain, async_required, not_implemented, if◌then◌else◌,
}
use external_domain_broker.Env.{Env}
use external_domain_broker.Pipelines.{Pipeline, queue}
use external_domain_broker.Validators.{validate_cnames}
use external_domain_broker.Utils.{parse_domain_options}
use external_domain_broker.Domains.{validate_unique}
use external_domain_broker.Tags.{generate_instance_tags}
use external_domain_broker.Cdn.{provision_cdn_instance}
use external_domain_broker.Models.{
  ServiceInstance, alb, cdn, cdn_dedicated_waf, dedicated_alb, migration, new_instance, Action,
  Exec, pure, lift, require, ◌>>=◌, ◌>>◌, insert_instance, add_operation, commit,
}
use external_domain_broker.Api.Catalog.{
  Request, Reply, done, is_async, params_of, plans, offering, alb_plan_id, cdn_plan_id,
  migration_plan_id, dedicated_alb_plan_id, cdn_dedicated_waf_plan_id,
}

-- `queue(operation.id, correlation_id)`, which may raise after the commit.
unfoldable pub enqueue : Pipeline → ℕ → Option String → Exec (Unit {0})
unfolding queue
enqueue pipeline operation_id correlation s = elim (queue pipeline operation_id correlation) [
  | ok job ↦ (ok tt, record s { queued = s.queued ++ job ∷ [] })
  | err e ↦ (err e, s)
]

abbrev pub required : Option (List String) → Result (List String)
required none = err (bad_request (plain "'domains' parameter required."))
required (some []) = err (bad_request (plain "'domains' parameter required."))
required (some (d ∷ ds)) = ok (d ∷ ds)

-- The instance that a plan makes, and its pipeline; none for the migration plan.
unfoldable pub instance_for_plan :
    Env → Request → List String → Result (ServiceInstance × Option Pipeline)
unfolding provision_cdn_instance
instance_for_plan env r domains =
    if r.details.plan_id == cdn_plan_id
    then (elim (provision_cdn_instance env r.instance_id domains (params_of r) cdn) [
      | ok i ↦ ok (i, some Pipeline.cdn_provision)
      | err e ↦ err e
    ])
    else if r.details.plan_id == cdn_dedicated_waf_plan_id
    then (elim (provision_cdn_instance env r.instance_id domains (params_of r) cdn_dedicated_waf) [
      | ok i ↦ ok (i, some Pipeline.cdn_dedicated_waf_provision)
      | err e ↦ err e
    ])
    else if r.details.plan_id == alb_plan_id
    then ok (new_instance r.instance_id domains alb, some Pipeline.alb_provision)
    else if r.details.plan_id == migration_plan_id
    then ok (new_instance r.instance_id domains migration, none)
    else if r.details.plan_id == dedicated_alb_plan_id
    then ok (
      record (new_instance r.instance_id domains dedicated_alb) {
        org_id = some r.details.organization_guid;
      },
      some Pipeline.dedicated_alb_provision,
    )
    else err not_implemented

-- The `IGNORE_DUPLICATE_DOMAINS` test and the query for other instances.
unfoldable pub check_unique : Env → List String → Exec (Unit {0})
unfolding validate_unique
check_unique env domains s = (
  if env.ignore_duplicate_domains then ok tt else validate_unique none s.working.instances domains,
  s,
)

-- The rest of the function, once the instance is made.
unfoldable pub store_instance : Env → Request → ServiceInstance × Option Pipeline → Exec Reply
unfolding generate_instance_tags insert_instance add_operation commit enqueue lift pure ◌>>=◌
store_instance env r (i, none) = do insert_instance i; commit; pure done
store_instance env r (i, some pipeline) = do
  tags ← lift (generate_instance_tags env r.instance_id r.details offering plans)
  insert_instance (record i { tags = some tags })
  operation_id ← add_operation i.id Action.provision
  commit
  enqueue pipeline operation_id r.correlation_id
  pure (is_async operation_id)

unfoldable pub provision : Env → Request → Exec Reply
unfolding parse_domain_options validate_cnames check_unique instance_for_plan store_instance require
    lift ◌>>=◌
provision env r = do
  require r.async_allowed async_required
  parsed ← lift (parse_domain_options env (params_of r))
  domains ← lift (required parsed)
  lift (validate_cnames env domains)
  check_unique env domains
  made ← lift (instance_for_plan env r domains)
  store_instance env r made
