-- ===== src/Api/Branches.antt =====
-- The part of `update` in broker/api.py that depends on the type of the instance and on the plan.
use external_domain_broker.Prelude.{
  string_eq, ◌==◌, Bool, false, not, Option, none, some, err, client_error, plain, key_error,
  or_raise, if◌then◌else◌,
}
use external_domain_broker.Env.{Env}
use external_domain_broker.Pipelines.{Pipeline}
use external_domain_broker.Cdn.{
  update_cdn_instance, set_cdn_params, validate_migration_to_cdn_params,
  validate_migration_to_alb_params, migrated_certificate, update_cdn_params_for_migration,
  update_alb_params_for_migration,
}
use external_domain_broker.Models.{
  ServiceInstance, InstanceType, alb, cdn, cdn_dedicated_waf, dedicated_alb, migration,
  dedicated_alb_cdn_dedicated_waf_migration, Exec, pure, lift, ◌>>=◌, ◌>>◌, put_instance, commit,
  add_certificate, change_instance_type,
}
use external_domain_broker.Api.Catalog.{
  Request, params_of, alb_plan_id, cdn_plan_id, dedicated_alb_plan_id, cdn_dedicated_waf_plan_id,
}

-- The locals `instance`, `queue` and `noop`; `queue` may be unbound.
pub record Chosen : Type 0 where
  pub changed : ServiceInstance
  pub queue : Option Pipeline
  pub noop : Bool

abbrev pub chosen : ServiceInstance → Pipeline → Chosen
chosen i p = record { changed = i; queue = some p; noop = false }

abbrev pub unsupported : Exec Chosen
unsupported s = (err (client_error (plain "Updating service plan is not supported")), s)

module _ (env : Env) (r : Request) (i : ServiceInstance) where
  -- What is committed before the type changes stays, whatever happens after it.
  unfoldable pub cdn_to_dedicated_waf : Exec Chosen
  unfolding put_instance commit change_instance_type update_cdn_instance lift pure ◌>>=◌
  cdn_to_dedicated_waf = do
    put_instance i
    commit
    converted ← change_instance_type i cdn_dedicated_waf
    updated ← lift (update_cdn_instance env (params_of r) converted)
    put_instance updated
    commit
    pure (chosen updated Pipeline.cdn_to_cdn_dedicated_waf_update)

  unfoldable pub update_cdn_with : Pipeline → Exec Chosen
  unfolding update_cdn_instance lift pure ◌>>=◌
  update_cdn_with pipeline = do
    updated ← lift (update_cdn_instance env (params_of r) i)
    pure (chosen updated pipeline)

  unfoldable pub alb_to_dedicated_alb : Exec Chosen
  unfolding change_instance_type lift pure ◌>>=◌
  alb_to_dedicated_alb = do
    converted ← change_instance_type i dedicated_alb
    organization ← lift (or_raise key_error r.context_organization)
    pure (
        chosen
          (record converted {
            org_id = some organization;
            new_certificate_id = converted.current_certificate_id;
          })
          Pipeline.alb_to_dedicated_alb_update)

  unfoldable pub dedicated_alb_to_dedicated_waf : Exec Chosen
  unfolding change_instance_type set_cdn_params lift pure ◌>>=◌
  dedicated_alb_to_dedicated_waf = do
    converted ← change_instance_type i dedicated_alb_cdn_dedicated_waf_migration
    configured ← lift (set_cdn_params env (params_of r) converted)
    pure (chosen configured Pipeline.dedicated_alb_to_cdn_dedicated_waf_update)

  unfoldable pub migration_to_cdn : Exec Chosen
  unfolding validate_migration_to_cdn_params change_instance_type update_cdn_params_for_migration
      migrated_certificate add_certificate lift pure ◌>>=◌
  migration_to_cdn = do
    lift (validate_migration_to_cdn_params (params_of r))
    converted ← change_instance_type i cdn
    configured ← lift (update_cdn_params_for_migration env (params_of r) converted)
    certificate ← lift (migrated_certificate (params_of r) i.id)
    key ← add_certificate certificate
    pure (
        chosen (record configured { current_certificate_id = some key })
          Pipeline.cdn_broker_migration)

  unfoldable pub migration_to_alb : Exec Chosen
  unfolding validate_migration_to_alb_params change_instance_type update_alb_params_for_migration
      migrated_certificate add_certificate lift pure ◌>>=◌
  migration_to_alb = do
    lift (validate_migration_to_alb_params (params_of r))
    converted ← change_instance_type i alb
    certificate ← lift (migrated_certificate (params_of r) i.id)
    configured ← lift (update_alb_params_for_migration (params_of r) converted)
    key ← add_certificate certificate
    pure (
        chosen (record configured { current_certificate_id = some key })
          Pipeline.domain_broker_migration)

  -- `if … elif …` over the types; a type with no branch leaves `queue` unbound.
  unfoldable pub branch : Bool → InstanceType → Exec Chosen
  branch has_domain_updates cdn =
      if r.details.plan_id == cdn_plan_id
      then update_cdn_with Pipeline.cdn_update
      else if r.details.plan_id == cdn_dedicated_waf_plan_id
      then cdn_to_dedicated_waf
      else unsupported
  branch has_domain_updates cdn_dedicated_waf =
      if r.details.plan_id == cdn_dedicated_waf_plan_id
      then update_cdn_with Pipeline.cdn_dedicated_waf_update
      else unsupported
  branch has_domain_updates alb =
      if r.details.plan_id == alb_plan_id
      then pure
          (record { changed = i; queue = some Pipeline.alb_update; noop = not has_domain_updates })
      else if r.details.plan_id == dedicated_alb_plan_id
      then alb_to_dedicated_alb
      else unsupported
  branch has_domain_updates dedicated_alb =
      if r.details.plan_id == dedicated_alb_plan_id
      then pure (record {
        changed = i;
        queue = some Pipeline.dedicated_alb_update;
        noop = not has_domain_updates;
      })
      else if r.details.plan_id == cdn_dedicated_waf_plan_id
      then dedicated_alb_to_dedicated_waf
      else unsupported
  branch has_domain_updates migration =
      if r.details.plan_id == cdn_plan_id
      then migration_to_cdn
      else if r.details.plan_id == alb_plan_id
      then migration_to_alb
      else unsupported
  branch has_domain_updates dedicated_alb_cdn_dedicated_waf_migration =
      pure (record { changed = i; queue = none; noop = not has_domain_updates })
