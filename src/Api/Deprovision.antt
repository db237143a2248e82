-- ===== src/Api/Deprovision.antt =====
-- `deprovision` of broker/api.py
use external_domain_broker.Prelude.{
  String, string_eq, ◌==◌, Bool, ◌&&◌, ◌||◌, Option, none, some, List, ok, err, bad_request, plain,
  async_required, instance_does_not_exist, not_implemented, if◌then◌else◌, any, Result,
}
use external_domain_broker.Pipelines.{Pipeline}
use external_domain_broker.Models.{
  ServiceInstance, Operation, Action, same_action, Exec, pure, raise, require, lift, ◌>>=◌, ◌>>◌,
  get_instance, add_operation, commit,
}
use external_domain_broker.Api.Catalog.{
  Request, Reply, is_async, alb_plan_id, cdn_plan_id, migration_plan_id, dedicated_alb_plan_id,
  cdn_dedicated_waf_plan_id,
}
use external_domain_broker.Api.Provision.{enqueue}

-- `if not instance: raise`
abbrev pub found :
    {A : Type 0} → Option ServiceInstance → (ServiceInstance → Exec A) → Exec A → Exec A
found none f missing = missing
found (some i) f missing = f i

-- Whether an instance has an operation of an action.
unfoldable pub has_operation : String → Action → List Operation → Bool
unfolding any
has_operation instance_id action =
    any (λ (o : Operation). o.service_instance_id == instance_id && same_action o.action action)

-- The queue function of a plan, given whether the instance has been updated.
unfoldable pub deprovision_pipeline : String → Bool → Result Pipeline
deprovision_pipeline plan_id updated =
    if plan_id == cdn_plan_id
    then ok Pipeline.cdn_deprovision
    else if plan_id == cdn_dedicated_waf_plan_id
    then ok Pipeline.cdn_dedicated_waf_deprovision
    else if plan_id == alb_plan_id || plan_id == dedicated_alb_plan_id
    then ok Pipeline.alb_deprovision
    else if plan_id == migration_plan_id
    then if updated
      then err (bad_request (plain "Can't delete migration with update operations"))
      else ok Pipeline.migration_deprovision
    else err not_implemented

-- The loop over the operations of the instance, after the commit.
unfoldable pub was_updated : String → Exec Bool
unfolding has_operation
was_updated id s = (ok (has_operation id Action.update s.working.operations), s)

unfoldable pub deprovision_instance : Request → ServiceInstance → Exec Reply
unfolding add_operation commit deprovision_pipeline was_updated enqueue lift pure ◌>>=◌
deprovision_instance r i = do
  operation_id ← add_operation i.id Action.deprovision
  commit
  updated ← was_updated i.id
  pipeline ← lift (deprovision_pipeline r.details.plan_id updated)
  enqueue pipeline operation_id r.correlation_id
  pure (is_async operation_id)

unfoldable pub deprovision : Request → Exec Reply
unfolding get_instance deprovision_instance require raise ◌>>=◌
deprovision r = do
  require r.async_allowed async_required
  instance_ ← get_instance r.instance_id
  found instance_ (deprovision_instance r) (raise instance_does_not_exist)
