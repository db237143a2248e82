-- ===== src/Api/Update.antt =====
-- `update` of broker/api.py
use external_domain_broker.Prelude.{
  String, Bool, not, Option, none, some, List, [], ◌∷◌, ok, bad_request, plain, async_required,
  type_error, name_error, is_empty, or_raise, if◌then◌else◌,
}
use external_domain_broker.Env.{Env}
use external_domain_broker.Pipelines.{Pipeline}
use external_domain_broker.Utils.{parse_domain_options}
use external_domain_broker.Domains.{is_live, validate_domain_name_changes}
use external_domain_broker.Models.{
  ServiceInstance, Action, Exec, is_cdn_instance, pure, raise, lift, require, ◌>>=◌, ◌>>◌,
  get_instance, put_instance, add_operation, commit, has_active_operations,
}
use external_domain_broker.Api.Catalog.{Request, Reply, done, is_async, params_of}
use external_domain_broker.Api.Provision.{enqueue}
use external_domain_broker.Api.Deprovision.{found}
use external_domain_broker.Api.Branches.{Chosen, branch}

-- `instance.has_active_operations()`
unfoldable pub is_busy : ServiceInstance → Exec Bool
unfolding has_active_operations
is_busy i s = (ok (has_active_operations i.id s.working.operations), s)

-- The validation of the domains, against the instances of the session.
unfoldable pub check_domains : Env → List String → ServiceInstance → Exec (List String)
unfolding validate_domain_name_changes
check_domains env domains i s = (validate_domain_name_changes env s.working.instances domains i, s)

-- The new domains; a CDN instance that keeps its domains keeps its certificate.
unfoldable pub apply_domains : List String → ServiceInstance → ServiceInstance
apply_domains [] i =
    if is_cdn_instance i.instance_type
    then record i { new_certificate_id = i.current_certificate_id }
    else i
apply_domains (d ∷ ds) i = record i { domain_names = d ∷ ds }

unfoldable pub queue_of : Option Pipeline → Exec Pipeline
queue_of none = raise name_error
queue_of (some p) = pure p

-- The last part: the operation is committed with the instance, and the tasks are queued.
unfoldable pub finish_update : Request → Chosen → Exec Reply
unfolding add_operation put_instance commit queue_of enqueue raise pure ◌>>=◌
finish_update r c = if c.noop then pure done else do
  operation_id ← add_operation c.changed.id Action.update
  put_instance c.changed
  commit
  pipeline ← queue_of c.queue
  enqueue pipeline operation_id r.correlation_id
  pure (is_async operation_id)

unfoldable pub update_instance : Env → Request → ServiceInstance → Exec Reply
unfolding is_busy parse_domain_options check_domains apply_domains branch finish_update require lift
    ◌>>=◌
update_instance env r i = do
  require (is_live i) (bad_request (plain "Cannot update instance because it was already canceled"))
  busy ← is_busy i
  require (not busy) (bad_request (plain "Instance has an active operation in progress"))
  parsed ← lift (parse_domain_options env (params_of r))
  requested ← lift (or_raise type_error parsed)
  domains ← check_domains env requested i
  c ← branch env r (apply_domains domains i) (not (is_empty domains)) i.instance_type
  finish_update r c

unfoldable pub update : Env → Request → Exec Reply
unfolding get_instance update_instance require raise ◌>>=◌
update env r = do
  require r.async_allowed async_required
  instance_ ← get_instance r.instance_id
  found instance_ (update_instance env r)
      (raise (bad_request (plain "Service instance does not exist")))
