-- ===== src/Api/Made.antt =====
-- The domains of the instance that `provision` of broker/api.py makes.
use external_domain_broker.Prelude.{
  String, string_eq, ◌==◌, Bool, true, false, Option, none, some, List, ◌≡◌, refl, Result, ok, err,
  Error, arith, if◌then◌else◌, not_implemented,
}
use external_domain_broker.Env.{Env}
use external_domain_broker.Pipelines.{Pipeline}
use external_domain_broker.Cdn.{provision_cdn_instance}
use external_domain_broker.Cdn.Same.{set_cdn_params-Same}
use external_domain_broker.Models.{
  ServiceInstance, InstanceType, new_instance, alb, migration, dedicated_alb, cdn,
  cdn_dedicated_waf,
}
use external_domain_broker.Api.Catalog.{
  Request, params_of, alb_plan_id, cdn_plan_id, migration_plan_id, dedicated_alb_plan_id,
  cdn_dedicated_waf_plan_id,
}
use external_domain_broker.Api.Provision.{instance_for_plan}

-- If there is an instance, it has these domains.
pub record At (domains : List String) (m : Result (ServiceInstance × Option Pipeline))
    : Type 0 where
  pub made : (i : ServiceInstance) (q : Option Pipeline) → m ≡ ok (i, q) → i.domain_names ≡ domains

module _ (domains : List String) where
  At-ok :
      (i : ServiceInstance) (q : Option Pipeline)
      → i.domain_names ≡ domains
      → At domains (ok (i, q))
  At-ok i q e = record { made = λ j p h. ground arith }

  At-err : (e : Error) → At domains (err e)
  At-err e = record { made = λ i q h. cc }

  At-if :
      (b : Bool) (m n : Result (ServiceInstance × Option Pipeline))
      → At domains m
      → At domains n
      → At domains (if b then m else n)
  At-if true m n h k = h
  At-if false m n h k = k

  At-each :
      (p : Pipeline) (m : Result ServiceInstance)
      → ((i : ServiceInstance) → m ≡ ok i → i.domain_names ≡ domains)
      → At domains (elim m [ ok i ↦ ok (i, some p) | err e ↦ err e ])
  At-each p (ok i) h = At-ok i (some p) (h i refl)
  At-each p (err e) h = record { made = λ i q k. cc }

provision_cdn_instance-domains :
    (env : Env) (id : String) (domains : List String) (r : Request) (kind : InstanceType)
    (i : ServiceInstance)
    → provision_cdn_instance env id domains (params_of r) kind ≡ ok i
    → i.domain_names ≡ domains
unfolding provision_cdn_instance
provision_cdn_instance-domains env id domains r kind i h =
    let e = (set_cdn_params-Same env (params_of r) (new_instance id domains kind)).at i h in e.1

pub instance_for_plan-At :
    (env : Env) (r : Request) (domains : List String) → At domains (instance_for_plan env r domains)
unfolding instance_for_plan
instance_for_plan-At env r domains =
    let id = r.instance_id in
    let plan = r.details.plan_id in
    At-if domains (plan == cdn_plan_id) _ _
      (At-each domains Pipeline.cdn_provision _
        (provision_cdn_instance-domains env id domains r cdn))
      (At-if domains (plan == cdn_dedicated_waf_plan_id) _ _
        (At-each domains Pipeline.cdn_dedicated_waf_provision _
          (provision_cdn_instance-domains env id domains r cdn_dedicated_waf))
        (At-if domains (plan == alb_plan_id) _ _
          (At-ok domains (new_instance id domains alb) (some Pipeline.alb_provision) refl)
          (At-if domains (plan == migration_plan_id) _ _
            (At-ok domains (new_instance id domains migration) none refl)
            (At-if domains (plan == dedicated_alb_plan_id) _ _
              (At-ok domains
                (record (new_instance id domains dedicated_alb) {
                  org_id = some r.details.organization_guid;
                })
                (some Pipeline.dedicated_alb_provision) refl)
              (At-err domains not_implemented)))))
