-- ===== src/Api/Committed.antt =====
-- Sequences of requests to broker/api.py, and the queued jobs.
use external_domain_broker.Prelude.{
  ℕ, String, ◌≡◌, refl, true, not, Option, none, some, List, [], ◌∷◌, is_empty, or_raise,
  type_error, async_required, bad_request, plain, instance_does_not_exist,
}
use external_domain_broker.Env.{Env}
use external_domain_broker.Utils.{parse_domain_options}
use external_domain_broker.Validators.{validate_cnames}
use external_domain_broker.Models.{
  ServiceInstance, Session, Exec, get_instance, end_request, request,
}
use external_domain_broker.Models.Post.{Any, after}
use external_domain_broker.Domains.{is_live}
use external_domain_broker.Api.Catalog.{Request, params_of}
use external_domain_broker.Api.Provision.{required, instance_for_plan, check_unique, provision}
use external_domain_broker.Api.Deprovision.{found, deprovision, deprovision_instance}
use external_domain_broker.Api.Update.{
  update, update_instance, apply_domains, is_busy, check_domains,
}
use external_domain_broker.Api.Sequence.{
  ApiCall, provisioning, updating, deprovisioning, serve, serve_all,
}
use external_domain_broker.Api.Queued.{
  has_id, waits, Known, Keeps, Keeps-then, lift-Keeps, reads-Keeps, raise-Keeps, require-Keeps,
}
use external_domain_broker.Api.Enqueued.{
  branch-Keeps, finish_update-Keeps, deprovision_instance-Keeps, store_instance-Keeps,
}

get_instance-Keeps : (id : String) → Keeps (get_instance id)
unfolding get_instance
get_instance-Keeps id = reads-Keeps (get_instance id) (λ s. refl)

is_busy-Keeps : (i : ServiceInstance) → Keeps (is_busy i)
unfolding is_busy
is_busy-Keeps i = reads-Keeps (is_busy i) (λ s. refl)

check_domains-Keeps :
    (env : Env) (domains : List String) (i : ServiceInstance) → Keeps (check_domains env domains i)
unfolding check_domains
check_domains-Keeps env domains i = reads-Keeps (check_domains env domains i) (λ s. refl)

check_unique-Keeps : (env : Env) (domains : List String) → Keeps (check_unique env domains)
unfolding check_unique
check_unique-Keeps env domains = reads-Keeps (check_unique env domains) (λ s. refl)

found-Keeps :
    {A : Type 0} (o : Option ServiceInstance) (f : ServiceInstance → Exec A) (missing : Exec A)
    → ((i : ServiceInstance) → Keeps (f i))
    → Keeps missing
    → Keeps (found o f missing)
found-Keeps none f missing h k = k
found-Keeps (some i) f missing h k = h i

update_instance-Keeps :
    (env : Env) (r : Request) (i : ServiceInstance) → Keeps (update_instance env r i)
unfolding update_instance
update_instance-Keeps env r i =
    Keeps-then _ _
      (require-Keeps (is_live i)
        (bad_request (plain "Cannot update instance because it was already canceled")))
      λ _. Keeps-then _ _ (is_busy-Keeps i) λ busy.
        Keeps-then _ _
          (require-Keeps (not busy)
            (bad_request (plain "Instance has an active operation in progress")))
          λ _. Keeps-then _ _ (lift-Keeps (parse_domain_options env (params_of r))) λ parsed.
            Keeps-then _ _ (lift-Keeps (or_raise type_error parsed)) λ requested.
              Keeps-then _ _ (check_domains-Keeps env requested i) λ domains.
                Keeps-then _ _
                  (branch-Keeps env r (apply_domains domains i) (not (is_empty domains))
                    i.instance_type)
                  λ c. finish_update-Keeps r c

update-Keeps : (env : Env) (r : Request) → Keeps (update env r)
unfolding update
update-Keeps env r = Keeps-then _ _ (require-Keeps r.async_allowed async_required) λ _.
    Keeps-then _ _ (get_instance-Keeps r.instance_id) λ o.
      found-Keeps o (update_instance env r) _ (update_instance-Keeps env r)
        (raise-Keeps (bad_request (plain "Service instance does not exist")))

deprovision-Keeps : (r : Request) → Keeps (deprovision r)
unfolding deprovision
deprovision-Keeps r = Keeps-then _ _ (require-Keeps r.async_allowed async_required) λ _.
    Keeps-then _ _ (get_instance-Keeps r.instance_id) λ o.
      found-Keeps o (deprovision_instance r) _ (deprovision_instance-Keeps r)
        (raise-Keeps instance_does_not_exist)

provision-Keeps : (env : Env) (r : Request) → Keeps (provision env r)
unfolding provision
provision-Keeps env r = Keeps-then _ _ (require-Keeps r.async_allowed async_required) λ _.
    Keeps-then _ _ (lift-Keeps (parse_domain_options env (params_of r))) λ parsed.
      Keeps-then _ _ (lift-Keeps (required parsed)) λ domains.
        Keeps-then _ _ (lift-Keeps (validate_cnames env domains)) λ _.
          Keeps-then _ _ (check_unique-Keeps env domains) λ _.
            Keeps-then _ _ (lift-Keeps (instance_for_plan env r domains))
              λ made. store_instance-Keeps env r made.0 made.1

-- Every queued job has its operation in the committed tables.
pub record Backed (s : Session) : Type 0 where
  pub backed : (n : ℕ) → waits n s.queued ≡ true → has_id n s.committed.operations ≡ true

request-Backed :
    {A : Type 0} (m : Exec A) (s : Session) → Keeps m → Backed s → Backed (request m s).1
unfolding end_request
request-Backed m s h b =
    let k =
      after Known Any m (end_request s)
        (h.keeps (end_request s) (record { jobs = b.backed; grows = λ n e. e })) in
    record { backed = k.jobs }

serve-Backed : (env : Env) (c : ApiCall) (s : Session) → Backed s → Backed (serve env c s)
unfolding serve
serve-Backed env (provisioning r) s b = request-Backed (provision env r) s (provision-Keeps env r) b
serve-Backed env (updating r) s b = request-Backed (update env r) s (update-Keeps env r) b
serve-Backed env (deprovisioning r) s b = request-Backed (deprovision r) s (deprovision-Keeps r) b

-- If every queued job has its operation in the committed tables, then the same holds after any
-- sequence of provision, update and deprovision requests, whatever each of them answers.
pub serve_all-Backed :
    (env : Env) (calls : List ApiCall) (s : Session) → Backed s → Backed (serve_all env calls s)
unfolding serve_all
serve_all-Backed env [] s b = b
serve_all-Backed env (c ∷ cs) s b = serve_all-Backed env cs (serve env c s) (serve-Backed env c s b)
