-- ===== src/Api/Sequence.antt =====
-- Sequences of requests to broker/api.py, and the domains of the instances.
use external_domain_broker.Prelude.{
  ℕ, String, string_eq, true, false, Option, none, some, List, [], ◌∷◌, ◌++◌, ◌≡◌, refl, subst, ok,
  err, elem, arith, is_empty, async_required, instance_does_not_exist, integrity_error,
}
use external_domain_broker.Env.{Env}
use external_domain_broker.Pipelines.{Pipeline}
use external_domain_broker.Utils.{parse_domain_options}
use external_domain_broker.Validators.{validate_cnames}
use external_domain_broker.Tags.{generate_instance_tags}
use external_domain_broker.Models.{
  ServiceInstance, Session, pure, raise, lift, ◌>>=◌, ◌>>◌, insert_instance, commit, add_operation,
  find, request, end_request, Action,
}
use external_domain_broker.Models.Post.{
  Any, Post, ok-Post, err-Post, pure-Post, bind-Post, lift-Post, read-Post, require-Post, after,
}
use external_domain_broker.Domains.{validate_unique, taken}
use external_domain_broker.Domains.Holders.{IsExclusive, holds, append-IsExclusive, unheld_of_taken}
use external_domain_broker.Api.Catalog.{Request, params_of, done, is_async, plans, offering}
use external_domain_broker.Api.Provision.{
  enqueue, required, instance_for_plan, check_unique, store_instance, provision,
}
use external_domain_broker.Api.Deprovision.{
  deprovision, deprovision_instance, deprovision_pipeline, was_updated, has_operation,
}
use external_domain_broker.Api.Made.{instance_for_plan-At}
use external_domain_broker.Api.Update.{update}
use external_domain_broker.Api.Served.{Both, enqueue-Post, load-Post, raise-Post, update-Post}

commit-Both : (s : Session) → Both s → Post Both Any (commit s)
unfolding commit
commit-Both s b =
    ok-Post Both Any tt (record s { committed = s.working })
      (record { rows = b.rows; stored = b.rows }) tt

add_operation-Both :
    (id : String) (action : Action) (s : Session)
    → Both s
    → Post Both Any (add_operation id action s)
unfolding add_operation
add_operation-Both id action s b =
    ok-Post Both Any _ _ (record { rows = b.rows; stored = b.stored }) tt

enqueue-Both :
    (p : Pipeline) (operation_id : ℕ) (correlation : Option String) (s : Session)
    → Both s
    → Post Both Any (enqueue p operation_id correlation s)
enqueue-Both p operation_id correlation s b =
    enqueue-Post Both p operation_id correlation s b
      λ jobs. record { rows = b.rows; stored = b.stored }

-- The end of `provision` and of `deprovision`.
queued-Both :
    (p : Pipeline) (operation_id : ℕ) (r : Request) (s : Session)
    → Both s
    → Post Both Any ((enqueue p operation_id r.correlation_id >> pure (is_async operation_id)) s)
queued-Both p operation_id r s b =
    bind-Post Both Any Any (enqueue p operation_id r.correlation_id)
      (λ _. pure (is_async operation_id)) s (enqueue-Both p operation_id r.correlation_id s b)
      λ _ t q _. pure-Post Both Any (is_async operation_id) t q tt

was_updated_lem :
    (id : String) (s : Session)
    → was_updated id s ≡ (ok (has_operation id Action.update s.working.operations), s)
unfolding was_updated
was_updated_lem id s = refl

deprovision_instance-Post :
    (r : Request) (i : ServiceInstance) (s : Session)
    → Both s
    → Post Both Any (deprovision_instance r i s)
unfolding deprovision_instance
deprovision_instance-Post r i s b =
    bind-Post Both Any Any (add_operation i.id Action.deprovision) _ s
      (add_operation-Both i.id Action.deprovision s b)
      λ operation_id t q _. bind-Post Both Any Any commit _ t (commit-Both t q) λ _ u q _.
        read-Post Both Any
          (λ updated. lift (deprovision_pipeline r.details.plan_id updated) >>= λ p.
            enqueue p operation_id r.correlation_id >> pure (is_async operation_id))
          u q (was_updated i.id) (ok (has_operation i.id Action.update u.working.operations))
          (was_updated_lem i.id u)
          λ updated _.
            lift-Post Both Any
              (λ p. enqueue p operation_id r.correlation_id >> pure (is_async operation_id)) u q
              (deprovision_pipeline r.details.plan_id updated)
              λ p _. queued-Both p operation_id r u q

deprovision-Post : (r : Request) (s : Session) → Both s → Post Both Any (deprovision r s)
unfolding deprovision
deprovision-Post r s b = require-Post Both Any r.async_allowed async_required _ s b λ _.
    load-Post r.instance_id (deprovision_instance r) (raise instance_does_not_exist) s b
      (λ i f. deprovision_instance-Post r i s b) (raise-Post instance_does_not_exist s b)

-- A new instance, none of whose domains is held.
insert_instance-Post :
    (i : ServiceInstance) (s : Session)
    → Both s
    → ((d a : String) → elem d i.domain_names ≡ true → holds a d s.working.instances ≡ false)
    → Post Both Any (insert_instance i s)
unfolding insert_instance
insert_instance-Post i s b free =
    elim (find i.id s.working.instances)
      as (λ o. Post {A = Unit {0}} Both Any (elim o [
        | some old ↦ (err integrity_error, s)
        | none ↦ (
          ok tt,
          record s { working = record s.working { instances = s.working.instances ++ i ∷ [] } },
        )
      ])) [
        | some old ↦ err-Post Both Any integrity_error s b
        | none ↦
            ok-Post Both Any tt _
              (record {
                rows = append-IsExclusive i s.working.instances b.rows free;
                stored = b.stored;
              })
              tt
      ]

module _ (env : Env) (r : Request) (domains : List String) (s : Session) (b : Both s) where
  -- The domains of `domains` are held by no instance.
  store_instance-Post :
      (i : ServiceInstance) (q : Option Pipeline)
      → ((d a : String) → elem d i.domain_names ≡ true → holds a d s.working.instances ≡ false)
      → Post Both Any (store_instance env r (i, q) s)
  unfolding store_instance
  store_instance-Post i none free =
      bind-Post Both Any Any (insert_instance i) _ s (insert_instance-Post i s b free) λ _ t q _.
        bind-Post Both Any Any commit _ t (commit-Both t q)
          λ _ u q _. pure-Post Both Any done u q tt
  store_instance-Post i (some p) free =
      lift-Post Both Any _ s b (generate_instance_tags env r.instance_id r.details offering plans)
        λ tags _.
          bind-Post Both Any Any (insert_instance (record i { tags = some tags })) _ s
            (insert_instance-Post (record i { tags = some tags }) s b free)
            λ _ t q _.
              bind-Post Both Any Any (add_operation i.id Action.provision) _ t
                (add_operation-Both i.id Action.provision t q)
                λ operation_id u q _.
                  bind-Post Both Any Any commit _ u (commit-Both u q)
                    λ _ v q _. queued-Both p operation_id r v q

  check_unique_lem :
      (a : Unit {0})
      → env.ignore_duplicate_domains ≡ false
      → (check_unique env domains s).0 ≡ ok a
      → is_empty (taken none s.working.instances domains) ≡ true
  unfolding check_unique validate_unique
  check_unique_lem a off h = ground arith

check_unique_reads :
    (env : Env) (domains : List String) (s : Session)
    → check_unique env domains s ≡ ((check_unique env domains s).0, s)
unfolding check_unique
check_unique_reads env domains s = refl

provision-Post :
    (env : Env) (r : Request) (s : Session)
    → env.ignore_duplicate_domains ≡ false
    → Both s
    → Post Both Any (provision env r s)
unfolding provision
provision-Post env r s off b =
    let build =
      λ (domains : List String). lift (instance_for_plan env r domains) >>= store_instance env r in
    let check = λ (domains : List String).
      lift (validate_cnames env domains) >> (check_unique env domains >> build domains) in
    let parsed = λ (o : Option (List String)). lift (required o) >>= check in
    require-Post Both Any r.async_allowed async_required
      (λ _. lift (parse_domain_options env (params_of r)) >>= parsed) s b
      λ _. lift-Post Both Any parsed s b (parse_domain_options env (params_of r)) λ o _.
        lift-Post Both Any check s b (required o) λ domains _.
          lift-Post Both Any (λ _. check_unique env domains >> build domains) s b
            (validate_cnames env domains)
            λ _ _.
              read-Post Both Any (λ _. build domains) s b (check_unique env domains)
                (check_unique env domains s).0 (check_unique_reads env domains s)
                λ a e.
                  lift-Post Both Any (store_instance env r) s b (instance_for_plan env r domains)
                    λ made h. store_instance-Post env r domains s b made.0 made.1 λ d a' k.
                      unheld_of_taken s.working.instances d a' domains
                        (check_unique_lem env r domains s b a off e)
                        (subst (λ ds. elem d ds ≡ true)
                          ((instance_for_plan-At env r domains).made made.0 made.1 h) k)

-- A request to the broker.
pub data ApiCall : Type 0 where
  provisioning : Request → ApiCall
  updating : Request → ApiCall
  deprovisioning : Request → ApiCall

-- The requests, each in a session of its own.
unfoldable pub serve : Env → ApiCall → Session → Session
unfolding provision update deprovision end_request
serve env (provisioning r) s = (request (provision env r) s).1
serve env (updating r) s = (request (update env r) s).1
serve env (deprovisioning r) s = (request (deprovision r) s).1

unfoldable pub serve_all : Env → List ApiCall → Session → Session
unfolding serve
serve_all env [] s = s
serve_all env (c ∷ cs) s = serve_all env cs (serve env c s)

fresh_Both : (s : Session) → IsExclusive s.committed.instances → Both (end_request s)
unfolding end_request
fresh_Both s x = record { rows = x; stored = x }

ended_Both : (s : Session) → Both s → IsExclusive (end_request s).committed.instances
unfolding end_request
ended_Both s b = b.stored

serve-IsExclusive :
    (env : Env) (c : ApiCall) (s : Session)
    → env.ignore_duplicate_domains ≡ false
    → IsExclusive s.committed.instances
    → IsExclusive (serve env c s).committed.instances
unfolding serve
serve-IsExclusive env (provisioning r) s off x = ended_Both _ (
    after Both Any (provision env r) (end_request s)
      (provision-Post env r (end_request s) off (fresh_Both s x)))
serve-IsExclusive env (updating r) s off x = ended_Both _ (
    after Both Any (update env r) (end_request s)
      (update-Post env r (end_request s) (fresh_Both s x)))
serve-IsExclusive env (deprovisioning r) s off x = ended_Both _ (
    after Both Any (deprovision r) (end_request s)
      (deprovision-Post r (end_request s) (fresh_Both s x)))

-- Unless duplicate domains are ignored: if no two instances that are not deactivated have a domain
-- in common, then the same holds of what is committed after any sequence of provision, update and
-- deprovision requests, whatever each of them answers and whatever plan it asks for.
pub serve_all-IsExclusive :
    (env : Env) (calls : List ApiCall) (s : Session)
    → env.ignore_duplicate_domains ≡ false
    → IsExclusive s.committed.instances
    → IsExclusive (serve_all env calls s).committed.instances
unfolding serve_all
serve_all-IsExclusive env [] s off x = x
serve_all-IsExclusive env (c ∷ cs) s off x =
    serve_all-IsExclusive env cs (serve env c s) off (serve-IsExclusive env c s off x)
