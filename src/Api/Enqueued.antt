-- ===== src/Api/Enqueued.antt =====
-- The branches and the last parts of the handlers of broker/api.py, and the queued jobs.
use external_domain_broker.Prelude.{
  ℕ, String, string_eq, ◌==◌, ◌≡◌, refl, Bool, true, Option, none, some, ok, err, or_raise,
  name_error, key_error, if◌then◌else◌,
}
use external_domain_broker.Env.{Env}
use external_domain_broker.Pipelines.{Pipeline}
use external_domain_broker.Tags.{generate_instance_tags}
use external_domain_broker.Cdn.{
  update_cdn_instance, set_cdn_params, update_cdn_params_for_migration,
  update_alb_params_for_migration, validate_migration_to_cdn_params,
  validate_migration_to_alb_params, migrated_certificate,
}
use external_domain_broker.Models.{
  ServiceInstance, InstanceType, alb, cdn, cdn_dedicated_waf, dedicated_alb, migration,
  dedicated_alb_cdn_dedicated_waf_migration, Action, Session, Exec, pure, raise, lift, ◌>>=◌, ◌>>◌,
  put_instance, add_operation, commit,
}
use external_domain_broker.Models.Post.{
  Any, Post, ok-Post, read-Post, lift-Post, bind-Post, pure-Post,
}
use external_domain_broker.Api.Catalog.{
  Request, params_of, done, is_async, cdn_plan_id, alb_plan_id, dedicated_alb_plan_id,
  cdn_dedicated_waf_plan_id, plans, offering,
}
use external_domain_broker.Api.Provision.{enqueue, store_instance}
use external_domain_broker.Api.Deprovision.{deprovision_instance, deprovision_pipeline, was_updated}
use external_domain_broker.Api.Branches.{
  Chosen, chosen, unsupported, cdn_to_dedicated_waf, update_cdn_with, alb_to_dedicated_alb,
  dedicated_alb_to_dedicated_waf, migration_to_cdn, migration_to_alb, branch,
}
use external_domain_broker.Api.Update.{finish_update, queue_of}
use external_domain_broker.Api.Queued.{
  has_id, Known, Keeps, Keeps-then, lift-Keeps, reads-Keeps, pure-Keeps, choice-Keeps,
  put_instance-Keeps, insert_instance-Keeps, add_certificate-Keeps, commit-Keeps,
  change_instance_type-Keeps, add_operation-Known, commit-Known, enqueue-Known,
}

module _ (env : Env) (r : Request) (i : ServiceInstance) where
  cdn_to_dedicated_waf-Keeps : Keeps (cdn_to_dedicated_waf env r i)
  unfolding cdn_to_dedicated_waf
  cdn_to_dedicated_waf-Keeps = Keeps-then _ _ (put_instance-Keeps i) λ _.
      Keeps-then _ _ commit-Keeps λ _.
        Keeps-then _ _ (change_instance_type-Keeps i cdn_dedicated_waf) λ j.
          Keeps-then _ _ (lift-Keeps (update_cdn_instance env (params_of r) j)) λ k.
            Keeps-then _ _ (put_instance-Keeps k) λ _.
              Keeps-then _ _ commit-Keeps
                λ _. pure-Keeps (chosen k Pipeline.cdn_to_cdn_dedicated_waf_update)

  update_cdn_with-Keeps : (p : Pipeline) → Keeps (update_cdn_with env r i p)
  unfolding update_cdn_with
  update_cdn_with-Keeps p =
      Keeps-then _ _ (lift-Keeps (update_cdn_instance env (params_of r) i)) λ j. pure-Keeps _

  alb_to_dedicated_alb-Keeps : Keeps (alb_to_dedicated_alb env r i)
  unfolding alb_to_dedicated_alb
  alb_to_dedicated_alb-Keeps =
      Keeps-then _ _ (change_instance_type-Keeps i dedicated_alb) λ j.
        Keeps-then _ _ (lift-Keeps (or_raise key_error r.context_organization)) λ o. pure-Keeps _

  dedicated_alb_to_dedicated_waf-Keeps : Keeps (dedicated_alb_to_dedicated_waf env r i)
  unfolding dedicated_alb_to_dedicated_waf
  dedicated_alb_to_dedicated_waf-Keeps =
      Keeps-then _ _ (change_instance_type-Keeps i dedicated_alb_cdn_dedicated_waf_migration)
        λ j. Keeps-then _ _ (lift-Keeps (set_cdn_params env (params_of r) j)) λ k. pure-Keeps _

  migration_to_cdn-Keeps : Keeps (migration_to_cdn env r i)
  unfolding migration_to_cdn
  migration_to_cdn-Keeps =
      Keeps-then _ _ (lift-Keeps (validate_migration_to_cdn_params (params_of r))) λ _.
        Keeps-then _ _ (change_instance_type-Keeps i cdn) λ j.
          Keeps-then _ _ (lift-Keeps (update_cdn_params_for_migration env (params_of r) j)) λ k.
            Keeps-then _ _ (lift-Keeps (migrated_certificate (params_of r) i.id))
              λ make. Keeps-then _ _ (add_certificate-Keeps make) λ key. pure-Keeps _

  migration_to_alb-Keeps : Keeps (migration_to_alb env r i)
  unfolding migration_to_alb
  migration_to_alb-Keeps =
      Keeps-then _ _ (lift-Keeps (validate_migration_to_alb_params (params_of r))) λ _.
        Keeps-then _ _ (change_instance_type-Keeps i alb) λ j.
          Keeps-then _ _ (lift-Keeps (migrated_certificate (params_of r) i.id)) λ make.
            Keeps-then _ _ (lift-Keeps (update_alb_params_for_migration (params_of r) j))
              λ k. Keeps-then _ _ (add_certificate-Keeps make) λ key. pure-Keeps _

  unsupported-Keeps : Keeps unsupported
  unsupported-Keeps = reads-Keeps unsupported (λ s. refl)

  plan-Keeps :
      (plan : String) (m n : Exec Chosen)
      → Keeps m
      → Keeps n
      → Keeps (if r.details.plan_id == plan then m else n)
  plan-Keeps plan = choice-Keeps (r.details.plan_id == plan)

  pub branch-Keeps : (changed : Bool) (kind : InstanceType) → Keeps (branch env r i changed kind)
  unfolding branch
  branch-Keeps changed cdn =
      plan-Keeps cdn_plan_id _ _ (update_cdn_with-Keeps Pipeline.cdn_update)
        (plan-Keeps cdn_dedicated_waf_plan_id _ _ cdn_to_dedicated_waf-Keeps unsupported-Keeps)
  branch-Keeps changed cdn_dedicated_waf =
      plan-Keeps cdn_dedicated_waf_plan_id _ _
        (update_cdn_with-Keeps Pipeline.cdn_dedicated_waf_update) unsupported-Keeps
  branch-Keeps changed alb =
      plan-Keeps alb_plan_id _ _ (pure-Keeps _)
        (plan-Keeps dedicated_alb_plan_id _ _ alb_to_dedicated_alb-Keeps unsupported-Keeps)
  branch-Keeps changed dedicated_alb = plan-Keeps dedicated_alb_plan_id _ _ (pure-Keeps _) (
      plan-Keeps cdn_dedicated_waf_plan_id _ _ dedicated_alb_to_dedicated_waf-Keeps
        unsupported-Keeps)
  branch-Keeps changed migration =
      plan-Keeps cdn_plan_id _ _ migration_to_cdn-Keeps
        (plan-Keeps alb_plan_id _ _ migration_to_alb-Keeps unsupported-Keeps)
  branch-Keeps changed dedicated_alb_cdn_dedicated_waf_migration = pure-Keeps _

-- The queue function, and the answer.
queued-Post :
    (q : Pipeline) (n : ℕ) (given : Option String) (s : Session)
    → Known s
    → has_id n s.committed.operations ≡ true
    → Post Known Any ((enqueue q n given >> pure (is_async n)) s)
queued-Post q n given s p h =
    bind-Post Known Any Any (enqueue q n given) (λ _. pure (is_async n)) s
      (enqueue-Known q n given s p h) λ _ t k _. pure-Post Known Any (is_async n) t k tt

put_instance-Known :
    (i : ServiceInstance) (n : ℕ) (s : Session)
    → Known s
    → has_id n s.working.operations ≡ true
    → Post Known (λ _ t. has_id n t.working.operations ≡ true) (put_instance i s)
unfolding put_instance
put_instance-Known i n s p h =
    ok-Post Known (λ _ t. has_id n t.working.operations ≡ true) tt _
      (record { jobs = p.jobs; grows = p.grows }) h

queue_of-Post :
    (q : Option Pipeline) (n : ℕ) (r : Request) (s : Session)
    → Known s
    → has_id n s.committed.operations ≡ true
    → Post Known Any ((queue_of q >>= λ p. enqueue p n r.correlation_id >> pure (is_async n)) s)
unfolding queue_of raise pure
queue_of-Post none n r s p h =
    read-Post Known Any (λ q. enqueue q n r.correlation_id >> pure (is_async n)) s p (queue_of none)
      (err name_error) refl λ q e. queued-Post q n r.correlation_id s p h
queue_of-Post (some q) n r s p h =
    read-Post Known Any (λ q. enqueue q n r.correlation_id >> pure (is_async n)) s p
      (queue_of (some q)) (ok q) refl λ q e. queued-Post q n r.correlation_id s p h

was_updated_reads : (id : String) (s : Session) → was_updated id s ≡ ((was_updated id s).0, s)
unfolding was_updated
was_updated_reads id s = refl

-- A new operation, the commit and the queue function.
pub finish_update-Keeps : (r : Request) (c : Chosen) → Keeps (finish_update r c)
unfolding finish_update queue_of
finish_update-Keeps r c = choice-Keeps c.noop (pure done) _ (pure-Keeps done) (record {
  keeps = λ s p.
      let queue_it =
        λ (n : ℕ). queue_of c.queue >>= λ q. enqueue q n r.correlation_id >> pure (is_async n) in
      let store = λ (n : ℕ). put_instance c.changed >> (commit >> queue_it n) in
      bind-Post Known (λ n t. has_id n t.working.operations ≡ true) Any
        (add_operation c.changed.id Action.update) store s
        (add_operation-Known c.changed.id Action.update s p)
        λ n t k h.
          bind-Post Known (λ _ u. has_id n u.working.operations ≡ true) Any (put_instance c.changed)
            (λ _. commit >> queue_it n) t (put_instance-Known c.changed n t k h)
            λ _ u k h.
              bind-Post Known (λ _ v. has_id n v.committed.operations ≡ true) Any commit
                (λ _. queue_it n) u (commit-Known n u k h)
                λ _ v k h. queue_of-Post c.queue n r v k h;
})

pub deprovision_instance-Keeps :
    (r : Request) (i : ServiceInstance) → Keeps (deprovision_instance r i)
unfolding deprovision_instance
deprovision_instance-Keeps r i = record {
  keeps = λ s p.
      let queue_it = λ (n : ℕ) (updated : Bool).
        lift (deprovision_pipeline r.details.plan_id updated) >>= λ q.
        enqueue q n r.correlation_id >> pure (is_async n) in
      let store = λ (n : ℕ). commit >> (was_updated i.id >>= queue_it n) in
      bind-Post Known (λ n t. has_id n t.working.operations ≡ true) Any
        (add_operation i.id Action.deprovision) store s
        (add_operation-Known i.id Action.deprovision s p)
        λ n t k h.
          bind-Post Known (λ _ v. has_id n v.committed.operations ≡ true) Any commit
            (λ _. was_updated i.id >>= queue_it n) t (commit-Known n t k h)
            λ _ v k h.
              read-Post Known Any (queue_it n) v k (was_updated i.id) (was_updated i.id v).0
                (was_updated_reads i.id v)
                λ updated _.
                  lift-Post Known Any (λ q. enqueue q n r.correlation_id >> pure (is_async n)) v k
                    (deprovision_pipeline r.details.plan_id updated)
                    λ q _. queued-Post q n r.correlation_id v k h;
}

pub store_instance-Keeps :
    (env : Env) (r : Request) (i : ServiceInstance) (q : Option Pipeline)
    → Keeps (store_instance env r (i, q))
unfolding store_instance
store_instance-Keeps env r i none =
    Keeps-then _ _ (insert_instance-Keeps i) λ _. Keeps-then _ _ commit-Keeps λ _. pure-Keeps done
store_instance-Keeps env r i (some q) =
    Keeps-then _ _ (lift-Keeps (generate_instance_tags env r.instance_id r.details offering plans))
      λ tags. Keeps-then _ _ (insert_instance-Keeps (record i { tags = some tags })) λ _. record {
        keeps = λ s p.
            bind-Post Known (λ n t. has_id n t.working.operations ≡ true) Any
              (add_operation i.id Action.provision)
              (λ n. commit >> (enqueue q n r.correlation_id >> pure (is_async n))) s
              (add_operation-Known i.id Action.provision s p)
              λ n t k h.
                bind-Post Known (λ _ v. has_id n v.committed.operations ≡ true) Any commit
                  (λ _. enqueue q n r.correlation_id >> pure (is_async n)) t (commit-Known n t k h)
                  λ _ v k h. queued-Post q n r.correlation_id v k h;
      }
