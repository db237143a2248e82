-- ===== src/Api/Exclusive.antt =====
-- The branches of `update` of broker/api.py, and the domains of the instances.
use external_domain_broker.Prelude.{
  ℕ, String, string_eq, Bool, not, Option, none, some, Result, or_raise, key_error, client_error,
  plain, if◌then◌else◌, ◌==◌,
}
use external_domain_broker.Env.{Env}
use external_domain_broker.Pipelines.{Pipeline}
use external_domain_broker.Models.{
  ServiceInstance, InstanceType, alb, cdn, cdn_dedicated_waf, dedicated_alb, migration,
  dedicated_alb_cdn_dedicated_waf_migration, Session, Exec, pure, lift, ◌>>=◌, ◌>>◌, put_instance,
  commit, add_certificate, change_instance_type, Certificate,
}
use external_domain_broker.Models.Post.{
  Post, ok-Post, err-Post, pure-Post, bind-Post, lift-Post, choice-Post,
}
use external_domain_broker.Cdn.{
  update_cdn_instance, set_cdn_params, update_cdn_params_for_migration,
  update_alb_params_for_migration, validate_migration_to_cdn_params,
  validate_migration_to_alb_params, migrated_certificate,
}
use external_domain_broker.Cdn.Same.{
  Gives, update_cdn_instance-Same, set_cdn_params-Same, update_cdn_params_for_migration-Same,
  update_alb_params_for_migration-Same,
}
use external_domain_broker.Api.Catalog.{
  Request, params_of, cdn_plan_id, alb_plan_id, dedicated_alb_plan_id, cdn_dedicated_waf_plan_id,
}
use external_domain_broker.Api.Branches.{
  Chosen, chosen, unsupported, cdn_to_dedicated_waf, update_cdn_with, alb_to_dedicated_alb,
  dedicated_alb_to_dedicated_waf, migration_to_cdn, migration_to_alb, branch,
}
use external_domain_broker.Api.Keeps.{
  Sound, Writes, Writes-Same, put_instance-Post, commit-Post, change_instance_type-Post,
}

-- What a branch has to give to the end of the handler.
abbrev pub Writable : String → Chosen → Session → Type 0
Writable id c = Writes id c.changed

chosen-Post :
    (id : String) (i : ServiceInstance) (s : Session) (p : Pipeline)
    → Sound id s
    → Writes id i s
    → Post (Sound id) (Writable id) (pure (chosen i p) s)
unfolding pure
chosen-Post id i s p q w = ok-Post (Sound id) (Writable id) (chosen i p) s q w

module _ (id : String) (i : ServiceInstance) (r : Result ServiceInstance)
    (f : ServiceInstance → Exec Chosen) (s : Session) where
  same-Post :
      Gives i r
      → Sound id s
      → Writes id i s
      → ((j : ServiceInstance) → Writes id j s → Post (Sound id) (Writable id) (f j s))
      → Post (Sound id) (Writable id) ((lift r >>= f) s)
  unfolding lift
  same-Post g p w k =
      lift-Post (Sound id) (Writable id) f s p r λ j e. k j (Writes-Same id i j s (g.at j e) w)

-- The write of an object and the commit, and what comes after them.
store-Post :
    {B : Type 0} (R : B → Session → Type 0) (id : String) (i : ServiceInstance) (rest : Exec B)
    (s : Session)
    → Sound id s
    → Writes id i s
    → ((t : Session) → Sound id t → Writes id i t → Post (Sound id) R (rest t))
    → Post (Sound id) R ((put_instance i >> (commit >> rest)) s)
store-Post R id i rest s p w k =
    bind-Post (Sound id) (λ _. Writes id i) R (put_instance i) _ s (put_instance-Post id i s p w)
      λ _ t q v.
        bind-Post (Sound id) (λ _. Writes id i) R commit _ t
          (commit-Post id (Writes id i) t q
            (record { same_id = v.same_id; fits = v.fits; is_not_gone = v.is_not_gone }))
          λ _ u q' v'. k u q' v'

certificate-Post :
    (id : String) (j : ServiceInstance) (p : Pipeline) (make : ℕ → Certificate) (s : Session)
    → Sound id s
    → Writes id j s
    → Post (Sound id) (Writable id) (
        (add_certificate make >>= λ key.
        pure (chosen (record j { current_certificate_id = some key }) p))
          s)
unfolding add_certificate ◌>>=◌ pure
certificate-Post id j p make s q w =
    ok-Post (Sound id) (Writable id) _ _
      (record { rows = q.rows; stored = q.stored; live = q.live })
      (record {
        same_id = w.same_id;
        fits = record { alone = w.fits.alone };
        is_not_gone = w.is_not_gone;
      })

module _ (id : String) (env : Env) (r : Request) (i : ServiceInstance) (s : Session)
    (p : Sound id s) (w : Writes id i s) where
  cdn_to_dedicated_waf-Post : Post (Sound id) (Writable id) (cdn_to_dedicated_waf env r i s)
  unfolding cdn_to_dedicated_waf
  cdn_to_dedicated_waf-Post =
      let store = λ (k : ServiceInstance).
        put_instance k >> (commit >> pure (chosen k Pipeline.cdn_to_cdn_dedicated_waf_update)) in
      let configure =
        λ (j : ServiceInstance). lift (update_cdn_instance env (params_of r) j) >>= store in
      store-Post (Writable id) id i (change_instance_type i cdn_dedicated_waf >>= configure) s p w
        λ t q v.
          bind-Post (Sound id) (Writes id) (Writable id) (change_instance_type i cdn_dedicated_waf)
            configure t (change_instance_type-Post id i t q v cdn_dedicated_waf)
            λ j u q' v'.
              same-Post id j (update_cdn_instance env (params_of r) j) store u
                (update_cdn_instance-Same env (params_of r) j) q' v'
                λ k v''.
                  store-Post (Writable id) id k
                    (pure (chosen k Pipeline.cdn_to_cdn_dedicated_waf_update)) u q' v''
                    λ x q'' w'. chosen-Post id k x Pipeline.cdn_to_cdn_dedicated_waf_update q'' w'

  update_cdn_with-Post :
      (pipeline : Pipeline) → Post (Sound id) (Writable id) (update_cdn_with env r i pipeline s)
  unfolding update_cdn_with pure
  update_cdn_with-Post pipeline =
      same-Post id i (update_cdn_instance env (params_of r) i) _ s
        (update_cdn_instance-Same env (params_of r) i) p w λ j v. chosen-Post id j s pipeline p v

  -- A change of the type, and what is done with the object that it gives.
  retype-Post :
      (kind : InstanceType) (f : ServiceInstance → Exec Chosen)
      → ((j : ServiceInstance) (t : Session)
          → Sound id t
          → Writes id j t
          → Post (Sound id) (Writable id) (f j t))
      → Post (Sound id) (Writable id) ((change_instance_type i kind >>= f) s)
  retype-Post kind f k =
      bind-Post (Sound id) (Writes id) (Writable id) (change_instance_type i kind) f s
        (change_instance_type-Post id i s p w kind) k

  alb_to_dedicated_alb-Post : Post (Sound id) (Writable id) (alb_to_dedicated_alb env r i s)
  unfolding alb_to_dedicated_alb lift pure
  alb_to_dedicated_alb-Post = retype-Post dedicated_alb _ λ j t q v.
      lift-Post (Sound id) (Writable id)
        (λ (organization : String). pure (
          chosen
            (record j { org_id = some organization; new_certificate_id = j.current_certificate_id })
            Pipeline.alb_to_dedicated_alb_update))
        t q (or_raise key_error r.context_organization)
        λ organization e.
          chosen-Post id
            (record j { org_id = some organization; new_certificate_id = j.current_certificate_id })
            t Pipeline.alb_to_dedicated_alb_update q
            (record {
              same_id = v.same_id;
              fits = record { alone = v.fits.alone };
              is_not_gone = v.is_not_gone;
            })

  dedicated_alb_to_dedicated_waf-Post :
      Post (Sound id) (Writable id) (dedicated_alb_to_dedicated_waf env r i s)
  unfolding dedicated_alb_to_dedicated_waf pure
  dedicated_alb_to_dedicated_waf-Post =
      retype-Post dedicated_alb_cdn_dedicated_waf_migration _ λ j t q v.
        same-Post id j (set_cdn_params env (params_of r) j) _ t
          (set_cdn_params-Same env (params_of r) j) q v
          λ k v'. chosen-Post id k t Pipeline.dedicated_alb_to_cdn_dedicated_waf_update q v'

  migration_to_cdn-Post : Post (Sound id) (Writable id) (migration_to_cdn env r i s)
  unfolding migration_to_cdn lift
  migration_to_cdn-Post =
      lift-Post (Sound id) (Writable id) _ s p (validate_migration_to_cdn_params (params_of r))
        λ _ _. retype-Post cdn _ λ j t q v.
          same-Post id j (update_cdn_params_for_migration env (params_of r) j) _ t
            (update_cdn_params_for_migration-Same env (params_of r) j) q v
            λ k v'.
              lift-Post (Sound id) (Writable id) _ t q (migrated_certificate (params_of r) i.id)
                λ make _. certificate-Post id k Pipeline.cdn_broker_migration make t q v'

  migration_to_alb-Post : Post (Sound id) (Writable id) (migration_to_alb env r i s)
  unfolding migration_to_alb lift
  migration_to_alb-Post =
      lift-Post (Sound id) (Writable id) _ s p (validate_migration_to_alb_params (params_of r))
        λ _ _. retype-Post alb _ λ j t q v.
          lift-Post (Sound id) (Writable id) _ t q (migrated_certificate (params_of r) i.id)
            λ make _.
              same-Post id j (update_alb_params_for_migration (params_of r) j) _ t
                (update_alb_params_for_migration-Same (params_of r) j) q v
                λ k v'. certificate-Post id k Pipeline.domain_broker_migration make t q v'

  refused-Post : Post (Sound id) (Writable id) (unsupported s)
  refused-Post =
      err-Post (Sound id) (Writable id)
        (client_error (plain "Updating service plan is not supported")) s p

  kept-Post :
      (q : Option Pipeline) (noop : Bool)
      → Post (Sound id) (Writable id) (pure (record { changed = i; queue = q; noop = noop }) s)
  kept-Post q noop =
      pure-Post (Sound id) (Writable id) (record { changed = i; queue = q; noop = noop }) s p w

  plan-Post :
      (plan : String) (m n : Exec Chosen)
      → Post (Sound id) (Writable id) (m s)
      → Post (Sound id) (Writable id) (n s)
      → Post (Sound id) (Writable id) ((if r.details.plan_id == plan then m else n) s)
  plan-Post plan m n = choice-Post (Sound id) (Writable id) (r.details.plan_id == plan) m n s

  pub branch-Post :
      (has_domain_updates : Bool) (kind : InstanceType)
      → Post (Sound id) (Writable id) (branch env r i has_domain_updates kind s)
  unfolding branch
  branch-Post changed cdn =
      plan-Post cdn_plan_id _ _ (update_cdn_with-Post Pipeline.cdn_update)
        (plan-Post cdn_dedicated_waf_plan_id _ _ cdn_to_dedicated_waf-Post refused-Post)
  branch-Post changed cdn_dedicated_waf =
      plan-Post cdn_dedicated_waf_plan_id _ _
        (update_cdn_with-Post Pipeline.cdn_dedicated_waf_update) refused-Post
  branch-Post changed alb =
      plan-Post alb_plan_id _ _ (kept-Post (some Pipeline.alb_update) (not changed))
        (plan-Post dedicated_alb_plan_id _ _ alb_to_dedicated_alb-Post refused-Post)
  branch-Post changed dedicated_alb =
      plan-Post dedicated_alb_plan_id _ _
        (kept-Post (some Pipeline.dedicated_alb_update) (not changed))
        (plan-Post cdn_dedicated_waf_plan_id _ _ dedicated_alb_to_dedicated_waf-Post refused-Post)
  branch-Post changed migration =
      plan-Post cdn_plan_id _ _ migration_to_cdn-Post
        (plan-Post alb_plan_id _ _ migration_to_alb-Post refused-Post)
  branch-Post changed dedicated_alb_cdn_dedicated_waf_migration = kept-Post none (not changed)
