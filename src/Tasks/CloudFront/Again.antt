-- ===== src/Tasks/CloudFront/Again.antt =====
-- A second attempt at `create_distribution` of broker/tasks/cloudfront.py.
use external_domain_broker.Prelude.{
  String, Bool, true, false, some, List, Result, ok, err, ◌≡◌, refl, sym, ap, ◌∙◌, subst, arith,
  bind_ok, if◌then◌else◌,
}
use external_domain_broker.Json.{Json, truthy}
use external_domain_broker.Json.Dicts.{subscript}
use external_domain_broker.Models.{ServiceInstance, Certificate, Tag, find}
use external_domain_broker.Domains.Holders.{find-id, find-written}
use external_domain_broker.Tasks.Work.{Work, Act, Tables, ◌>>=◌, pure, raise, call, tried, save}
use external_domain_broker.Tasks.Rules.{
  Ends, ok-Ends, pure-Ends, raise-Ends, choice-Ends, bind-Ends, call-Ends, lift-Ends, load-Ends,
  tried-Ends, load_found, new_certificate-Ends,
}
use external_domain_broker.Tasks.HealthChecks.{listed}
use external_domain_broker.Tasks.Settings.{Settings}
use external_domain_broker.Tasks.CloudFront.Behavior.{
  get_custom_error_responses, update_default_cache_behavior, default_cache_behavior,
}
use external_domain_broker.Tasks.CloudFront.Config.{
  new_config, plain_config, with_web_acl, add_dedicated_web_acl_tag,
}
use external_domain_broker.Tasks.CloudFront.Steps.{
  CloudFront, is_gone, exists, make_distribution, create_distribution, renewed,
}

add_dedicated_web_acl_tag-id :
    (i j : ServiceInstance) → add_dedicated_web_acl_tag i ≡ ok j → j.id ≡ i.id
unfolding add_dedicated_web_acl_tag
add_dedicated_web_acl_tag-id i j h = ground arith

with_web_acl-id :
    (i : ServiceInstance) (config : Json) (x : ServiceInstance × Json)
    → with_web_acl i config ≡ ok x
    → x.0.id ≡ i.id
unfolding with_web_acl
with_web_acl-id i config x h = ground (arith, add_dedicated_web_acl_tag-id i (x.0))

new_config-id :
    (bucket : String) (i : ServiceInstance) (certificate : Certificate) (x : ServiceInstance × Json)
    → new_config bucket i certificate ≡ ok x
    → x.0.id ≡ i.id
unfolding new_config
new_config-id bucket i certificate x h =
    let (responses, _, more) = bind_ok (get_custom_error_responses i) _ x h in
    let (behavior, _, rest) =
      bind_ok (update_default_cache_behavior i default_cache_behavior) _ x more in
    with_web_acl-id i (plain_config bucket i certificate responses behavior) x rest

-- Looking at a distribution changes nothing, and a distribution that was created is there.
pub record Keeps {W : Type 0} (c : CloudFront W) : Type 0 where
  pub reads : (d : Json) (w w' : W) (r : Result Json) → c.get_distribution d w ≡ (r, w') → w' ≡ w
  pub created :
      (config response distribution id : Json) (tags : List Tag) (w w' : W)
      → c.create_distribution_with_tags config tags w ≡ (ok response, w')
      → subscript "Distribution" response ≡ ok distribution
      → subscript "Id" distribution ≡ ok id
      → (truthy id ≡ true) × ((status : Json) × (c.get_distribution id w' ≡ (ok status, w')))

module _ {W : Type 0} (c : CloudFront W) (settings : Settings) (law : Keeps c) (id : String) where
  abbrev Any : Work W → Type 0
  Any s = Unit

  -- The instance is stored with a distribution that is there.
  record IsCreated (s : Work W) : Type 0 where
    row : ServiceInstance
    stored : find id s.tables.instances ≡ some row
    named : truthy row.cloudfront_distribution_id ≡ true
    status : Json
    there : c.get_distribution row.cloudfront_distribution_id s.world ≡ (ok status, s.world)

  abbrev Created : Unit {0} → Work W → Type 0
  Created a = IsCreated

  -- With a distribution that is there the task does nothing.
  created_again : (s : Work W) → IsCreated s → create_distribution c settings id s ≡ (ok tt, s)
  unfolding create_distribution exists tried call pure ◌>>=◌
  created_again s h =
      load_found s id h.row _ h.stored
      ∙ ap
          (λ (b : Bool).
            (if b
                then (exists c settings h.row.cloudfront_distribution_id >>= λ there.
                    if there then pure tt else make_distribution c settings h.row)
                else make_distribution c settings h.row)
              s)
          h.named
      ∙ ap
          (λ (x : Result Json × W).
            ((elim x.0 as (λ r. Act W Bool) [
              | ok status ↦ pure true
              | err e ↦ if is_gone e then pure false else raise e
            ])
                >>= λ there. if there then pure tt else make_distribution c settings h.row)
              (record s { world = x.1 }))
          h.there

  make_distribution-Ends :
      (i : ServiceInstance) (s : Work W)
      → find id s.tables.instances ≡ some i
      → Ends Any Created (make_distribution c settings i s)
  unfolding make_distribution save
  make_distribution-Ends i s f = new_certificate-Ends Any Created s i _ tt λ certificate.
      lift-Ends Any Created _ s (new_config settings.cdn_log_bucket i certificate) tt λ x h.
        call-Ends Any Created _ s (c.create_distribution_with_tags (x.1) (listed x.0.tags))
          (λ w. tt)
          λ response w answer.
            let t = record s { world = w } in
            lift-Ends Any Created _ t (subscript "Distribution" response) tt λ distribution d.
              lift-Ends Any Created _ t (subscript "ARN" distribution) tt λ arn a.
                lift-Ends Any Created _ t (subscript "Id" distribution) tt λ made m.
                  lift-Ends Any Created _ t (subscript "DomainName" distribution) tt λ domain n.
                    ok-Ends Any Created tt _ record {
                      row = renewed certificate (record (x.0) {
                        cloudfront_distribution_arn = arn;
                        cloudfront_distribution_id = made;
                        domain_internal = domain;
                      });
                      stored =
                          find-written id _ s.tables.instances i
                            (new_config-id settings.cdn_log_bucket i certificate x h
                              ∙ find-id id s.tables.instances i f)
                            f;
                      named =
                          (law.created (x.1) response distribution made (listed x.0.tags) s.world w
                            answer d m).0;
                      status =
                          (law.created (x.1) response distribution made (listed x.0.tags) s.world w
                            answer d m).1.0;
                      there =
                          (law.created (x.1) response distribution made (listed x.0.tags) s.world w
                            answer d m).1.1;
                    }

  -- Whether a distribution is there, in tables that are as they were.
  abbrev Found : Json → Tables → Bool → Work W → Type 0
  Found d t b u =
      (u.tables ≡ t)
      × (b ≡ true → (status : Json) × (c.get_distribution d u.world ≡ (ok status, u.world)))

  answered-Ends :
      (d : Json) (t : Tables) (r : Result Json) (w w' : W)
      → c.get_distribution d w ≡ (r, w')
      → Ends Any (Found d t) (
          (elim r as (λ x. Act W Bool) [
            | ok status ↦ pure true
            | err e ↦ if is_gone e then pure false else raise e
          ])
            (record { world = w'; tables = t }))
  answered-Ends d t (ok status) w w' h = pure-Ends Any (Found d t) true _ (
    refl,
    λ _. (
      status,
      subst (λ v. c.get_distribution d v ≡ (ok status, w')) (sym (law.reads d w w' (ok status) h))
          h,
    ),
  )
  answered-Ends d t (err e) w w' h =
      choice-Ends Any (Found d t) (is_gone e) (pure false) (raise e) _
        (λ _. pure-Ends Any (Found d t) false _ (refl, λ y. absurd (ground arith)))
        λ _. raise-Ends Any (Found d t) e _ tt

  exists-Ends : (d : Json) (s : Work W) → Ends Any (Found d s.tables) (exists c settings d s)
  unfolding exists
  exists-Ends d s =
      tried-Ends Any (Found d s.tables) s (c.get_distribution d)
        (λ r. elim r as (λ x. Act W Bool) [
          | ok status ↦ pure true
          | err e ↦ if is_gone e then pure false else raise e
        ])
        λ r w h. answered-Ends d s.tables r s.world w h

  create_distribution-Ends : (s : Work W) → Ends Any Created (create_distribution c settings id s)
  unfolding create_distribution
  create_distribution-Ends s = load-Ends Any Created s id _ tt λ i f.
      let d = i.cloudfront_distribution_id in
      choice-Ends Any Created (truthy d) _ _ s
        (λ named.
          bind-Ends Any (Found d s.tables) Created (exists c settings d) _ s (exists-Ends d s)
            λ there u (e, g).
              choice-Ends Any Created there _ _ u
                (λ y. pure-Ends Any Created tt u record {
                  row = i;
                  stored = subst (λ (t : Tables). find id t.instances ≡ some i) (sym e) f;
                  named = named;
                  status = (g y).0;
                  there = (g y).1;
                })
                λ _.
                  make_distribution-Ends i u
                    (subst (λ (t : Tables). find id t.instances ≡ some i) (sym e) f))
        λ _. make_distribution-Ends i s f

  -- If looking at a distribution changes nothing, and a distribution that was created is there
  -- afterwards, then after an attempt at create_distribution that returns a second one returns and
  -- changes neither the outside world nor the tables.
  pub create_distribution_idem :
      (s t : Work W)
      → create_distribution c settings id s ≡ (ok tt, t)
      → create_distribution c settings id t ≡ (ok tt, t)
  create_distribution_idem s t h =
      created_again t (subst (Ends Any Created) h (create_distribution-Ends s)).at
