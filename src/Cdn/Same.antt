-- ===== src/Cdn/Same.antt =====
-- broker/lib/cdn.py and broker/lib/alb.py, and the id, the domains and the deactivation of an
-- instance.
use external_domain_broker.Prelude.{
  Bool, true, false, ◌≡◌, refl, ◌∙◌, Result, ok, err, ◌>>=◌, if◌then◌else◌, arith, guard, not, ◌&&◌,
  bad_request, plain,
}
use external_domain_broker.Json.{
  Json, null, Params, str, bool, obj, end, get, truthy, strings, is_null,
}
use external_domain_broker.Env.{Env}
use external_domain_broker.Models.{ServiceInstance}
use external_domain_broker.Validators.{validate_hostname, validate_error_responses}
use external_domain_broker.Utils.{parse_cookie_options, parse_header_options}
use external_domain_broker.Cdn.Settings.{finish_headers, set_email, set_policies}
use external_domain_broker.Cdn.Provision.{set_cdn_params}
use external_domain_broker.Cdn.Update.{
  update_origin, update_path, update_cookies, update_headers, update_protocol,
  update_error_responses, update_cdn_instance,
}
use external_domain_broker.Cdn.Migrate.{
  update_cdn_params_for_migration, update_alb_params_for_migration,
}

-- `j` is the same instance as `i`, at the same domains.
abbrev pub Same : ServiceInstance → ServiceInstance → Type 0
Same i j = (j.id ≡ i.id) × (j.domain_names ≡ i.domain_names) × (j.deactivated_at ≡ i.deactivated_at)

-- If there is a result, it is the same instance.
pub record Gives (i : ServiceInstance) (r : Result ServiceInstance) : Type 0 where
  pub at : (j : ServiceInstance) → r ≡ ok j → Same i j

Gives-bind :
    {A : Type 0} {i : ServiceInstance} (m : Result A) (f : A → Result ServiceInstance)
    → ((a : A) → Gives i (f a))
    → Gives i (m >>= f)
Gives-bind (ok a) f h = h a
Gives-bind (err e) f h = record { at = λ j p. cc }

-- A step on an instance that is the same, and the steps after it.
Gives-then :
    {i : ServiceInstance} (m : Result ServiceInstance)
    (f : ServiceInstance → Result ServiceInstance)
    → Gives i m
    → ((j : ServiceInstance) → Gives j (f j))
    → Gives i (m >>= f)
Gives-then (ok j) f h k = record {
  at = λ l p. let g = (k j).at l p in let e = h.at j refl in (g.0 ∙ e.0, g.1 ∙ e.1, g.2 ∙ e.2);
}
Gives-then (err e) f h k = record { at = λ j p. cc }

Gives-if :
    {i : ServiceInstance} (b : Bool) (r q : Result ServiceInstance)
    → Gives i r
    → Gives i q
    → Gives i (if b then r else q)
Gives-if true r q h k = h
Gives-if false r q h k = k

Gives-ok : {i : ServiceInstance} (j : ServiceInstance) → Same i j → Gives i (ok j)
Gives-ok j h = record { at = λ l p. ground arith }

-- A step on another record of the same instance.
Gives-from : {i j : ServiceInstance} {r : Result ServiceInstance} → Same i j → Gives j r → Gives i r
Gives-from e h = record { at = λ l p. let g = h.at l p in (g.0 ∙ e.0, g.1 ∙ e.1, g.2 ∙ e.2) }

set_policies-Same :
    (env : Env) (params : Params) (i : ServiceInstance) → Gives i (set_policies env params i)
unfolding set_policies
set_policies-Same env params i = record { at = λ j p. ground arith }

set_email-Same :
    (params : Params) (kept : Json) (i : ServiceInstance) → Gives i (set_email params kept i)
unfolding set_email
set_email-Same params kept i = record { at = λ j p. ground arith }

pub set_cdn_params-Same :
    (env : Env) (params : Params) (i : ServiceInstance) → Gives i (set_cdn_params env params i)
unfolding set_cdn_params
set_cdn_params-Same env params i =
    let hostname = get "origin" (str env.default_cloudfront_origin) params in
    let responses = get "error_responses" (obj end) params in
    Gives-bind (validate_hostname hostname) _ λ _. Gives-bind (parse_cookie_options params) _ λ c.
      Gives-bind (parse_header_options params) _ λ h.
        Gives-bind (finish_headers env hostname (strings h)) _ λ k.
          Gives-bind (validate_error_responses responses) _ λ _.
            Gives-bind
              (guard
                (not (
                  truthy (get "insecure_origin" (bool false) params)
                  && is_null (get "origin" null params)))
                (bad_request
                  (plain "'insecure_origin' cannot be set when using the default origin.")))
              _
              λ _.
                Gives-then (set_email params null _) _
                  (Gives-from (refl, refl, refl) (set_email-Same params null _))
                  λ j. set_policies-Same env params j

module _ (env : Env) (params : Params) (i : ServiceInstance) where
  update_origin-Same : Gives i (update_origin env params i)
  unfolding update_origin
  update_origin-Same = record { at = λ j p. ground arith }

  update_cookies-Same : Gives i (update_cookies env params i)
  unfolding update_cookies
  update_cookies-Same = record { at = λ j p. ground arith }

  update_headers-Same : Gives i (update_headers env params i)
  unfolding update_headers
  update_headers-Same = record { at = λ j p. ground arith }

  update_protocol-Same : Gives i (update_protocol env params i)
  unfolding update_protocol
  update_protocol-Same = record { at = λ j p. ground arith }

  update_error_responses-Same : Gives i (update_error_responses env params i)
  unfolding update_error_responses
  update_error_responses-Same = record { at = λ j p. ground arith }

  update_path-Same : Same i (update_path env params i)
  unfolding update_path
  update_path-Same = ground arith

pub update_cdn_instance-Same :
    (env : Env) (params : Params) (i : ServiceInstance) → Gives i (update_cdn_instance env params i)
unfolding update_cdn_instance
update_cdn_instance-Same env params i =
    Gives-then (update_origin env params i) _ (update_origin-Same env params i) λ a.
      Gives-then (update_cookies env params (update_path env params a)) _
        (Gives-from (update_path-Same env params a) (update_cookies-Same env params _))
        λ b. Gives-then (update_headers env params b) _ (update_headers-Same env params b) λ c.
          Gives-then (update_protocol env params c) _ (update_protocol-Same env params c) λ d.
            Gives-then (update_error_responses env params d) _
              (update_error_responses-Same env params d)
              λ e.
                Gives-then (set_email params e.alarm_notification_email e) _
                  (set_email-Same params e.alarm_notification_email e)
                  λ f. set_policies-Same env params f

pub update_cdn_params_for_migration-Same :
    (env : Env) (params : Params) (i : ServiceInstance)
    → Gives i (update_cdn_params_for_migration env params i)
unfolding update_cdn_params_for_migration
update_cdn_params_for_migration-Same env params i = record { at = λ j p. ground arith }

pub update_alb_params_for_migration-Same :
    (params : Params) (i : ServiceInstance) → Gives i (update_alb_params_for_migration params i)
unfolding update_alb_params_for_migration
update_alb_params_for_migration-Same params i = record { at = λ j p. ground arith }
