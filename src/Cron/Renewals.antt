-- ===== src/Cron/Renewals.antt =====
-- `get_expiring_certs` and `scan_for_expiring_certs` of broker/tasks/cron.py
use external_domain_broker.Prelude.{
  ℕ, ◌+◌, String, nat_eq, string_eq, ◌==◌, Bool, false, ◌&&◌, Option, none, some, List, [], ◌∷◌,
  ◌++◌, map, ok, attribute_error, or_raise, if◌then◌else◌, ltb, any, filter,
}
use external_domain_broker.Pipelines.{Pipeline}
use external_domain_broker.Domains.{is_live}
use external_domain_broker.Models.{
  Db, Certificate, ServiceInstance, InstanceType, alb, dedicated_alb, Action, is_cdn_instance,
  same_type, Exec, pure, lift, ◌>>=◌, ◌>>◌, get_instance, add_operation, commit,
  has_active_operations,
}
use external_domain_broker.Api.{enqueue}

-- `datetime.timedelta(days=30)`, in seconds
abbrev pub thirty_days : ℕ
thirty_days = 2592000

abbrev holds_certificate : ℕ → ServiceInstance → Bool
holds_certificate id i =
    is_live i && (elim i.current_certificate_id [ none ↦ false | some c ↦ c == id ])

abbrev expires_soon : ℕ → Option ℕ → Bool
expires_soon now none = false
expires_soon now (some t) = ltb t (now + thirty_days)

unfoldable pub get_expiring_certs : ℕ → Db → List Certificate
unfolding filter any
get_expiring_certs now db =
    filter
      (λ (c : Certificate).
        any (holds_certificate c.id) db.instances && expires_soon now c.expires_at)
      db.certificates

-- The three lists of renewals: operation ids with the ids of their instances.
pub record Renewals : Type 0 where
  pub cdn_renewals : List (ℕ × String)
  pub alb_renewals : List (ℕ × String)
  pub dedicated_alb_renewals : List (ℕ × String)

abbrev sort_renewal : InstanceType → ℕ × String → Renewals → Renewals
sort_renewal kind renewal l =
    if is_cdn_instance kind
    then record l { cdn_renewals = l.cdn_renewals ++ renewal ∷ [] }
    else if same_type kind alb
    then record l { alb_renewals = l.alb_renewals ++ renewal ∷ [] }
    else if same_type kind dedicated_alb
    then record l { dedicated_alb_renewals = l.dedicated_alb_renewals ++ renewal ∷ [] }
    else l

unfoldable pub renew : ServiceInstance → Renewals → Exec Renewals
unfolding has_active_operations add_operation
renew i l s =
    if has_active_operations i.id s.working.operations
    then (ok l, s)
    else (do id ← add_operation i.id Action.renew; pure (sort_renewal i.instance_type (id, i.id) l))
        s

-- The loop over the instances of the certificates.
unfoldable pub renew_all : List Certificate → Renewals → Exec Renewals
unfolding renew get_instance lift pure ◌>>=◌
renew_all [] l = pure l
renew_all (c ∷ cs) l = do
  loaded ← get_instance c.service_instance_id
  i ← lift (or_raise attribute_error loaded)
  more ← renew i l
  renew_all cs more

unfoldable pub queue_renewals : Pipeline → List (ℕ × String) → Exec (Unit {0})
unfolding enqueue pure ◌>>=◌
queue_renewals pipeline [] = pure tt
queue_renewals pipeline ((id, instance_id) ∷ rest) = do
  enqueue pipeline id none
  queue_renewals pipeline rest

abbrev listed : ℕ → Exec (List Certificate)
unfolding get_expiring_certs
listed now s = (ok (get_expiring_certs now s.working), s)

unfoldable pub scan_for_expiring_certs : ℕ → Exec (List String)
unfolding get_expiring_certs renew_all queue_renewals commit pure ◌>>=◌
scan_for_expiring_certs now = do
  certificates ← listed now
  l ←
      renew_all certificates
        (record { cdn_renewals = []; alb_renewals = []; dedicated_alb_renewals = [] })
  commit
  queue_renewals Pipeline.cdn_renewal l.cdn_renewals
  queue_renewals Pipeline.alb_renewal l.alb_renewals
  queue_renewals Pipeline.dedicated_alb_renewal l.dedicated_alb_renewals
  pure (
      map (λ (x : ℕ × String). x.1)
        (l.cdn_renewals ++ (l.alb_renewals ++ l.dedicated_alb_renewals)))
