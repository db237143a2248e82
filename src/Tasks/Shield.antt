-- ===== src/Tasks/Shield.antt =====
-- broker/tasks/shield.py and broker/lib/shield_protections.py
pub mod Associated
use Prim.Native.String
use external_domain_broker.Prelude.{
  ℕ, String, string_eq, ◌==◌, Bool, true, false, not, Option, none, some, List, [], ◌∷◌, ◌++◌,
  Result, ok, err, Error, type_error, service_error, elem, filter, lookup, map, if◌then◌else◌,
  or_raise,
}
use external_domain_broker.Json.{Json, str}
use external_domain_broker.Models.{ServiceInstance, HealthCheck, AssociatedCheck}
use external_domain_broker.Tasks.Work.{
  Work, Act, Service, ◌>>=◌, ◌>>◌, pure, raise, call, lift, unless, has_code, load, save,
}
use external_domain_broker.Tasks.HealthChecks.{listed}

-- A protection of an answer, with the two keys that may be missing.
pub record Protection : Type 0 where
  pub resource_arn : Option String
  pub protection_id : Option String

-- The calls of the Shield client.
pub record Shield (W : Type 0) : Type 0 where
  -- the pages of the paginator `list_protections`, for the distributions
  pub list_protections : Service W (List (List Protection))
  -- with the id of a protection and the ARN of a health check
  pub associate_health_check : String → String → Service W (Unit {0})
  pub disassociate_health_check : String → String → Service W (Unit {0})

-- `d[k] = v` of a dictionary of texts
unfoldable pub put_id : String → String → List (String × String) → List (String × String)
put_id k v [] = (k, v) ∷ []
put_id k v ((j, u) ∷ d) = let rest = put_id k v d in if j == k then (k, v) ∷ d else (j, u) ∷ rest

abbrev with_protection : Protection → List (String × String) → List (String × String)
unfolding put_id
with_protection p d = elim p.resource_arn [
  | none ↦ d
  | some arn ↦ elim p.protection_id [ none ↦ d | some id ↦ put_id arn id d ]
]

with_page : List Protection → List (String × String) → List (String × String)
unfolding with_protection
with_page [] d = d
with_page (p ∷ ps) d = with_page ps (with_protection p d)

-- The loops of `_list_cloudfront_protections`.
unfoldable pub with_pages : List (List Protection) → List (String × String) → List (String × String)
unfolding with_page
with_pages [] d = d
with_pages (page ∷ pages) d = with_pages pages (with_page page d)

-- `d.get(k)` for the key that a column holds
unfoldable pub id_for : Json → List (String × String) → Option String
unfolding lookup
id_for (str arn) d = lookup arn d
id_for _ d = none

abbrev pub get_health_check_arn : String → String
get_health_check_arn id = String.◌++◌ "arn:aws:route53:::healthcheck/" id

abbrev pub associated : HealthCheck → String → AssociatedCheck
associated c protection_id = record {
  domain_name = c.domain_name;
  health_check_id = c.health_check_id;
  protection_id = protection_id;
}

abbrev pub first_check : List HealthCheck → Option HealthCheck
first_check [] = none
first_check (c ∷ cs) = some c

-- The dictionary `protected_cloudfront_ids` of the process is `known`; it is refreshed, never
-- emptied.
module _ {W : Type 0} (shield : Shield W) (known : List (String × String)) where
  unfoldable pub protection_id_of : ServiceInstance → Act W String
  unfolding call with_pages id_for pure raise ◌>>=◌
  protection_id_of i = do
    pages ← call shield.list_protections
    let found = id_for i.cloudfront_distribution_arn (with_pages pages known)
    elim found [
      | none ↦ raise (service_error "Could not find Shield protection")
      | some id ↦
          if id == "" then raise (service_error "Could not find Shield protection") else pure id
    ]

  -- `_associate_health_check`
  unfoldable pub associate : HealthCheck → String → Act W AssociatedCheck
  unfolding call pure ◌>>=◌
  associate c protection_id = do
    call (shield.associate_health_check protection_id (get_health_check_arn c.health_check_id))
    pure (associated c protection_id)

  -- `_disassociate_health_check`
  unfoldable pub disassociate : AssociatedCheck → Act W (Unit {0})
  unfolding unless has_code
  disassociate c =
      unless (has_code "ResourceNotFoundException")
        (shield.disassociate_health_check c.protection_id (get_health_check_arn c.health_check_id))

  unfoldable pub associate_health_check : String → Act W (Unit {0})
  unfolding load protection_id_of lift associate save pure ◌>>=◌
  associate_health_check id = do
    i ← load id
    protection_id ← protection_id_of i
    checks ← lift (or_raise type_error i.route53_health_checks)
    elim (first_check checks) [
      | none ↦ pure tt
      | some c ↦ do
        made ← associate c protection_id
        save (record i { shield_associated_health_check = some made })
    ]

  -- The first half of `update_associated_health_check`: an association with a domain that is gone
  -- is removed.
  unfoldable pub drop_association : ServiceInstance → Act W ServiceInstance
  unfolding disassociate pure elem ◌>>=◌
  drop_association i = elim i.shield_associated_health_check [
    | none ↦ pure i
    | some c ↦
        if elem c.domain_name i.domain_names
        then pure i
        else (do disassociate c; pure (record i { shield_associated_health_check = none }))
  ]

  -- The second half: an association with the first check of a domain, if there is none.
  unfoldable pub add_association : ServiceInstance → Act W ServiceInstance
  unfolding lift protection_id_of associate pure filter elem ◌>>=◌
  add_association i = elim i.shield_associated_health_check [
    | some c ↦ pure i
    | none ↦ do
      checks ← lift (or_raise type_error i.route53_health_checks)
      elim (first_check (filter (λ (c : HealthCheck). elem c.domain_name i.domain_names) checks)) [
        | none ↦ pure i
        | some c ↦ do
          protection_id ← protection_id_of i
          made ← associate c protection_id
          pure (record i { shield_associated_health_check = some made })
      ]
  ]

  unfoldable pub update_associated_health_check : String → Act W (Unit {0})
  unfolding load drop_association add_association save ◌>>=◌
  update_associated_health_check id = do
    i ← load id
    dropped ← drop_association i
    updated ← add_association dropped
    save updated

  unfoldable pub disassociate_health_check : String → Act W (Unit {0})
  unfolding load disassociate save pure ◌>>=◌
  disassociate_health_check id = do
    i ← load id
    elim i.shield_associated_health_check [
      | none ↦ pure tt
      | some c ↦ do disassociate c; save (record i { shield_associated_health_check = none })
    ]
