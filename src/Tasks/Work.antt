-- ===== src/Tasks/Work.antt =====
-- What a task works on: the outside world, and the committed tables. An object that a task has
-- loaded is a value; `save` is its `db.session.add` with the commit. What a task has changed and
-- not committed is lost when it raises.
use external_domain_broker.Prelude.{
  ℕ, String, Bool, true, false, Option, none, some, List, [], ◌∷◌, Result, ok, err, Error,
  attribute_error, aws_error, nat_eq, string_eq, filter, ◌==◌, if◌then◌else◌,
}
use external_domain_broker.Models.{ServiceInstance, Certificate, Tag, find, write}

-- `Challenge`
pub record Challenge : Type 0 where
  pub id : ℕ
  pub certificate_id : ℕ
  pub domain : String
  pub validation_domain : String
  pub validation_contents : String
  pub body_json : String
  pub answered : Bool

-- `ACMEUser`
pub record AcmeUser : Type 0 where
  pub id : ℕ
  pub email : String
  pub uri : String
  pub private_key_pem : String
  pub registration_json : String

-- `DedicatedALB`
pub record DedicatedAlb : Type 0 where
  pub alb_arn : String
  pub dedicated_org : String
  pub dedicated_waf_web_acl_arn : Option String
  pub dedicated_waf_web_acl_id : Option String
  pub dedicated_waf_web_acl_name : Option String
  pub dedicated_waf_associated : Bool
  pub tags : Option (List Tag)

-- `DedicatedALBListener`
pub record DedicatedAlbListener : Type 0 where
  pub listener_arn : String
  pub alb_arn : String
  pub dedicated_org : String

pub record Tables : Type 0 where
  pub instances : List ServiceInstance
  pub certificates : List Certificate
  pub challenges : List Challenge
  pub albs : List DedicatedAlb
  pub listeners : List DedicatedAlbListener
  pub next_certificate_id : ℕ
  pub users : List AcmeUser
  pub next_user_id : ℕ
  pub next_challenge_id : ℕ

pub record Work (W : Type 0) : Type 0 where
  pub world : W
  pub tables : Tables

abbrev pub Act : Type 0 → Type 0 → Type 0
Act W A = Work W → Result A × Work W

-- A call of a service.
abbrev pub Service : Type 0 → Type 0 → Type 0
Service W A = W → Result A × W

-- The code of a `ClientError` is the one given.
unfoldable pub has_code : String → Error → Bool
has_code code e = elim e [ aws_error c message ↦ c == code | _ ↦ false ]

abbrev pub accepting : (Error → Bool) → Result (Unit {0}) → Result (Unit {0})
accepting is_accepted (ok u) = ok tt
accepting is_accepted (err e) = if is_accepted e then ok tt else err e

module _ {W : Type 0} where
  abbrev pub proceed : {A B : Type 0} → Result A → (A → Act W B) → Act W B
  proceed (ok a) f s = f a s
  proceed (err e) f s = (err e, s)

  infixl 5 ◌>>=◌ ◌>>◌
  unfoldable pub ◌>>=◌ : {A B : Type 0} → Act W A → (A → Act W B) → Act W B
  ◌>>=◌ m f s = let (r, s') = m s in proceed r f s'

  abbrev pub ◌>>◌ : {B : Type 0} → Act W (Unit {0}) → Act W B → Act W B
  m >> n = m >>= λ _. n

  unfoldable pub pure : {A : Type 0} → A → Act W A
  pure a s = (ok a, s)

  unfoldable pub raise : {A : Type 0} → Error → Act W A
  raise e s = (err e, s)

  unfoldable pub lift : {A : Type 0} → Result A → Act W A
  lift r s = (r, s)

  unfoldable pub call : {A : Type 0} → Service W A → Act W A
  call m s = let (r, w) = m s.world in (r, record s { world = w })

  -- `try: …`, with what the handler gets as a value.
  unfoldable pub tried : {A : Type 0} → Act W A → Act W (Result A)
  tried m s = let (r, s') = m s in (ok r, s')

  -- `except … as e: if e.response["Error"]["Code"] …: pass else: raise e`
  unfoldable pub unless : (Error → Bool) → Service W (Unit {0}) → Act W (Unit {0})
  unless is_accepted m s =
      let (r, w) = m s.world in (accepting is_accepted r, record s { world = w })

  -- The same around several statements.
  unfoldable pub excepted : (Error → Bool) → Act W (Unit {0}) → Act W (Unit {0})
  excepted is_accepted m s = let (r, s') = m s in (accepting is_accepted r, s')

  -- `operation.service_instance`
  unfoldable pub load : String → Act W ServiceInstance
  unfolding find
  load id s = elim (find id s.tables.instances) [
    | none ↦ (err attribute_error, s)
    | some i ↦ (ok i, s)
  ]

  unfoldable pub save : ServiceInstance → Act W (Unit {0})
  unfolding write
  save i s =
      (ok tt, record s { tables = record s.tables { instances = write i s.tables.instances } })

-- `if column:` of a text column
abbrev pub is_set : Option String → Bool
is_set none = false
is_set (some s) = elim (s == "") [ true ↦ false | false ↦ true ]

unfoldable pub find_certificate : ℕ → List Certificate → Option Certificate
find_certificate id [] = none
find_certificate id (c ∷ cs) =
    let rest = find_certificate id cs in if c.id == id then some c else rest

unfoldable pub write_certificate : Certificate → List Certificate → List Certificate
write_certificate d [] = []
write_certificate d (c ∷ cs) =
    let rest = write_certificate d cs in if c.id == d.id then d ∷ cs else c ∷ rest

-- The certificate with an id that a column holds; an attribute of `None` is an error.
abbrev referred : Option ℕ → List Certificate → Result Certificate
referred none cs = err attribute_error
referred (some id) cs = elim (find_certificate id cs) [ none ↦ err attribute_error | some c ↦ ok c ]

-- `certificate.challenges`
unfoldable pub challenges_of : ℕ → List Challenge → List Challenge
unfolding filter
challenges_of id = filter λ (c : Challenge). c.certificate_id == id

-- `service_instance.certificates`
unfoldable pub certificates_of : String → List Certificate → List Certificate
unfolding filter
certificates_of id = filter λ (c : Certificate). c.service_instance_id == id

module _ {W : Type 0} where
  unfoldable pub new_certificate_of : ServiceInstance → Act W Certificate
  unfolding find_certificate
  new_certificate_of i s = (referred i.new_certificate_id s.tables.certificates, s)

  unfoldable pub current_certificate_of : ServiceInstance → Act W Certificate
  unfolding find_certificate
  current_certificate_of i s = (referred i.current_certificate_id s.tables.certificates, s)

  unfoldable pub tables_of : Act W Tables
  tables_of s = (ok s.tables, s)

  unfoldable pub save_certificate : Certificate → Act W (Unit {0})
  unfolding write_certificate
  save_certificate c s = (
    ok tt,
    record s {
      tables = record s.tables { certificates = write_certificate c s.tables.certificates };
    },
  )
