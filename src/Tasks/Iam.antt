-- ===== src/Tasks/Iam.antt =====
-- broker/tasks/iam.py
pub mod Kept
pub mod Previous
pub mod Deletes
use Prim.Native.String
use external_domain_broker.Prelude.{
  ℕ, String, string_eq, nat_eq, ◌==◌, Bool, true, false, not, ◌||◌, ◌&&◌, Option, none, some, List,
  [], ◌∷◌, Result, ok, err, Error, aws_error, attribute_error, integrity_error, any, filter,
  is_empty, if◌then◌else◌,
}
use external_domain_broker.Json.{Json, null, str, is_null}
use external_domain_broker.Text.{contains, decimal}
use external_domain_broker.Models.{ServiceInstance, Certificate, Tag, is_cdn_instance}
use external_domain_broker.Tasks.Work.{
  Work, Act, Service, Tables, Challenge, ◌>>=◌, ◌>>◌, pure, raise, call, lift, tried, load, save,
  new_certificate_of, save_certificate, tables_of, find_certificate,
}
use external_domain_broker.Tasks.HealthChecks.{listed}
use external_domain_broker.Tasks.Settings.{Settings}
use external_domain_broker.Tasks.Alb.{previous_certificates}

-- The calls of an IAM client. A server certificate is named by what a column holds.
pub record Iam (W : Type 0) : Type 0 where
  -- with the path, the name and the certificate's row; the id and the ARN
  pub upload_server_certificate : String → Json → Certificate → Service W (Json × Json)
  pub get_server_certificate : Json → Service W (Json × Json)
  pub tag_server_certificate : Json → List Tag → Service W (Unit {0})
  pub delete_server_certificate : Json → Service W (Unit {0})

-- `text in e.response["Error"]["Code"]` of a `ClientError`
unfoldable pub code_has : String → Error → Bool
code_has text e = elim e [ aws_error code message ↦ contains text code | _ ↦ false ]

abbrev pub is_client_error : Error → Bool
is_client_error e = elim e [ aws_error code message ↦ true | _ ↦ false ]

-- A certificate of `ids` is referred to by a row.
unfoldable pub refers : ℕ → ServiceInstance → Bool
refers id i =
    is_id i.current_certificate_id || is_id i.new_certificate_id || is_id i.alb_certificate_id
  where
    is_id : Option ℕ → Bool
    is_id none = false
    is_id (some other) = other == id

abbrev pub is_kept : ServiceInstance → Certificate → Bool
is_kept i c = not (
    c.service_instance_id == i.id
    && elim i.current_certificate_id [ none ↦ true | some id ↦ not (c.id == id) ])

module _ {W : Type 0} (iam : Iam W) where
  -- The name of a certificate; `today` is the date.
  abbrev pub certificate_name : String → ServiceInstance → Certificate → Json
  unfolding decimal
  certificate_name today i c =
      str (String.◌++◌ i.id (String.◌++◌ "-" (String.◌++◌ today (String.◌++◌ "-" (decimal c.id)))))

  -- A certificate that is there already is looked up.
  unfoldable pub uploaded : String → Json → Certificate → Act W (Json × Json)
  unfolding tried call pure raise code_has ◌>>=◌
  uploaded path name c = do
    answer ← tried (call (iam.upload_server_certificate path name c))
    elim answer [
      | ok made ↦ pure made
      | err e ↦
          if code_has "EntityAlreadyExists" e
          then call (iam.get_server_certificate name)
          else raise e
    ]

  unfoldable pub tag_if : Json → List Tag → Act W (Unit {0})
  unfolding call pure
  tag_if name tags = if is_empty tags then pure tt else call (iam.tag_server_certificate name tags)

  -- `_upload_server_certificate`
  unfoldable pub upload : String → String → ServiceInstance → Act W (Unit {0})
  unfolding new_certificate_of uploaded tag_if save save_certificate pure ◌>>=◌
  upload path today i = do
    certificate ← new_certificate_of i
    if not (is_null certificate.iam_server_certificate_arn) then pure tt else (do
      let name = certificate_name today i certificate
      (id, arn) ← uploaded path name certificate
      tag_if name (listed i.tags)
      save i
      save_certificate (record certificate {
        iam_server_certificate_name = name;
        iam_server_certificate_id = id;
        iam_server_certificate_arn = arn;
      }))

  -- `_delete_server_certificate`
  unfoldable pub delete_one : Certificate → Act W (Unit {0})
  unfolding tried call pure raise code_has ◌>>=◌
  delete_one c = do
    answer ← tried (call (iam.get_server_certificate c.iam_server_certificate_name))
    elim answer [
      | ok found ↦ call (iam.delete_server_certificate c.iam_server_certificate_name)
      | err e ↦
          if code_has "NoSuchEntity" e
          then pure tt
          else if is_client_error e
          then call (iam.delete_server_certificate c.iam_server_certificate_name)
          else raise e
    ]

  unfoldable pub delete_certificates : List Certificate → Act W (Unit {0})
  unfolding delete_one pure ◌>>=◌
  delete_certificates [] = pure tt
  delete_certificates (c ∷ cs) = do delete_one c; delete_certificates cs

  -- The rows of the previous certificates and their challenges are deleted.
  unfoldable pub without_previous : ServiceInstance → Tables → Tables
  unfolding previous_certificates filter any
  without_previous i t =
      let gone = previous_certificates i t.certificates in
      record t {
        certificates = filter (is_kept i) t.certificates;
        challenges =
            filter
              (λ (x : Challenge). not (any (λ (c : Certificate). c.id == x.certificate_id) gone))
              t.challenges;
      }

  -- The commit of `_delete_previous_server_ceritficate`: a foreign key may refer to a row.
  unfoldable pub remove_certificates : ServiceInstance → Act W (Unit {0})
  unfolding previous_certificates refers any without_previous raise
  remove_certificates i s =
      let gone = previous_certificates i s.tables.certificates in
      (if any (λ (c : Certificate). any (refers c.id) s.tables.instances) gone
          then raise integrity_error
          else λ u. (ok tt, record u { tables = without_previous i u.tables }))
        s

  -- `_delete_previous_server_ceritficate`
  unfoldable pub delete_previous : ServiceInstance → Act W (Unit {0})
  unfolding tables_of delete_certificates remove_certificates previous_certificates ◌>>=◌
  delete_previous i = do
    t ← tables_of
    delete_certificates (previous_certificates i t.certificates)
    remove_certificates i

-- `_get_iam_client` chooses one of two clients.
module _ {W : Type 0} (commercial govcloud : Iam W) (settings : Settings) (today : String) where
  abbrev pub iam_client : ServiceInstance → Iam W
  iam_client i = if is_cdn_instance i.instance_type then commercial else govcloud

  abbrev path_of : ServiceInstance → String
  path_of i =
      if is_cdn_instance i.instance_type
      then settings.cloudfront_iam_server_certificate_prefix
      else settings.alb_iam_server_certificate_prefix

  unfoldable pub upload_server_certificate : String → Act W (Unit {0})
  unfolding load upload ◌>>=◌
  upload_server_certificate id = do i ← load id; upload (iam_client i) (path_of i) today i

  unfoldable pub upload_cloudfront_server_certificate : String → Act W (Unit {0})
  unfolding load upload ◌>>=◌
  upload_cloudfront_server_certificate id = do
    i ← load id
    upload commercial settings.cloudfront_iam_server_certificate_prefix today i

  -- A certificate that has a name is deleted.
  abbrev delete_named : ServiceInstance → Option ℕ → Tables → Act W (Unit {0})
  unfolding delete_one pure find_certificate
  delete_named i none t = pure tt
  delete_named i (some id) t = elim (find_certificate id t.certificates) [
    | none ↦ pure tt
    | some c ↦
        if is_null c.iam_server_certificate_name then pure tt else delete_one (iam_client i) c
  ]

  unfoldable pub delete_server_certificate : String → Act W (Unit {0})
  unfolding load tables_of delete_one pure find_certificate ◌>>=◌
  delete_server_certificate id = do
    i ← load id
    t ← tables_of
    delete_named i i.new_certificate_id t
    delete_named i i.current_certificate_id t

  unfoldable pub delete_previous_server_certificate : String → Act W (Unit {0})
  unfolding load delete_previous ◌>>=◌
  delete_previous_server_certificate id = do i ← load id; delete_previous (iam_client i) i

  unfoldable pub delete_previous_alb_server_certificate : String → Act W (Unit {0})
  unfolding load delete_previous ◌>>=◌
  delete_previous_alb_server_certificate id = do i ← load id; delete_previous govcloud i
