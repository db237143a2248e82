-- ===== src/Tasks/Acme/Retried.antt =====
-- The attempts at `retrieve_certificate` of broker/tasks/letsencrypt.py after a failed validation.
use external_domain_broker.Prelude.{
  ℕ, String, Bool, true, not, Option, none, some, List, [], ◌∷◌, Result, ok, err, service_error,
  cancel_execution, ◌≡◌, refl, sym, subst, ap, ◌∙◌, arith, filter, nat_eq, ◌==◌, if◌then◌else◌,
}
use external_domain_broker.Models.{ServiceInstance, Certificate, find, write}
use external_domain_broker.Domains.Holders.{find-id, find-written}
use external_domain_broker.Tasks.Work.{
  Work, Act, Challenge, AcmeUser, ◌>>=◌, proceed, pure, raise, call, save, tables_of, challenges_of,
}
use external_domain_broker.Tasks.Rules.{load_found}
use external_domain_broker.Tasks.Acme.{
  Acme, Finalizing, validation_error, is_nothing, acme_user_of, delete_certificate,
}
use external_domain_broker.Tasks.Acme.Orders.{retrieve_certificate, new_certificate_in, handled}

no_challenges :
    (id : ℕ) (cs : List Challenge)
    → challenges_of id (filter (λ (c : Challenge). not (c.certificate_id == id)) cs) ≡ []
unfolding challenges_of filter
no_challenges id [] = refl
no_challenges id (c ∷ cs) = ground (arith, no_challenges id cs)

module _ {W : Type 0} (acme : Acme W) (id : String) (i : ServiceInstance) (c : Certificate)
    (user : AcmeUser) where
  -- The instance is stored with a new certificate that has not been retrieved, and a user.
  pub record IsWaiting (s : Work W) : Type 0 where
    pub stored : find id s.tables.instances ≡ some i
    pub certificate : new_certificate_in i.new_certificate_id s.tables.certificates ≡ some c
    pub no_leaf : is_nothing c.leaf_pem ≡ true
    pub of_user : acme_user_of i s ≡ (ok user, s)

  -- What an attempt does that has failed for good: no retry gets past it, and the certificate's
  -- challenges are gone.
  pub record HasFailed (x : Result (Unit {0}) × Work W) : Type 0 where
    pub raised : x.0 ≡ err (service_error "acme.errors.ValidationError")
    pub canceled : retrieve_certificate acme id (x.1) ≡ (err cancel_execution, x.1)
    pub cleared : challenges_of c.id x.1.tables.challenges ≡ []

  -- The state after the handler of the exception.
  abbrev after : Work W → W → Work W
  unfolding write filter delete_certificate save
  after s w =
      (delete_certificate c.id
        (save (record i { new_certificate_id = none }) (record s { world = w })).1).1

  retrieve_certificate-answered :
      (s : Work W) (w : W)
      → IsWaiting s
      → acme.poll_and_finalize user c.order_json c.csr_pem s.world ≡ (ok validation_error, w)
      → retrieve_certificate acme id s
        ≡ (err (service_error "acme.errors.ValidationError"), after s w)
  unfolding retrieve_certificate tables_of handled call save delete_certificate pure raise ◌>>=◌
  retrieve_certificate-answered s w h polled =
      load_found s id i _ h.stored
      ∙ ap
          (λ (o : Option Certificate).
            (elim o as (λ x. Act W (Unit {0})) [
              | none ↦ raise cancel_execution
              | some d ↦ if not (is_nothing d.leaf_pem) then pure tt else rest d
            ])
              s)
          h.certificate
      ∙ ap (λ (b : Bool). (if not b then pure tt else rest c) s) h.no_leaf
      ∙ ap (λ (x : Result AcmeUser × Work W). proceed (x.0) (polling c) (x.1)) h.of_user
      ∙ ap
          (λ (x : Result Finalizing × W).
            proceed (x.0) (handled acme i c user) (record s { world = x.1 }))
          polled
    where
      polling : Certificate → AcmeUser → Act W (Unit {0})
      polling d u = do
        answer ← call (acme.poll_and_finalize u d.order_json d.csr_pem)
        handled acme i d u answer

      rest : Certificate → Act W (Unit {0})
      rest d = acme_user_of i >>= polling d

  retrieve_certificate-canceled :
      (s : Work W) (w : W)
      → IsWaiting s
      → retrieve_certificate acme id (after s w) ≡ (err cancel_execution, after s w)
  unfolding retrieve_certificate after save delete_certificate tables_of new_certificate_in raise
      ◌>>=◌
  retrieve_certificate-canceled s w h =
      load_found (after s w) id (record i { new_certificate_id = none }) _
        (find-written id (record i { new_certificate_id = none }) s.tables.instances i
          (find-id id s.tables.instances i h.stored) h.stored)

  -- If the instance waits for its certificate and the authority answers that a validation has
  -- failed, retrieve_certificate raises that error, the certificate's challenges are deleted, and the
  -- next attempt changes nothing and cancels the task.
  pub retrieve_certificate-HasFailed :
      (s : Work W) (w : W)
      → IsWaiting s
      → acme.poll_and_finalize user c.order_json c.csr_pem s.world ≡ (ok validation_error, w)
      → HasFailed (retrieve_certificate acme id s)
  unfolding after filter
  retrieve_certificate-HasFailed s w h polled =
      subst HasFailed (sym (retrieve_certificate-answered s w h polled)) record {
        raised = refl;
        canceled = retrieve_certificate-canceled s w h;
        cleared = no_challenges c.id s.tables.challenges;
      }
