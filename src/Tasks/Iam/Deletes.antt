-- ===== src/Tasks/Iam/Deletes.antt =====
-- What `_delete_server_certificate` of broker/tasks/iam.py does in IAM.
use external_domain_broker.Prelude.{
  string_eq, nat_eq, true, List, [], ◌∷◌, Result, ok, err, ◌≡◌, subst, All, ap, Error,
  if◌then◌else◌,
}
use external_domain_broker.Json.{Json}
use external_domain_broker.Models.{Certificate}
use external_domain_broker.Tasks.Work.{Work, Act, Tables, pure, raise, call}
use external_domain_broker.Tasks.Rules.{
  Ends, pure-Ends, raise-Ends, choice-Ends, bind-Ends, request-Ends, tried-Ends, weaken-Ends,
}
use external_domain_broker.Tasks.Iam.{
  Iam, code_has, is_client_error, delete_one, delete_certificates,
}

-- What IAM does, as far as it matters: `P` is kept by a look at a certificate and by the deletion of
-- one for which `A` holds; a certificate is gone, `G`, once its deletion returned or a look at it did
-- not find it, and stays so.
pub record Deletes {W : Type 0} (iam : Iam W) (P : W → Type 0) (A : Certificate → Type 0)
    (G : Json → W → Type 0) : Type 0 where
  pub looks : (name : Json) (w : W) → P w → P ((iam.get_server_certificate name w).1)
  pub deletes :
      (c : Certificate) (w : W)
      → A c
      → P w
      → P ((iam.delete_server_certificate c.iam_server_certificate_name w).1)
  pub is_deleted :
      (name : Json) (w w' : W) → iam.delete_server_certificate name w ≡ (ok tt, w') → G name w'
  pub is_missing :
      (name : Json) (w w' : W) (e : Error)
      → iam.get_server_certificate name w ≡ (err e, w')
      → code_has "NoSuchEntity" e ≡ true
      → G name w'
  pub stays_at_look : (n m : Json) (w : W) → G n w → G n ((iam.get_server_certificate m w).1)
  pub stays_at_deletion : (n m : Json) (w : W) → G n w → G n ((iam.delete_server_certificate m w).1)

module _ {W : Type 0} (iam : Iam W) (P : W → Type 0) (A : Certificate → Type 0)
    (G : Json → W → Type 0) (law : Deletes iam P A G) (t : Tables) where
  abbrev pub AllGone : List Certificate → W → Type 0
  AllGone cs w = All (λ (c : Certificate). G c.iam_server_certificate_name w) cs

  abbrev pub Untouched : Work W → Type 0
  Untouched s = (s.tables ≡ t) × P s.world

  abbrev pub Gone : List Certificate → Unit {0} → Work W → Type 0
  Gone cs a s = Untouched s × AllGone cs s.world

  gone_still :
      (f : W → W) (w : W) (cs : List Certificate)
      → ((n : Json) → G n w → G n (f w))
      → AllGone cs w
      → AllGone cs (f w)
  gone_still f w [] k h = tt
  gone_still f w (c ∷ cs) k (x, h) = (k c.iam_server_certificate_name x, gone_still f w cs k h)

  delete-Ends :
      (c : Certificate) (gone : List Certificate) (u : Work W)
      → A c
      → Gone gone tt u
      → Ends Untouched
          (Gone (c ∷ gone))
          (call (iam.delete_server_certificate c.iam_server_certificate_name) u)
  delete-Ends c gone u a ((e, p), g) =
      let name = c.iam_server_certificate_name in
      request-Ends Untouched (Gone (c ∷ gone)) (iam.delete_server_certificate name) u
        (λ x w h.
          (e, subst P (ap (λ (y : Result (Unit {0}) × W). y.1) h) (law.deletes c u.world a p)))
        λ x w h.
          let to = ap (λ (y : Result (Unit {0}) × W). y.1) h in
          (
            (e, subst P to (law.deletes c u.world a p)),
            (
              law.is_deleted name u.world w h,
              subst (AllGone gone) to (
                  gone_still (λ w. (iam.delete_server_certificate name w).1) u.world gone
                    (λ n. law.stays_at_deletion n name u.world) g),
            ),
          )

  pub delete_one-Ends :
      (c : Certificate) (gone : List Certificate) (s : Work W)
      → A c
      → Gone gone tt s
      → Ends Untouched (Gone (c ∷ gone)) (delete_one iam c s)
  unfolding delete_one
  delete_one-Ends c gone s a ((q, p), g) =
      tried-Ends Untouched (Gone (c ∷ gone)) s (iam.get_server_certificate name) deciding λ r w h.
        let to = ap (λ (y : Result (Json × Json) × W). y.1) h in
        answered r w h (q, subst P to (law.looks name s.world p))
          (subst (AllGone gone) to (
            gone_still (λ w. (iam.get_server_certificate name w).1) s.world gone
              (λ n. law.stays_at_look n name s.world) g))
    where
      name : Json
      name = c.iam_server_certificate_name

      deciding : Result (Json × Json) → Act W (Unit {0})
      deciding answer = elim answer as (λ x. Act W (Unit {0})) [
        | ok found ↦ call (iam.delete_server_certificate c.iam_server_certificate_name)
        | err e ↦
            if code_has "NoSuchEntity" e
            then pure tt
            else if is_client_error e
            then call (iam.delete_server_certificate c.iam_server_certificate_name)
            else raise e
      ]

      answered :
          (r : Result (Json × Json)) (w : W)
          → iam.get_server_certificate name s.world ≡ (r, w)
          → Untouched (record s { world = w })
          → AllGone gone w
          → Ends Untouched (Gone (c ∷ gone)) (deciding r (record s { world = w }))
      answered (ok found) w h k l = delete-Ends c gone (record s { world = w }) a (k, l)
      answered (err e) w h k l =
          let u = record s { world = w } in
          choice-Ends Untouched (Gone (c ∷ gone)) (code_has "NoSuchEntity" e) _ _ u
            (λ y.
              pure-Ends Untouched (Gone (c ∷ gone)) tt u
                (k, (law.is_missing name s.world w e h y, l)))
            λ _.
              choice-Ends Untouched (Gone (c ∷ gone)) (is_client_error e) _ _ u
                (λ _. delete-Ends c gone u a (k, l))
                λ _. raise-Ends Untouched (Gone (c ∷ gone)) e u k

  pub delete_certificates-Ends :
      (cs gone : List Certificate) (s : Work W)
      → All A cs
      → Gone gone tt s
      → Ends Untouched (λ a u. Gone gone a u × AllGone cs u.world) (delete_certificates iam cs s)
  unfolding delete_certificates
  delete_certificates-Ends [] gone s all h =
      pure-Ends Untouched (λ a u. Gone gone a u × AllGone [] u.world) tt s (h, tt)
  delete_certificates-Ends (c ∷ cs) gone s (a, all) h =
      let Out = λ (x : Unit {0}) (u : Work W). Gone gone x u × AllGone (c ∷ cs) u.world in
      bind-Ends Untouched (Gone (c ∷ gone)) Out (delete_one iam c) (λ _. delete_certificates iam cs)
        s (delete_one-Ends c gone s a h)
        λ b u q.
          weaken-Ends Untouched (λ x u. Gone (c ∷ gone) x u × AllGone cs u.world) Out
            (delete_certificates iam cs u) (delete_certificates-Ends cs (c ∷ gone) u all q)
            λ x v (((e, p), (g, l)), m). (((e, p), l), (g, m))
