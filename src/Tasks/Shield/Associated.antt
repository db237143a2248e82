-- ===== src/Tasks/Shield/Associated.antt =====
-- The health check that Shield is given, in broker/tasks/shield.py.
use external_domain_broker.Prelude.{
  String, string_eq, ◌==◌, Bool, true, false, Option, none, some, List, [], ◌∷◌, ok, err, Error,
  ◌⊎◌, inl, inr, service_error, type_error, ◌≡◌, refl, sym, subst, ap, ◌∙◌, arith, elem, filter,
  filter-tested, All, any, if◌then◌else◌, or_raise,
}
use external_domain_broker.Models.{ServiceInstance, HealthCheck, AssociatedCheck, find}
use external_domain_broker.Domains.Holders.{find-id, find-written}
use external_domain_broker.Tasks.Work.{
  Work, Act, Tables, ◌>>=◌, ◌>>◌, pure, raise, lift, save, has_code,
}
use external_domain_broker.Tasks.Rules.{
  Ends, ok-Ends, pure-Ends, raise-Ends, choice-Ends, bind-Ends, call-Ends, lift-Ends, load_found,
  unless_asked-Ends,
}
use external_domain_broker.Tasks.HealthChecks.{listed}
use external_domain_broker.Tasks.Shield.{
  Shield, with_pages, id_for, associated, get_health_check_arn, first_check, protection_id_of,
  associate, disassociate, drop_association, add_association, update_associated_health_check,
}

-- A health check is that of one of the domains.
unfoldable pub has_check : List String → List HealthCheck → Bool
unfolding any elem
has_check domains = any λ (c : HealthCheck). elem c.domain_name domains

-- The association is with a check of one of the domains; there is none only if no check is one of a
-- domain.
pub record IsAssociated (i : ServiceInstance) : Type 0 where
  pub of_domain :
      (c : AssociatedCheck)
      → i.shield_associated_health_check ≡ some c
      → elem c.domain_name i.domain_names ≡ true
  pub if_none :
      i.shield_associated_health_check ≡ none
      → has_check i.domain_names (listed i.route53_health_checks) ≡ false

some_same {ℓ} : {A : Type ℓ} {x y : A} → some x ≡ some y → x ≡ y
some_same {x = x} h = ap (λ o. elim o [ none ↦ x | some v ↦ v ]) h

first_check-All :
    (P : HealthCheck → Type 0) (checks : List HealthCheck) (c : HealthCheck)
    → All P checks
    → first_check checks ≡ some c
    → P c
first_check-All P [] c h e = absurd (ground arith)
first_check-All P (d ∷ checks) c (p, _) e = subst P (some_same e) p

first_of_domain :
    (domains : List String) (checks : List HealthCheck) (c : HealthCheck)
    → first_check (filter (λ (d : HealthCheck). elem d.domain_name domains) checks) ≡ some c
    → elem c.domain_name domains ≡ true
first_of_domain domains checks c h =
    first_check-All (λ d. elem d.domain_name domains ≡ true) _ c
      (filter-tested (λ (d : HealthCheck). elem d.domain_name domains ≡ true) _ checks λ d e. e) h

none_of_domain :
    (domains : List String) (checks : List HealthCheck)
    → first_check (filter (λ (d : HealthCheck). elem d.domain_name domains) checks) ≡ none
    → has_check domains checks ≡ false
unfolding filter has_check any
none_of_domain domains [] h = refl
none_of_domain domains (d ∷ checks) h = ground (arith, none_of_domain domains checks)

-- What Shield has been told: `G` holds of a protection and the ARN of a health check once an
-- association returned; `X` once a disassociation returned or found none, and stays so.
pub record Associates {W : Type 0} (shield : Shield W) (G X : String → String → W → Type 0)
    : Type 0 where
  pub is_associated :
      (protection arn : String) (w w' : W)
      → shield.associate_health_check protection arn w ≡ (ok tt, w')
      → G protection arn w'
  pub is_removed :
      (protection arn : String) (w w' : W)
      → shield.disassociate_health_check protection arn w ≡ (ok tt, w')
      → X protection arn w'
  pub is_missing :
      (protection arn : String) (w w' : W) (e : Error)
      → shield.disassociate_health_check protection arn w ≡ (err e, w')
      → has_code "ResourceNotFoundException" e ≡ true
      → X protection arn w'
  pub stays_at_list : (p a : String) (w : W) → X p a w → X p a ((shield.list_protections w).1)
  pub stays_at_association :
      (p a q b : String) (w : W) → X p a w → X p a ((shield.associate_health_check q b w).1)

abbrev pub Among : HealthCheck → List HealthCheck → Type 0
Among c [] = ⊥
Among c (d ∷ checks) = (c ≡ d) ⊎ Among c checks

first_of_filter :
    (test : HealthCheck → Bool) (checks : List HealthCheck) (c : HealthCheck)
    → first_check (filter test checks) ≡ some c
    → Among c checks
unfolding filter
first_of_filter test [] c h = absurd (ground arith)
first_of_filter test (d ∷ checks) c h = split (test d) h (first_of_filter test checks c)
  where
    split :
        (b : Bool)
        → first_check (if b then d ∷ filter test checks else filter test checks) ≡ some c
        → (first_check (filter test checks) ≡ some c → Among c checks)
        → Among c (d ∷ checks)
    split true h k = inl (sym (some_same h))
    split false h k = inr (k h)

module _ {W : Type 0} (shield : Shield W) (known : List (String × String))
    (G X : String → String → W → Type 0) (law : Associates shield G X) (t : Tables)
    (i : ServiceInstance) where
  abbrev Any : Work W → Type 0
  Any s = Unit

  -- An association of the row with a domain that is not the instance's any more is removed in Shield.
  abbrev pub Removed : W → Type 0
  Removed w =
      (c : AssociatedCheck)
      → i.shield_associated_health_check ≡ some c
      → elem c.domain_name i.domain_names ≡ false
      → X c.protection_id (get_health_check_arn c.health_check_id) w

  -- Shield was given the check of the association, which is one of the instance's.
  abbrev pub IsGiven : AssociatedCheck → W → Type 0
  IsGiven c w =
      ((d : HealthCheck) × Among d (listed i.route53_health_checks)
        × (c.domain_name ≡ d.domain_name)
        × (c.health_check_id ≡ d.health_check_id))
      × G c.protection_id (get_health_check_arn c.health_check_id) w

  -- The same row but for the association.
  record IsSame (j : ServiceInstance) : Type 0 where
    id : j.id ≡ i.id
    domains : j.domain_names ≡ i.domain_names
    checks : j.route53_health_checks ≡ i.route53_health_checks
    arn : j.cloudfront_distribution_arn ≡ i.cloudfront_distribution_arn

  itself : IsSame i
  itself = record { id = refl; domains = refl; checks = refl; arn = refl }

  abbrev Quiet : {A : Type 0} → A → Work W → Type 0
  Quiet a u = (u.tables ≡ t) × Removed u.world

  record IsDropped (j : ServiceInstance) : Type 0 where
    same : IsSame j
    of_domain :
        (c : AssociatedCheck)
        → j.shield_associated_health_check ≡ some c
        → (i.shield_associated_health_check ≡ some c) × (elem c.domain_name i.domain_names ≡ true)

  abbrev Dropped : ServiceInstance → Work W → Type 0
  Dropped j u = Quiet j u × IsDropped j

  record IsAdded (k : ServiceInstance) (w : W) : Type 0 where
    same : IsSame k
    associated : IsAssociated k
    given :
        (c : AssociatedCheck)
        → k.shield_associated_health_check ≡ some c
        → (i.shield_associated_health_check ≡ some c) ⊎ IsGiven c w

  abbrev Added : ServiceInstance → Work W → Type 0
  Added k u = Quiet k u × IsAdded k u.world

  -- `drop_association`, with the association that the row has.
  abbrev drop_task : Option AssociatedCheck → Act W ServiceInstance
  unfolding elem pure ◌>>=◌
  drop_task o = elim o [
    | none ↦ pure i
    | some c ↦ if elem c.domain_name i.domain_names then pure i else (do
      disassociate shield known c
      pure (record i { shield_associated_health_check = none }))
  ]

  drop_task-Ends :
      (s : Work W) (o : Option AssociatedCheck)
      → s.tables ≡ t
      → i.shield_associated_health_check ≡ o
      → Ends Any Dropped (drop_task o s)
  unfolding drop_task disassociate
  drop_task-Ends s none h e = pure-Ends Any Dropped i s (
    (h, λ c f. absurd (ground arith)),
    record { same = itself; of_domain = λ c f. absurd (ground arith) },
  )
  drop_task-Ends s (some c) h e =
      choice-Ends Any Dropped (elem c.domain_name i.domain_names) (pure i) _ s
        (λ y. pure-Ends Any Dropped i s (
          (h, λ d f n. absurd (other d f n y)),
          record {
            same = itself;
            of_domain = λ d f. (
              f,
              subst (λ (x : AssociatedCheck). elem x.domain_name i.domain_names ≡ true)
                  (some_same (sym e ∙ f)) y,
            );
          },
        ))
        λ _.
          bind-Ends Any Quiet Dropped (disassociate shield known c) _ s
            (unless_asked-Ends Any Quiet (has_code "ResourceNotFoundException")
              (shield.disassociate_health_check c.protection_id arn) s (λ x w k. tt)
              (λ w k. (h, gone w (law.is_removed c.protection_id arn s.world w k)))
              λ x w k l. (h, gone w (law.is_missing c.protection_id arn s.world w x k l)))
            λ a u q.
              pure-Ends Any Dropped (record i { shield_associated_health_check = none }) u
                (
                  q,
                  record {
                    same = record { id = refl; domains = refl; checks = refl; arn = refl };
                    of_domain = λ d f. absurd (ground arith);
                  },
                )
    where
      arn : String
      arn = get_health_check_arn c.health_check_id

      other :
          (d : AssociatedCheck)
          → i.shield_associated_health_check ≡ some d
          → elem d.domain_name i.domain_names ≡ false
          → elem c.domain_name i.domain_names ≡ true
          → ⊥
      other d f n y =
          both
            (subst (λ (x : AssociatedCheck). elem x.domain_name i.domain_names ≡ true)
              (some_same (sym e ∙ f)) y)
            n
        where
          both : {b : Bool} → b ≡ true → b ≡ false → ⊥
          both y n = ground arith

      gone : (w : W) → X c.protection_id arn w → Removed w
      gone w x d f n =
          subst
            (λ (y : AssociatedCheck). X y.protection_id (get_health_check_arn y.health_check_id) w)
            (some_same (sym e ∙ f)) x

  drop_association-Ends :
      (s : Work W) → s.tables ≡ t → Ends Any Dropped (drop_association shield known i s)
  unfolding drop_association drop_task
  drop_association-Ends s h = drop_task-Ends s i.shield_associated_health_check h refl

  still_removed :
      (f : W → W) (w w' : W)
      → ((p a : String) → X p a w → X p a (f w))
      → f w ≡ w'
      → Removed w
      → Removed w'
  still_removed f w w' k e r c h n =
      subst (X c.protection_id (get_health_check_arn c.health_check_id)) e
        (k c.protection_id (get_health_check_arn c.health_check_id) (r c h n))

  protection_id_of-Ends :
      (j : ServiceInstance) (s : Work W)
      → Quiet tt s
      → Ends Any (Quiet {A = String}) (protection_id_of shield known j s)
  unfolding protection_id_of
  protection_id_of-Ends j s (h, r) =
      call-Ends Any (Quiet {A = String}) _ s shield.list_protections (λ w. tt)
        λ pages w e.
          found-Ends (id_for j.cloudfront_distribution_arn (with_pages pages known))
            (record s { world = w })
            (
              h,
              still_removed (λ w. (shield.list_protections w).1) s.world w
                  (λ p a. law.stays_at_list p a s.world) (ap (λ x. x.1) e) r,
            )
    where
      found-Ends :
          (o : Option String) (u : Work W)
          → Quiet tt u
          → Ends Any (Quiet {A = String}) (
              (elim o as (λ x. Act W String) [
                | none ↦ raise (service_error "Could not find Shield protection")
                | some id ↦
                    if id == ""
                    then raise (service_error "Could not find Shield protection")
                    else pure id
              ])
                u)
      found-Ends none u q = raise-Ends Any (Quiet {A = String}) _ u tt
      found-Ends (some id) u q =
          choice-Ends Any (Quiet {A = String}) (id == "") _ _ u
            (λ _. raise-Ends Any (Quiet {A = String}) _ u tt)
            λ _. pure-Ends Any (Quiet {A = String}) id u q

  abbrev For : HealthCheck → AssociatedCheck → Work W → Type 0
  For c made u =
      Quiet made u
      × (made.domain_name ≡ c.domain_name)
      × (made.health_check_id ≡ c.health_check_id)
      × G made.protection_id (get_health_check_arn made.health_check_id) u.world

  associate-Ends :
      (c : HealthCheck) (id : String) (s : Work W)
      → Quiet tt s
      → Ends Any (For c) (associate shield known c id s)
  unfolding associate
  associate-Ends c id s (h, r) =
      let arn = get_health_check_arn c.health_check_id in
      call-Ends Any (For c) (λ a. pure (associated c id)) s (shield.associate_health_check id arn)
        (λ w. tt)
        λ a w e.
          pure-Ends Any (For c) (associated c id) (record s { world = w })
            (
              (
                h,
                still_removed (λ w. (shield.associate_health_check id arn w).1) s.world w
                    (λ p b. law.stays_at_association p b id arn s.world) (ap (λ x. x.1) e) r,
              ),
              refl,
              refl,
              law.is_associated id arn s.world w e,
            )

  -- `add_association`, with the check that is found.
  abbrev add_task : ServiceInstance → Option HealthCheck → Act W ServiceInstance
  unfolding pure ◌>>=◌
  add_task j o = elim o [
    | none ↦ pure j
    | some c ↦ do
      protection_id ← protection_id_of shield known j
      made ← associate shield known c protection_id
      pure (record j { shield_associated_health_check = some made })
  ]

  add_task-Ends :
      (j : ServiceInstance) (s : Work W) (o : Option HealthCheck)
      → Quiet tt s
      → IsSame j
      → j.shield_associated_health_check ≡ none
      → (o ≡ none → has_check i.domain_names (listed i.route53_health_checks) ≡ false)
      → ((c : HealthCheck)
          → o ≡ some c
          → (elem c.domain_name i.domain_names ≡ true) × Among c (listed i.route53_health_checks))
      → Ends Any Added (add_task j o s)
  unfolding add_task
  add_task-Ends j s none q same n f g = pure-Ends Any Added j s (
    q,
    record {
      same = same;
      associated = record {
        of_domain = λ c e. absurd (ground arith);
        if_none = λ _.
            subst (λ l. has_check l (listed j.route53_health_checks) ≡ false) (sym same.domains)
              (subst (λ l. has_check i.domain_names (listed l) ≡ false) (sym same.checks) (f refl));
      };
      given = λ c e. absurd (ground arith);
    },
  )
  add_task-Ends j s (some c) q same n f g =
      bind-Ends Any (Quiet {A = String}) Added (protection_id_of shield known j) _ s
        (protection_id_of-Ends j s q)
        λ id u r.
          bind-Ends Any (For c) Added (associate shield known c id) _ u (associate-Ends c id u r)
            λ made v (x, e, m, told).
              pure-Ends Any Added (record j { shield_associated_health_check = some made }) v
                (
                  x,
                  record {
                    same = record {
                      id = same.id;
                      domains = same.domains;
                      checks = same.checks;
                      arn = same.arn;
                    };
                    associated = record {
                      of_domain = λ d y.
                          subst (λ l. elem d.domain_name l ≡ true) (sym same.domains)
                            (subst
                              (λ (z : AssociatedCheck). elem z.domain_name i.domain_names ≡ true)
                              (some_same y)
                              (subst (λ m. elem m i.domain_names ≡ true) (sym e) ((g c refl).0)));
                      if_none = λ y. absurd (ground arith);
                    };
                    given = λ d y. inr (
                        subst (λ (z : AssociatedCheck). IsGiven z v.world) (some_same y)
                          ((c, (g c refl).1, e, m), told));
                  },
                )

  -- `add_association`, with the association that the row has.
  abbrev choose : ServiceInstance → Option AssociatedCheck → Act W ServiceInstance
  unfolding pure lift filter elem add_task ◌>>=◌
  choose j o = elim o [
    | some c ↦ pure j
    | none ↦ do
      checks ← lift (or_raise type_error j.route53_health_checks)
      add_task j
          (first_check (filter (λ (c : HealthCheck). elem c.domain_name j.domain_names) checks))
  ]

  choose-Ends :
      (j : ServiceInstance) (s : Work W) (o : Option AssociatedCheck)
      → Dropped j s
      → j.shield_associated_health_check ≡ o
      → Ends Any Added (choose j o s)
  unfolding choose
  choose-Ends j s (some c) (q, d) e = pure-Ends Any Added j s (
    q,
    record {
      same = d.same;
      associated = record {
        of_domain = λ x y.
            subst (λ l. elem x.domain_name l ≡ true) (sym d.same.domains) ((d.of_domain x y).1);
        if_none = λ x. absurd (ground arith);
      };
      given = λ x y. inl ((d.of_domain x y).0);
    },
  )
  choose-Ends j s none (q, d) e =
      lift-Ends Any Added _ s (or_raise type_error j.route53_health_checks) tt λ checks f.
        let own = listed_checks j checks f ∙ ap listed d.same.checks in
        add_task-Ends j s
          (first_check (filter (λ (c : HealthCheck). elem c.domain_name j.domain_names) checks)) q
          d.same e
          (λ x.
            subst (λ l. has_check l (listed i.route53_health_checks) ≡ false) d.same.domains
              (subst (λ l. has_check j.domain_names l ≡ false) own
                (none_of_domain j.domain_names checks x)))
          λ c x. (
            subst (λ l. elem c.domain_name l ≡ true) d.same.domains
                (first_of_domain j.domain_names checks c x),
            subst (Among c) own (
                first_of_filter (λ (c : HealthCheck). elem c.domain_name j.domain_names) checks c
                  x),
          )
    where
      listed_checks :
          (j : ServiceInstance) (checks : List HealthCheck)
          → or_raise type_error j.route53_health_checks ≡ ok checks
          → checks ≡ listed j.route53_health_checks
      listed_checks j checks f = ground arith

module _ {W : Type 0} (shield : Shield W) (known : List (String × String))
    (G X : String → String → W → Type 0) (law : Associates shield G X) (id : String) where
  -- The row is stored with the domains and checks of `i` and an association of one of its domains.
  -- It is the one that `i` had, or Shield was given its check, which is one of the instance's; and
  -- one that `i` had with a domain that is gone is removed in Shield.
  pub record HasAssociated (i : ServiceInstance) (u : Work W) : Type 0 where
    pub row : ServiceInstance
    pub stored : find id u.tables.instances ≡ some row
    pub domains : row.domain_names ≡ i.domain_names
    pub checks : row.route53_health_checks ≡ i.route53_health_checks
    pub associated : IsAssociated row
    pub given :
        (c : AssociatedCheck)
        → row.shield_associated_health_check ≡ some c
        → (i.shield_associated_health_check ≡ some c)
          ⊎ IsGiven shield known G X law u.tables i c u.world
    pub removed : Removed shield known G X law u.tables i u.world

  -- If the instance is stored and update_associated_health_check returns, it is stored with the same
  -- domains and checks and an association with a check of one of its domains, or with none if no
  -- check is of one of its domains. The association is the one it had, or Shield was given the check
  -- of it, a check of the instance; and if it had one with a domain that it has no more, that one is
  -- removed in Shield or was not found there.
  pub update_associated_health_check-Ends :
      (i : ServiceInstance) (s : Work W)
      → find id s.tables.instances ≡ some i
      → Ends (λ u. Unit) (λ a. HasAssociated i) (update_associated_health_check shield known id s)
  unfolding update_associated_health_check add_association choose add_task save
  update_associated_health_check-Ends i s f =
      let t = s.tables in
      let Free = Any shield known G X law t i in
      let Out = λ (a : Unit {0}). HasAssociated i in
      let Mid = Dropped shield known G X law t i in
      let New = Added shield known G X law t i in
      subst (Ends Free Out) (sym (load_found s id i _ f)) (
        bind-Ends Free Mid Out (drop_association shield known i) _ s
          (drop_association-Ends shield known G X law t i s refl)
          λ j u d.
            bind-Ends Free New Out (add_association shield known j) save u
              (choose-Ends shield known G X law t i j u j.shield_associated_health_check d refl)
              λ k v ((x, r), done). ok-Ends Free Out tt _ record {
                row = k;
                stored =
                    find-written id k v.tables.instances i
                      (done.same.id ∙ find-id id t.instances i f)
                      (subst (λ (y : Tables). find id y.instances ≡ some i) (sym x) f);
                domains = done.same.domains;
                checks = done.same.checks;
                associated = done.associated;
                given = done.given;
                removed = r;
              })
