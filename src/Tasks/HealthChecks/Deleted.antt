-- ===== src/Tasks/HealthChecks/Deleted.antt =====
-- What the loop of `_delete_health_checks` leaves.
use external_domain_broker.Prelude.{
  String, string_eq, ◌==◌, Bool, true, false, not, ◌||◌, List, [], ◌∷◌, ◌≡◌, refl, sym, subst, ◌∙◌,
  elem, filter, map, All, filter-All, arith, eq_iff, if◌then◌else◌, Bool-cases, inl, inr,
}
use external_domain_broker.Models.{HealthCheck}
use external_domain_broker.Tasks.Work.{Work, Tables, has_code}
use external_domain_broker.Tasks.Rules.{Ends, pure-Ends, bind-Ends, weaken-Ends, unless-Ends}
use external_domain_broker.Tasks.Route53.{Route53}
use external_domain_broker.Tasks.HealthChecks.{
  delete_health_check, delete_each, without_id, domains_of,
}
use external_domain_broker.Tasks.HealthChecks.Created.{IsNamed}

-- The domain of the check is one of `ds`, or the check is in `us`.
unfoldable pub is_covered : List String → List HealthCheck → HealthCheck → Bool
unfolding elem
is_covered ds us c =
    elem c.domain_name ds
    || elem c.health_check_id (map (λ (u : HealthCheck). u.health_check_id) us)

module _ (names : String → String) (ds : List String) where
  abbrev pub Covered : List HealthCheck → List HealthCheck → Type 0
  unfolding is_covered
  Covered us = All λ c. is_covered ds us c ≡ true

  -- A check to delete: its domain is not one of `ds`.
  abbrev pub IsUnused : HealthCheck → Type 0
  IsUnused c = (names c.health_check_id ≡ c.domain_name) × (elem c.domain_name ds ≡ false)

  still :
      (u : HealthCheck) (us : List HealthCheck) (c : HealthCheck)
      → is_covered ds (u ∷ us) c ≡ true
      → (c.health_check_id == u.health_check_id) ≡ false
      → is_covered ds us c ≡ true
  unfolding is_covered elem
  still u us c h e = ground (
    arith,
    eq_iff c.health_check_id u.health_check_id,
    eq_iff u.health_check_id c.health_check_id,
  )

  without_id-Covered :
      (u : HealthCheck) (us cs : List HealthCheck)
      → Covered (u ∷ us) cs
      → Covered us (without_id u.health_check_id cs)
  unfolding filter is_covered elem
  without_id-Covered u us [] h = tt
  without_id-Covered u us (c ∷ cs) h =
      let rest = without_id u.health_check_id cs in
      let kept = without_id-Covered u us cs (h.1) in
      elim (Bool-cases (c.health_check_id == u.health_check_id)) [
        | inl e ↦ subst (λ b. Covered us (if not b then c ∷ rest else rest)) (sym e) kept
        | inr e ↦
            subst (λ b. Covered us (if not b then c ∷ rest else rest)) (sym e)
              (still u us c h.0 e, kept)
      ]

  -- A domain of `ds` loses no check.
  without_id-domains :
      (u : HealthCheck) (d : String) (cs : List HealthCheck)
      → IsUnused u
      → All (IsNamed names) cs
      → elem d ds ≡ true
      → elem d (domains_of (without_id u.health_check_id cs)) ≡ elem d (domains_of cs)
  unfolding filter elem
  without_id-domains u d [] n h k = refl
  without_id-domains u d (c ∷ cs) n h k = ground (
    arith,
    without_id-domains u d cs n h.1 k,
    eq_iff c.health_check_id u.health_check_id,
    eq_iff c.domain_name d,
  )

module _ {W : Type 0} (r : Route53 W) (names : String → String) (ds : List String)
    (t : Tables) where
  abbrev Untouched : Work W → Type 0
  Untouched s = s.tables ≡ t

  abbrev Deletes : Unit {0} → Work W → Type 0
  Deletes a = Untouched

  delete_health_check-Ends :
      (id : String) (s : Work W) → Untouched s → Ends Untouched Deletes (delete_health_check r id s)
  unfolding delete_health_check
  delete_health_check-Ends id s h =
      unless-Ends Untouched Deletes (has_code "NoSuchHealthCheck") (r.delete_health_check id) s
        (λ w. h) λ w. h

  -- The domains of `ds` have the checks that they had, and no check of another domain is left.
  abbrev pub Leaves : List HealthCheck → List HealthCheck → Work W → Type 0
  Leaves old checks u =
      Untouched u
      × ((d : String) → elem d ds ≡ true → elem d (domains_of checks) ≡ elem d (domains_of old))
      × All (IsNamed names) checks
      × Covered names ds [] checks

  pub delete_each-Ends :
      (us old : List HealthCheck) (s : Work W)
      → Untouched s
      → All (IsUnused names ds) us
      → All (IsNamed names) old
      → Covered names ds us old
      → Ends Untouched (Leaves old) (delete_each r us old s)
  unfolding delete_each without_id filter
  delete_each-Ends [] old s h n k c =
      pure-Ends Untouched (Leaves old) old s (h, (λ d e. refl), k, c)
  delete_each-Ends (u ∷ us) old s h n k c =
      let left = without_id u.health_check_id old in
      bind-Ends Untouched Deletes (Leaves old) (delete_health_check r u.health_check_id)
        (λ _. delete_each r us left) s (delete_health_check-Ends u.health_check_id s h)
        λ a v hv.
          weaken-Ends Untouched (Leaves left) (Leaves old) (delete_each r us left v)
            (delete_each-Ends us left v hv n.1 (filter-All (IsNamed names) _ old k)
              (without_id-Covered names ds u us old c))
            λ cs w (hw, e, m, f).
              (hw, (λ d b. e d b ∙ without_id-domains names ds u d old n.0 k b), m, f)
