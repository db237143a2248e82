-- ===== src/Tasks/Alb/Capacity.antt =====
-- How many certificates a dedicated listener may get, in broker/tasks/alb.py.
use external_domain_broker.Prelude.{
  ℕ, ◌+◌, ◌≤◌, ◌<◌, String, string_eq, ◌==◌, Bool, true, false, ◌&&◌, Option, some, List, [], ◌∷◌,
  ok, ◌≡◌, refl, sym, subst, ap, ◌∙◌, arith, ltb, any, is_empty, filter, filter-All, filter-tested,
  All, eq_iff, ◌⊎◌, inl, inr, Bool-cases, ok_same,
}
use external_domain_broker.Json.{str, truthy}
use external_domain_broker.Models.{ServiceInstance, Action, same_action, find, write}
use external_domain_broker.Domains.Holders.{find-id, find-written}
use external_domain_broker.Text.Order.{sorted}
use external_domain_broker.Tasks.Work.{
  Work, Tables, DedicatedAlbListener, save, pure, ◌>>=◌, tables_of,
}
use external_domain_broker.Tasks.Rules.{
  Ends, ok-Ends, pure-Ends, raise-Ends, choice-Ends, bind-Ends, lift-Ends, relax-Ends, load_found,
}
use external_domain_broker.Tasks.Settings.{Settings}
use external_domain_broker.Tasks.Alb.Listeners.{
  LoadBalancers, first_of, is_org, is_on, count_on, potential_listeners, get_lowest_used_alb,
  save_listener,
}
use external_domain_broker.Tasks.Alb.Lowest.{Describes, Lowest, get_lowest_used_alb-Ends}
use external_domain_broker.Tasks.Alb.Steps.{
  place, placed, remembered, listener_arns_of, get_lowest_dedicated_alb, select_dedicated_alb,
}

-- No listener is that of more active dedicated instances than `max`.
pub record IsWithin (max : ℕ) (rows : List ServiceInstance) : Type 0 where
  pub each : (listener_arn : String) → count_on listener_arn rows ≤ max

abbrev one_if : Bool → ℕ
one_if true = 1
one_if false = 0

count_on-write :
    (l : String) (j : ServiceInstance) (rows : List ServiceInstance)
    → count_on l (write j rows) ≤ count_on l rows + one_if (is_on l j)
unfolding count_on write
count_on-write l j [] = omega arith
count_on-write l j (i ∷ rows) = ground (arith, count_on-write l j rows)

is_on-placed :
    (l alb_arn listener_arn : String) (i : ServiceInstance)
    → is_on l (placed alb_arn listener_arn i) ≡ true
    → listener_arn ≡ l
unfolding is_on placed
is_on-placed l alb_arn listener_arn i h = ground (arith, eq_iff listener_arn l)

placed-id :
    (alb_arn listener_arn : String) (i : ServiceInstance)
    → (placed alb_arn listener_arn i).id ≡ i.id
unfolding placed
placed-id alb_arn listener_arn i = refl

-- One more instance on a listener with room.
placed-IsWithin :
    (max : ℕ) (alb_arn listener_arn : String) (i : ServiceInstance) (rows : List ServiceInstance)
    → IsWithin max rows
    → count_on listener_arn rows < max
    → IsWithin max (write (placed alb_arn listener_arn i) rows)
placed-IsWithin max alb_arn listener_arn i rows h k = record {
  each = λ l.
      let j = placed alb_arn listener_arn i in
      elim (Bool-cases (is_on l j)) [
        | inl y ↦ room l (is_on-placed l alb_arn listener_arn i y) (count_on-write l j rows)
        | inr n ↦ ground (arith, count_on-write l j rows, h.each l)
      ];
}
  where
    room :
        (l : String)
        → listener_arn ≡ l
        → count_on l (write (placed alb_arn listener_arn i) rows)
          ≤ count_on l rows + one_if (is_on l (placed alb_arn listener_arn i))
        → count_on l (write (placed alb_arn listener_arn i) rows) ≤ max
    room l e b = ground (arith, subst (λ a. count_on a rows < max) e k)

first_of-All :
    (P : DedicatedAlbListener → Type 0) (ls : List DedicatedAlbListener) (l : DedicatedAlbListener)
    → All P ls
    → first_of ls ≡ ok l
    → P l
first_of-All P [] l h e = absurd (ground arith)
first_of-All P (k ∷ ks) l (p, _) e = subst P (ok_same e) p

-- A listener with the ARN is one of the organization.
unfoldable pub is_ours : Option String → String → List DedicatedAlbListener → Bool
unfolding any
is_ours org listener_arn =
    any λ (l : DedicatedAlbListener). l.listener_arn == listener_arn && is_org org l.dedicated_org

chosen_is_ours :
    (room : DedicatedAlbListener → Bool) (org : Option String) (a : String)
    (ls : List DedicatedAlbListener) (x : DedicatedAlbListener)
    → first_of (
        filter
          (λ (l : DedicatedAlbListener). l.listener_arn == a)
          (filter (λ (l : DedicatedAlbListener). is_org org l.dedicated_org && room l) ls))
      ≡ ok x
    → is_ours org a ls ≡ true
unfolding is_ours filter any
chosen_is_ours room org a [] x h = absurd (ground arith)
chosen_is_ours room org a (l ∷ ls) x h = ground (arith, chosen_is_ours room org a ls x)

chosen_has_room :
    (room : DedicatedAlbListener → Bool) (org : Option String) (a : String)
    (ls : List DedicatedAlbListener) (x : DedicatedAlbListener)
    → first_of (
        filter
          (λ (l : DedicatedAlbListener). l.listener_arn == a)
          (filter (λ (l : DedicatedAlbListener). is_org org l.dedicated_org && room l) ls))
      ≡ ok x
    → (room x ≡ true) × (x.listener_arn ≡ a)
unfolding filter
chosen_has_room room org a ls x h =
    let Room = λ (l : DedicatedAlbListener). room l ≡ true in
    let At = λ (l : DedicatedAlbListener). l.listener_arn ≡ a in
    let potential =
      filter (λ (l : DedicatedAlbListener). is_org org l.dedicated_org && room l) ls in
    (
      first_of-All Room _ x
          (filter-All Room _ potential (filter-tested Room _ ls λ l r. ground arith)) h,
      first_of-All At _ x
          (filter-tested At _ potential λ l r. ground (arith, eq_iff l.listener_arn a)) h,
    )

module _ {W : Type 0} (lb : LoadBalancers W) (settings : Settings) (id : String) where
  abbrev max : ℕ
  max = settings.max_certs_per_alb

  unfoldable pub Within : Work W → Type 0
  Within s = IsWithin max s.tables.instances

  -- The instance is on a listener of its organization, of those in `ls`.
  pub record IsPlaced (i : ServiceInstance) (ls : List DedicatedAlbListener) (s : Work W)
      : Type 0 where
    pub row : ServiceInstance
    pub stored : find id s.tables.instances ≡ some row
    pub listener_arn : String
    pub on_it : row.alb_listener_arn ≡ str listener_arn
    pub ours : is_ours i.org_id listener_arn ls ≡ true

  -- The task has done nothing, or the instance has a place.
  pub Selected : Work W → ServiceInstance → Unit {0} → Work W → Type 0
  Selected s i a u = Within u × ((u ≡ s) ⊎ IsPlaced i s.tables.listeners u)

  place-Ends :
      (i j : ServiceInstance) (s u : Work W) (arns : String × String)
      → find id u.tables.instances ≡ some i
      → j.id ≡ i.id
      → j.org_id ≡ i.org_id
      → u.tables.listeners ≡ s.tables.listeners
      → Within u
      → Ends Within (Selected s i) (place lb settings j (potential_listeners max j u.tables) arns u)
  unfolding place save save_listener Within Selected potential_listeners placed
  place-Ends i j s u (alb_arn, listener_arn) f e o same within =
      let potential = potential_listeners max j u.tables in
      let room =
        λ (l : DedicatedAlbListener). ltb (count_on l.listener_arn u.tables.instances) max in
      lift-Ends Within (Selected s i) _ u
        (first_of (filter (λ (l : DedicatedAlbListener). l.listener_arn == listener_arn) potential))
        within
        λ l h.
          let (r, at) = chosen_has_room room j.org_id listener_arn u.tables.listeners l h in
          ok-Ends Within (Selected s i) tt _ (
            placed-IsWithin max alb_arn listener_arn j u.tables.instances within
                (subst (λ a. count_on a u.tables.instances < max) at (ground arith)),
            inr record {
              row = placed alb_arn listener_arn j;
              stored =
                  find-written id (placed alb_arn listener_arn j) u.tables.instances i
                    (placed-id alb_arn listener_arn j ∙ e ∙ find-id id u.tables.instances i f) f;
              listener_arn = listener_arn;
              on_it = refl;
              ours =
                  subst (λ ls. is_ours i.org_id listener_arn ls ≡ true) same
                    (subst (λ org. is_ours org listener_arn u.tables.listeners ≡ true) o
                      (chosen_is_ours room j.org_id listener_arn u.tables.listeners l h));
            },
          )

  module _ (certificates : String → List String) (law : Describes lb certificates) where
    get_lowest_dedicated_alb-Ends :
        (i j : ServiceInstance) (s : Work W)
        → find id s.tables.instances ≡ some i
        → j.id ≡ i.id
        → j.org_id ≡ i.org_id
        → Within s
        → Ends Within (Selected s i) (get_lowest_dedicated_alb lb settings j s)
    unfolding get_lowest_dedicated_alb tables_of Within Lowest ◌>>=◌
    get_lowest_dedicated_alb-Ends i j s f e o within =
        let potential = potential_listeners max j s.tables in
        let arns = sorted (listener_arns_of potential) in
        choice-Ends Within (Selected s i) (is_empty potential) _ _ s
          (λ _. raise-Ends Within (Selected s i) _ s within)
          λ _.
            bind-Ends Within (Lowest certificates lb law Same stays arns) (Selected s i)
              (get_lowest_used_alb lb arns) _ s
              (relax-Ends Within Same (Lowest certificates lb law Same stays arns)
                (Lowest certificates lb law Same stays arns) (get_lowest_used_alb lb arns s)
                (get_lowest_used_alb-Ends certificates lb law Same stays arns s refl)
                (λ u q. subst (λ (t : Tables). IsWithin max t.instances) (sym q) within) λ x u h. h)
              λ x u h.
                subst
                  (λ t.
                    Ends Within (Selected s i)
                      (place lb settings j (potential_listeners max j t) x u))
                  (h.0)
                  (place-Ends i j s u x
                    (subst (λ (t : Tables). find id t.instances ≡ some i) (sym (h.0)) f) e o
                    (ap (λ (t : Tables). t.listeners) (h.0))
                    (subst (λ (t : Tables). IsWithin max t.instances) (sym (h.0)) within))
      where
        Same : Work W → Type 0
        Same u = u.tables ≡ s.tables

        stays : (u : Work W) (w : W) → Same u → Same (record u { world = w })
        stays u w q = q

    -- If no listener has more active dedicated instances than the limit, then after select_dedicated_alb,
    -- whether it returns or raises, none has; and if it returns, it has done nothing or the instance
    -- is stored with a listener that the table lists for its organization.
    pub select_dedicated_alb-Ends :
        (action : Action) (i : ServiceInstance) (s : Work W)
        → find id s.tables.instances ≡ some i
        → Within s
        → Ends Within (Selected s i) (select_dedicated_alb lb settings action id s)
    unfolding select_dedicated_alb Within Selected
    select_dedicated_alb-Ends action i s f within =
        subst (Ends Within (Selected s i)) (sym (load_found s id i _ f)) (
          choice-Ends Within (Selected s i)
            (truthy i.alb_arn && same_action Action.provision action) (pure tt) _ s
            (λ _. pure-Ends Within (Selected s i) tt s (within, inl refl))
            λ _. get_lowest_dedicated_alb-Ends i (remembered i) s f refl refl within)
