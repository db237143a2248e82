-- ===== src/Tasks/CloudFront/Waits.antt =====
-- The wait for a distribution to be disabled, in broker/tasks/cloudfront.py.
use external_domain_broker.Prelude.{
  ℕ, suc, ◌+◌, ◌≤◌, ◌<◌, String, Bool, true, false, some, Result, ok, err, Error, ◌≡◌, refl,
  fun_ext, runtime_error, plain, sym, ap, ◌∙◌, subst, ◌⊎◌, inl, inr, ◌≢◌, arith, if◌then◌else◌,
}
use external_domain_broker.Json.{Json, is_null}
use external_domain_broker.Models.{ServiceInstance, find}
use external_domain_broker.Tasks.Work.{Work, Act, Tables, ◌>>=◌, pure, raise, proceed, lift}
use external_domain_broker.Tasks.Rules.{load_found}
use external_domain_broker.Tasks.Settings.{Settings}
use external_domain_broker.Tasks.Polling.{poll, observed, Polled, poll-Polled}
use external_domain_broker.Tasks.CloudFront.Config.{is_disabled}
use external_domain_broker.Tasks.CloudFront.Steps.{
  CloudFront, is_gone, disabled_yet, wait_for_distribution_disabled,
}

-- What a round makes of an answer: a distribution that is gone counts as disabled.
unfoldable pub reading : Result Json → Result Bool
unfolding is_disabled
reading (ok status) = is_disabled status
reading (err e) = if is_gone e then ok true else err e

-- The answers of the service are given in their order, one for each call.
pub record AnswersInOrder (c : CloudFront ℕ) (answers : ℕ → Result Json) : Type 0 where
  pub answered : (d : Json) (n : ℕ) → c.get_distribution d n ≡ (answers n, suc n)

differ : {r : Result Bool} → r ≡ ok false → r ≡ ok true → ⊥
differ h k = ground arith

failed : {r : Result Bool} (e : Error) → r ≡ err e → r ≡ ok true → ⊥
failed e h k = ground arith

split : (k n : ℕ) → k < suc n → (k < n) ⊎ (k ≡ n)
split k n h = ground arith

module _ (c : CloudFront ℕ) (settings : Settings) (answers : ℕ → Result Json)
    (law : AnswersInOrder c answers) where
  abbrev pub readings : ℕ → Result Bool
  unfolding reading
  readings n = reading (answers n)

  -- A round, from the answer of the service.
  abbrev round : Tables → Result Json × ℕ → Result Bool × Work ℕ
  unfolding lift pure raise
  round t x =
      (elim x.0 as (λ r. Act ℕ Bool) [
        | ok status ↦ lift (is_disabled status)
        | err e ↦ if is_gone e then pure true else raise e
      ])
        (record { world = x.1; tables = t })

  round-reading :
      (t : Tables) (r : Result Json) (w : ℕ)
      → round t (r, w) ≡ (reading r, record { world = w; tables = t })
  unfolding reading round lift pure raise
  round-reading t (ok status) w = refl
  round-reading t (err e) w =
      elim (is_gone e)
        as (λ b.
          (if b then pure true else raise e) (record { world = w; tables = t })
          ≡ (if b then ok true else err e, record { world = w; tables = t })) [
            | true ↦ refl
            | false ↦ refl
          ]

  disabled_yet-observed :
      (d : Json) (s : Work ℕ) → disabled_yet c settings d s ≡ observed readings s
  unfolding observed readings disabled_yet round
  disabled_yet-observed d s =
      ap (round s.tables) (law.answered d s.world)
      ∙ round-reading s.tables (answers s.world) (suc s.world)

  poll-same :
      (n : ℕ) (d : Json) (s : Work ℕ)
      → poll n (disabled_yet c settings d) s ≡ poll n (observed readings) s
  poll-same n d s = ap (λ (test : Act ℕ Bool). poll n test s) (fun_ext (disabled_yet-observed d))

  -- What the wait has done: a bounded number of calls, of which only the last may have found the
  -- distribution disabled or gone; the wait has returned exactly if it did.
  pub record HasWaited (start max : ℕ) (x : Result (Unit {0}) × Work ℕ) : Type 0 where
    pub calls : ℕ
    pub at_most : calls ≤ max
    pub counted : x.1.world ≡ start + calls
    pub before : (k : ℕ) → suc k < calls → readings (start + k) ≡ ok false
    pub returned : x.0 ≡ ok tt → (k : ℕ) × (calls ≡ suc k) × (readings (start + k) ≡ ok true)
    pub raised : x.0 ≢ ok tt → (k : ℕ) → k < calls → readings (start + k) ≢ ok true

  abbrev ended : Bool → Act ℕ (Unit {0})
  unfolding pure raise
  ended disabled =
      if disabled then pure tt else raise (runtime_error (plain "Failed to disable distribution"))

  Polled-HasWaited :
      (start n : ℕ) (r : Result Bool) (t : Work ℕ)
      → Polled readings start n r t.world
      → HasWaited start n (proceed r ended t)
  unfolding ended
  Polled-HasWaited start n (ok true) t p = elim p.last [
    | inl (a, b, d) ↦ absurd (ground arith)
    | inr (l, ne, h, stop) ↦ record {
      calls = suc p.attempts;
      at_most = omega arith;
      counted = omega arith;
      before = λ k m. p.before k (omega arith);
      returned = λ e. (p.attempts, refl, h);
      raised = λ e. absurd (e refl);
    }
  ]
  Polled-HasWaited start n (ok false) t p = elim p.last [
    | inl (a, b, stop) ↦ record {
      calls = n;
      at_most = omega arith;
      counted = stop;
      before = λ k m. p.before k (omega arith);
      returned = λ e. absurd (ground arith);
      raised = λ e k m f. absurd (differ (p.before k (omega arith)) f);
    }
    | inr (l, ne, h, stop) ↦ absurd (ne refl)
  ]
  Polled-HasWaited start n (err e) t p = elim p.last [
    | inl (a, b, d) ↦ absurd (ground arith)
    | inr (l, ne, h, stop) ↦ record {
      calls = suc p.attempts;
      at_most = omega arith;
      counted = omega arith;
      before = λ k m. p.before k (omega arith);
      returned = λ f. absurd (ground arith);
      raised = λ f k m g. elim (split k p.attempts m) [
        | inl less ↦ absurd (differ (p.before k less) g)
        | inr same ↦ absurd (failed e h (subst (λ j. readings (start + j) ≡ ok true) same g))
      ];
    }
  ]

  -- If the instance is stored with a distribution and the service answers call after call, the task
  -- wait_for_distribution_disabled makes at most as many calls as configured, goes on only while the
  -- distribution is there and not disabled, and returns exactly if the last call found it disabled
  -- or gone.
  pub wait_for_distribution_disabled-HasWaited :
      (id : String) (i : ServiceInstance) (s : Work ℕ)
      → find id s.tables.instances ≡ some i
      → is_null i.cloudfront_distribution_id ≡ false
      → HasWaited s.world settings.aws_poll_max_attempts
          (wait_for_distribution_disabled c settings id s)
  unfolding wait_for_distribution_disabled ◌>>=◌ ended
  wait_for_distribution_disabled-HasWaited id i s f n =
      let max = settings.aws_poll_max_attempts in
      let wait = poll max (disabled_yet c settings i.cloudfront_distribution_id) >>= ended in
      let x = poll max (observed readings) s in
      subst (HasWaited s.world max)
        (sym (
          load_found s id i
            (λ j.
              if is_null j.cloudfront_distribution_id
              then pure tt
              else (poll max (disabled_yet c settings j.cloudfront_distribution_id) >>= ended))
            f
          ∙ ap (λ (b : Bool). (if b then pure tt else wait) s) n
          ∙ ap (λ (y : Result Bool × Work ℕ). proceed (y.0) ended (y.1))
              (poll-same max i.cloudfront_distribution_id s)))
        (Polled-HasWaited s.world max (x.0) (x.1) (poll-Polled readings max s))
