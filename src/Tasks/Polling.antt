-- ===== src/Tasks/Polling.antt =====
-- The loops of the tasks that ask a service until it answers as wanted, `while not done and
-- attempts < MAX: …`.
use external_domain_broker.Prelude.{
  ℕ, zero, suc, ◌+◌, ◌≤◌, ◌<◌, Bool, true, false, Result, ok, err, ◌≡◌, refl, subst, ◌⊎◌, inl, inr,
  ◌≢◌, arith, if◌then◌else◌,
}
use external_domain_broker.Tasks.Work.{Work, Act, ◌>>=◌, pure, proceed}

module _ {W : Type 0} where
  -- Whether the test holds at one of the attempts.
  unfoldable pub poll : ℕ → Act W Bool → Act W Bool
  unfolding ◌>>=◌ pure
  poll zero test = pure false
  poll (suc n) test = do done ← test; if done then pure true else poll n test

-- What a test finds, at the attempt that the world counts.
unfoldable pub observed : (ℕ → Result Bool) → Act ℕ Bool
observed answers s = (answers s.world, record s { world = suc s.world })

-- From the attempt `start`, `n` attempts end with `r` when the world has counted to `stop`: each
-- found the test false, or one, after such attempts, found something else.
pub record Polled (answers : ℕ → Result Bool) (start n : ℕ) (r : Result Bool) (stop : ℕ)
    : Type 0 where
  pub attempts : ℕ
  pub at_most : attempts ≤ n
  pub before : (k : ℕ) → k < attempts → answers (start + k) ≡ ok false
  pub last :
      ((attempts ≡ n) × (r ≡ ok false) × (stop ≡ start + n))
      ⊎ ((attempts < n)
          × (r ≢ ok false)
          × (answers (start + attempts) ≡ r)
          × (stop ≡ suc (start + attempts)))

module _ (answers : ℕ → Result Bool) where
  shifted :
      (start k : ℕ)
      → answers start ≡ ok false
      → ((j : ℕ) → j < k → answers (suc start + j) ≡ ok false)
      → (j : ℕ) → j < suc k
      → answers (start + j) ≡ ok false
  shifted start k h f zero l = subst (λ n. answers n ≡ ok false) (omega arith) h
  shifted start k h f (suc j) l =
      subst (λ n. answers n ≡ ok false) (omega arith) (f j (omega arith))

  later-Polled :
      (start n stop : ℕ) (r : Result Bool)
      → answers start ≡ ok false
      → Polled answers (suc start) n r stop
      → Polled answers start (suc n) r stop
  later-Polled start n stop r h p = record {
    attempts = suc p.attempts;
    at_most = omega (arith, p.at_most);
    before = shifted start p.attempts h p.before;
    last = elim p.last [
      | inl (a, b, c) ↦ inl (omega arith, b, omega arith)
      | inr (a, b, c, d) ↦
          inr (omega arith, b, subst (λ m. answers m ≡ r) (omega arith) c, omega arith)
    ];
  }

  abbrev next : ℕ → Result Bool → Work ℕ → Result Bool × Work ℕ
  unfolding poll observed
  next n r s =
      proceed r (λ done. if done then pure true else poll n (observed answers))
        (record s { world = suc s.world })

  abbrev Ending : ℕ → ℕ → Result Bool × Work ℕ → Type 0
  Ending start n x = Polled answers start n (x.0) (x.1.world)

  at_once-Polled :
      (start n : ℕ) (r : Result Bool)
      → answers start ≡ r
      → r ≢ ok false
      → Polled answers start (suc n) r (suc start)
  at_once-Polled start n r h ne = record {
    attempts = 0;
    at_most = omega arith;
    before = λ k l. absurd (omega arith);
    last = inr (omega arith, ne, subst (λ m. answers m ≡ r) (omega arith) h, omega arith);
  }

  next-Polled :
      (n : ℕ) (s : Work ℕ) (r : Result Bool)
      → answers s.world ≡ r
      → ((t : Work ℕ) → Ending t.world n (poll n (observed answers) t))
      → Ending s.world (suc n) (next n r s)
  unfolding poll observed
  next-Polled n s (ok true) h f = at_once-Polled s.world n (ok true) h λ e. absurd (ground arith)
  next-Polled n s (ok false) h f =
      let t = record s { world = suc s.world } in
      let x = poll n (observed answers) t in later-Polled s.world n (x.1.world) (x.0) h (f t)
  next-Polled n s (err e) h f = at_once-Polled s.world n (err e) h λ k. absurd (ground arith)

  -- The attempts are bounded, and the loop ends at the first that does not find the test false,
  -- with what it found, or with `false` after all of them.
  pub poll-Polled :
      (n : ℕ) (s : Work ℕ)
      → let x = poll n (observed answers) s in Polled answers s.world n (x.0) (x.1.world)
  unfolding poll observed
  poll-Polled zero s = record {
    attempts = 0;
    at_most = omega arith;
    before = λ k l. absurd (omega arith);
    last = inl (refl, refl, omega arith);
  }
  poll-Polled (suc n) s = next-Polled n s (answers s.world) refl (poll-Polled n)
