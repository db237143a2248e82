-- ===== src/Validators/Chains.antt =====
-- What the `CNAME` validator accepts: a chain of CNAME records that leads to the target.
use Prim.Native.String
use Prim.Native.String.{count}
use text.Mathlib.TextLemmas.{length-append}
use external_domain_broker.Prelude.{
  ℕ, zero, suc, ◌≤◌, ◌<◌, ◌≡◌, ◌≢◌, refl, ap, ◌↔◌, ◌⊎◌, inl, inr, String, string_eq, ◌==◌, eq_iff,
  eq_refl, arith, true, false, none, List, [], ◌∷◌, ◌++◌, ok, err, out_of_fuel, elem, elem-append,
  length, if◌then◌else◌, Bool-cases, Result-cases, All, All-append,
}
use external_domain_broker.Env.{Env}
use external_domain_broker.Validators.Cname.{
  get_cname, follow, error_for_domain, acme_challenge_cname_name, acme_challenge_cname_target,
}

module _ (env : Env) (goal : String) where
  -- From `a` the CNAME records lead to the goal after exactly `n` hops, and not before.
  abbrev pub Hits : ℕ → String → Type 0
  Hits zero a = ((a == "") ≡ false) × ((a == goal) ≡ true)
  Hits (suc n) a =
      (b : String) × ((a == "") ≡ false)
      × ((a == goal) ≡ false)
      × (get_cname env a ≡ ok b)
      × Hits n b

  Hits-unique : (n m : ℕ) (a : String) → Hits n a → Hits m a → n ≡ m
  Hits-unique zero zero a h k = refl
  Hits-unique zero (suc m) a h (b, _, e, _, _) = cc
  Hits-unique (suc n) zero a (b, _, e, _, _) h = cc
  Hits-unique (suc n) (suc m) a (b, _, _, e, h) (c, _, _, f, k) =
      let same : ok b ≡ ok c = cc in
      let here : b ≡ c = cc in ap suc (Hits-unique n m c (rw here at h) k)

  Hits-not_empty : (n : ℕ) (a : String) → Hits n a → (a == "") ≡ false
  Hits-not_empty zero a h = h.0
  Hits-not_empty (suc n) a h = h.1

  follow_sound :
      (fuel : ℕ) (visited : List String) (last a : String)
      → follow env fuel goal visited last a ≡ ok none
      → (n : ℕ) × Hits n a
  unfolding follow
  follow_sound zero visited last a h = cc
  follow_sound (suc fuel) visited last a h = elim (Bool-cases (a == "")) [
    | inl stop ↦ absurd (ground arith)
    | inr more ↦ elim (Bool-cases (a == goal)) [
      | inl found ↦ (0, (more, found))
      | inr other ↦ elim (Result-cases (get_cname env a)) [
        | inr (e, failed) ↦ absurd (ground arith)
        | inl (b, next) ↦ elim (Bool-cases (elem b (visited ++ a ∷ []))) [
          | inl seen ↦ absurd (ground arith)
          | inr new ↦
              let (n, hits) = follow_sound fuel (visited ++ a ∷ []) a b (ground arith) in
              (suc n, (b, more, other, next, hits))
        ]
      ]
    ]
  ]

  -- A name from which the goal is more than `n` hops away.
  abbrev Farther : ℕ → String → Type 0
  Farther n v = (m : ℕ) × (n < m) × Hits m v

  Farther-down : (n : ℕ) (vs : List String) → All (Farther (suc n)) vs → All (Farther n) vs
  Farther-down n [] h = tt
  Farther-down n (v ∷ vs) ((m, lt, hits), h) = ((m, omega arith, hits), Farther-down n vs h)

  not_seen :
      (n : ℕ) (b : String) (vs : List String) → Hits n b → All (Farther n) vs → elem b vs ≡ false
  unfolding elem
  not_seen n b [] hits h = refl
  not_seen n b (v ∷ vs) hits ((m, lt, k), h) = elim (Bool-cases (v == b)) [
    | inl e ↦
        let same : v ≡ b = (eq_iff v b).0 e in
        absurd (omega (arith, Hits-unique m n b (rw same at k) hits))
    | inr e ↦ rw e (not_seen n b vs hits h)
  ]

  follow_complete :
      (fuel n : ℕ) (visited : List String) (last a : String)
      → Hits n a
      → All (Farther n) visited
      → (follow env fuel goal visited last a ≡ ok none)
        ⊎ (follow env fuel goal visited last a ≡ err out_of_fuel)
  unfolding follow
  follow_complete zero n visited last a hits far = inr refl
  follow_complete (suc fuel) zero visited last a (more, found) far = ground arith
  follow_complete (suc fuel) (suc n) visited last a (b, more, other, next, hits) far =
      let here : Hits (suc n) a = (b, more, other, next, hits) in
      let far' =
        All-append (Farther n) visited (a ∷ []) (Farther-down n visited far)
          ((suc n, omega arith, here), tt) in
      ground (
        arith,
        not_seen n b (visited ++ a ∷ []) hits far',
        follow_complete fuel n (visited ++ a ∷ []) a b hits far',
      )

-- The names to which a CNAME record points are among `names`.
abbrev pub PointsInto : Env → List String → Type 0
PointsInto env names =
    (a b : String) → get_cname env a ≡ ok b → (b == "") ≡ false → elem b names ≡ true

-- How many of the names have not been visited.
abbrev remaining : List String → List String → ℕ
remaining [] visited = 0
remaining (n ∷ ns) visited =
    let rest = remaining ns visited in if elem n visited then rest else suc rest

remaining-le-length : (ns vs : List String) → remaining ns vs ≤ length ns
remaining-le-length [] vs = omega arith
remaining-le-length (n ∷ ns) vs = ground (arith, remaining-le-length ns vs)

remaining_mono : (c : String) (ns vs : List String) → remaining ns (vs ++ c ∷ []) ≤ remaining ns vs
unfolding elem
remaining_mono c [] vs = omega arith
remaining_mono c (n ∷ ns) vs = ground (arith, remaining_mono c ns vs, elem-append n vs (c ∷ []))

remaining_falls :
    (c : String) (ns vs : List String)
    → elem c ns ≡ true
    → elem c vs ≡ false
    → remaining ns (vs ++ c ∷ []) < remaining ns vs
unfolding elem
remaining_falls c [] vs h k = cc
remaining_falls c (n ∷ ns) vs h k = ground (
  arith,
  remaining_falls c ns vs,
  remaining_mono c ns vs,
  elem-append n vs (c ∷ []),
  elem-append c vs (c ∷ []),
  eq_iff n c,
  eq_iff c n,
  eq_refl c,
)

get_cname-ne-out_of_fuel : (env : Env) (a : String) → get_cname env a ≢ err out_of_fuel
unfolding get_cname
get_cname-ne-out_of_fuel env a = ground arith

module _ (env : Env) (goal : String) (names : List String) (closed : PointsInto env names) where
  follow_ends :
      (fuel : ℕ) (visited : List String) (last a : String)
      → remaining names visited < fuel
      → ((a == "") ≡ false → (elem a names ≡ true) × (elem a visited ≡ false))
      → follow env fuel goal visited last a ≢ err out_of_fuel
  unfolding follow
  follow_ends zero visited last a h fresh = absurd (omega arith)
  follow_ends (suc fuel) visited last a h fresh = elim (Bool-cases (a == "")) [
    | inl stop ↦ ground arith
    | inr more ↦ elim (Result-cases (get_cname env a)) [
      | inr (e, failed) ↦ ground (arith, get_cname-ne-out_of_fuel env a)
      | inl (b, next) ↦ elim (Bool-cases (elem b (visited ++ a ∷ []))) [
        | inl seen ↦ ground arith
        | inr new ↦
            let (known, unseen) = fresh more in
            ground (
              arith,
              follow_ends fuel (visited ++ a ∷ []) a b
                  (omega (arith, remaining_falls a names visited known unseen))
                  (λ m. (closed a b next m, new)),
            )
      ]
    ]
  ]

  -- The first round asks nothing of the names visited before.
  follow_first :
      (fuel : ℕ) (start a : String)
      → suc (length names) < fuel
      → get_cname env start ≡ ok a
      → follow env fuel goal (start ∷ []) start a ≢ err out_of_fuel
  unfolding follow
  follow_first zero start a h first = absurd (omega arith)
  follow_first (suc fuel) start a h first = elim (Bool-cases (a == "")) [
    | inl stop ↦ ground arith
    | inr more ↦ elim (Result-cases (get_cname env a)) [
      | inr (e, failed) ↦ ground (arith, get_cname-ne-out_of_fuel env a)
      | inl (b, next) ↦ elim (Bool-cases (elem b (start ∷ a ∷ []))) [
        | inl seen ↦ ground arith
        | inr new ↦ ground (
          arith,
          follow_ends fuel (start ∷ a ∷ []) a b
              (omega (arith, remaining-le-length names (start ∷ a ∷ [])))
              (λ m. (closed a b next m, new)),
        )
      ]
    ]
  ]

-- The name that is looked up is not the target.
name-ne-target :
    (env : Env) (domain : String)
    → acme_challenge_cname_name domain ≢ acme_challenge_cname_target env domain
unfolding acme_challenge_cname_name acme_challenge_cname_target
name-ne-target env domain e = absurd (
    omega (
      arith,
      ap count e,
      length-append "_acme-challenge." domain,
      length-append "_acme-challenge." (String.◌++◌ domain (String.◌++◌ "." env.dns_root_domain)),
      length-append domain (String.◌++◌ "." env.dns_root_domain),
      length-append "." env.dns_root_domain,
    ))

name-neq-target :
    (env : Env) (domain : String)
    → (acme_challenge_cname_name domain == acme_challenge_cname_target env domain) ≡ false
name-neq-target env domain = ground (
  arith,
  eq_iff (acme_challenge_cname_name domain) (acme_challenge_cname_target env domain),
  name-ne-target env domain,
)

name_not_empty : (domain : String) → (acme_challenge_cname_name domain == "") ≡ false
unfolding acme_challenge_cname_name
name_not_empty domain = elim (Bool-cases (acme_challenge_cname_name domain == "")) [
  | inr e ↦ e
  | inl e ↦
      let empty : acme_challenge_cname_name domain ≡ "" = (eq_iff _ _).0 e in
      absurd (omega (arith, ap count empty, length-append "_acme-challenge." domain))
]

-- From the challenge name of `domain`, CNAME records lead to the broker's own name for it.
abbrev pub IsPointed : Env → String → Type 0
IsPointed env domain =
    (n : ℕ) × (c : String) × (get_cname env (acme_challenge_cname_name domain) ≡ ok c)
    × Hits env (acme_challenge_cname_target env domain) n c

module _ (env : Env) (names : List String) (closed : PointsInto env names)
    (enough : suc (length names) < env.fuel) where
  -- If the names to which CNAME records point are finitely many, and the bound on the rounds exceeds
  -- their number by two, then the loop that follows the records of a domain ends by itself, and it
  -- reports no error exactly when the records lead from the challenge name of the domain to the
  -- broker's own name for it.
  pub error_for_domain_iff :
      (domain : String)
      → (error_for_domain env domain ≢ err out_of_fuel)
        × ((error_for_domain env domain ≡ ok none) ↔ IsPointed env domain)
  unfolding error_for_domain
  error_for_domain_iff domain = (ends, (sound, complete))
    where
      name : String
      name = acme_challenge_cname_name domain

      goal : String
      goal = acme_challenge_cname_target env domain

      ends : error_for_domain env domain ≢ err out_of_fuel
      ends = elim (Result-cases (get_cname env name)) [
        | inr (e, failed) ↦ ground (arith, get_cname-ne-out_of_fuel env name)
        | inl (c, first) ↦
            ground (arith, follow_first env goal names closed env.fuel name c enough first)
      ]

      sound : error_for_domain env domain ≡ ok none → IsPointed env domain
      sound h = elim (Result-cases (get_cname env name)) [
        | inr (e, failed) ↦ absurd (ground arith)
        | inl (c, first) ↦
            let (n, hits) = follow_sound env goal env.fuel (name ∷ []) name c (ground arith) in
            (n, c, first, hits)
      ]

      complete : IsPointed env domain → error_for_domain env domain ≡ ok none
      complete (n, c, first, hits) =
          let other : (name == goal) ≡ false = name-neq-target env domain in
          let here : Hits env goal (suc n) name = (c, name_not_empty domain, other, first, hits) in
          ground (
            arith,
            ends,
            Hits-not_empty env goal n c hits,
            follow_complete env goal env.fuel n (name ∷ []) name c hits
                ((suc n, omega arith, here), tt),
          )
