-- ===== src/Api/Keeps.antt =====
-- What the parts of `update` in broker/api.py keep of the domains of the instances.
use external_domain_broker.Prelude.{
  String, string_eq, true, inl, inr, Option, none, some, List, ◌≡◌, refl, sym, ◌∙◌, subst, ok, err,
  not_implemented, attribute_error, elem, arith,
}
use external_domain_broker.Models.{
  ServiceInstance, InstanceType, Session, put_instance, commit, change_instance_type, find, write,
  set_type, same_type, can_update_to_type, reload,
}
use external_domain_broker.Models.Post.{Post, ok-Post, err-Post, if-Post}
use external_domain_broker.Domains.{is_live}
use external_domain_broker.Domains.Holders.{
  IsExclusive, Fits, write-IsExclusive, Fits-write, set_type-IsExclusive, Fits-stored, find-id,
  find-write, find-set_type,
}
use external_domain_broker.Cdn.Same.{Same}

-- The rows of the session and the committed ones are exclusive, and the row of the request is live.
pub record Sound (id : String) (s : Session) : Type 0 where
  pub rows : IsExclusive s.working.instances
  pub stored : IsExclusive s.committed.instances
  pub live : (i : ServiceInstance) → find id s.working.instances ≡ some i → is_live i ≡ true

-- An object that may be written to the row of the request.
pub record Writes (id : String) (i : ServiceInstance) (s : Session) : Type 0 where
  pub same_id : i.id ≡ id
  pub fits : Fits s.working.instances i
  pub is_not_gone : is_live i ≡ true

pub Writes-Same :
    (id : String) (i j : ServiceInstance) (s : Session) → Same i j → Writes id i s → Writes id j s
Writes-Same id i j s e w = record {
  same_id = e.0 ∙ w.same_id;
  fits = record {
    alone = λ d a h k. w.fits.alone d a (subst (λ ds. elem d ds ≡ true) e.1 h) k ∙ sym e.0;
  };
  is_not_gone =
      subst (λ t. is_live (record j { deactivated_at = t }) ≡ true) (sym e.2) w.is_not_gone;
}

abbrev with_rows : Session → List ServiceInstance → Session
with_rows s rows = record s { working = record s.working { instances = rows } }

pub put_instance-Post :
    (id : String) (i : ServiceInstance) (s : Session)
    → Sound id s
    → Writes id i s
    → Post (Sound id) (λ _. Writes id i) (put_instance i s)
unfolding put_instance
put_instance-Post id i s p w =
    ok-Post (Sound id) (λ _. Writes id i) tt (with_rows s (write i s.working.instances))
      (record {
        rows = write-IsExclusive i s.working.instances p.rows w.fits;
        stored = p.stored;
        live = λ j h. elim (find-write id i s.working.instances) [
          | inl e ↦ p.live j (sym e ∙ h)
          | inr (e, _) ↦ (let live = w.is_not_gone in ground arith)
        ];
      })
      (record {
        same_id = w.same_id;
        fits = Fits-write i i s.working.instances refl w.fits;
        is_not_gone = w.is_not_gone;
      })

pub commit-Post :
    (id : String) (Q : Session → Type 0) (s : Session)
    → Sound id s
    → Q (record s { committed = s.working })
    → Post (Sound id) (λ _. Q) (commit s)
unfolding commit
commit-Post id Q s p q =
    ok-Post (Sound id) (λ _. Q) tt (record s { committed = s.working })
      (record { rows = p.rows; stored = p.rows; live = p.live }) q

module _ (id : String) (i : ServiceInstance) (s : Session) (p : Sound id s)
    (w : Writes id i s) where
  retyped_live :
      (kind : InstanceType) (j : ServiceInstance)
      → find i.id (set_type i.id kind s.working.instances) ≡ some j
      → is_live j ≡ true
  retyped_live kind j h =
      let (k, f, l) = find-set_type i.id kind s.working.instances j h in
      l ∙ p.live k (subst (λ a. find a s.working.instances ≡ some k) w.same_id f)

  retyped-Sound :
      (kind : InstanceType) → Sound id (with_rows s (set_type i.id kind s.working.instances))
  retyped-Sound kind = record {
    rows = set_type-IsExclusive i.id kind s.working.instances p.rows;
    stored = p.stored;
    live = λ j h.
        retyped_live kind j
          (subst (λ a. find a (set_type i.id kind s.working.instances) ≡ some j) (sym w.same_id) h);
  }

  reload-Post :
      (kind : InstanceType) (o : Option ServiceInstance)
      → find i.id (set_type i.id kind s.working.instances) ≡ o
      → Post (Sound id) (Writes id) (reload o, with_rows s (set_type i.id kind s.working.instances))
  reload-Post kind none h = err-Post (Sound id) (Writes id) attribute_error _ (retyped-Sound kind)
  reload-Post kind (some j) h = ok-Post (Sound id) (Writes id) j _ (retyped-Sound kind) (record {
    same_id = find-id i.id (set_type i.id kind s.working.instances) j h ∙ w.same_id;
    fits =
        Fits-stored (set_type i.id kind s.working.instances) i.id j
          (set_type-IsExclusive i.id kind s.working.instances p.rows) h (retyped_live kind j h);
    is_not_gone = retyped_live kind j h;
  })

  pub change_instance_type-Post :
      (kind : InstanceType) → Post (Sound id) (Writes id) (change_instance_type i kind s)
  unfolding change_instance_type
  change_instance_type-Post kind =
      let rows = set_type i.id kind s.working.instances in
      if-Post (Sound id) (Writes id) (same_type i.instance_type kind) (ok i, s) _
        (ok-Post (Sound id) (Writes id) i s p w)
        (if-Post (Sound id) (Writes id) (can_update_to_type i.instance_type kind)
          (reload (find i.id rows), with_rows s rows) (err not_implemented, s)
          (reload-Post kind (find i.id rows) refl)
          (err-Post (Sound id) (Writes id) not_implemented s p))
