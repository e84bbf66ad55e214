-- ===== src/Drivers/Saved.antt =====
-- A profile that a request of a driver reads or makes, and saves.
use mathlib.Core.List.Perm
use mathlib.Core.List.{
  Mem, Mem-prop, not-mem-nil, eq-or-mem_of_mem-cons, mem-cons_self, mem-cons_of_mem,
}
use mathlib.Core.Logic.Or
use ride_flow.Prelude.{
  Bool, true, nat_eq, nat_eqb, nat_eqb_iff, if◌then◌else◌, List, [], ◌∷◌, Option, none, some, All,
  Mem-All, All-map_where, mem-last, map_where, filterb, filterb-Mem, ◌≡◌, refl, sym, ap, ◌∙◌, subst,
  Bool-cases, inl, inr,
}
use ride_flow.Models.{User, DriverProfile}
use ride_flow.Sql.{Sql}
use ride_flow.Database.{Db, Result, ok, scalar_one_or_none}
use ride_flow.Database.Sessions.{bind-ok}
use ride_flow.Request.{Env}
use ride_flow.Drivers.{new_profile, profile_of, keep_or_create, get_or_create_profile, save_profile}

filterb-meets :
    {A : Type 0} (p : A → Bool) (xs : List A) (x : A) → Mem x (filterb p xs) → p x ≡ true
filterb-meets p [] x m = absurd (not-mem-nil m)
filterb-meets p (y ∷ xs) x m = elim (Bool-cases (p y)) [
  | inl kept ↦
      let prop : IsProp (p x ≡ true) = hlevel in
      Or.elim prop (eq-or-mem_of_mem-cons (rw kept at m)) (λ e. ap p e ∙ kept)
        (λ k. filterb-meets p xs x k)
  | inr left ↦ filterb-meets p xs x (rw left at m)
]

map_where-Mem :
    {A : Type 0} (q : A → Bool) (g : A → A) (xs : List A) (x : A)
    → Mem x xs
    → q x ≡ true
    → Mem (g x) (map_where q g xs)
map_where-Mem q g [] x m hit = absurd (not-mem-nil m)
map_where-Mem q g (y ∷ xs) x m hit =
    Or.elim Mem-prop (eq-or-mem_of_mem-cons m)
      (λ e.
        subst (λ z. Mem (g x) (z ∷ map_where q g xs))
          (ap g e ∙ sym (ap (λ b. if b then g y else y) (ap q (sym e) ∙ hit))) mem-cons_self)
      (λ k. mem-cons_of_mem _ (map_where-Mem q g xs x k hit))

only_profile :
    (xs : List DriverProfile) (p : DriverProfile)
    → scalar_one_or_none xs ≡ ok (some p)
    → xs ≡ p ∷ []
only_profile [] p h = cc
only_profile (x ∷ []) p h = cc
only_profile (x ∷ y ∷ xs) p h = cc

replaced :
    (q r : DriverProfile)
    → (if nat_eqb r.id q.id then q else r).id ≡ q.id
    → (if nat_eqb r.id q.id then q else r) ≡ q
replaced q r = elim (Bool-cases (nat_eqb r.id q.id)) [
  | inl hit ↦
      subst (λ (b : Bool). (if b then q else r).id ≡ q.id → (if b then q else r) ≡ q) (sym hit)
        (λ _. refl)
  | inr miss ↦
      subst (λ (b : Bool). (if b then q else r).id ≡ q.id → (if b then q else r) ≡ q) (sym miss)
        (λ same. let hit = (nat_eqb_iff r.id q.id).1 same in absurd (cc (hit, miss)))
]

module _ ⦃sql : Sql⦄ (user : User) where
  -- A row of the user's.
  abbrev pub IsMade : DriverProfile → Db → Type 0
  IsMade p db = Mem p (sql.rows db.driver_profiles) × (p.user_id ≡ user.id)

  -- The profile is the user's, it is in the table as it is here, and no row under its identifier is
  -- another.
  abbrev pub IsStored : DriverProfile → Db → Type 0
  IsStored p db =
      Mem p (sql.rows db.driver_profiles)
      × (p.user_id ≡ user.id)
      × All (λ (r : DriverProfile). r.id ≡ p.id → r ≡ p) (sql.rows db.driver_profiles)

  kept-IsMade :
      (env : Env) (found : Option DriverProfile) (db : Db) (p : DriverProfile)
      → (profile_of user.id db).0 ≡ ok found
      → (keep_or_create env user found db).0 ≡ ok p
      → IsMade p (keep_or_create env user found db).1
  unfolding keep_or_create profile_of
  kept-IsMade env none db p read done =
      let new = new_profile env user in
      let same : new ≡ p = cc done in
      subst (λ q. IsMade q (record db { driver_profiles = sql.add new db.driver_profiles })) same
        (
          subst (Mem new) (sym (sql.rows-add new db.driver_profiles))
              (mem-last (sql.rows db.driver_profiles)),
          refl,
        )
  kept-IsMade env (some q) db p read done =
      let same : q ≡ p = cc done in
      let own = λ (r : DriverProfile). nat_eqb r.user_id user.id in
      let one = only_profile (sql.select own db.driver_profiles) q read in
      let among =
        (Perm.mem_iff (sql.select-rows own db.driver_profiles)).0
          (subst (Mem q) (sym one) mem-cons_self) in
      subst (λ p. IsMade p db) same
        (
          filterb-Mem own (sql.rows db.driver_profiles) q among,
          (nat_eqb_iff q.user_id user.id).0
              (filterb-meets own (sql.rows db.driver_profiles) q among),
        )

  pub get_or_create-IsMade :
      (env : Env) (db : Db) (p : DriverProfile)
      → (get_or_create_profile env user db).0 ≡ ok p
      → IsMade p (get_or_create_profile env user db).1
  unfolding get_or_create_profile profile_of
  get_or_create-IsMade env db p done =
      let (found, read, rest) = bind-ok (profile_of user.id) (keep_or_create env user) db done in
      subst (λ (x : Result DriverProfile × Db). IsMade p x.1) (sym rest)
        (kept-IsMade env found db p read (ap (λ x. x.0) (sym rest) ∙ done))

  pub save-IsStored :
      (p q : DriverProfile) (db : Db)
      → IsMade p db
      → p.id ≡ q.id
      → p.user_id ≡ q.user_id
      → IsStored q (save_profile q db).1
  unfolding save_profile
  save-IsStored p q db (there, own) id owner =
      let hits = λ (r : DriverProfile). nat_eqb r.id q.id in
      let written = sql.rows-update hits (λ _. q) db.driver_profiles in
      let rows = sql.rows db.driver_profiles in
      (
        subst (Mem q) (sym written)
            (map_where-Mem hits (λ _. q) rows p there ((nat_eqb_iff p.id q.id).1 id)),
        sym owner ∙ own,
        subst (All (λ (r : DriverProfile). r.id ≡ q.id → r ≡ q)) (sym written) (
            All-map_where (λ (r : DriverProfile). r.id ≡ q.id → r ≡ q) hits (λ _. q)
              (λ r _. replaced q r) rows (Mem-All {P = λ _. Unit} rows (λ _ _. tt))),
      )
