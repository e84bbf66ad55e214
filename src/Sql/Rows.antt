-- ===== src/Sql/Rows.antt =====
-- What the laws of a table say of a query for one row and of a conditional update.
use mathlib.Core.List.{Mem, mem-singleton, nil≢cons, mem-cons_self, length-eq-one_iff}
use mathlib.Core.List.Perm
use ride_flow.Prelude.{
  Bool, List, [], ◌∷◌, map, ◌≡◌, ◌⊎◌, inl, inr, refl, sym, ◌∙◌, ap, subst, filterb, Perm,
  map_where_none,
}
use ride_flow.Sql.{Sql}

-- A list with one row, reordered, is itself.
one-perm : {A : Type 0} → IsSet A → (xs : List A) (x : A) → Perm xs (x ∷ []) → xs ≡ x ∷ []
one-perm s xs x p =
    let (y, e) = length-eq-one_iff.0 (Perm.length-eq p) in
    e
    ∙ ap (λ z. z ∷ [])
        ((mem-singleton s).0 ((Perm.mem_iff p).0 (subst (Mem y) (sym e) mem-cons_self)))

module _ ⦃sql : Sql⦄ {Row : Type 0} (p : Row → Bool) (t : sql.Table Row) where
  -- A query that no row meets returns no row.
  pub select-none : filterb p (sql.rows t) ≡ [] → sql.select p t ≡ []
  select-none h = Perm.eq-nil (subst (Perm (sql.select p t)) h (sql.select-rows p t))

  -- A query that one row meets returns that row.
  pub select-one : IsSet Row → (r : Row) → filterb p (sql.rows t) ≡ r ∷ [] → sql.select p t ≡ r ∷ []
  select-one s r h =
      one-perm s (sql.select p t) r (subst (Perm (sql.select p t)) h (sql.select-rows p t))

  -- And back: what a query returned is what there is.
  pub none-select : sql.select p t ≡ [] → filterb p (sql.rows t) ≡ []
  none-select h =
      sym (Perm.nil-eq (subst (λ xs. Perm xs (filterb p (sql.rows t))) h (sql.select-rows p t)))

  pub one-select : IsSet Row → (r : Row) → sql.select p t ≡ r ∷ [] → filterb p (sql.rows t) ≡ r ∷ []
  one-select s r h =
      one-perm s (filterb p (sql.rows t)) r
        (Perm.symm (subst (λ xs. Perm xs (filterb p (sql.rows t))) h (sql.select-rows p t)))

  module _ (f : Row → Row) where
    -- An update that no row meets returns nothing and changes nothing; one that some row meets
    -- returns a row.
    pub update-cases :
        ((filterb p (sql.rows t) ≡ [])
          × ((sql.update p f t).0 ≡ [])
          × (sql.rows (sql.update p f t).1 ≡ sql.rows t))
        ⊎ ((r : Row) × (rs : List Row) × (x : Row) × (xs : List Row) × (filterb p (sql.rows t)
              ≡ r ∷ rs)
            × ((sql.update p f t).0 ≡ x ∷ xs))
    update-cases =
        go (filterb p (sql.rows t)) refl (sql.update p f t).0 (sql.update-returning p f t)
      where
        go :
            (ms : List Row)
            → filterb p (sql.rows t) ≡ ms
            → (us : List Row) → Perm us (map f (filterb p (sql.rows t)))
            → ((filterb p (sql.rows t) ≡ [])
                × (us ≡ [])
                × (sql.rows (sql.update p f t).1 ≡ sql.rows t))
              ⊎ ((r : Row) × (rs : List Row) × (x : Row) × (xs : List Row) × (filterb p (sql.rows t)
                    ≡ r ∷ rs)
                  × (us ≡ x ∷ xs))
        go [] e us q = inl (
          e,
          Perm.eq-nil (subst (λ ms. Perm us (map f ms)) e q),
          sql.rows-update p f t ∙ map_where_none p f (sql.rows t) e,
        )
        go (r ∷ rs) e [] q = absurd (nil≢cons (Perm.nil-eq (subst (λ ms. Perm [] (map f ms)) e q)))
        go (r ∷ rs) e (x ∷ xs) q = inr (r, rs, x, xs, e, refl)
