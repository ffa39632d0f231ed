-- ===== src/Prisma/Table/Keeping.antt =====
-- Which rows an operation on a table keeps: those of other keys, and what it leaves under its own.
use onsheet_backend.Base.{
  All, if◌then◌else◌, ap, sym, ◌⊎◌, inl, inr, Option, Bool, true, false, ◌||◌, ◌∙◌, Bool, true,
  none, some, List, [], ◌∷◌, ◌≡◌, refl, Eq, ◌==◌, arith, is_some,
}
use onsheet_backend.Prisma.Table.{
  create_many_law, Stamp, Table, IsLawful, clashes, upsert_law, update_law, delete_law,
}
use onsheet_backend.Prisma.Table.Laws.{some_eq}

row_lem :
    {T R : Type 0} (s s' : T) (x r : R)
    → ◌≡◌ {A = Option (T × R)} (some (s, x)) (some (s', r))
    → x ≡ r
row_lem s s' x r h = cc

-- the table that a call leaves: a failed one leaves it as it was
abbrev pub left_by {ℓ} : {T R : Type ℓ} → T → Option (T × R) → T
left_by s none = s
left_by s (some (s', r)) = s'

module _ {K R : Type 0} ⦃e : Eq K⦄ (t : Table K R) {key : R → K} {clash : R → R → Bool}
    (laws : IsLawful t key clash) where
  -- An insertion keeps every row that is stored.
  pub find-create_kept :
      (s : t.T) (f : Stamp → R) (k : K) (r : R)
      → t.find_unique s k ≡ some r
      → t.find_unique (left_by s (t.create s f)) k ≡ some r
  find-create_kept s f k r found =
      rw (laws.create_lem s f) (kept_lem (f (t.stamp s)) (clashes t key clash s (f (t.stamp s))))
    where
      kept_lem :
          (x : R) (c : Bool)
          → t.find_unique
              (left_by s
                (if is_some (t.find_unique s (key x)) || c then none else some (t.write s x, x)))
              k
            ≡ some r
      kept_lem x c = ground (arith, found, laws.find-write s x k, e.same_iff (key x) k)

  -- A row that is there after an insertion was there before, or is the new one.
  pub find-create_new :
      (s : t.T) (f : Stamp → R) (k : K) (r : R)
      → t.find_unique (left_by s (t.create s f)) k ≡ some r
      → (t.find_unique s k ≡ some r) ⊎ (f (t.stamp s) ≡ r)
  find-create_new s f k r found =
      new_lem (f (t.stamp s)) (clashes t key clash s (f (t.stamp s)))
        (sym (ap (λ o. t.find_unique (left_by s o) k) (laws.create_lem s f)) ∙ found)
    where
      kept_or_new :
          (x : R) (b : Bool)
          → (if b then some x else t.find_unique s k) ≡ some r
          → (t.find_unique s k ≡ some r) ⊎ (x ≡ r)
      kept_or_new x true h = inr (some_eq x r h)
      kept_or_new x false h = inl h

      written_lem :
          (x : R) (b : Bool)
          → t.find_unique (left_by s (if b then none else some (t.write s x, x))) k ≡ some r
          → (t.find_unique s k ≡ some r) ⊎ (x ≡ r)
      written_lem x true h = inl h
      written_lem x false h = kept_or_new x (key x == k) (sym (laws.find-write s x k) ∙ h)

      new_lem :
          (x : R) (c : Bool)
          → t.find_unique
              (left_by s
                (if is_some (t.find_unique s (key x)) || c then none else some (t.write s x, x)))
              k
            ≡ some r
          → (t.find_unique s k ≡ some r) ⊎ (x ≡ r)
      new_lem x c h = written_lem x (is_some (t.find_unique s (key x)) || c) h

  -- Insertions under other keys leave a key alone.
  pub find-create_apart :
      (s : t.T) (f : Stamp → R) (k : K)
      → ((z : Stamp) → (key (f z) == k) ≡ false)
      → t.find_unique (left_by s (t.create s f)) k ≡ t.find_unique s k
  find-create_apart s f k apart = rw (laws.create_lem s f) (
      apart_lem (f (t.stamp s))
        (is_some (t.find_unique s (key (f (t.stamp s)))) || clashes t key clash s (f (t.stamp s)))
        (apart (t.stamp s)))
    where
      apart_lem :
          (x : R) (b : Bool)
          → (key x == k) ≡ false
          → t.find_unique (left_by s (if b then none else some (t.write s x, x))) k
            ≡ t.find_unique s k
      apart_lem x true h = refl
      apart_lem x false h = ground (arith, laws.find-write s x k, h)

  created_lem :
      (s : t.T) (f : Stamp → R) (fs : List (Stamp → R)) (k : K) (s' : t.T) (o : Option (t.T × R))
      → t.find_unique (left_by s o) k ≡ t.find_unique s k
      → ((now : t.T) → t.create_many now fs ≡ some s' → t.find_unique s' k ≡ t.find_unique now k)
      → create_many_law t s o fs ≡ some s'
      → t.find_unique s' k ≡ t.find_unique s k
  created_lem s f fs k s' none kept more h = ground (arith, h)
  created_lem s f fs k s' (some (now, r)) kept more h = more now h ∙ kept

  pub find-create_many_apart :
      (s : t.T) (fs : List (Stamp → R)) (k : K) (s' : t.T)
      → All (λ f. (z : Stamp) → (key (f z) == k) ≡ false) fs
      → t.create_many s fs ≡ some s'
      → t.find_unique s' k ≡ t.find_unique s k
  find-create_many_apart s [] k s' apart h =
      ap (λ x. t.find_unique x k) (sym (some_eq s s' (sym (laws.create_many-nil s) ∙ h)))
  find-create_many_apart s (f ∷ fs) k s' apart h =
      created_lem s f fs k s' (t.create s f) (find-create_apart s f k apart.0)
        (λ now e. find-create_many_apart now fs k s' apart.1 e)
        (sym (laws.create_many-cons s f fs) ∙ h)

  -- What an insertion gives back is the new row.
  pub create-row :
      (s s' : t.T) (f : Stamp → R) (r : R) → t.create s f ≡ some (s', r) → f (t.stamp s) ≡ r
  create-row s s' f r h =
      go (is_some (t.find_unique s (key (f (t.stamp s)))) || clashes t key clash s (f (t.stamp s)))
        (sym (laws.create_lem s f) ∙ h)
    where
      branch : Bool → Option (t.T × R)
      branch b = if b then none else some (t.write s (f (t.stamp s)), f (t.stamp s))

      go : (b : Bool) → ◌≡◌ {A = Option (t.T × R)} (branch b) (some (s', r)) → f (t.stamp s) ≡ r
      go true h' = ground (arith, h')
      go false h' = row_lem (t.write s (f (t.stamp s))) s' (f (t.stamp s)) r h'

  -- What a deletion gives back is the row of its key.
  pub key-delete : (s s' : t.T) (k : K) (r : R) → t.delete s k ≡ some (s', r) → key r ≡ k
  key-delete s s' k r h = go (t.find_unique s k) refl (sym (laws.delete_lem s k) ∙ h)
    where
      go : (o : Option R) → t.find_unique s k ≡ o → delete_law t s k o ≡ some (s', r) → key r ≡ k
      go none e h' = ground (arith, h')
      go (some x) e h' = sym (ap key (row_lem (t.erase s k) s' x r h')) ∙ laws.find_key s k x e

  -- An update and a deletion keep the rows of other keys.
  module _ (s : t.T) (j k : K) (apart : (j == k) ≡ false) where
    pub find-update_apart :
        (f : R → R)
        → ((r : R) → key (f r) ≡ key r)
        → t.find_unique (left_by s (t.update s j f)) k ≡ t.find_unique s k
    find-update_apart f same_key = rw (laws.update_lem s j f same_key) (go (t.find_unique s j) refl)
      where
        go :
            (o : Option R)
            → t.find_unique s j ≡ o
            → t.find_unique (left_by s (update_law t key clash s o f)) k ≡ t.find_unique s k
        go none h = refl
        go (some r) h =
            ground (arith, laws.find-write s (f r) k, same_key r, laws.find_key s j r h, apart)

    pub find-upsert_apart :
        (f : Stamp → R) (g : R → R)
        → ((z : Stamp) → key (f z) ≡ j)
        → ((r : R) → key (g r) ≡ key r)
        → t.find_unique (left_by s (t.upsert s j f g)) k ≡ t.find_unique s k
    find-upsert_apart f g kf kg = rw (laws.upsert_lem s j f g kf kg) (go (t.find_unique s j) refl)
      where
        go :
            (o : Option R)
            → t.find_unique s j ≡ o
            → t.find_unique (left_by s (upsert_law t key clash s o (f (t.stamp s)) g)) k
              ≡ t.find_unique s k
        go none h = ground (arith, laws.find-write s (f (t.stamp s)) k, kf (t.stamp s), apart)
        go (some r) h =
            ground (arith, laws.find-write s (g r) k, kg r, laws.find_key s j r h, apart)

    pub find-delete_apart : t.find_unique (left_by s (t.delete s j)) k ≡ t.find_unique s k
    find-delete_apart = rw (laws.delete_lem s j) (go (t.find_unique s j))
      where
        go : (o : Option R) → t.find_unique (left_by s (delete_law t s j o)) k ≡ t.find_unique s k
        go none = refl
        go (some r) = ground (arith, laws.find-erase s j k, apart)
