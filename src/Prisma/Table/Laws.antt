-- ===== src/Prisma/Table/Laws.antt =====
-- What follows from the laws of a table.
use onsheet_backend.Base.{
  if◌then◌else◌, ap, Option, Bool, true, false, not, ◌&&◌, ◌∙◌, is_empty, Bool, true, none, some,
  List, [], ◌∷◌, ◌≡◌, refl, Eq, ◌==◌, arith, find_first, keep, head?, any, is_some,
}
use onsheet_backend.Prisma.Table.{Stamp, Table, IsLawful, clashes, upsert_law, create_law}

pub eq_refl {ℓ} : {K : Type ℓ} ⦃e : Eq K⦄ (k : K) → (k == k) ≡ true
eq_refl ⦃e⦄ k = (e.same_iff k k).1 refl

pub some_eq : {R : Type 0} (x r : R) → some x ≡ some r → x ≡ r
some_eq x r h = cc

abbrev pub upserted : {R : Type 0} → Option R → R → (R → R) → R
upserted none r f = r
upserted (some r') r f = f r'

module _ {K R : Type 0} ⦃e : Eq K⦄ (t : Table K R) {key : R → K} {clash : R → R → Bool}
    (laws : IsLawful t key clash) where
  head-find_lem :
      (s : t.T) (k : K) (l : List R)
      → ((j : K) → find_first (λ r. key r == j) l ≡ keep (λ r. key r == k) (t.find_unique s j))
      → head? l ≡ t.find_unique s k
  head-find_lem s k [] h =
      elim (t.find_unique s k) as (λ o. t.find_unique s k ≡ o → none ≡ o) [
        | none ↦ λ _. refl
        | some r ↦ λ f. ground (arith, h k, laws.find_key s k r f, eq_refl k)
      ]
        refl
  head-find_lem s k (r ∷ l) h = ground (arith, h (key r), eq_refl (key r), e.same_iff (key r) k)

  -- A filter on the unique key finds the row of that key first.
  pub head-find_many :
      (s : t.T) (k : K) → head? (t.find_many s (λ r. key r == k)) ≡ t.find_unique s k
  head-find_many s k =
      head-find_lem s k (t.find_many s (λ r. key r == k)) (laws.find-find_many s (λ r. key r == k))

  -- What `findMany` lists first passes the filter.
  pub passes_of_head :
      (s : t.T) (q : R → Bool) (r : R) → head? (t.find_many s q) ≡ some r → q r ≡ true
  passes_of_head s q r h = passes_lem s q r (t.find_many s q) (laws.find-find_many s q) h
    where
      passes_lem :
          (s : t.T) (q : R → Bool) (r : R) (l : List R)
          → ((k : K) → find_first (λ x. key x == k) l ≡ keep q (t.find_unique s k))
          → head? l ≡ some r
          → q r ≡ true
      passes_lem s q r [] f h = ground arith
      passes_lem s q r (x ∷ l) f h = ground (arith, f (key x), eq_refl (key x))

  -- And it is stored, under its key.
  pub found_of_head :
      (s : t.T) (q : R → Bool) (r : R)
      → head? (t.find_many s q) ≡ some r
      → t.find_unique s (key r) ≡ some r
  found_of_head s q r h = found_lem s q r (t.find_many s q) (laws.find-find_many s q (key r)) h
    where
      found_lem :
          (s : t.T) (q : R → Bool) (r : R) (l : List R)
          → find_first (λ x. key x == key r) l ≡ keep q (t.find_unique s (key r))
          → head? l ≡ some r
          → t.find_unique s (key r) ≡ some r
      found_lem s q r [] f h = ground arith
      found_lem s q r (x ∷ l) f h = ground (arith, eq_refl (key x), ap key (some_eq x r h))

  -- A stored row that passes the filter is listed.
  pub is_empty-find_many_of_found :
      (s : t.T) (q : R → Bool) (k : K) (r : R)
      → t.find_unique s k ≡ some r
      → q r ≡ true
      → is_empty (t.find_many s q) ≡ false
  is_empty-find_many_of_found s q k r found passes =
      listed_lem q r (t.find_many s q) (laws.find-find_many s q k) found passes
    where
      listed_lem :
          (q : R → Bool) (r : R) (l : List R)
          → find_first (λ x. key x == k) l ≡ keep q (t.find_unique s k)
          → t.find_unique s k ≡ some r
          → q r ≡ true
          → is_empty l ≡ false
      listed_lem q r [] f h e = ground arith
      listed_lem q r (x ∷ l) f h e = refl

  pub is_empty-find_many :
      (s : t.T) (q : R → Bool) → ((r : R) → q r ≡ false) → is_empty (t.find_many s q) ≡ true
  is_empty-find_many s q never = go (t.find_many s q) (passes_of_head s q)
    where
      go : (l : List R) → ((r : R) → head? l ≡ some r → q r ≡ true) → is_empty l ≡ true
      go [] h = refl
      go (x ∷ l) h = ground (arith, h x, never x)

  -- A deletion spares a key whose row the filter does not pass.
  pub find-delete_many_spared :
      (s : t.T) (q : R → Bool) (k : K)
      → ((r : R) → t.find_unique s k ≡ some r → q r ≡ false)
      → t.find_unique (t.delete_many s q).0 k ≡ t.find_unique s k
  find-delete_many_spared s q k spared =
      laws.find-delete_many s q k ∙ kept_lem (t.find_unique s k) spared
    where
      kept_lem : (o : Option R) → ((r : R) → o ≡ some r → q r ≡ false) → keep (λ r. not (q r)) o ≡ o
      kept_lem none h = refl
      kept_lem (some r) h = ground (arith, h r refl)

  -- What `findMany` lists under a key is the stored row of that key, if it passes.
  pub any-find_many :
      (s : t.T) (q : R → Bool) (k : K)
      → any (λ r. key r == k) (t.find_many s q) ≡ is_some (keep q (t.find_unique s k))
  any-find_many s q k = any_lem (t.find_many s q) ∙ ap is_some (laws.find-find_many s q k)
    where
      any_lem : (l : List R) → any (λ r. key r == k) l ≡ is_some (find_first (λ r. key r == k) l)
      any_lem [] = refl
      any_lem (x ∷ l) = ground (arith, any_lem l)

  module _ (free : (r x : R) → clash r x ≡ false) where
    clashes_free : (s : t.T) (r : R) → clashes t key clash s r ≡ false
    clashes_free s r =
        rw (is_empty-find_many s (λ x. clash r x && not (key x == key r)) (λ x. rw (free r x)))

    -- With no other unique constraint a new key is always written.
    create_law_free :
        (s : t.T) (r : R)
        → t.find_unique s (key r) ≡ none
        → create_law t key clash s r ≡ some (t.write s r, r)
    create_law_free s r absent = rw (absent, clashes_free s r)

    pub create_free :
        (s : t.T) (f : Stamp → R)
        → t.find_unique s (key (f (t.stamp s))) ≡ none
        → t.create s f ≡ some (t.write s (f (t.stamp s)), f (t.stamp s))
    create_free s f absent = laws.create_lem s f ∙ create_law_free s (f (t.stamp s)) absent

    module _ (s : t.T) (k : K) (f : Stamp → R) (g : R → R) (kf : (z : Stamp) → key (f z) ≡ k)
        (kg : (r : R) → key (g r) ≡ key r) where
      abbrev row : R
      row = upserted (t.find_unique s k) (f (t.stamp s)) g

      upsert_law_free :
          (o : Option R)
          → t.find_unique s k ≡ o
          → upsert_law t key clash s o (f (t.stamp s)) g
            ≡ some (t.write s (upserted o (f (t.stamp s)) g), upserted o (f (t.stamp s)) g)
      upsert_law_free none h =
          create_law_free s (f (t.stamp s)) (ap (t.find_unique s) (kf (t.stamp s)) ∙ h)
      upsert_law_free (some r) h = rw (clashes_free s (g r))

      -- With no other unique constraint an upsert always writes.
      pub upsert_free : t.upsert s k f g ≡ some (t.write s row, row)
      upsert_free = laws.upsert_lem s k f g kf kg ∙ upsert_law_free (t.find_unique s k) refl

      key-row : (o : Option R) → t.find_unique s k ≡ o → key (upserted o (f (t.stamp s)) g) ≡ k
      key-row none h = kf (t.stamp s)
      key-row (some r) h = kg r ∙ laws.find_key s k r h

      pub find-upsert_free :
          (j : K)
          → t.find_unique (t.write s row) j ≡ (if k == j then some row else t.find_unique s j)
      find-upsert_free j =
          laws.find-write s row j
          ∙ ap (λ x. if x == j then some row else t.find_unique s j)
              (key-row (t.find_unique s k) refl)
