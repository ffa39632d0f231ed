-- ===== src/Prisma/Memory.antt =====
-- An in-memory table that meets the laws, to instantiate the client in tests. The supply of
-- stamps is part of the state; a stamp is used up by each new row.
use mathlib.Core.List.{Perm}
use mathlib.Core.List.Perm
use onsheet_backend.Base.{
  All, map, ℕ, Bool, true, false, not, ◌&&◌, ◌||◌, Option, none, some, List, [], ◌∷◌, ◌≡◌, refl, Eq,
  ◌==◌, arith, is_some, is_empty, find_first, keep, filter, length, if◌then◌else◌, All, Bool-cases,
  inl, inr,
}
use onsheet_backend.Prisma.Table.{
  HasDistinctKeys, Stamp, Table, IsLawful, Direction, precedes, IsOrdered, update_law, upsert_law,
  delete_law, update_where, create_many_law,
}

pub record Rows (R : Type 0) : Type 0 where
  pub rows : List R
  pub supply : List Stamp

abbrev first_stamp : List Stamp → Stamp
first_stamp [] = record { id = ""; token = ""; now = 0 }
first_stamp (z ∷ zs) = z

abbrev rest_stamps : List Stamp → List Stamp
rest_stamps [] = []
rest_stamps (z ∷ zs) = zs

abbrev insert_by : {R : Type 0} → Direction → (R → ℕ) → R → List R → List R
insert_by d f x [] = x ∷ []
insert_by d f x (y ∷ ys) =
    let rest = insert_by d f x ys in if precedes d f x y then x ∷ y ∷ ys else y ∷ rest

abbrev sort_by : {R : Type 0} → Direction → (R → ℕ) → List R → List R
sort_by d f [] = []
sort_by d f (x ∷ xs) = insert_by d f x (sort_by d f xs)

module _ {K R : Type 0} ⦃e : Eq K⦄ (key : R → K) (clash : R → R → Bool) where
  abbrev distinct : List R → List R
  distinct [] = []
  distinct (x ∷ l) = x ∷ filter (λ y. not (key y == key x)) (distinct l)

  abbrev find_row : Rows R → K → Option R
  find_row s k = find_first (λ r. key r == k) s.rows

  abbrev store : Rows R → R → Rows R
  store s r = record {
    rows = r ∷ filter (λ x. not (key x == key r)) s.rows;
    supply = rest_stamps s.supply;
  }

  abbrev discard : Rows R → K → Rows R
  discard s k = record s { rows = filter (λ x. not (key x == k)) s.rows }

  abbrev blocked : Rows R → R → Bool
  blocked s r = not (is_empty (filter (λ x. clash r x && not (key x == key r)) (distinct s.rows)))

  abbrev create_row : Rows R → R → Option (Rows R × R)
  create_row s r = if is_some (find_row s (key r)) || blocked s r then none else some (store s r, r)

  abbrev update_row : Rows R → Option R → (R → R) → Option (Rows R × R)
  update_row s none f = none
  update_row s (some r) f = if blocked s (f r) then none else some (store s (f r), f r)

  abbrev upsert_row : Rows R → Option R → R → (R → R) → Option (Rows R × R)
  upsert_row s none r f = create_row s r
  upsert_row s (some r') r f = update_row s (some r') f

  abbrev delete_row : Rows R → K → Option R → Option (Rows R × R)
  delete_row s k none = none
  delete_row s k (some r) = some (discard s k, r)

  abbrev create_rows : Rows R → List (Stamp → R) → Option (Rows R)
  create_rows s [] = some s
  create_rows s (f ∷ fs) = elim (create_row s (f (first_stamp s.supply))) [
    | none ↦ none
    | some (s', r) ↦ create_rows s' fs
  ]

  abbrev pub memory : Table K R
  memory = record {
    T = Rows R;
    find_unique = find_row;
    find_many = λ s p. filter p (distinct s.rows);
    order_by = sort_by;
    stamp = λ s. first_stamp s.supply;
    create = λ s f. create_row s (f (first_stamp s.supply));
    update = λ s k f. update_row s (find_row s k) f;
    upsert = λ s k f g. upsert_row s (find_row s k) (f (first_stamp s.supply)) g;
    delete = λ s k. delete_row s k (find_row s k);
    delete_many = λ s p. (
      record s { rows = filter (λ r. not (p r)) (distinct s.rows) },
      length (filter p (distinct s.rows)),
    );
    update_many = λ s p f. record s { rows = map (λ r. if p r then f r else r) s.rows };
    create_many = create_rows;
    write = store;
    erase = discard;
  }

  find_key : (l : List R) (k : K) (r : R) → find_first (λ x. key x == k) l ≡ some r → key r ≡ k
  find_key [] k r h = ground arith
  find_key (x ∷ l) k r h = ground (arith, find_key l k r, e.same_iff (key x) k)

  find-remove :
      (l : List R) (j k : K)
      → find_first (λ x. key x == k) (filter (λ x. not (key x == j)) l)
        ≡ (if j == k then none else find_first (λ x. key x == k) l)
  find-remove [] j k = ground arith
  find-remove (x ∷ l) j k =
      ground (arith, find-remove l j k, e.same_iff (key x) k, e.same_iff (key x) j, e.same_iff j k)

  filter-filter : (p q : R → Bool) (l : List R) → filter p (filter q l) ≡ filter q (filter p l)
  filter-filter p q [] = refl
  filter-filter p q (x ∷ l) = ground (arith, filter-filter p q l)

  find-map :
      (p : R → Bool) (f : R → R)
      → ((r : R) → key (f r) ≡ key r)
      → (l : List R) (k : K)
      → find_first (λ x. key x == k) (map (λ r. if p r then f r else r) l)
        ≡ update_where p f (find_first (λ x. key x == k) l)
  find-map p f h [] k = refl
  find-map p f h (x ∷ l) k =
      ground (arith, find-map p f h l k, h x, e.same_iff (key x) k, e.same_iff (key (f x)) k)

  find-filter :
      (l : List R) (p : R → Bool) (k : K)
      → find_first (λ x. key x == k) (filter p (distinct l))
        ≡ keep p (find_first (λ x. key x == k) l)
  find-filter [] p k = refl
  find-filter (x ∷ l) p k = ground (
    arith,
    filter-filter p (λ y. not (key y == key x)) (distinct l),
    find-remove (filter p (distinct l)) (key x) k,
    find-filter l p k,
    e.same_iff (key x) k,
  )

filter-passes : {R : Type 0} (p : R → Bool) (l : List R) → All (λ r. p r ≡ true) (filter p l)
filter-passes p [] = tt
filter-passes p (x ∷ l) = elim (Bool-cases (p x)) [
  | inl e ↦ rw e (e, filter-passes p l)
  | inr e ↦ rw e (filter-passes p l)
]

filter-All :
    {R : Type 0} (P : R → Type 0) (p : R → Bool) (l : List R) → All P l → All P (filter p l)
filter-All P p [] h = tt
filter-All P p (x ∷ l) h = elim (Bool-cases (p x)) [
  | inl e ↦ rw e (h.0, filter-All P p l h.1)
  | inr e ↦ rw e (filter-All P p l h.1)
]

not-All :
    {R : Type 0} (p : R → Bool) (l : List R)
    → All (λ r. not (p r) ≡ true) l
    → All (λ r. p r ≡ false) l
not-All p [] h = tt
not-All p (x ∷ l) h = (ground (arith, h.0), not-All p l h.1)

length-filter_and :
    {R : Type 0} (q p : R → Bool) (l : List R)
    → length (filter (λ r. q r && p r) l) ≡ length (filter p (filter q l))
length-filter_and q p [] = refl
length-filter_and q p (x ∷ l) = ground (arith, length-filter_and q p l)

module _ {R : Type 0} (d : Direction) (f : R → ℕ) where
  insert_by-perm : (x : R) (l : List R) → Perm (insert_by d f x l) (x ∷ l)
  insert_by-perm x [] = Perm.refl (x ∷ [])
  insert_by-perm x (y ∷ l) = elim (Bool-cases (precedes d f x y)) [
    | inl h ↦ rw h (Perm.refl (x ∷ y ∷ l))
    | inr h ↦ rw h (Perm.trans (Perm.cons y (insert_by-perm x l)) (Perm.swap x y l))
  ]

  sort_by-perm : (l : List R) → Perm (sort_by d f l) l
  sort_by-perm [] = Perm.refl []
  sort_by-perm (x ∷ l) =
      Perm.trans (insert_by-perm x (sort_by d f l)) (Perm.cons x (sort_by-perm l))

  All-insert_by : (P : R → Type 0) (x : R) (l : List R) → P x → All P l → All P (insert_by d f x l)
  All-insert_by P x [] h k = (h, tt)
  All-insert_by P x (y ∷ l) h k = ground (arith, All-insert_by P x l h k.1)

  precedes_trans :
      (x y z : R) → precedes d f x y ≡ true → precedes d f y z ≡ true → precedes d f x z ≡ true
  precedes_trans x y z h k = ground arith

  precedes_total : (x y : R) → precedes d f x y ≡ false → precedes d f y x ≡ true
  precedes_total x y h = ground arith

  All-precedes :
      (x y : R) (l : List R)
      → precedes d f x y ≡ true
      → All (λ z. precedes d f y z ≡ true) l
      → All (λ z. precedes d f x z ≡ true) l
  All-precedes x y [] h k = tt
  All-precedes x y (z ∷ l) h k = (precedes_trans x y z h k.0, All-precedes x y l h k.1)

  insert_by-IsOrdered : (x : R) (l : List R) → IsOrdered d f l → IsOrdered d f (insert_by d f x l)
  insert_by-IsOrdered x [] h = (tt, tt)
  insert_by-IsOrdered x (y ∷ l) h = elim (Bool-cases (precedes d f x y)) [
    | inl e ↦ rw e ((e, All-precedes x y l e h.0), h)
    | inr e ↦ rw e (All-insert_by _ x l (precedes_total x y e) h.0, insert_by-IsOrdered x l h.1)
  ]

  sort_by-IsOrdered : (l : List R) → IsOrdered d f (sort_by d f l)
  sort_by-IsOrdered [] = tt
  sort_by-IsOrdered (x ∷ l) = insert_by-IsOrdered x (sort_by d f l) (sort_by-IsOrdered l)

module _ {K R : Type 0} ⦃e : Eq K⦄ (key : R → K) (clash : R → R → Bool) where
  create_rows-cons :
      (s : Rows R) (o : Option (Rows R × R)) (fs : List (Stamp → R))
      → (elim o [ none ↦ none | some (s', r) ↦ create_rows key clash s' fs ])
        ≡ create_many_law (memory key clash) s o fs
  create_rows-cons s none fs = refl
  create_rows-cons s (some (s', r)) fs = refl

  update_row-eq :
      (s : Rows R) (o : Option R) (f : R → R)
      → update_row key clash s o f ≡ update_law (memory key clash) key clash s o f
  update_row-eq s none f = refl
  update_row-eq s (some r) f = refl

  upsert_row-eq :
      (s : Rows R) (o : Option R) (r : R) (f : R → R)
      → upsert_row key clash s o r f ≡ upsert_law (memory key clash) key clash s o r f
  upsert_row-eq s none r f = refl
  upsert_row-eq s (some r') r f = refl

  delete_row-eq :
      (s : Rows R) (k : K) (o : Option R)
      → delete_row key clash s k o ≡ delete_law (memory key clash) s k o
  delete_row-eq s k none = refl
  delete_row-eq s k (some r) = refl

  filter-HasDistinctKeys :
      (p : R → Bool) (l : List R)
      → HasDistinctKeys (memory key clash) key l
      → HasDistinctKeys (memory key clash) key (filter p l)
  filter-HasDistinctKeys p [] h = tt
  filter-HasDistinctKeys p (x ∷ l) h = elim (Bool-cases (p x)) [
    | inl e ↦
        rw e (filter-All (λ y. (key y == key x) ≡ false) p l h.0, filter-HasDistinctKeys p l h.1)
    | inr e ↦ rw e (filter-HasDistinctKeys p l h.1)
  ]

  distinct-HasDistinctKeys :
      (l : List R) → HasDistinctKeys (memory key clash) key (distinct key clash l)
  distinct-HasDistinctKeys [] = tt
  distinct-HasDistinctKeys (x ∷ l) = (
    not-All (λ y. key y == key x) (filter (λ y. not (key y == key x)) (distinct key clash l))
        (filter-passes (λ y. not (key y == key x)) (distinct key clash l)),
    filter-HasDistinctKeys (λ y. not (key y == key x)) (distinct key clash l)
        (distinct-HasDistinctKeys l),
  )

  pub memory-IsLawful : IsLawful (memory key clash) key clash
  memory-IsLawful = record {
    find_key = λ s k r h. find_key key clash s.rows k r h;
    find-write = λ s r k. ground (arith, find-remove key clash s.rows (key r) k);
    find-erase = λ s j k. find-remove key clash s.rows j k;
    find-find_many = λ s p k. find-filter key clash s.rows p k;
    find_many-passes = λ s p. filter-passes p (distinct key clash s.rows);
    find_many-HasDistinctKeys = λ s p.
        filter-HasDistinctKeys p (distinct key clash s.rows) (distinct-HasDistinctKeys s.rows);
    length-find_many = λ s q p. length-filter_and q p (distinct key clash s.rows);
    order_by-perm = sort_by-perm;
    order_by-IsOrdered = sort_by-IsOrdered;
    create_lem = λ s f. refl;
    update_lem = λ s k f h. update_row-eq s (find_row key clash s k) f;
    upsert_lem =
        λ s k f g h i. upsert_row-eq s (find_row key clash s k) (f (first_stamp s.supply)) g;
    delete_lem = λ s k. delete_row-eq s k (find_row key clash s k);
    find-delete_many = λ s p k. find-filter key clash s.rows (λ r. not (p r)) k;
    count-delete_many = λ s p. refl;
    find-update_many = λ s p f k h. find-map key clash p f h s.rows k;
    create_many-nil = λ s. refl;
    create_many-cons = λ s f fs. create_rows-cons s _ fs;
  }
