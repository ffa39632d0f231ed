-- ===== src/Prisma/Table.antt =====
-- One table behind the Prisma client. The client is a package, so a table is a parameter: its
-- operations are fields, and `IsLawful` states what Prisma documents of them.
pub mod Laws
pub mod Keeping
use onsheet_backend.Base.{
  ℕ, String, Bool, true, false, not, ◌&&◌, ◌||◌, Option, none, some, List, [], ◌∷◌, ◌≡◌, Eq, ◌==◌,
  is_some, is_empty, find_first, keep, length, filter, if◌then◌else◌, leb, All,
}
use mathlib.Core.List.{Perm}

-- What the database fills in for a new row: `@default(cuid())` and `@default(now())`.
pub record Stamp : Type 0 where
  pub id : String
  -- a second `cuid()`, for `shareToken`
  pub token : String
  pub now : ℕ

pub data Direction : Type 0 where
  asc desc : Direction

abbrev pub precedes : {R : Type 0} → Direction → (R → ℕ) → R → R → Bool
precedes asc f x y = leb (f x) (f y)
precedes desc f x y = leb (f y) (f x)

-- Each row precedes all that follow it.
abbrev pub IsOrdered : {R : Type 0} → Direction → (R → ℕ) → List R → Type 0
IsOrdered d f [] = Unit
IsOrdered d f (x ∷ xs) = All (λ y. precedes d f x y ≡ true) xs × IsOrdered d f xs

pub record Table (K R : Type 0) : Type 1 where
  -- the stored rows
  pub T : Type 0
  pub find_unique : T → K → Option R
  -- `findMany({ where })`, in the order that the database chooses
  pub find_many : T → (R → Bool) → List R
  -- `orderBy`, on a numeric or a time column
  pub order_by : Direction → (R → ℕ) → List R → List R
  -- the columns that the next new row is given
  pub stamp : T → Stamp
  -- `none` is a known request error of Prisma: a missing row (P2025) or a broken unique
  -- constraint (P2002)
  pub create : T → (Stamp → R) → Option (T × R)
  pub update : T → K → (R → R) → Option (T × R)
  pub upsert : T → K → (Stamp → R) → (R → R) → Option (T × R)
  pub delete : T → K → Option (T × R)
  pub delete_many : T → (R → Bool) → T × ℕ
  -- also what a foreign key with `onDelete: SetNull` does
  pub update_many : T → (R → Bool) → (R → R) → T
  -- one statement: all rows, or none
  pub create_many : T → List (Stamp → R) → Option T
  -- a row is stored under its key, in place of any other; the row of a key is dropped
  pub write : T → R → T
  pub erase : T → K → T

abbrev pub update_where : {R : Type 0} → (R → Bool) → (R → R) → Option R → Option R
update_where p f none = none
update_where p f (some r) = some (if p r then f r else r)

module _ {K R : Type 0} ⦃e : Eq K⦄ (t : Table K R) where
  -- Does a stored row, other than the one of the same key, stand in the way of `r`?
  abbrev pub clashes : (R → K) → (R → R → Bool) → t.T → R → Bool
  clashes key clash s r = not (is_empty (t.find_many s (λ x. clash r x && not (key x == key r))))

  abbrev pub create_law : (R → K) → (R → R → Bool) → t.T → R → Option (t.T × R)
  create_law key clash s r =
      if is_some (t.find_unique s (key r)) || clashes key clash s r
      then none
      else some (t.write s r, r)

  abbrev pub update_law : (R → K) → (R → R → Bool) → t.T → Option R → (R → R) → Option (t.T × R)
  update_law key clash s none f = none
  update_law key clash s (some r) f =
      if clashes key clash s (f r) then none else some (t.write s (f r), f r)

  abbrev pub upsert_law : (R → K) → (R → R → Bool) → t.T → Option R → R → (R → R) → Option (t.T × R)
  upsert_law key clash s none r f = create_law key clash s r
  upsert_law key clash s (some r') r f = update_law key clash s (some r') f

  abbrev pub delete_law : t.T → K → Option R → Option (t.T × R)
  delete_law s k none = none
  delete_law s k (some r) = some (t.erase s k, r)

  abbrev pub create_many_law : t.T → Option (t.T × R) → List (Stamp → R) → Option t.T
  create_many_law s none fs = none
  create_many_law s (some (s', r)) fs = t.create_many s' fs

  -- No two rows of a list have one key.
  abbrev pub HasDistinctKeys : (R → K) → List R → Type 0
  HasDistinctKeys key [] = Unit
  HasDistinctKeys key (x ∷ l) = All (λ y. (key y == key x) ≡ false) l × HasDistinctKeys key l

  -- `key` is the unique key, and `clash` tells two rows that another unique constraint forbids.
  -- The laws of `update` and `upsert` are those for changes that leave the key alone.
  pub record IsLawful (key : R → K) (clash : R → R → Bool) : Type 0 where
    pub find_key : (s : t.T) (k : K) (r : R) → t.find_unique s k ≡ some r → key r ≡ k
    pub find-write :
        (s : t.T) (r : R) (k : K)
        → t.find_unique (t.write s r) k ≡ (if key r == k then some r else t.find_unique s k)
    pub find-erase :
        (s : t.T) (j k : K)
        → t.find_unique (t.erase s j) k ≡ (if j == k then none else t.find_unique s k)
    pub find-find_many :
        (s : t.T) (p : R → Bool) (k : K)
        → find_first (λ r. key r == k) (t.find_many s p) ≡ keep p (t.find_unique s k)
    -- only rows that pass are listed, and no key twice
    pub find_many-passes : (s : t.T) (p : R → Bool) → All (λ r. p r ≡ true) (t.find_many s p)
    pub find_many-HasDistinctKeys : (s : t.T) (p : R → Bool) → HasDistinctKeys key (t.find_many s p)
    -- a further condition lists those of the rows that meet it
    pub length-find_many :
        (s : t.T) (q p : R → Bool)
        → length (t.find_many s (λ r. q r && p r)) ≡ length (filter p (t.find_many s q))
    pub order_by-perm : (d : Direction) (f : R → ℕ) (l : List R) → Perm (t.order_by d f l) l
    pub order_by-IsOrdered :
        (d : Direction) (f : R → ℕ) (l : List R) → IsOrdered d f (t.order_by d f l)
    pub create_lem :
        (s : t.T) (f : Stamp → R) → t.create s f ≡ create_law key clash s (f (t.stamp s))
    pub update_lem :
        (s : t.T) (k : K) (f : R → R)
        → ((r : R) → key (f r) ≡ key r)
        → t.update s k f ≡ update_law key clash s (t.find_unique s k) f
    pub upsert_lem :
        (s : t.T) (k : K) (f : Stamp → R) (g : R → R)
        → ((z : Stamp) → key (f z) ≡ k)
        → ((r : R) → key (g r) ≡ key r)
        → t.upsert s k f g ≡ upsert_law key clash s (t.find_unique s k) (f (t.stamp s)) g
    pub delete_lem : (s : t.T) (k : K) → t.delete s k ≡ delete_law s k (t.find_unique s k)
    pub find-delete_many :
        (s : t.T) (p : R → Bool) (k : K)
        → t.find_unique (t.delete_many s p).0 k ≡ keep (λ r. not (p r)) (t.find_unique s k)
    pub count-delete_many :
        (s : t.T) (p : R → Bool) → (t.delete_many s p).1 ≡ length (t.find_many s p)
    pub find-update_many :
        (s : t.T) (p : R → Bool) (f : R → R) (k : K)
        → ((r : R) → key (f r) ≡ key r)
        → t.find_unique (t.update_many s p f) k ≡ update_where p f (t.find_unique s k)
    pub create_many-nil : (s : t.T) → t.create_many s [] ≡ some s
    pub create_many-cons :
        (s : t.T) (f : Stamp → R) (fs : List (Stamp → R))
        → t.create_many s (f ∷ fs) ≡ create_many_law s (t.create s f) fs
