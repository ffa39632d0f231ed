-- ===== src/Users/Emails.antt =====
-- What `@unique` on the e-mail column gives: a user is found by e-mail, and a change of (rival v)
-- columns is never refused.
use onsheet_backend.Base.{
  Bool-cases, inl, inr, String, Bool, true, false, not, ◌&&◌, some, List, [], ◌∷◌, ◌==◌, ◌≡◌, refl,
  string_eq, arith, eq_iff, is_empty, head?, ◌∙◌, ap, sym, subst, none, Option, if◌then◌else◌,
}
use onsheet_backend.Prisma.{Prisma, Db, User, user_clash}
use onsheet_backend.Prisma.Table.{clashes}
use onsheet_backend.Prisma.Table.Laws.{
  passes_of_head, found_of_head, is_empty-find_many_of_found, eq_refl,
}
use onsheet_backend.Permissions.{find_by_email}

abbrev has_email_of : User → User → Bool
has_email_of u x = x.email == u.email

-- a row that the constraint sets against `v`
abbrev rival : User → User → Bool
rival v x = user_clash v x && not (x.id == v.id)

abbrev email_of : User → Option User → String
email_of r none = r.email
email_of r (some u) = u.email

module _ ⦃p : Prisma⦄ where
  -- The constraint itself.
  pub record HasUniqueEmails (t : p.users.T) : Type 0 where
    pub unique_lem :
        (i j : String) (u v : User)
        → p.users.find_unique t i ≡ some u
        → p.users.find_unique t j ≡ some v
        → u.email ≡ v.email
        → i ≡ j

  pub find_by_email_unique :
      (db : Db p) (id : String) (u : User)
      → HasUniqueEmails db.users
      → p.users.find_unique db.users id ≡ some u
      → find_by_email db u.email ≡ some u
  find_by_email_unique db id u h found =
      go (p.users.find_many db.users (has_email_of u))
        (passes_of_head p.users p.users-IsLawful db.users (has_email_of u))
        (found_of_head p.users p.users-IsLawful db.users (has_email_of u))
        (is_empty-find_many_of_found p.users p.users-IsLawful db.users (has_email_of u) id u found
          (eq_refl u.email))
    where
      go :
          (l : List User)
          → ((r : User) → head? l ≡ some r → has_email_of u r ≡ true)
          → ((r : User) → head? l ≡ some r → p.users.find_unique db.users r.id ≡ some r)
          → is_empty l ≡ false
          → head? l ≡ some u
      go [] f g e = ground (arith, e)
      go (x ∷ l) f g e =
          sym (g x refl)
          ∙ ap (p.users.find_unique db.users)
              (h.unique_lem x.id id x u (g x refl) found ((eq_iff x.email u.email).0 (f x refl)))
          ∙ found

  -- A new version of a stored row with the (has_email_of u) id and e-mail stands in nobody's way.
  pub clashes_same_email :
      (t : p.users.T) (u v : User)
      → HasUniqueEmails t
      → p.users.find_unique t u.id ≡ some u
      → v.id ≡ u.id
      → v.email ≡ u.email
      → clashes p.users (λ x. x.id) user_clash t v ≡ false
  clashes_same_email t u v h found same_id same_email =
      go (p.users.find_many t (rival v)) (passes_of_head p.users p.users-IsLawful t (rival v))
        (found_of_head p.users p.users-IsLawful t (rival v))
    where
      go :
          (l : List User)
          → ((r : User) → head? l ≡ some r → rival v r ≡ true)
          → ((r : User) → head? l ≡ some r → p.users.find_unique t r.id ≡ some r)
          → not (is_empty l) ≡ false
      go [] f g = refl
      go (x ∷ l) f g = ground (
        arith,
        f x refl,
        eq_iff v.email x.email,
        eq_iff x.id v.id,
        h.unique_lem x.id u.id x u (g x refl) found,
        same_id,
        same_email,
      )

  -- A user that is found by e-mail is stored, with this e-mail.
  pub found_by_email :
      (db : Db p) (email : String) (u : User)
      → find_by_email db email ≡ some u
      → (p.users.find_unique db.users u.id ≡ some u) × (u.email ≡ email)
  found_by_email db email u h = (
    found_of_head p.users p.users-IsLawful db.users (λ x. x.email == email) u h,
    (eq_iff u.email email).0
        (passes_of_head p.users p.users-IsLawful db.users (λ x. x.email == email) u h),
  )

  -- A stored user is found by e-mail, if only to be some user.
  pub find_by_email_stored :
      (db : Db p) (id : String) (u : User)
      → HasUniqueEmails db.users
      → p.users.find_unique db.users id ≡ some u
      → (email : String) → u.email ≡ email
      → find_by_email db email ≡ some u
  find_by_email_stored db id u h found email same =
      subst (λ e. find_by_email db e ≡ some u) same (find_by_email_unique db id u h found)

  -- A row whose e-mail is not taken stands in nobody's way.
  pub clashes_new_email :
      (db : Db p) (v : User)
      → find_by_email db v.email ≡ none
      → clashes p.users (λ x. x.id) user_clash db.users v ≡ false
  clashes_new_email db v free =
      go (p.users.find_many db.users (rival v))
        (passes_of_head p.users p.users-IsLawful db.users (rival v))
        (found_of_head p.users p.users-IsLawful db.users (rival v))
    where
      listed : (l : List User) → head? l ≡ none → is_empty l ≡ true
      listed [] h = refl
      listed (x ∷ l) h = ground (arith, h)

      go :
          (l : List User)
          → ((r : User) → head? l ≡ some r → rival v r ≡ true)
          → ((r : User) → head? l ≡ some r → p.users.find_unique db.users r.id ≡ some r)
          → not (is_empty l) ≡ false
      go [] f g = refl
      go (x ∷ l) f g = ground (
        arith,
        f x refl,
        eq_iff v.email x.email,
        eq_iff x.email v.email,
        listed (p.users.find_many db.users (λ u. u.email == v.email)) free,
        is_empty-find_many_of_found p.users p.users-IsLawful db.users (λ u. u.email == v.email) x.id
            x (g x refl),
      )

  -- E-mails stay unique where the only row with the e-mail of a new version is the old one.
  pub write-HasUniqueEmails :
      (t : p.users.T) (r : User)
      → HasUniqueEmails t
      → ((i : String) (x : User) → p.users.find_unique t i ≡ some x → x.email ≡ r.email → i ≡ r.id)
      → HasUniqueEmails (p.users.write t r)
  write-HasUniqueEmails t r h own = record {
    unique_lem = λ i j u v f g same. ground (
      arith,
      p.users-IsLawful.find-write t r i,
      p.users-IsLawful.find-write t r j,
      f,
      g,
      same,
      eq_iff r.id i,
      eq_iff r.id j,
      own i u,
      own j v,
      h.unique_lem i j u v,
    );
  }

  -- A new row is found by its own e-mail alone.
  pub find_by_email_apart :
      (db db' : Db p) (r : User) (email : String)
      → HasUniqueEmails db.users
      → HasUniqueEmails db'.users
      → p.users.find_unique db.users r.id ≡ none
      → ((k : String)
          → p.users.find_unique db'.users k
            ≡ (if r.id == k then some r else p.users.find_unique db.users k))
      → (r.email == email) ≡ false
      → find_by_email db' email ≡ find_by_email db email
  find_by_email_apart db db' r email h h' absent stored other =
      go (find_by_email db email) (find_by_email db' email) refl refl
    where
      go : (o o' : Option User) → find_by_email db email ≡ o → find_by_email db' email ≡ o' → o' ≡ o
      go none none e e' = refl
      go (some u) o' e e' =
          let (found, same) = found_by_email db email u e in
          sym e'
          ∙ find_by_email_stored db' u.id u h'
              (ground (arith, stored u.id, found, absent, eq_iff r.id u.id)) email same
      go none (some u) e e' =
          let (found, same) = found_by_email db' email u e' in
          elim (Bool-cases (r.id == u.id)) [
            | inl own ↦ ground (
              arith,
              stored u.id,
              found,
              same,
              own,
              other,
              eq_iff r.email email,
              ap (email_of r) (sym (stored u.id) ∙ found),
            )
            | inr old ↦
                sym (
                  find_by_email_stored db u.id u h (ground (arith, stored u.id, found, old)) email
                    same)
                ∙ e
          ]
