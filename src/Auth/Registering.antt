-- ===== src/Auth/Registering.antt =====
-- Which credentials are valid after a registration.
use onsheet_backend.Base.{
  ℕ, String, Bool, not, ◌&&◌, none, some, ◌==◌, ◌≡◌, refl, string_eq, arith, eq_iff, if◌then◌else◌,
  sym, subst, is_some, Bool-cases, inl, inr,
}
use onsheet_backend.Prisma.{Prisma, Db, User}
use onsheet_backend.Http.{Result, ok, err, unauthorized, conflict}
use onsheet_backend.Permissions.{find_by_email}
use onsheet_backend.Users.{create, Bcrypt, find_by_id, new_user, with_refresh_token}
use onsheet_backend.Users.Emails.{
  HasUniqueEmails, find_by_email_stored, clashes_new_email, write-HasUniqueEmails,
  find_by_email_apart,
}
use onsheet_backend.Auth.{
  create, Jwt, JwtConfig, Tokens, SafeUser, safe, generate_tokens, store_refresh_token, register,
  validate_user,
}
use onsheet_backend.Auth.Sessions.{update_refresh_token_lem}

module _ (bcrypt : Bcrypt) (jwt : Jwt) (config : JwtConfig) ⦃p : Prisma⦄ (db : Db p) (now : ℕ)
    (salt token_salt email name password : String) where
  -- the row that a registration adds, first without and then with its refresh token
  abbrev fresh : User
  fresh = new_user (p.users.stamp db.users).id email name (bcrypt.hash salt 12 password)

  abbrev tokens : Tokens
  tokens = generate_tokens bcrypt jwt config now fresh.id email

  abbrev registered : User
  registered = with_refresh_token (some (bcrypt.hash token_salt 10 tokens.refresh_token)) fresh

  abbrev added : Db p
  added = record db { users = p.users.write db.users fresh }

  abbrev stored : Db p
  stored = record db { users = p.users.write added.users registered }

  module _ (unique : HasUniqueEmails db.users) (absent : find_by_id db fresh.id ≡ none)
      (free : find_by_email db email ≡ none) where
    added-HasUniqueEmails : HasUniqueEmails added.users
    added-HasUniqueEmails = write-HasUniqueEmails db.users fresh unique (λ i x found same.
        ground (arith, free, find_by_email_stored db i x unique found email same))

    added_lem : find_by_id added fresh.id ≡ some fresh
    added_lem =
        ground
          (arith, p.users-IsLawful.find-write db.users fresh fresh.id, eq_iff fresh.id fresh.id)

    register_free :
        register bcrypt jwt config now salt token_salt email name password db
        ≡ (ok (tokens, safe fresh), stored)
    unfolding register create store_refresh_token
    register_free = ground (
      arith,
      free,
      absent,
      p.users-IsLawful.create_lem db.users
          (λ z. new_user z.id email name (bcrypt.hash salt 12 password)),
      clashes_new_email db fresh free,
      (update_refresh_token_lem bcrypt jwt config added fresh
          (some (bcrypt.hash token_salt 10 tokens.refresh_token)) fresh.id added-HasUniqueEmails
          added_lem).0,
    )

    find_by_id-stored :
        (k : String)
        → find_by_id stored k ≡ (if fresh.id == k then some registered else find_by_id db k)
    find_by_id-stored k = ground (
      arith,
      p.users-IsLawful.find-write db.users fresh k,
      p.users-IsLawful.find-write added.users registered k,
    )

    stored-HasUniqueEmails : HasUniqueEmails stored.users
    stored-HasUniqueEmails =
        write-HasUniqueEmails added.users registered added-HasUniqueEmails (λ i x found same.
          added-HasUniqueEmails.unique_lem i fresh.id x fresh found added_lem same)

    find_by_email-stored :
        (e : String)
        → find_by_email stored e ≡ (if email == e then some registered else find_by_email db e)
    find_by_email-stored e = elim (Bool-cases (email == e)) [
      | inl own ↦ rw own (
          find_by_email_stored stored fresh.id registered stored-HasUniqueEmails
            (ground (arith, find_by_id-stored fresh.id, eq_iff fresh.id fresh.id)) e
            ((eq_iff email e).0 own))
      | inr other ↦ rw other (
          find_by_email_apart db stored registered e unique stored-HasUniqueEmails absent
            find_by_id-stored other)
    ]

  abbrev taken : Bool
  taken = is_some (find_by_email db email)

  -- whether an account with a password is let in with another one
  abbrev let_in : String → Result SafeUser
  let_in password' =
      if bcrypt.prefix password' == bcrypt.prefix password
      then ok (safe fresh)
      else err (unauthorized "Invalid credentials")

  register_taken :
      (u : User)
      → find_by_email db email ≡ some u
      → register bcrypt jwt config now salt token_salt email name password db
        ≡ (err (conflict "Email already in use" none), db)
  unfolding register
  register_taken u known = ground (arith, known)

  -- What the answer `x.0` and the database `x.1` have to do with the credentials.
  abbrev IsRegistered : String → String → Result (Tokens × SafeUser) × Db p → Type 0
  IsRegistered email' password' (answer, after) =
      (answer
        ≡ (if taken then err (conflict "Email already in use" none) else ok (tokens, safe fresh)))
      × (validate_user bcrypt jwt config after email' password' ≡ (
          if email == email' && not taken
          then let_in password'
          else validate_user bcrypt jwt config db email' password'))
      × HasUniqueEmails after.users

  validate_user-stored :
      (email' password' : String)
      → HasUniqueEmails db.users
      → find_by_id db fresh.id ≡ none
      → find_by_email db email ≡ none
      → validate_user bcrypt jwt config stored email' password' ≡ (
          if email == email'
          then let_in password'
          else validate_user bcrypt jwt config db email' password')
  unfolding validate_user
  validate_user-stored email' password' unique absent free = ground (
    arith,
    find_by_email-stored unique absent free email',
    bcrypt.compare-hash salt 12 password' password,
  )

  -- A registration, on a database with unique e-mails and with a fresh id for the new row: where
  -- the e-mail is taken, it throws the conflict, and every pair of an e-mail and a password is
  -- valid or not as before. Otherwise it returns tokens with the new account. Then the new e-mail
  -- is valid exactly with those passwords that have the same first 72 bytes as the registered
  -- one, and every other e-mail is valid with the passwords that it was valid with. E-mails stay
  -- unique.
  pub validate_user-register :
      (email' password' : String)
      → HasUniqueEmails db.users
      → find_by_id db (p.users.stamp db.users).id ≡ none
      → let (answer, after) =
          register bcrypt jwt config now salt token_salt email name password db in
        (answer
          ≡ (if taken then err (conflict "Email already in use" none) else ok (tokens, safe fresh)))
        × (validate_user bcrypt jwt config after email' password' ≡ (
            if email == email' && not taken
            then let_in password'
            else validate_user bcrypt jwt config db email' password'))
        × HasUniqueEmails after.users
  validate_user-register email' password' unique absent =
      elim (find_by_email db email)
          as (λ o.
            find_by_email db email ≡ o
            → IsRegistered email' password'
                (register bcrypt jwt config now salt token_salt email name password db)) [
                  | some u ↦ λ known.
                      subst (IsRegistered email' password') (sym (register_taken u known))
                        (ground (arith, known), ground (arith, known), unique)
                  | none ↦ λ free.
                      subst (IsRegistered email' password') (sym (register_free unique absent free))
                        (
                          ground (arith, free),
                          ground (
                            arith,
                            free,
                            validate_user-stored email' password' unique absent free,
                          ),
                          stored-HasUniqueEmails unique absent free,
                        )
                ]
        refl
