-- ===== src/Api/Guarding.antt =====
-- Requests that the guards turn away.
use onsheet_backend.Base.{false, not, Option, some, ◌≡◌, refl, arith, ap, sym, ◌∙◌, if◌then◌else◌}
use onsheet_backend.Prisma.{Prisma, Db}
use onsheet_backend.Http.{Result, ok, err, unauthorized, is_ok, bad_request, refuse}
use onsheet_backend.Http.Actions.{continue, check, ◌>>◌}
use onsheet_backend.Auth.{SafeUser, validate_access}
use onsheet_backend.Api.Answers.{failed, filter_exception}
use onsheet_backend.Api.Controllers.Accounts.{Server, Draws}
use onsheet_backend.Api.Validation.{Validator}
use onsheet_backend.Api.{
  own_guard, some_user, Request, is_public, user_of, can_activate, handle, serve, call, replied,
  is_valid,
}

module _ (s : Server) (v : Validator) (d : Draws) ⦃p : Prisma⦄ (db : Db p) (r : Request) where
  -- Every failure to find the user of a request is the same exception.
  user_of-unauthorized :
      is_ok (user_of s v d r db) ≡ false → user_of s v d r db ≡ err (unauthorized "Unauthorized")
  unfolding validate_access
  user_of-unauthorized h = ground arith

  -- A request to any route without `@Public()`, whose access token is missing, does not verify, or
  -- names a user who does not exist, is answered with 401 and changes nothing.
  pub serve_unauthenticated :
      is_public r.route ≡ false
      → is_ok (user_of s v d r db) ≡ false
      → serve s v d r db ≡ (
        failed (record {
          status_code = 401;
          timestamp = d.now;
          path = r.url;
          message = "Unauthorized";
        }),
        db,
      )
  unfolding serve handle can_activate filter_exception
  serve_unauthenticated closed unknown = rw closed (rw (user_of-unauthorized unknown) refl)

  -- What holds of the database, and after the handler for every user that the guards let through,
  -- holds after the request.
  pub serve-holds :
      (P : Db p → Type 0)
      → P db
      → ((user : Option SafeUser)
          → can_activate s v d r db ≡ ok user
          → P (call s v d r.route user db).1)
      → P (serve s v d r db).1
  unfolding serve handle
  serve-holds P now called = guarded (can_activate s v d r db) refl
    where
      validated :
          (c : Result (Unit {0})) (user : Option SafeUser)
          → P (call s v d r.route user db).1
          → P (replied s v d r (continue c (λ _. call s v d r.route user) db)).1
      validated (err e) user h = now
      validated (ok x) user h =
          elim (call s v d r.route user db).0
            as (λ a. P (replied s v d r (a, (call s v d r.route user db).1)).1) [
              | ok a ↦ h
              | err e ↦ h
            ]

      guarded :
          (g : Result (Option SafeUser))
          → can_activate s v d r db ≡ g
          → P
              (replied s v d r (
                continue g
                  (λ user.
                    check (λ _. refuse (bad_request "Bad Request") (not (is_valid v r.route)))
                    >> call s v d r.route user)
                  db)).1
      guarded (err e) h = now
      guarded (ok user) h =
          validated (refuse (bad_request "Bad Request") (not (is_valid v r.route))) user
            (called user h)

  -- A route without `@Public()` runs as the user that its access token names.
  pub can_activate-user :
      (user : Option SafeUser)
      → is_public r.route ≡ false
      → can_activate s v d r db ≡ ok user
      → (u : SafeUser) × (user ≡ some u) × (user_of s v d r db ≡ ok u)
  unfolding can_activate
  can_activate-user user closed h = go (user_of s v d r db) refl (
      sym (
        ap (λ b. if b then own_guard s v d r r.route db else some_user s v d (user_of s v d r db))
          closed)
      ∙ h)
    where
      go :
          (o : Result SafeUser)
          → user_of s v d r db ≡ o
          → some_user s v d o ≡ ok user
          → (u : SafeUser) × (user ≡ some u) × (user_of s v d r db ≡ ok u)
      go (err e) e' h' = ground arith
      go (ok u) e' h' = (u, ground (arith, h'), e')
