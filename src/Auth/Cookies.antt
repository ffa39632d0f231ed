-- ===== src/Auth/Cookies.antt =====
-- The cookies of a session: src/config/cookie.config.ts, and `attachCookies` and `clearCookies` of
-- src/modules/auth/auth.service.ts. Express is a package: what it is told is the result.
use onsheet_backend.Base.{
  ℕ, ◌*◌, String, Bool, List, [], ◌∷◌, if◌then◌else◌, ◌==◌, string_eq, ◌≡◌, refl, map,
}
use onsheet_backend.Auth.{Tokens}

abbrev pub access_cookie : String
access_cookie = "accessToken"

abbrev pub refresh_cookie : String
refresh_cookie = "refreshToken"

abbrev pub access_ttl_ms : ℕ
access_ttl_ms = 15 * 60 * 1000

abbrev pub refresh_ttl_ms : ℕ
refresh_ttl_ms = 7 * 24 * 60 * 60 * 1000

pub record CookieBase : Type 0 where
  pub http_only : Bool
  pub same_site : String
  pub secure : Bool

unfoldable pub cookie_base : Bool → CookieBase
cookie_base secure = record {
  http_only = Bool.true;
  same_site = if secure then "none" else "lax";
  secure = secure;
}

-- `res.cookie` and `res.clearCookie`; Express takes "/" where no path is given
pub data CookieCommand : Type 0 where
  set_cookie : String → String → CookieBase → ℕ → String → CookieCommand
  clear_cookie : String → CookieBase → String → CookieCommand

abbrev pub refresh_path : String
refresh_path = "/api/v1/auth"

unfoldable pub attach_cookies : String → Tokens → List CookieCommand
unfolding cookie_base
attach_cookies node_env tokens =
    let base = cookie_base (node_env == "production") in
    set_cookie access_cookie tokens.access_token base access_ttl_ms "/"
    ∷ set_cookie refresh_cookie tokens.refresh_token base refresh_ttl_ms refresh_path
    ∷ []

unfoldable pub clear_cookies : String → List CookieCommand
unfolding cookie_base
clear_cookies node_env =
    let base = cookie_base (node_env == "production") in
    clear_cookie access_cookie base "/" ∷ clear_cookie refresh_cookie base refresh_path ∷ []

-- what the browser matches a cookie by
abbrev pub target_of : CookieCommand → String × String × CookieBase
target_of (set_cookie name value base max_age path) = (name, path, base)
target_of (clear_cookie name base path) = (name, path, base)

-- Logging out clears the cookies that logging in sets: the same names, paths and attributes, in
-- every environment and for every pair of tokens.
pub clear_cookies-attach_cookies :
    (node_env : String) (tokens : Tokens)
    → map target_of (clear_cookies node_env) ≡ map target_of (attach_cookies node_env tokens)
unfolding clear_cookies attach_cookies
clear_cookies-attach_cookies node_env tokens = refl
