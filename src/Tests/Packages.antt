-- ===== src/Tests/Packages.antt =====
-- Instances of the packages: a hash that keeps its text, tokens that spell out their claims, and a
-- store of conversations in memory. One account, with a refresh token.
use Prim.Native.String.{String, [], ◌∷◌}
use Prim.Native.Char.{code}
use Prim.Native.Nat.{ℕ, zero, suc}
use onsheet_backend.Base.{
  Bool-cases, inl, inr, Bool, true, false, nat_eqb, if◌then◌else◌, Option, none, some, List, ◌==◌,
  ◌≡◌, refl, string_eq, arith, eq_iff, ap,
}
use onsheet_backend.Base.Dict.{Dict, lookup, insert, lookup-insert}
use onsheet_backend.Prisma.{Db, User}
use onsheet_backend.Prisma.Example.{in_memory}
use onsheet_backend.Users.{Bcrypt}
use onsheet_backend.Users.Emails.{HasUniqueEmails}
use onsheet_backend.Auth.{Jwt, JwtConfig, Payload}
use onsheet_backend.Ai.Context.{ContextStore, StoredMessage}
use onsheet_backend.Tests.Office.{office, rows_of, dan}

abbrev first_chars : ℕ → String → String
first_chars zero s = []
first_chars (suc n) [] = []
first_chars (suc n) (c ∷ s) = c ∷ first_chars n s

abbrev compare_with : String → String → Bool
compare_with s [] = false
compare_with s (c ∷ t) = first_chars 72 s == first_chars 72 t

abbrev is_nil : String → Bool
is_nil [] = true
is_nil (c ∷ s) = false

pub hashed-not_empty : (s : String) → ("h" ∷ s == "") ≡ false
hashed-not_empty s = elim (Bool-cases ("h" ∷ s == "")) [
  | inl e ↦ ground (arith, ap is_nil ((eq_iff ("h" ∷ s) "").0 e))
  | inr e ↦ e
]

abbrev pub plain : Bcrypt
plain = record {
  prefix = first_chars 72;
  hash = λ salt rounds s. "h" ∷ s;
  compare = compare_with;
  compare-hash = λ salt rounds s t. refl;
  hash-not_empty = λ salt rounds s. hashed-not_empty s;
}

-- each character of the subject after an `x`, then a dot, then the e-mail
abbrev spell : String → String → String
spell [] email = "." ∷ email
spell (c ∷ s) email = "x" ∷ c ∷ spell s email

abbrev unspell : String → String × String
unspell [] = ([], [])
unspell (c ∷ []) = ([], [])
unspell (c ∷ d ∷ s) =
    let (sub, email) = unspell s in if nat_eqb (code c) 46 then ([], d ∷ s) else (d ∷ sub, email)

pub unspell-spell : (sub email : String) → unspell (spell sub email) ≡ (sub, email)
unspell-spell [] [] = refl
unspell-spell [] (c ∷ email) = refl
unspell-spell (c ∷ sub) email = ground (arith, unspell-spell sub email)

abbrev claims_of : String × String → Option Payload
claims_of (sub, email) = some (record { sub = sub; email = email })

abbrev pub spelled : Jwt
spelled = record {
  sign_async = λ now claims secret expires_in. spell claims.sub claims.email;
  verify_async = λ now token secret. claims_of (unspell token);
  verify-sign =
      λ now claims secret expires_in. ap claims_of (unspell-spell claims.sub claims.email);
}

abbrev pub settings : JwtConfig
settings = record {
  access_secret = "a";
  access_expires_in = "15m";
  refresh_secret = "r";
  refresh_expires_in = "7d";
}

abbrev looked_up : String → Option (Dict String (List StoredMessage)) → Option (List StoredMessage)
looked_up key none = none
looked_up key (some d) = lookup key d

pub get_of_set :
    (s s' : Dict String (List StoredMessage)) (key : String) (value : List StoredMessage)
    → some (insert key value s) ≡ some s'
    → some (lookup key s') ≡ some (some value)
get_of_set s s' key value e =
    ground (arith, ap (looked_up key) e, lookup-insert key key value s, eq_iff key key)

abbrev pub conversations : ContextStore
conversations = record {
  S = Dict String (List StoredMessage);
  get = λ s key. some (lookup key s);
  set_ex = λ s key value ttl. some (insert key value s);
  get-set_ex = λ s s' key value ttl. get_of_set s s' key value;
}

abbrev pub dan' : User
dan' = record dan { password_hash = "hsecret"; refresh_token = some "htoken" }

abbrev pub lone : Db in_memory
lone = record office { users = rows_of (List.◌∷◌ dan' List.[]) "u" }

pub lone-HasUniqueEmails : HasUniqueEmails ⦃p = in_memory⦄ lone.users
lone-HasUniqueEmails = record {
  unique_lem = λ i j u v f g e. ground (arith, f, g, eq_iff "dan" i, eq_iff "dan" j);
}
