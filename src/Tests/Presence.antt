-- ===== src/Tests/Presence.antt =====
-- Runs of the presence service, on a store of one association list.
use onsheet_backend.Base.{
  eq_iff, String, ◌&&◌, ◌≡◌, refl, some, none, Option, List, [], ◌∷◌, length, arith, if◌then◌else◌,
  ◌==◌, string_eq,
}
use onsheet_backend.Base.Dict.{Dict, lookup, insert, erase, lookup-insert, lookup-erase}
use onsheet_backend.Collab.Presence.{Redis, ActiveUser, Cursor, active_user}

abbrev pub Hashes : Type 0
Hashes = List (String × Dict String ActiveUser)

abbrev pub hash_of : Option (Dict String ActiveUser) → Dict String ActiveUser
hash_of none = []
hash_of (some d) = d

abbrev pub at : Hashes → String → Dict String ActiveUser
at s key = hash_of (lookup key s)

at-insert :
    (s : Hashes) (key key' : String) (d : Dict String ActiveUser)
    → at (insert key d s) key' ≡ (if key == key' then d else at s key')
at-insert s key key' d = ground (arith, lookup-insert key key' d s)

pub at-hset :
    (s : Hashes) (key field : String) (u : ActiveUser) (key' field' : String)
    → lookup field' (at (insert key (insert field u (at s key)) s) key')
      ≡ (if key == key' && field == field' then some u else lookup field' (at s key'))
at-hset s key field u key' field' = ground (
  arith,
  at-insert s key key' (insert field u (at s key)),
  lookup-insert field field' u (at s key),
  eq_iff key key',
)

pub at-hdel :
    (s : Hashes) (key field key' field' : String)
    → lookup field' (at (insert key (erase field (at s key)) s) key')
      ≡ (if key == key' && field == field' then none else lookup field' (at s key'))
at-hdel s key field key' field' = ground (
  arith,
  at-insert s key key' (erase field (at s key)),
  lookup-erase field field' (at s key),
  eq_iff key key',
)

pub at-del :
    (s : Hashes) (key key' field' : String)
    → lookup field' (at (insert key [] s) key')
      ≡ (if key == key' then none else lookup field' (at s key'))
at-del s key key' field' = ground (arith, at-insert s key key' [])

abbrev pub hashes : Redis
hashes = record {
  S = Hashes;
  hget = λ s key field. lookup field (at s key);
  hset = λ s key field u. insert key (insert field u (at s key)) s;
  hdel = λ s key field. insert key (erase field (at s key)) s;
  hlen = λ s key. length (at s key);
  hgetall = at;
  del = λ s key. insert key [] s;
  expire = λ s key ttl. s;
  hget-hset = at-hset;
  hget-hdel = at-hdel;
  hget-del = at-del;
  hget-expire = λ s key ttl key' field'. refl;
  hlen_lem = λ s key. refl;
  find-hgetall = λ s key field. refl;
}

-- the room of the sheet s with Ann in it
abbrev pub room : Hashes
room = ("presence:room:s", ("x", active_user "ann" "Ann" "x") ∷ []) ∷ []

abbrev corner : Cursor
corner = record { row = 1; col = 2 }
