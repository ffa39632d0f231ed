-- ===== src/Collab/Presence.antt =====
-- src/modules/collab/collab.service.ts: who is in a room, kept in a Redis hash for each sheet.
pub mod Color
pub mod Rooms
use Prim.Native.String.{◌++◌ as append}
use onsheet_backend.Base.{
  ℕ, String, Bool, Option, none, some, List, [], ◌∷◌, ◌==◌, ◌≡◌, string_eq, ◌&&◌, if◌then◌else◌,
  map, length, nat_eqb, find_first,
}
use onsheet_backend.Base
use onsheet_backend.Collab.Presence.Color.{pick_color}

pub record Cursor : Type 0 where
  pub row : ℕ
  pub col : ℕ

pub record ActiveUser : Type 0 where
  pub user_id : String
  pub display_name : String
  pub socket_id : String
  pub color : String
  pub cursor : Option Cursor

-- The commands of the Redis client that the service uses, on hashes of users. A value is stored as
-- its JSON text; `JSON.parse` gives back what `JSON.stringify` was given. `expire` sets a time to
-- live and changes no field.
pub record Redis : Type 1 where
  pub S : Type 0
  pub hget : S → String → String → Option ActiveUser
  pub hset : S → String → String → ActiveUser → S
  pub hdel : S → String → String → S
  pub hlen : S → String → ℕ
  pub hgetall : S → String → List (String × ActiveUser)
  pub del : S → String → S
  pub expire : S → String → ℕ → S
  pub hget-hset :
      (s : S) (key field : String) (u : ActiveUser) (key' field' : String)
      → hget (hset s key field u) key' field'
        ≡ (if key == key' && field == field' then some u else hget s key' field')
  pub hget-hdel :
      (s : S) (key field key' field' : String)
      → hget (hdel s key field) key' field'
        ≡ (if key == key' && field == field' then none else hget s key' field')
  pub hget-del :
      (s : S) (key key' field' : String)
      → hget (del s key) key' field' ≡ (if key == key' then none else hget s key' field')
  pub hget-expire :
      (s : S) (key : String) (ttl : ℕ) (key' field' : String)
      → hget (expire s key ttl) key' field' ≡ hget s key' field'
  pub hlen_lem : (s : S) (key : String) → hlen s key ≡ length (hgetall s key)
  pub find-hgetall :
      (s : S) (key field : String) → Base.Dict.lookup field (hgetall s key) ≡ hget s key field

-- `presence:room:${sheetId}`
abbrev pub room_key : String → String
room_key sheet_id = append "presence:room:" sheet_id

abbrev pub presence_ttl : ℕ
presence_ttl = 86_400

abbrev pub active_user : String → String → String → ActiveUser
active_user user_id display_name socket_id = record {
  user_id = user_id;
  display_name = display_name;
  socket_id = socket_id;
  color = pick_color user_id;
  cursor = none;
}

abbrev pub move_to : Cursor → ActiveUser → ActiveUser
move_to cursor u = record u { cursor = some cursor }

module _ (r : Redis) where
  unfoldable pub get_room : r.S → String → List ActiveUser
  get_room s sheet_id = map (λ x. x.1) (r.hgetall s (room_key sheet_id))

  unfoldable pub join : r.S → String → String → String → String → r.S × List ActiveUser
  join s sheet_id user_id display_name socket_id =
      let key = room_key sheet_id in
      let s' =
        r.expire (r.hset s key socket_id (active_user user_id display_name socket_id)) key
          presence_ttl in
      (s', get_room s' sheet_id)

  unfoldable pub leave : r.S → String → String → r.S
  leave s sheet_id socket_id =
      let key = room_key sheet_id in
      let s' = r.hdel s key socket_id in if nat_eqb (r.hlen s' key) 0 then r.del s' key else s'

  unfoldable pub update_cursor : r.S → String → String → Cursor → r.S
  update_cursor s sheet_id socket_id cursor = elim (r.hget s (room_key sheet_id) socket_id) [
    | none ↦ s
    | some u ↦
        r.expire (r.hset s (room_key sheet_id) socket_id (move_to cursor u)) (room_key sheet_id)
          presence_ttl
  ]
