-- ===== src/Collab/Gateway.antt =====
-- The connections of src/modules/collab/collab.gateway.ts: who a socket is, and the handlers of its
-- messages. Socket.IO is a package: what a handler tells it is the list of messages it returns.
pub mod Handshake
pub mod Rooms
use Prim.Native.String.{◌++◌ as append}
use text.Mathlib.Text.{starts_with}
use onsheet_backend.Base.{
  ◌&&◌, ℕ, String, Bool, true, not, Option, none, some, List, [], ◌∷◌, ◌++◌, ◌==◌, string_eq,
  if◌then◌else◌, is_empty, filter,
}
use mathlib.Core.List.{reverse}
use onsheet_backend.Base.Dict.{Dict, lookup, insert, erase}
use onsheet_backend.Prisma.{User, Prisma, Db, CellOperation}
use onsheet_backend.Auth.{SafeUser, Jwt, JwtConfig, safe, token_missing}
use onsheet_backend.Auth.Cookies.{access_cookie, refresh_cookie}
use onsheet_backend.Users.{find_by_id}
use onsheet_backend.OperationLog.{get_recent, get_cell_history}
use onsheet_backend.Cells.Service.{UpdateCellDto}
use onsheet_backend.Collab.Batch.{Buffers, PendingWrite, enqueue_write}
use onsheet_backend.Collab.Cookies.{parse_cookies}
use onsheet_backend.Collab.Presence.{Redis, ActiveUser, Cursor, join, leave, update_cursor}

-- `client.data`: a user, or a guest with an id
pub data ClientData : Type 0 where
  user : SafeUser → ClientData
  guest : String → ClientData

pub record SocketMeta : Type 0 where
  pub sheet_id : String
  pub workbook_id : Option String
  pub user_id : String
  pub display_name : String

-- What a handler tells Socket.IO: joining and leaving rooms, and messages to a room without the
-- sender or to the sender.
pub data Message : Type 0 where
  join_room leave_room : String → Message
  user_left : String → Message
  user_joined : String → List ActiveUser → Message
  sheet_users : List ActiveUser → Message
  ops_catchup : List CellOperation → Message
  cursor_moved : String → Cursor → Message
  cell_history : List CellOperation → Message
  collab_error : String → Message

-- a cookie or a token that is there and not empty
abbrev truthy : Option String → Option String
truthy none = none
truthy (some s) = if s == "" then none else some s

abbrev first_of : Option String → Option String → Option String
first_of none o = o
first_of (some s) o = some s

abbrev or_else_user : Option SafeUser → Option SafeUser → Option SafeUser
or_else_user none o = o
or_else_user (some u) o = some u

module _ (jwt : Jwt) (config : JwtConfig) ⦃p : Prisma⦄ where
  abbrev user_with : Bool → Option User → Option SafeUser
  user_with needs_token none = none
  user_with needs_token (some u) =
      if needs_token && token_missing (some u) then none else some (safe u)

  -- a `try` around `verifyAsync` and `findById`
  abbrev user_of : ℕ → Db p → String → Bool → Option String → Option SafeUser
  user_of now db secret needs_token none = none
  user_of now db secret needs_token (some token) = elim (jwt.verify_async now token secret) [
    | none ↦ none
    | some payload ↦ user_with needs_token (find_by_id db payload.sub)
  ]

  abbrev client_of : String → Option SafeUser → ClientData
  client_of guest_id none = guest guest_id
  client_of guest_id (some u) = user u

  -- the middleware of `afterInit`, with the id drawn for a guest
  unfoldable pub authenticate : ℕ → Db p → Option String → Option String → String → ClientData
  unfolding parse_cookies
  authenticate now db handshake_token cookie_header guest_id =
      let cookies = parse_cookies cookie_header in
      let token = first_of handshake_token (lookup access_cookie cookies) in
      client_of guest_id (
        or_else_user (user_of now db config.access_secret Bool.false (truthy token))
          (user_of now db config.refresh_secret true (truthy (lookup refresh_cookie cookies))))

abbrev pub id_of : ClientData → String
id_of (user u) = u.id
id_of (guest id) = id

abbrev name_or : Option String → String → String
name_or none d = d
name_or (some s) d = s

-- `displayName` is never null by the schema
abbrev pub name_of : ClientData → Option String → String
name_of (user u) given = u.display_name
name_of (guest id) given = name_or given "Guest"

abbrev workbook_room : String → String
workbook_room id = append "workbook:" id

abbrev in_workbook : (String → Message) → Option String → List Message
in_workbook f none = []
in_workbook f (some id) = if id == "" then [] else f (workbook_room id) ∷ []

-- `!u.userId.startsWith("guest_")`
abbrev is_member : ActiveUser → Bool
is_member u = not (starts_with u.user_id "guest_")

abbrev catchup : List CellOperation → List Message
catchup [] = []
catchup (o ∷ os) = ops_catchup (reverse (o ∷ os)) ∷ []

-- the gateway's maps and the rooms in Redis
pub record Gateway (redis : Redis) : Type 0 where
  pub rooms : redis.S
  pub socket_meta : Dict String SocketMeta
  pub buffers : Buffers

module _ (redis : Redis) where
  unfoldable pub handle_disconnect : String → Gateway redis → List Message × Gateway redis
  unfolding leave
  handle_disconnect client_id g = elim (lookup client_id g.socket_meta) [
    | none ↦ ([], g)
    | some meta ↦ (
      user_left meta.sheet_id ∷ in_workbook leave_room meta.workbook_id,
      record g {
        rooms = leave redis g.rooms meta.sheet_id client_id;
        socket_meta = erase client_id g.socket_meta;
      },
    )
  ]

  unfoldable pub handle_cursor : String → Cursor → Gateway redis → List Message × Gateway redis
  unfolding update_cursor
  handle_cursor client_id cursor g = elim (lookup client_id g.socket_meta) [
    | none ↦ ([], g)
    | some meta ↦ (
      cursor_moved meta.sheet_id cursor ∷ [],
      record g { rooms = update_cursor redis g.rooms meta.sheet_id client_id cursor },
    )
  ]

  -- `client.data.isGuest`, then the metadata, then the write for the sheet that the payload names;
  -- `promise` is the one that the handler returns
  unfoldable pub handle_cell_update :
      ℕ
      → ℕ
      → String
      → ClientData
      → String
      → UpdateCellDto
      → Gateway redis
      → List Message × Gateway redis
  unfolding enqueue_write
  handle_cell_update now promise client_id (guest id) sheet_id cell g =
      (collab_error "Guests cannot edit cells" ∷ [], g)
  handle_cell_update now promise client_id (user u) sheet_id cell g =
      elim (lookup client_id g.socket_meta) [
        | none ↦ ([], g)
        | some meta ↦ (
          [],
          record g {
            buffers =
                enqueue_write now
                  (record {
                    sheet_id = sheet_id;
                    user_id = u.id;
                    dto = cell;
                    socket_id = client_id;
                    promise = promise;
                  })
                  g.buffers;
          },
        )
      ]

  module _ ⦃p : Prisma⦄ where
    unfoldable pub handle_join :
        Db p
        → String
        → ClientData
        → String
        → Option String
        → Option String
        → Gateway redis
        → List Message × Gateway redis
    unfolding join get_recent
    handle_join db client_id client sheet_id workbook_id display_name g =
        let name = name_of client display_name in
        let (rooms, users) = join redis g.rooms sheet_id (id_of client) name client_id in
        let members = filter is_member users in
        (
          join_room sheet_id
              ∷ (in_workbook join_room workbook_id
                  ++ user_joined sheet_id members
                    ∷ sheet_users members
                    ∷ catchup (get_recent db sheet_id 200)),
          record g {
            rooms = rooms;
            socket_meta =
                insert client_id
                  (record {
                    sheet_id = sheet_id;
                    workbook_id = workbook_id;
                    user_id = id_of client;
                    display_name = name;
                  })
                  g.socket_meta;
          },
        )

    abbrev limit_or_50 : Option ℕ → ℕ
    limit_or_50 none = 50
    limit_or_50 (some n) = n

    unfoldable pub handle_cell_history : Db p → String → ℕ → ℕ → Option ℕ → List Message
    unfolding get_cell_history
    handle_cell_history db sheet_id row col limit =
        cell_history (get_cell_history db sheet_id row col (limit_or_50 limit)) ∷ []
