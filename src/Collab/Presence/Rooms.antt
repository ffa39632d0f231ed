-- ===== src/Collab/Presence/Rooms.antt =====
-- What joining, leaving and moving do to every entry of every room.
use onsheet_backend.Base.{
  String, Bool, ◌&&◌, Option, none, some, List, [], ◌∷◌, ◌==◌, ◌≡◌, refl, string_eq, arith, eq_iff,
  ◌∙◌, if◌then◌else◌, length, Option-cases, inl, inr,
}
use onsheet_backend.Base.Dict.{lookup}
use onsheet_backend.Collab.Presence.{
  presence_ttl, Redis, ActiveUser, Cursor, room_key, join, leave, update_cursor, active_user,
  move_to,
}

lookup_of_empty :
    (l : List (String × ActiveUser)) (field : String) → length l ≡ 0 → lookup field l ≡ none
lookup_of_empty [] field h = refl
lookup_of_empty (x ∷ l) field h = absurd (omega arith)

-- the entry of a user whose cursor moved
abbrev pub moved : Cursor → Option ActiveUser → Option ActiveUser
moved cursor none = none
moved cursor (some u) = some (move_to cursor u)

module _ (r : Redis) (s : r.S) (sheet_id socket_id : String) where
  abbrev pub is_entry : String → String → Bool
  is_entry key field = room_key sheet_id == key && socket_id == field

  -- Joining sets the entry of the socket in the room of the sheet, and no other entry of any room.
  pub hget-join :
      (user_id display_name key field : String)
      → r.hget (join r s sheet_id user_id display_name socket_id).0 key field ≡ (
          if is_entry key field
          then some (active_user user_id display_name socket_id)
          else r.hget s key field)
  unfolding join
  hget-join user_id display_name key field =
      r.hget-expire _ (room_key sheet_id) _ key field
      ∙ r.hget-hset s (room_key sheet_id) socket_id _ key field

  -- Leaving removes the entry of the socket from the room of the sheet, and no other entry of any
  -- room, also where the room is empty afterwards and its key is deleted.
  pub hget-leave :
      (key field : String)
      → r.hget (leave r s sheet_id socket_id) key field
        ≡ (if is_entry key field then none else r.hget s key field)
  unfolding leave
  hget-leave key field =
      let s' = r.hdel s (room_key sheet_id) socket_id in
      ground (
        arith,
        r.hget-hdel s (room_key sheet_id) socket_id key field,
        r.hget-del s' (room_key sheet_id) key field,
        r.hlen_lem s' (room_key sheet_id),
        lookup_of_empty (r.hgetall s' (room_key sheet_id)) field,
        r.find-hgetall s' (room_key sheet_id) field,
        eq_iff (room_key sheet_id) key,
      )

  -- A cursor move changes the cursor of the socket's own entry, and nothing if there is none.
  pub hget-update_cursor :
      (cursor : Cursor) (key field : String)
      → r.hget (update_cursor r s sheet_id socket_id cursor) key field
        ≡ (if is_entry key field then moved cursor (r.hget s key field) else r.hget s key field)
  unfolding update_cursor
  hget-update_cursor cursor key field =
      elim (Option-cases (r.hget s (room_key sheet_id) socket_id)) [
        | inl absent ↦
            ground (arith, absent, eq_iff (room_key sheet_id) key, eq_iff socket_id field)
        | inr (u, found) ↦ ground (
          arith,
          found,
          r.hget-expire (r.hset s (room_key sheet_id) socket_id (move_to cursor u))
              (room_key sheet_id) presence_ttl key field,
          r.hget-hset s (room_key sheet_id) socket_id (move_to cursor u) key field,
          eq_iff (room_key sheet_id) key,
          eq_iff socket_id field,
        )
      ]
