-- ===== src/Collab/Gateway/Rooms.antt =====
-- What a socket leaves behind in the rooms.
use onsheet_backend.Base.{
  String, Option, none, some, ◌==◌, ◌≡◌, ◌≢◌, refl, string_eq, arith, eq_iff, if◌then◌else◌,
}
use onsheet_backend.Base.Dict.{lookup, insert, erase, lookup-insert, lookup-erase}
use onsheet_backend.Prisma.{Prisma, Db}
use onsheet_backend.Collab.Presence.{Redis, join, leave, active_user, room_key}
use onsheet_backend.Collab.Presence.Rooms.{hget-join, hget-leave, is_entry}
use onsheet_backend.Collab.Gateway.{
  Gateway, SocketMeta, ClientData, handle_join, handle_disconnect, id_of, name_of,
}

module _ (redis : Redis) where
  -- A socket that is known is forgotten, and leaves the sheet of its metadata.
  disconnected :
      (client_id : String) (g : Gateway redis) (meta : SocketMeta)
      → lookup client_id g.socket_meta ≡ some meta
      → (handle_disconnect redis client_id g).1 ≡ record g {
        rooms = leave redis g.rooms meta.sheet_id client_id;
        socket_meta = erase client_id g.socket_meta;
      }
  unfolding handle_disconnect
  disconnected client_id g meta found = ground (arith, found)

module _ (redis : Redis) ⦃p : Prisma⦄ (db : Db p) (client_id : String) (client : ClientData)
    (display_name : Option String) where
  abbrev joined_meta : String → Option String → SocketMeta
  joined_meta sheet_id workbook_id = record {
    sheet_id = sheet_id;
    workbook_id = workbook_id;
    user_id = id_of client;
    display_name = name_of client display_name;
  }

  abbrev after_join : String → Option String → Gateway redis → Gateway redis
  after_join sheet_id workbook_id g = record g {
    rooms = (join redis g.rooms sheet_id (id_of client) (name_of client display_name) client_id).0;
    socket_meta = insert client_id (joined_meta sheet_id workbook_id) g.socket_meta;
  }

  handle_join_lem :
      (sheet_id : String) (workbook_id : Option String) (g : Gateway redis)
      → (handle_join redis db client_id client sheet_id workbook_id display_name g).1
        ≡ after_join sheet_id workbook_id g
  unfolding handle_join
  handle_join_lem sheet_id workbook_id g = refl

  known :
      (sheet_id : String) (workbook_id : Option String) (g : Gateway redis)
      → lookup client_id (after_join sheet_id workbook_id g).socket_meta
        ≡ some (joined_meta sheet_id workbook_id)
  known sheet_id workbook_id g = ground (
    arith,
    lookup-insert client_id client_id (joined_meta sheet_id workbook_id) g.socket_meta,
    eq_iff client_id client_id,
  )

  -- A socket that joins a sheet and disconnects leaves every entry of every room as it was, but for
  -- its own in the room of that sheet, which is gone, and the gateway forgets the socket alone.
  pub hget-handle_disconnect :
      (sheet_id : String) (workbook_id : Option String) (key field : String) (g : Gateway redis)
      → let joined =
          (handle_join redis db client_id client sheet_id workbook_id display_name g).1 in
        let left = (handle_disconnect redis client_id joined).1 in
        (redis.hget left.rooms key field ≡ (
          if is_entry redis g.rooms sheet_id client_id key field
          then none
          else redis.hget g.rooms key field))
        × (lookup field left.socket_meta
            ≡ (if client_id == field then none else lookup field g.socket_meta))
  hget-handle_disconnect sheet_id workbook_id key field g =
      let name = name_of client display_name in
      let g' = after_join sheet_id workbook_id g in
      rw (handle_join_lem sheet_id workbook_id g) (
        rw
          (disconnected redis client_id g' (joined_meta sheet_id workbook_id)
            (known sheet_id workbook_id g))
          (
            ground (
              arith,
              hget-leave redis g'.rooms sheet_id client_id key field,
              hget-join redis g.rooms sheet_id client_id (id_of client) name key field,
            ),
            ground (
              arith,
              lookup-erase client_id field g'.socket_meta,
              lookup-insert client_id field (joined_meta sheet_id workbook_id) g.socket_meta,
            ),
          ))

  -- A socket that joins a second sheet is not taken out of the first: after it disconnects, its
  -- entry still stands in the room of the first sheet.
  pub handle_join-leaves_ghost :
      (first second : String) (workbook_id workbook_id' : Option String) (g : Gateway redis)
      → room_key second ≢ room_key first
      → let once = (handle_join redis db client_id client first workbook_id display_name g).1 in
        let twice =
          (handle_join redis db client_id client second workbook_id' display_name once).1 in
        redis.hget (handle_disconnect redis client_id twice).1.rooms (room_key first) client_id
        ≡ some (active_user (id_of client) (name_of client display_name) client_id)
  handle_join-leaves_ghost first second workbook_id workbook_id' g other =
      let name = name_of client display_name in
      let once = after_join first workbook_id g in
      let twice = after_join second workbook_id' once in
      rw (handle_join_lem first workbook_id g) (
        rw (handle_join_lem second workbook_id' once) (
          rw
            (disconnected redis client_id twice (joined_meta second workbook_id')
              (known second workbook_id' once))
            (ground (
              arith,
              hget-leave redis twice.rooms second client_id (room_key first) client_id,
              hget-join redis once.rooms second client_id (id_of client) name (room_key first)
                  client_id,
              hget-join redis g.rooms first client_id (id_of client) name (room_key first)
                  client_id,
              eq_iff (room_key second) (room_key first),
              eq_iff (room_key first) (room_key first),
              eq_iff client_id client_id,
            ))))
