-- ===== src/Tests/Gateway.antt =====
-- Runs of the handshake and of joining and leaving rooms.
use onsheet_backend.Base.{string_eq, ◌≡◌, refl, some, none, [], arith, eq_iff}
use onsheet_backend.Base.Dict.{lookup}
use onsheet_backend.Prisma.Example.{in_memory}
use onsheet_backend.Auth.{safe, login, logout}
use onsheet_backend.Collab.Batch.Timers.{no_buffers}
use onsheet_backend.Collab.Presence.{active_user}
use onsheet_backend.Collab.Gateway.{
  authenticate, Gateway, user, guest, handle_join, handle_disconnect,
}
use onsheet_backend.Collab.Gateway.Handshake.{authenticate-login}
use onsheet_backend.Collab.Gateway.Rooms.{hget-handle_disconnect, handle_join-leaves_ghost}
use onsheet_backend.Tests.Office.{office, dan}
use onsheet_backend.Tests.Packages.{plain, spelled, settings, lone, dan', lone-HasUniqueEmails}
use onsheet_backend.Tests.Presence.{hashes, room}

abbrev pub gateway : Gateway hashes
gateway = record { rooms = room; socket_meta = []; buffers = no_buffers }

hget-handle_disconnect_example :
    let joined =
      (handle_join hashes ⦃p = in_memory⦄ office "y" (user (safe dan)) "s" none none gateway).1 in
    let left = (handle_disconnect hashes "y" joined).1 in
    (hashes.hget left.rooms "presence:room:s" "x" ≡ some (active_user "ann" "Ann" "x"))
    × (lookup "x" left.socket_meta ≡ none)
hget-handle_disconnect_example =
    hget-handle_disconnect hashes ⦃p = in_memory⦄ office "y" (user (safe dan)) none "s" none
      "presence:room:s" "x" gateway

handle_join-leaves_ghost_example :
    let once =
      (handle_join hashes ⦃p = in_memory⦄ office "y" (guest "guest_1") "s" none none gateway).1 in
    let twice =
      (handle_join hashes ⦃p = in_memory⦄ office "y" (guest "guest_1") "t" none none once).1 in
    hashes.hget (handle_disconnect hashes "y" twice).1.rooms "presence:room:s" "y"
    ≡ some (active_user "guest_1" "Guest" "y")
handle_join-leaves_ghost_example =
    handle_join-leaves_ghost hashes ⦃p = in_memory⦄ office "y" (guest "guest_1") none "s" "t" none
      none gateway (λ e. ground (arith, (eq_iff "presence:room:t" "presence:room:s").1 e))

authenticate-login_example :
    let out = (logout plain spelled settings ⦃p = in_memory⦄ "dan" lone).1 in
    let back = (login plain spelled settings ⦃p = in_memory⦄ 7 "salt" (safe dan') out).1 in
    (authenticate spelled settings ⦃p = in_memory⦄ 5 out none
        (some "refreshToken=xdxaxn.dan")
        "guest_1"
      ≡ guest "guest_1")
    × (authenticate spelled settings ⦃p = in_memory⦄ 5 back none
          (some "refreshToken=xdxaxn.dan")
          "guest_1"
        ≡ user (safe dan'))
unfolding onsheet_backend.Collab.Cookies.parse_cookies
authenticate-login_example =
    authenticate-login plain spelled settings ⦃p = in_memory⦄ lone dan' lone-HasUniqueEmails refl 7
      5 "salt" "xdxaxn.dan" "guest_1" (some "refreshToken=xdxaxn.dan")
      (record { sub = "dan"; email = "dan" }) refl refl refl refl refl
