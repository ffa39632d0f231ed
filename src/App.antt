-- ===== src/App.antt =====
-- The whole server, as src/app.module.ts puts it together: the HTTP interface, the sockets of
-- src/modules/collab/collab.gateway.ts and the timers of its batches work on one database. An input
-- is what reaches the server, one at a time. The routes of src/modules/ai are not among them.
pub mod Senders
pub mod Outsiders
use onsheet_backend.Base.{
  ℕ, String, Bool, false, Option, none, some, List, [], ◌∷◌, leb, string_eq, if◌then◌else◌,
}
use onsheet_backend.Base.Dict.{Dict, lookup, insert, erase}
use onsheet_backend.Prisma.{Prisma, Db}
use onsheet_backend.Cells.Service.{UpdateCellDto}
use onsheet_backend.Collab.Presence.{Redis, Cursor}
use onsheet_backend.Collab.Batch.{Event, flush_batch}
use onsheet_backend.Collab.Gateway.{
  ClientData, Gateway, Message, authenticate, handle_join, handle_cursor, handle_cell_update,
  handle_cell_history, handle_disconnect,
}
use onsheet_backend.Api.Answers.{Reply}
use onsheet_backend.Api.Controllers.Accounts.{Server, Draws}
use onsheet_backend.Api.Validation.{Validator}
use onsheet_backend.Api.{Request, serve}

pub data Input : Type 0 where
  -- a request, with what is drawn for it
  request : Draws → Request → Input
  -- a socket connects: the time, its id, its token, its cookies, and the id drawn for a guest
  connect : ℕ → String → Option String → Option String → String → Input
  -- the messages `sheet:join`, `cursor:move`, `cell:update` and `cell:history` of a socket
  join : String → String → Option String → Option String → Input
  cursor : String → Cursor → Input
  cell_update : ℕ → ℕ → String → String → UpdateCellDto → Input
  cell_history : String → String → ℕ → ℕ → Option ℕ → Input
  disconnect : String → Input
  -- the timer of a sheet's batch, at a time
  timer : ℕ → String → Input

-- What leaves the server: the reply to a request, what the gateway tells Socket.IO, or what a flush
-- sends.
pub data Output : Type 0 where
  reply : Reply → Output
  messages : List Message → Output
  events : List Event → Output

abbrev pub is_due : ℕ → Option ℕ → Bool
is_due now none = false
is_due now (some time) = leb time now

module _ (redis : Redis) ⦃p : Prisma⦄ where
  pub record App : Type 0 where
    pub db : Db p
    -- `client.data` of each socket
    pub clients : Dict String ClientData
    pub gateway : Gateway redis

  abbrev pub told : App → List Message × Gateway redis → Output × App
  told a (ms, g) = (messages ms, record a { gateway = g })

  -- Only sockets that are connected send messages.
  abbrev pub from_client : App → Option ClientData → (ClientData → Output × App) → Output × App
  from_client a none f = (messages [], a)
  from_client a (some c) f = f c

  module _ (s : Server) (v : Validator) where
    unfoldable pub step : Input → App → Output × App
    step (request d r) a =
        let (answer, db) = serve s v d r a.db in (reply answer, record a { db = db })
    step (connect now client_id token cookies guest_id) a = (
      messages [],
      record a {
        clients =
            insert client_id (authenticate s.jwt s.config now a.db token cookies guest_id)
              a.clients;
      },
    )
    step (join client_id sheet_id workbook_id display_name) a =
        from_client a (lookup client_id a.clients) (λ c.
          told a (handle_join redis a.db client_id c sheet_id workbook_id display_name a.gateway))
    step (cursor client_id position) a = told a (handle_cursor redis client_id position a.gateway)
    step (cell_update now promise client_id sheet_id cell) a =
        from_client a (lookup client_id a.clients)
          (λ c. told a (handle_cell_update redis now promise client_id c sheet_id cell a.gateway))
    step (cell_history client_id sheet_id row col limit) a =
        from_client a (lookup client_id a.clients)
          (λ c. (messages (handle_cell_history redis a.db sheet_id row col limit), a))
    step (disconnect client_id) a =
        let (ms, g) = handle_disconnect redis client_id a.gateway in
        (messages ms, record a { clients = erase client_id a.clients; gateway = g })
    step (timer now sheet_id) a =
        let (es, db, buffers) = flush_batch sheet_id a.gateway.buffers a.db in
        if is_due now (lookup sheet_id a.gateway.buffers.batch_timers)
        then (events es, record a { db = db; gateway = record a.gateway { buffers = buffers } })
        else (messages [], a)

    unfoldable pub run : List Input → App → App
    run [] a = a
    run (i ∷ is) a = run is (step i a).1
