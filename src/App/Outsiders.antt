-- ===== src/App/Outsiders.antt =====
-- What users who may not edit a workbook do to one of its sheets, by whatever they send.
mod Flushes
mod Steps
use onsheet_backend.Base.{
  ℕ, String, Option, none, some, true, false, List, [], ◌∷◌, ◌++◌, ◌==◌, string_eq, ◌≡◌, ◌≢◌, refl,
  arith, ap, sym, subst, ◌∙◌, All, All-append, Bool-cases, inl, inr, if◌then◌else◌, eq_iff,
}
use onsheet_backend.Base.Dict.{Dict, lookup, insert, erase, values, lookup-insert, lookup-erase}
use onsheet_backend.Prisma.{Prisma, Db, Workbook, Sheet, Cell}
use onsheet_backend.Http.{ok, err}
use onsheet_backend.Auth.{SafeUser}
use onsheet_backend.Workbooks.Access.{find_workbook, assert_editor}
use onsheet_backend.Sheets.Service.{find_sheet, assert_editor_access}
use onsheet_backend.Cells.Service.{find_cell, UpdateCellDto, ws, upsert}
use onsheet_backend.Cells.Guarding.{writes_denied}
use onsheet_backend.Cells.Elsewhere.{find_cell-upsert_elsewhere}
use onsheet_backend.Collab.Presence.{Redis, Cursor}
use onsheet_backend.Collab.Batch.{
  PendingWrite, Buffers, batch_of, enqueue_write, cell_key, dedup_from, deliver, flush_batch,
}
use onsheet_backend.Collab.Gateway.{
  ClientData, Gateway, SocketMeta, user, guest, authenticate, handle_join, handle_cursor,
  handle_cell_update, handle_cell_history, handle_disconnect,
}
use onsheet_backend.Api.Controllers.Accounts.{Server, Draws}
use onsheet_backend.Api.Validation.{Validator}
use onsheet_backend.Api.{Request, user_of, serve}
use onsheet_backend.Api.Ownership.Rows.{KeepsTables}
use onsheet_backend.Api.Editing.{here_or_elsewhere}
use onsheet_backend.App.Outsiders.Steps.{
  IsShutApp, IsShutApp-gateway, cell_update-IsShutApp, buffers-handle_cursor,
  buffers-handle_disconnect, flushed_lem, fired_if,
}
use onsheet_backend.Api.Outsiders.{
  IsShut, turned_away, denied_iff, denied_of_outside, IsShut-KeepsTables, serve-IsShut,
}
use onsheet_backend.App.Senders.{
  ByOutsiders, IsLeftToOutsiders, IsSentByOutsider, AreSentByOutsiders,
}
use onsheet_backend.App.{
  App, Input, Output, told, from_client, is_due, messages, events, request, connect, join, cursor,
  cell_update, cell_history, disconnect, timer, step, run,
}

module _ ⦃p : Prisma⦄ (sid : String) (sh : Sheet) (wb : Workbook) (IsOutside : String → Type 0)
    (outside : (x : String) → IsOutside x → wb.owner_id ≢ x) (row col : ℕ)
    (cell : Option Cell) where
  module _ (redis : Redis) (s : Server) (v : Validator) where
    abbrev Shut : App redis → Type 0
    Shut = IsShutApp sid sh wb IsOutside outside row col cell redis s v

    step-IsShutApp :
        (i : Input) (a : App redis)
        → Shut a
        → IsSentByOutsider IsOutside redis s v i a
        → Shut (step redis s v i a).1
    unfolding step handle_join
    step-IsShutApp (request d r) a h sent = record {
      shut = serve-IsShut sid sh wb IsOutside outside row col cell s v d a.db h.shut r sent;
      left = record {
        clients_outside = h.left.clients_outside;
        writes_outside = h.left.writes_outside;
      };
    }
    step-IsShutApp (connect now client_id token cookies guest_id) a h sent = record {
      shut = h.shut;
      left = record {
        clients_outside = λ k u e. ground (
          arith,
          lookup-insert client_id k (authenticate s.jwt s.config now a.db token cookies guest_id)
              a.clients,
          e,
          sent u,
          h.left.clients_outside k u,
        );
        writes_outside = h.left.writes_outside;
      };
    }
    step-IsShutApp (join client_id sheet_id workbook_id display_name) a h sent =
        elim (lookup client_id a.clients)
          as (λ o.
            Shut
              (from_client redis a o (λ c. told redis a (
                handle_join redis a.db client_id c sheet_id workbook_id display_name
                  a.gateway))).1) [
                    | none ↦ h
                    | some c ↦
                        IsShutApp-gateway sid sh wb IsOutside outside row col cell redis s v a
                          (handle_join redis a.db client_id c sheet_id workbook_id display_name
                            a.gateway).1
                          h refl
                  ]
    step-IsShutApp (cursor client_id position) a h sent =
        IsShutApp-gateway sid sh wb IsOutside outside row col cell redis s v a
          (handle_cursor redis client_id position a.gateway).1 h
          (buffers-handle_cursor sid sh wb IsOutside outside row col cell redis s v client_id
            position a.gateway)
    step-IsShutApp (cell_update now promise client_id sheet_id dto) a h sent =
        sent_by (lookup client_id a.clients) refl
      where
        sent_by :
            (o : Option ClientData)
            → lookup client_id a.clients ≡ o
            → Shut
                (from_client redis a o (λ c.
                  told redis a
                    (handle_cell_update redis now promise client_id c sheet_id dto a.gateway))).1
        sent_by none known = h
        sent_by (some c) known =
            cell_update-IsShutApp sid sh wb IsOutside outside row col cell redis s v now promise
              client_id sheet_id dto a c h known
    step-IsShutApp (cell_history client_id sheet_id r c limit) a h sent =
        elim (lookup client_id a.clients)
          as (λ o.
            Shut
              (from_client redis a o
                (λ x. (messages (handle_cell_history redis a.db sheet_id r c limit), a))).1) [
                  | none ↦ h
                  | some c ↦ h
                ]
    step-IsShutApp (disconnect client_id) a h sent = record {
      shut = h.shut;
      left = record {
        clients_outside = λ k u e.
            ground (arith, lookup-erase client_id k a.clients, e, h.left.clients_outside k u);
        writes_outside = λ k.
            subst (λ (b : Buffers). ByOutsiders IsOutside (batch_of (lookup k b.pending_batches)))
              (sym (
                buffers-handle_disconnect sid sh wb IsOutside outside row col cell redis s v
                  client_id a.gateway))
              (h.left.writes_outside k);
      };
    }
    step-IsShutApp (timer now sheet_id) a h sent =
        elim (is_due now (lookup sheet_id a.gateway.buffers.batch_timers))
          as (λ due.
            Shut (fired_if sid sh wb IsOutside outside row col cell redis s v due sheet_id a).1) [
              | true ↦ flushed_lem sid sh wb IsOutside outside row col cell redis s v sheet_id a h
              | false ↦ h
            ]

    run-IsShutApp :
        (is : List Input) (a : App redis)
        → Shut a
        → AreSentByOutsiders IsOutside redis s v is a
        → Shut (run redis s v is a)
    unfolding run
    run-IsShutApp [] a h sent = h
    run-IsShutApp (i ∷ is) a h sent =
        run-IsShutApp is (step redis s v i a).1 (step-IsShutApp i a h sent.0) sent.1

module _ (redis : Redis) ⦃p : Prisma⦄ (s : Server) (v : Validator) (IsOutside : String → Type 0)
    (sid : String) (sh : Sheet) (wb : Workbook) (is : List Input) (a : App redis)
    (stored : find_sheet a.db sid ≡ some sh) (found : find_workbook a.db sh.workbook_id ≡ some wb)
    (denied : (x : String) → IsOutside x → assert_editor a.db sh.workbook_id x ≡ err turned_away)
    (left : IsLeftToOutsiders IsOutside redis s v a)
    (sent : AreSentByOutsiders IsOutside redis s v is a) where
  abbrev outside : (x : String) → IsOutside x → wb.owner_id ≢ x
  outside x o = ((denied_iff a.db sh.workbook_id x wb found).0 (denied x o)).0

  -- Whatever users who may not edit a workbook send, in any number and order, by HTTP outside the
  -- agent's routes and over sockets, and whenever timers fire between: if the database is one where
  -- `assertEditor` turns these users away, only they are connected, have writes that wait, send
  -- tokens or connect (or nobody, or guests), then every cell of the workbook's sheets is as it
  -- was, so are the rows of the sheet and of the workbook, and `assertEditor` still turns each of
  -- them away.
  pub run-find_cell :
      (row col : ℕ) (x : String)
      → IsOutside x
      → (find_cell (run redis s v is a).db sid row col ≡ find_cell a.db sid row col)
        × (find_sheet (run redis s v is a).db sid ≡ some sh)
        × (find_workbook (run redis s v is a).db sh.workbook_id ≡ some wb)
        × (assert_editor (run redis s v is a).db sh.workbook_id x ≡ err turned_away)
  run-find_cell row col x o =
      let h =
        run-IsShutApp sid sh wb IsOutside outside row col (find_cell a.db sid row col) redis s v is
          a
          (record {
            shut = record {
              workbook_kept = found;
              sheet_kept = stored;
              cell_kept = refl;
              grants_lack = λ y b. ((denied_iff a.db sh.workbook_id y wb found).0 (denied y b)).1;
            };
            left = left;
          })
          sent in
      (
        h.shut.cell_kept,
        h.shut.sheet_kept,
        h.shut.workbook_kept,
        denied_of_outside sid sh wb IsOutside outside row col (find_cell a.db sid row col)
            (run redis s v is a).db h.shut x o,
      )
