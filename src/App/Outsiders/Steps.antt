-- ===== src/App/Outsiders/Steps.antt =====
-- What a message or a timer does to a state that is left to outsiders.
use onsheet_backend.Base.{
  ℕ, String, Option, none, some, true, false, List, [], ◌∷◌, ◌++◌, ◌==◌, string_eq, ◌≡◌, ◌≢◌, refl,
  arith, sym, subst, All-append, if◌then◌else◌,
}
use onsheet_backend.Base.Dict.{Dict, lookup, insert, erase, lookup-insert, lookup-erase}
use onsheet_backend.Prisma.{Prisma, Db, Workbook, Sheet, Cell}
use onsheet_backend.Auth.{SafeUser}
use onsheet_backend.Cells.Service.{UpdateCellDto}
use onsheet_backend.Collab.Presence.{Redis, Cursor}
use onsheet_backend.Collab.Batch.{PendingWrite, Buffers, batch_of, enqueue_write, flush_batch}
use onsheet_backend.Collab.Gateway.{
  ClientData, Gateway, SocketMeta, user, guest, handle_cursor, handle_cell_update,
  handle_disconnect,
}
use onsheet_backend.Api.Controllers.Accounts.{Server}
use onsheet_backend.Api.Validation.{Validator}
use onsheet_backend.App.Outsiders.Flushes.{flush_batch-IsShut}
use onsheet_backend.Api.Outsiders.{IsShut}
use onsheet_backend.App.Senders.{IsLeftToOutsiders, ByOutsiders}
use onsheet_backend.App.{Bool, App, Output, messages, events}

module _ ⦃p : Prisma⦄ (sid : String) (sh : Sheet) (wb : Workbook) (IsOutside : String → Type 0)
    (outside : (x : String) → IsOutside x → wb.owner_id ≢ x) (row col : ℕ)
    (cell : Option Cell) where
  abbrev pub IsShutDb : Db p → Type 0
  IsShutDb = IsShut sid sh wb IsOutside outside row col cell

  module _ (redis : Redis) (s : Server) (v : Validator) where
    pub record IsShutApp (a : App redis) : Type 0 where
      pub shut : IsShut sid sh wb IsOutside outside row col cell a.db
      pub left : IsLeftToOutsiders IsOutside redis s v a

    ByOutsiders-insert :
        (j k : String) (b : Dict String (List PendingWrite)) (writes : List PendingWrite)
        → ByOutsiders IsOutside writes
        → ByOutsiders IsOutside (batch_of (lookup k b))
        → ByOutsiders IsOutside (batch_of (lookup k (insert j writes b)))
    ByOutsiders-insert j k b writes new old =
        subst (λ o. ByOutsiders IsOutside (batch_of o)) (sym (lookup-insert j k writes b))
          (elim (j == k)
            as (λ same.
              ByOutsiders IsOutside (batch_of (if same then some writes else lookup k b))) [
                | true ↦ new
                | false ↦ old
              ])

    ByOutsiders-erase :
        (j k : String) (b : Dict String (List PendingWrite))
        → ByOutsiders IsOutside (batch_of (lookup k b))
        → ByOutsiders IsOutside (batch_of (lookup k (erase j b)))
    ByOutsiders-erase j k b old =
        subst (λ o. ByOutsiders IsOutside (batch_of o)) (sym (lookup-erase j k b))
          (elim (j == k)
            as (λ same. ByOutsiders IsOutside (batch_of (if same then none else lookup k b))) [
              | true ↦ tt
              | false ↦ old
            ])

    pub buffers-handle_cursor :
        (client_id : String) (position : Cursor) (g : Gateway redis)
        → (handle_cursor redis client_id position g).1.buffers ≡ g.buffers
    unfolding handle_cursor
    buffers-handle_cursor client_id position g = ground arith

    pub buffers-handle_disconnect :
        (client_id : String) (g : Gateway redis)
        → (handle_disconnect redis client_id g).1.buffers ≡ g.buffers
    unfolding handle_disconnect
    buffers-handle_disconnect client_id g = ground arith

    -- The gateway's own maps and rooms do not matter here.
    pub IsShutApp-gateway :
        (a : App redis) (g : Gateway redis)
        → IsShutApp a
        → g.buffers ≡ a.gateway.buffers
        → IsShutApp (record a { gateway = g })
    IsShutApp-gateway a g h same = record {
      shut = h.shut;
      left = record {
        clients_outside = h.left.clients_outside;
        writes_outside = λ k.
            subst (λ (b : Buffers). ByOutsiders IsOutside (batch_of (lookup k b.pending_batches)))
              (sym same) (h.left.writes_outside k);
      };
    }

    abbrev queue_of :
        ℕ → ℕ → String → SafeUser → String → UpdateCellDto → Gateway redis → Gateway redis
    queue_of now promise client_id u sheet_id dto g = record g {
      buffers =
          enqueue_write now
            (record {
              sheet_id = sheet_id;
              user_id = u.id;
              dto = dto;
              socket_id = client_id;
              promise = promise;
            })
            g.buffers;
    }

    abbrev queue_if_joined :
        Option SocketMeta
        → ℕ
        → ℕ
        → String
        → SafeUser
        → String
        → UpdateCellDto
        → Gateway redis
        → Gateway redis
    queue_if_joined none now promise client_id u sheet_id dto g = g
    queue_if_joined (some meta) now promise client_id u sheet_id dto g =
        queue_of now promise client_id u sheet_id dto g

    handle_cell_update-user :
        (now promise : ℕ) (client_id sheet_id : String) (dto : UpdateCellDto) (u : SafeUser)
        (g : Gateway redis)
        → (handle_cell_update redis now promise client_id (user u) sheet_id dto g).1
          ≡ queue_if_joined (lookup client_id g.socket_meta) now promise client_id u sheet_id dto g
    unfolding handle_cell_update
    handle_cell_update-user now promise client_id sheet_id dto u g = ground arith

    queued_lem :
        (now promise : ℕ) (client_id sheet_id : String) (dto : UpdateCellDto) (u : SafeUser)
        (a : App redis)
        → IsShutApp a
        → IsOutside u.id
        → IsShutApp (record a { gateway = queue_of now promise client_id u sheet_id dto a.gateway })
    unfolding enqueue_write
    queued_lem now promise client_id sheet_id dto u a h o = record {
      shut = h.shut;
      left = record {
        clients_outside = h.left.clients_outside;
        writes_outside = λ k.
            ByOutsiders-insert sheet_id k a.gateway.buffers.pending_batches
              (batch_of (lookup sheet_id a.gateway.buffers.pending_batches)
                ++ record {
                  sheet_id = sheet_id;
                  user_id = u.id;
                  dto = dto;
                  socket_id = client_id;
                  promise = promise;
                }
                  ∷ [])
              (All-append (λ w. IsOutside w.user_id)
                (batch_of (lookup sheet_id a.gateway.buffers.pending_batches))
                (record {
                  sheet_id = sheet_id;
                  user_id = u.id;
                  dto = dto;
                  socket_id = client_id;
                  promise = promise;
                }
                  ∷ [])
                (h.left.writes_outside sheet_id) (o, tt))
              (h.left.writes_outside k);
      };
    }

    pub cell_update-IsShutApp :
        (now promise : ℕ) (client_id sheet_id : String) (dto : UpdateCellDto) (a : App redis)
        (c : ClientData)
        → IsShutApp a
        → lookup client_id a.clients ≡ some c
        → IsShutApp (record a {
          gateway = (handle_cell_update redis now promise client_id c sheet_id dto a.gateway).1;
        })
    cell_update-IsShutApp now promise client_id sheet_id dto a (guest id) h known =
        unfold handle_cell_update in IsShutApp-gateway a a.gateway h refl
    cell_update-IsShutApp now promise client_id sheet_id dto a (user u) h known =
        subst (λ g. IsShutApp (record a { gateway = g }))
          (sym (handle_cell_update-user now promise client_id sheet_id dto u a.gateway))
          (elim (lookup client_id a.gateway.socket_meta)
            as (λ o. IsShutApp (record a {
              gateway = queue_if_joined o now promise client_id u sheet_id dto a.gateway;
            })) [
              | none ↦ IsShutApp-gateway a a.gateway h refl
              | some meta ↦
                  queued_lem now promise client_id sheet_id dto u a h
                    (h.left.clients_outside client_id u known)
            ])

    abbrev pub flushed : String → App redis → App redis
    flushed sheet_id a =
        let (es, db, buffers) = flush_batch sheet_id a.gateway.buffers a.db in
        record a { db = db; gateway = record a.gateway { buffers = buffers } }

    abbrev pub fired_if : Bool → String → App redis → Output × App redis
    fired_if due sheet_id a =
        if due
        then (events (flush_batch sheet_id a.gateway.buffers a.db).0, flushed sheet_id a)
        else (messages [], a)

    pub flushed_lem :
        (sheet_id : String) (a : App redis) → IsShutApp a → IsShutApp (flushed sheet_id a)
    unfolding flush_batch
    flushed_lem sheet_id a h = record {
      shut =
          flush_batch-IsShut sid sh wb IsOutside outside row col cell sheet_id a.gateway.buffers
            a.db (h.left.writes_outside sheet_id) h.shut;
      left = record {
        clients_outside = h.left.clients_outside;
        writes_outside = λ k.
            ByOutsiders-erase sheet_id k a.gateway.buffers.pending_batches
              (h.left.writes_outside k);
      };
    }
