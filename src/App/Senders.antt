-- ===== src/App/Senders.antt =====
-- Who the inputs of a run come from, and on whose behalf the server still has work to do.
use onsheet_backend.Base.{String, some, List, [], ◌∷◌, string_eq, ◌≡◌, All}
use onsheet_backend.Base.Dict.{lookup}
use onsheet_backend.Prisma.{Prisma}
use onsheet_backend.Http.{ok}
use onsheet_backend.Auth.{SafeUser}
use onsheet_backend.Collab.Presence.{Redis}
use onsheet_backend.Collab.Batch.{PendingWrite, batch_of}
use onsheet_backend.Collab.Gateway.{user, authenticate}
use onsheet_backend.Api.Controllers.Accounts.{Server}
use onsheet_backend.Api.Validation.{Validator}
use onsheet_backend.Api.{user_of}
use onsheet_backend.App.{App, Input, request, connect, step}

module _ (IsOutside : String → Type 0) where
  abbrev pub ByOutsiders : List PendingWrite → Type 0
  ByOutsiders = All (λ w. IsOutside w.user_id)

  module _ (redis : Redis) ⦃p : Prisma⦄ (s : Server) (v : Validator) where
    -- Who sends an input, or connects by it, is an outsider or nobody.
    abbrev pub IsSentByOutsider : Input → App redis → Type 0
    IsSentByOutsider (request d r) a = (u : SafeUser) → user_of s v d r a.db ≡ ok u → IsOutside u.id
    IsSentByOutsider (connect now client_id token cookies guest_id) a =
        (u : SafeUser)
        → authenticate s.jwt s.config now a.db token cookies guest_id ≡ user u
        → IsOutside u.id
    IsSentByOutsider _ a = Unit

    abbrev pub AreSentByOutsiders : List Input → App redis → Type 0
    AreSentByOutsiders [] a = Unit
    AreSentByOutsiders (i ∷ is) a =
        IsSentByOutsider i a × AreSentByOutsiders is (step redis s v i a).1

    -- The connected users are outsiders, and so are those whose writes wait.
    pub record IsLeftToOutsiders (a : App redis) : Type 0 where
      pub clients_outside :
          (k : String) (u : SafeUser) → lookup k a.clients ≡ some (user u) → IsOutside u.id
      pub writes_outside :
          (k : String) → ByOutsiders (batch_of (lookup k a.gateway.buffers.pending_batches))
