-- ===== src/Api/Agent.antt =====
-- The routes of src/modules/ai/ai.controller.ts behind the guards, the validation and the filter.
-- They have a state of their own, the tables with the conversations and the cache of tools.
use onsheet_backend.Base.{String, Bool, true, false, Option, List, ◌≡◌, refl, subst, sym}
use onsheet_backend.Prisma.{Prisma}
use onsheet_backend.Http.{Result, ok, err, Exception, bad_request}
use onsheet_backend.Auth.{SafeUser}
use onsheet_backend.Ai.{AgentAction}
use onsheet_backend.Ai.Messages.{Message}
use onsheet_backend.Ai.Context.{ContextStore}
use onsheet_backend.Ai.Graph.{LangGraph, Models}
use onsheet_backend.Ai.Acting.{IsOwn, ActsAs, ActsAs-refl}
use onsheet_backend.Ai.Caller.{run_graph_agent-ActsAs}
use onsheet_backend.Ai.Service.{AiRoute, agent, formula, analyze, AiValue, AiState, ai_controller}
use onsheet_backend.Api.Answers.{Reply, filter_exception}
use onsheet_backend.Api.Controllers.Accounts.{Server, Draws}
use onsheet_backend.Api.Validation.{Validator, valid_ai}
use onsheet_backend.Api.{user_by}

pub record AgentRequest : Type 0 where
  pub route : AiRoute
  pub url : String
  pub access_cookie : Option String
  pub bearer : Option String

-- `{ success: true, data }` with 201, which NestJS sends for a POST, or what the filter answers
pub data AgentReply : Type 0 where
  created : AiValue → AgentReply
  refused : Reply → AgentReply

module _ (s : Server) (v : Validator) (d : Draws) (redis : ContextStore) (models : Models)
    (llm : List Message → Option Message) ⦃p : Prisma⦄ (g : LangGraph)
    (parse_action : String → Option (Option AgentAction)) where
  abbrev State : Type 0
  State = AiState redis models llm g parse_action

  abbrev filtered : AgentRequest → Exception → AgentReply
  filtered r e = refused (filter_exception d.now r.url e)

  abbrev replied : AgentRequest → Result AiValue × State → AgentReply × State
  replied r (ok a, st) = (created a, st)
  replied r (err e, st) = (filtered r e, st)

  abbrev validated : AgentRequest → Bool → SafeUser → State → AgentReply × State
  validated r true u st = replied r (ai_controller redis models llm g parse_action r.route u.id st)
  validated r false u st = (filtered r (bad_request "Bad Request"), st)

  abbrev guarded : AgentRequest → Result SafeUser → State → AgentReply × State
  guarded r (err e) st = (filtered r e, st)
  guarded r (ok u) st = validated r (valid_ai v r.route) u st

  -- `JwtAuthGuard`, the `ValidationPipe`, the controller, and the filter or the interceptor
  unfoldable pub serve_agent : AgentRequest → State → AgentReply × State
  unfolding valid_ai ai_controller filter_exception
  serve_agent r st = guarded r (user_by s v d r.access_cookie r.bearer st.db) st

  -- What comes of a request, by who sent it: for nobody the guard's exception and the state as it
  -- was, and for a user what the agent may do as that user.
  abbrev pub Outcome : AgentRequest → Result SafeUser → State → AgentReply × State → Type 0
  Outcome r (err e) before x = x ≡ (refused (filter_exception d.now r.url e), before)
  Outcome r (ok u) before x = ActsAs models u.id before.db x.1.db × IsOwn x.1.tools

  state-replied : (r : AgentRequest) (x : Result AiValue × State) → (replied r x).1 ≡ x.1
  state-replied r (ok a, st) = refl
  state-replied r (err e, st) = refl

  ai_controller-Outcome :
      (r : AgentRequest) (route : AiRoute) (u : SafeUser) (st : State)
      → IsOwn st.tools
      → Outcome r
          (ok u)
          st
          (replied r (ai_controller redis models llm g parse_action route u.id st))
  unfolding ai_controller
  ai_controller-Outcome r (agent sheet_id session_id query) u st own =
      subst (λ (x : State). ActsAs models u.id st.db x.db × IsOwn x.tools)
        (sym (
          state-replied r (
            ai_controller redis models llm g parse_action (agent sheet_id session_id query) u.id
              st)))
        (run_graph_agent-ActsAs redis models llm g parse_action sheet_id session_id query u.id st
          own)
  ai_controller-Outcome r (formula dto) u st own =
      subst (λ (x : State). ActsAs models u.id st.db x.db × IsOwn x.tools)
        (sym
          (state-replied r (ai_controller redis models llm g parse_action (formula dto) u.id st)))
        (ActsAs-refl models u.id st.db, own)
  ai_controller-Outcome r (analyze dto) u st own =
      subst (λ (x : State). ActsAs models u.id st.db x.db × IsOwn x.tools)
        (sym
          (state-replied r (ai_controller redis models llm g parse_action (analyze dto) u.id st)))
        (ActsAs-refl models u.id st.db, own)

  -- If every user's cached tools are that user's own, then a request to the agent's routes, whatever
  -- the language models say and however the run ends, changes no account, no workbook, no grant, no
  -- sheet and no snapshot, each comment that is stored afterwards was there before or names the
  -- request's user as its author, and the cached tools are still each user's own. A request whose
  -- access token names nobody is answered with the guard's exception, and changes nothing at all.
  pub serve_agent-Outcome :
      (r : AgentRequest) (st : State)
      → IsOwn st.tools
      → Outcome r (user_by s v d r.access_cookie r.bearer st.db) st (serve_agent r st)
  unfolding serve_agent
  serve_agent-Outcome r st own =
      elim (user_by s v d r.access_cookie r.bearer st.db)
        as (λ o. Outcome r o st (guarded r o st)) [
          | err e ↦ refl
          | ok u ↦
              elim (valid_ai v r.route) as (λ fits. Outcome r (ok u) st (validated r fits u st)) [
                | true ↦ ai_controller-Outcome r r.route u st own
                | false ↦ (ActsAs-refl models u.id st.db, own)
              ]
        ]
