-- ===== src/Ai/Caller.antt =====
-- For whom `runAgent` writes.
use Prim.Native.String.{◌++◌ as append}
use onsheet_backend.Base.{String, map, ◌++◌, Option, List, [], ◌∷◌, ◌≡◌, arith, subst, sym}
use onsheet_backend.Prisma.{Prisma, Db}
use onsheet_backend.Http.{Result}
use onsheet_backend.Ai.{AgentAction}
use onsheet_backend.Ai.Messages.{Message}
use onsheet_backend.Ai.Context.{
  human, message_of, load_context, context_key, ContextStore, run_agent,
}
use onsheet_backend.Ai.Graph.{LangGraph, Models, tools_of, invoke}
use onsheet_backend.Ai.Acting.{IsOwn, tools_of-IsOwn, ActsAs, invoke-ActsAs}
use onsheet_backend.Ai.Service.{AiState, run_graph_agent}

module _ (redis : ContextStore) (models : Models) (llm : List Message → Option Message) ⦃p : Prisma⦄
    (g : LangGraph) (parse_action : String → Option (Option AgentAction)) where
  abbrev opening : String → Option String → String → String → redis.S → List Message
  opening sheet_id session_id query user_id s =
      map message_of (load_context redis s (context_key user_id session_id sheet_id))
      ++ message_of (record {
        role = human;
        content = append "Sheet ID: " (append sheet_id (append "\n\nQuery: " query));
      })
        ∷ []

  -- The tables after a run are those that its graph leaves.
  tables-run_agent :
      (invoked : String → List Message → Db p → Result (List Message) × Db p) (sheet_id : String)
      (session_id : Option String) (query user_id : String) (s : redis.S) (db : Db p)
      → (run_agent redis invoked parse_action sheet_id session_id query user_id s db).2
        ≡ (invoked user_id (opening sheet_id session_id query user_id s) db).1
  unfolding run_agent
  tables-run_agent invoked sheet_id session_id query user_id s db = ground arith

  run_agent-ActsAs :
      (sheet_id : String) (session_id : Option String) (query user_id bound : String) (s : redis.S)
      (db : Db p)
      → bound ≡ user_id
      → ActsAs models user_id db
          (run_agent redis
            (λ user. invoke models bound g)
            parse_action
            sheet_id
            session_id
            query
            user_id
            s
            db).2
  run_agent-ActsAs sheet_id session_id query user_id bound s db same =
      subst (ActsAs models user_id db)
        (sym
          (tables-run_agent (λ user. invoke models bound g) sheet_id session_id query user_id s db))
        (subst
          (λ b.
            ActsAs models user_id db
              (invoke models b g (opening sheet_id session_id query user_id s) db).1)
          (sym same)
          (invoke-ActsAs models user_id g (opening sheet_id session_id query user_id s) db))

  -- If every user's cached tools are that user's own, then however a run of the agent ends, each
  -- comment that is stored afterwards was there before or names the caller as its author, and the
  -- cached tools are still each user's own.
  pub run_graph_agent-ActsAs :
      (sheet_id : String) (session_id : Option String) (query user_id : String)
      (s : AiState redis models llm g parse_action)
      → IsOwn s.tools
      → let after =
          (run_graph_agent redis models llm g parse_action sheet_id session_id query user_id s).1 in
        ActsAs models user_id s.db after.db × IsOwn after.tools
  unfolding run_graph_agent
  run_graph_agent-ActsAs sheet_id session_id query user_id s own =
      let (same, still) = tools_of-IsOwn user_id s.tools own in
      (
        run_agent-ActsAs sheet_id session_id query user_id (tools_of user_id s.tools).0
            s.conversations s.db same,
        still,
      )
