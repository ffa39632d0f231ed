-- ===== src/Ai/Graph.antt =====
-- The agent's graph, `buildSheetAgentGraph` of src/modules/ai/ai.service.ts: its nodes, its edges and
-- its run. The two language models are parameters, and so are LangGraph, which runs one node at a
-- time and throws after as many as the recursion limit says, and the text that `ToolNode` makes of a
-- tool's result or exception. `ToolNode` answers a tool that throws with a
-- message. The calls of one message, which it starts together, run here in their order.
use onsheet_backend.Base.{
  ℕ, zero, suc, String, Option, none, some, List, [], ◌∷◌, ◌++◌, string_eq, is_empty, ◌≡◌,
  if◌then◌else◌,
}
use onsheet_backend.Base.Dict.{Dict, lookup, insert}
use onsheet_backend.Prisma.{Prisma, Db}
use onsheet_backend.Http.{Result, ok, err, Exception, other_error}
use onsheet_backend.Http.Checks
use onsheet_backend.Ai.Tools.{ToolCall, ToolOutput, name_of, call_tool}
use onsheet_backend.Ai.Prompts.{planner_system, synthesizer_system}
use onsheet_backend.Ai.Messages.{Message, system_message, human_message, text_message, tool_answer}

pub data Node : Type 0 where
  planner tools synthesizer finish : Node

-- the user whose tools are bound, for each user: `toolsCache`
abbrev pub ToolsCache : Type 0
ToolsCache = Dict String String

-- The user whose tools a graph for `user_id` runs, and the cache after it.
unfoldable pub tools_of : String → ToolsCache → String × ToolsCache
tools_of user_id cache = go (lookup user_id cache)
  where
    go : Option String → String × ToolsCache
    go none = (user_id, insert user_id user_id cache)
    go (some bound) = (bound, cache)

abbrev pub last_calls : List Message → List ToolCall
last_calls [] = []
last_calls (m ∷ []) = m.tool_calls
last_calls (m ∷ n ∷ ms) = last_calls (n ∷ ms)

-- `routeAfterPlanner`
unfoldable pub route_after_planner : List Message → Node
route_after_planner ms = if is_empty (last_calls ms) then synthesizer else tools

abbrev pub final_request : Message
final_request = text_message human_message "Compose your final answer for the user now."

-- `{ recursionLimit: 15 }`
abbrev pub recursion_limit : ℕ
recursion_limit = 15

pub record Models : Type 0 where
  -- `invoke` of the model with tools and of the one without; `none` is an exception
  pub plan : List Message → Option Message
  pub synthesize : List Message → Option Message
  pub text_of : ToolOutput → String
  pub failure_text : ToolCall → Exception → String

module _ ⦃p : Prisma⦄ where
  -- what the nodes do, with the edge that each takes
  abbrev pub NodeStep : Type 0
  NodeStep = Node → List Message → Db p → Result (Node × List Message) × Db p

  -- an exception ends the run
  abbrev pub follow :
      Result (Node × List Message) × Db p
      → (Node → List Message → Db p → Result (List Message) × Db p)
      → Result (List Message) × Db p
  follow (err e, after) next = (err e, after)
  follow (ok (node, messages), after) next = next node messages after

  -- one node after another, and an exception where the end is not reached within the limit
  unfoldable pub run_nodes :
      NodeStep → ℕ → Node → List Message → Db p → Result (List Message) × Db p
  run_nodes next limit finish ms db = (ok ms, db)
  run_nodes next zero node ms db = (err other_error, db)
  run_nodes next (suc limit) node ms db = follow (next node ms db) (run_nodes next limit)

  -- `invoke` of a compiled graph, from the entry edge on, which does what the package documents
  pub record LangGraph : Type 0 where
    pub invoke : NodeStep → ℕ → List Message → Db p → Result (List Message) × Db p
    pub invoke_lem :
        (next : NodeStep) (limit : ℕ) (ms : List Message) (db : Db p)
        → invoke next limit ms db ≡ run_nodes next limit planner ms db

module _ (models : Models) ⦃p : Prisma⦄ (user_id : String) where
  abbrev replied : Option Message → Result Message
  replied none = err other_error
  replied (some m) = ok m

  abbrev answered : ToolCall → Result ToolOutput × Db p → Message × Db p
  answered call (ok out, db) = (tool_answer (name_of call) (models.text_of out), db)
  answered call (err e, db) = (tool_answer (name_of call) (models.failure_text call e), db)

  -- `ToolNode`
  unfoldable pub run_calls : List ToolCall → Db p → List Message × Db p
  run_calls [] db = ([], db)
  run_calls (call ∷ calls) db =
      let (m, after) = answered call (call_tool user_id call db) in
      let (ms, last) = run_calls calls after in (m ∷ ms, last)

  -- the nodes and the edges
  unfoldable pub step : Node → List Message → Db p → Result (Node × List Message) × Db p
  unfolding route_after_planner run_calls
  step planner ms db = (
    Checks.◌>>=◌ (replied (models.plan (text_message system_message planner_system ∷ ms)))
        (λ r. ok (route_after_planner (ms ++ r ∷ []), ms ++ r ∷ [])),
    db,
  )
  step tools ms db =
      let (answers, after) = run_calls (last_calls ms) db in (ok (planner, ms ++ answers), after)
  step synthesizer ms db = (
    Checks.◌>>=◌
        (replied (
          models.synthesize
            (text_message system_message synthesizer_system ∷ ms ++ final_request ∷ [])))
        (λ r. ok (finish, ms ++ r ∷ [])),
    db,
  )
  step finish ms db = (ok (finish, ms), db)

  abbrev pub run : ℕ → Node → List Message → Db p → Result (List Message) × Db p
  run = run_nodes (step)

  -- `graph.invoke`
  unfoldable pub invoke : LangGraph → List Message → Db p → Result (List Message) × Db p
  unfolding step
  invoke g ms db = g.invoke step recursion_limit ms db
