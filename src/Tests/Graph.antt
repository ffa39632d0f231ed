-- ===== src/Tests/Graph.antt =====
-- Runs of the agent's graph, with models that follow a script.
use onsheet_backend.Base.{
  ℕ, String, Bool, true, false, Option, none, some, List, [], ◌∷◌, ◌≡◌, ◌↔◌, refl, arith, any, ◌+◌,
  ◌≤◌, ◌<◌,
}
use onsheet_backend.Prisma.{Cell}
use onsheet_backend.Prisma.Example.{in_memory}
use onsheet_backend.Http.{ok, err, other_error}
use onsheet_backend.Cells.Service.{find_cell}
use onsheet_backend.Ai.{AgentAction}
use onsheet_backend.Ai.Tools.{call_tool, ToolCall, set_cells, add_comment, get_sheet_statistics}
use onsheet_backend.Ai.Messages.{
  system_message, human_message, ai_message, tool_message, Message, text_message, tool_answer,
}
use onsheet_backend.Ai.Graph.{LangGraph, run_nodes, planner, Models, invoke, run_calls}
use onsheet_backend.Ai.Runs.{start, round, Answered, invoke-Answered, invoke_exhausted}
use onsheet_backend.Ai.Acting.{IsOwn, ActsAs}
use onsheet_backend.Ai.Service.{AiState}
use onsheet_backend.Auth.{validate_access}
use onsheet_backend.Ai.Service.{agent}
use onsheet_backend.Api.Agent.{AgentRequest, serve_agent, serve_agent-Outcome}
use onsheet_backend.Tests.Api.{server, lenient, draws}
use onsheet_backend.Ai.Reading.{get_sheet_statistics as statistics_of}
use onsheet_backend.Ai.Statistics.{get_sheet_statistics_lem}
use onsheet_backend.Tests.Office.{office}
use onsheet_backend.Tests.Packages.{conversations}

abbrev is_tool_message : Message → Bool
is_tool_message m = elim m.kind [
  | system_message ↦ false
  | human_message ↦ false
  | ai_message ↦ false
  | tool_message ↦ true
]

-- an answer that asks for calls
abbrev asking : List ToolCall → Message
asking calls = record (text_message ai_message "") { tool_calls = calls }

-- writes and comments once, then stops
abbrev plan_once : List Message → Option Message
plan_once ms = elim (any is_tool_message ms) [
  | true ↦ some (text_message ai_message "done")
  | false ↦ some (
      asking (
        set_cells "s" (record { row = 0; col = 0; value = "a" } ∷ [])
        ∷ add_comment "s" 0 0 "hi"
        ∷ []))
]

abbrev scripted : (List Message → Option Message) → Models
scripted plan = record {
  plan = plan;
  synthesize = λ ms. some (text_message ai_message "A1 is a");
  text_of = λ out. "{}";
  failure_text = λ call e. "error";
}

abbrev documented : LangGraph ⦃p = in_memory⦄
documented = record {
  invoke = λ next limit ms db. run_nodes ⦃p = in_memory⦄ next limit planner ms db;
  invoke_lem = λ next limit ms db. refl;
}

abbrev question : List Message
question = text_message human_message "write a" ∷ []

abbrev transcript : List Message
transcript =
    text_message human_message "write a"
    ∷ asking (
        set_cells "s" (record { row = 0; col = 0; value = "a" } ∷ [])
        ∷ add_comment "s" 0 0 "hi"
        ∷ [])
    ∷ tool_answer "set_cells" "{}"
    ∷ tool_answer "add_comment" "{}"
    ∷ text_message ai_message "done"
    ∷ text_message ai_message "A1 is a"
    ∷ []

invoke_run :
    (invoke (scripted plan_once) ⦃p = in_memory⦄ "bob" documented question office).0 ≡ ok transcript
unfolding invoke run_nodes call_tool
invoke_run = refl

invoke-Answered_example :
    let after = (invoke (scripted plan_once) ⦃p = in_memory⦄ "bob" documented question office).1 in
    (invoke (scripted plan_once) ⦃p = in_memory⦄ "bob" documented question office
      ≡ (ok transcript, after))
    ↔ Answered (scripted plan_once) ⦃p = in_memory⦄ "bob" 15 question office transcript after
invoke-Answered_example =
    invoke-Answered (scripted plan_once) ⦃p = in_memory⦄ "bob" documented question office transcript
      (invoke (scripted plan_once) ⦃p = in_memory⦄ "bob" documented question office).1

-- never stops asking
abbrev counting : Message
counting = asking (get_sheet_statistics "s" ∷ [])

invoke_exhausted_example :
    invoke (scripted (λ ms. some counting)) ⦃p = in_memory⦄ "bob" documented question office
    ≡ (err other_error, office)
unfolding run_calls call_tool
invoke_exhausted_example =
    invoke_exhausted (scripted (λ ms. some counting)) ⦃p = in_memory⦄ "bob" documented (
      round counting refl refl (
        round counting refl refl (
          round counting refl refl (
            round counting refl refl (
              round counting refl refl
                (round counting refl refl (round counting refl refl (start _ _))))))))

abbrev no_actions : String → Option (Option AgentAction)
no_actions content = some none

abbrev fresh :
    AiState conversations (scripted plan_once) plan_once ⦃p = in_memory⦄ documented no_actions
fresh = record { conversations = []; tools = []; db = office }

abbrev asked : AgentRequest
asked = record {
  route = agent "s" none "write a";
  url = "/api/v1/ai/agent";
  access_cookie = some "xbxoxb.bob";
  bearer = none;
}

serve_agent-Outcome_example :
    let after =
      (serve_agent server lenient draws conversations
        (scripted plan_once)
        plan_once
        ⦃p = in_memory⦄
        documented
        no_actions
        asked
        fresh).1 in
    ActsAs (scripted plan_once) ⦃p = in_memory⦄ "bob" office after.db × IsOwn after.tools
unfolding validate_access
serve_agent-Outcome_example =
    serve_agent-Outcome server lenient draws conversations (scripted plan_once) plan_once
      ⦃p = in_memory⦄ documented no_actions asked fresh (λ user bound h. ground (arith, h))

get_sheet_statistics_lem_example :
    let s = statistics_of ⦃p = in_memory⦄ office "s" in
    (s.total_cells ≡ s.data_cells + s.empty_cells)
    × (s.formula_cells ≤ s.data_cells)
    × ((row col : ℕ) (c : Cell)
        → find_cell ⦃p = in_memory⦄ office "s" row col ≡ some c
        → (row < s.grid_rows) × (col < s.grid_cols))
get_sheet_statistics_lem_example = get_sheet_statistics_lem ⦃p = in_memory⦄ office "s"
