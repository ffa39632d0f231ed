-- ===== src/Ai/Service.antt =====
-- The methods of `AiService` over one graph (src/modules/ai/ai.service.ts), and its controller
-- (src/modules/ai/ai.controller.ts).
use Prim.Native.String.{◌++◌ as append}
use onsheet_backend.Base.{String, Option, none, some, List, [], ◌∷◌, ◌==◌, string_eq, if◌then◌else◌}
use onsheet_backend.Base.Text.{trim}
use onsheet_backend.Prisma.{Prisma, Db}
use onsheet_backend.Http.{Result, ok, err, other_error}
use onsheet_backend.Ai.{AgentAction}
use onsheet_backend.Ai.Messages.{Message, system_message, human_message, text_message}
use onsheet_backend.Ai.Context.{ContextStore, AgentResult, run_agent}
use onsheet_backend.Ai.Graph.{Models, LangGraph, ToolsCache, tools_of, invoke}

-- `AiQueryDto`
pub record AiQuery : Type 0 where
  pub prompt : String
  pub context : Option String

-- `dto.context ? … : dto.prompt`, where the empty text is falsy
abbrev pub user_content : String → String → AiQuery → String
user_content above below dto = with_context dto.context
  where
    with_context : Option String → String
    with_context none = dto.prompt
    with_context (some context) =
        if context == ""
        then dto.prompt
        else append above (append context (append below dto.prompt))

-- `typeof response.content === "string" ? response.content.trim() : ""`
abbrev pub trimmed_content : Option Message → Result String
trimmed_content none = err other_error
trimmed_content (some m) = ok (if m.is_text then trim m.content else "")

abbrev pub formula_system : String
formula_system =
    "You are a spreadsheet formula expert. Return ONLY the formula string (e.g. =SUM(A1:A10)) with no explanation, no markdown, no punctuation."

abbrev pub analysis_system : String
analysis_system =
    "You are a data analyst assistant. Given a user question and optional spreadsheet data context, provide a concise, actionable analysis."

-- `suggestFormula` and `analyzeData`, with `invoke` of the model without tools; `none` is an
-- exception
unfoldable pub suggest_formula : (List Message → Option Message) → AiQuery → Result String
suggest_formula llm dto = trimmed_content (
    llm (
      text_message system_message formula_system
      ∷ text_message human_message (user_content "Context:\n" "\n\nRequest: " dto)
      ∷ []))

unfoldable pub analyze_data : (List Message → Option Message) → AiQuery → Result String
analyze_data llm dto = trimmed_content (
    llm (
      text_message system_message analysis_system
      ∷ text_message human_message (user_content "Data:\n" "\n\nQuestion: " dto)
      ∷ []))

-- `@Controller("ai")`
pub data AiRoute : Type 0 where
  -- the sheet, the session and the query
  agent : String → Option String → String → AiRoute
  formula analyze : AiQuery → AiRoute

pub data AiValue : Type 0 where
  agent_value : AgentResult → AiValue
  formula_value analysis_value : String → AiValue

abbrev given : {A : Type 0} → (A → AiValue) → Result A → Result AiValue
given f (ok a) = ok (f a)
given f (err e) = err e

module _ (redis : ContextStore) (models : Models) (llm : List Message → Option Message) ⦃p : Prisma⦄
    (g : LangGraph) (parse_action : String → Option (Option AgentAction)) where
  -- what an AI request reads and writes: the conversations, the cache of tools, the tables
  pub record AiState : Type 0 where
    pub conversations : redis.S
    pub tools : ToolsCache
    pub db : Db p

  -- `runAgent` with the graph that `buildSheetAgentGraph` builds for the user
  unfoldable pub run_graph_agent :
      String → Option String → String → String → AiState → Result AgentResult × AiState
  unfolding run_agent tools_of invoke
  run_graph_agent sheet_id session_id query user_id s =
      let (bound, cache) = tools_of user_id s.tools in
      let (result, conversations, db) =
        run_agent redis (λ user. invoke models bound g) parse_action sheet_id session_id query
          user_id s.conversations s.db in
      (result, record { conversations = conversations; tools = cache; db = db })

  -- the methods of `AiController`
  unfoldable pub ai_controller : AiRoute → String → AiState → Result AiValue × AiState
  unfolding run_graph_agent suggest_formula analyze_data
  ai_controller (agent sheet_id session_id query) user_id s =
      let (result, after) = run_graph_agent sheet_id session_id query user_id s in
      (given agent_value result, after)
  ai_controller (formula dto) user_id s = (given formula_value (suggest_formula llm dto), s)
  ai_controller (analyze dto) user_id s = (given analysis_value (analyze_data llm dto), s)
