-- ===== src/Ai/Context.antt =====
-- The conversation of `AiService`: its key, how it is loaded, trimmed and stored, and one run of the
-- agent. Redis, the graph of the agent and `JSON.parse` are parameters.
pub mod History
pub mod Keys
use Prim.Native.String.{◌++◌ as append}
use onsheet_backend.Base.{
  ℕ, ◌+◌, ◌-◌, String, Bool, true, Option, none, some, List, [], ◌∷◌, ◌++◌, ◌==◌, ◌≡◌, string_eq,
  map, drop, length, if◌then◌else◌,
}
use onsheet_backend.Base.Dict.{Dict, insert}
use onsheet_backend.Prisma.{Prisma, Db}
use onsheet_backend.Http.{Result, ok, err}
use onsheet_backend.Ai.{AgentAction}
use onsheet_backend.Ai.Tools.{ToolCall}
use onsheet_backend.Ai.Messages.{Kind, human_message, ai_message, tool_message, Message}

pub data Role : Type 0 where
  human ai : Role

pub record StoredMessage : Type 0 where
  pub role : Role
  pub content : String

-- `get` and `set … EX` of Redis on such lists, kept as JSON text; `none` is a command that throws,
-- for `get` also a text that is not JSON.
pub record ContextStore : Type 1 where
  pub S : Type 0
  pub get : S → String → Option (Option (List StoredMessage))
  pub set_ex : S → String → List StoredMessage → ℕ → Option S
  pub get-set_ex :
      (s s' : S) (key : String) (value : List StoredMessage) (ttl : ℕ)
      → set_ex s key value ttl ≡ some s'
      → get s' key ≡ some (some value)

abbrev pub context_ttl_seconds : ℕ
context_ttl_seconds = 7200

abbrev pub max_history_pairs : ℕ
max_history_pairs = 10

-- `slice(-n)`
abbrev pub last_of : {A : Type 0} → ℕ → List A → List A
last_of n l = drop (length l - n) l

abbrev pub turn : String → String → List StoredMessage
turn user_content ai_answer =
    record { role = human; content = user_content } ∷ record { role = ai; content = ai_answer } ∷ []

-- `dto.sessionId ? … : …`
abbrev pub scope_of : Option String → String → String
scope_of none sheet_id = sheet_id
scope_of (some session_id) sheet_id = if session_id == "" then sheet_id else session_id

unfoldable pub context_key : String → Option String → String → String
context_key user_id session_id sheet_id =
    append "ai:ctx:" (append user_id (append ":" (scope_of session_id sheet_id)))

module _ (redis : ContextStore) where
  abbrev history_of : Option (Option (List StoredMessage)) → List StoredMessage
  history_of none = []
  history_of (some none) = []
  history_of (some (some l)) = l

  unfoldable pub load_context : redis.S → String → List StoredMessage
  load_context s key = history_of (redis.get s key)

  abbrev kept_or : redis.S → Option redis.S → redis.S
  kept_or s none = s
  kept_or s (some s') = s'

  unfoldable pub save_context : redis.S → String → List StoredMessage → String → String → redis.S
  save_context s key existing user_content ai_answer =
      let updated = existing ++ turn user_content ai_answer in
      let trimmed = last_of (max_history_pairs + max_history_pairs) updated in
      kept_or s (redis.set_ex s key trimmed context_ttl_seconds)

abbrev pub message_of : StoredMessage → Message
message_of m = record {
  kind = elim m.role [ human ↦ human_message | ai ↦ ai_message ];
  is_text = true;
  content = m.content;
  name = none;
  tool_calls = [];
}

pub record AgentResult : Type 0 where
  pub answer : String
  pub tools_used : List String
  pub actions : List AgentAction

abbrev is_tool : Kind → Bool
is_tool tool_message = true
is_tool _ = Bool.false

abbrev name_or : Option String → String
name_or none = "unknown"
name_or (some s) = s

-- `[...new Set(…)]`: each name once, where it comes first
abbrev names_from : Dict String (Unit {0}) → List Message → List String
names_from seen [] = map (λ x. x.0) seen
names_from seen (m ∷ ms) =
    names_from (if is_tool m.kind then insert (name_or m.name) tt seen else seen) ms

-- the last message, which is there: the graph keeps the messages that it is given
abbrev answer_of : List Message → String
answer_of [] = ""
answer_of (m ∷ []) = m.content
answer_of (m ∷ n ∷ ms) = answer_of (n ∷ ms)

abbrev text_of : Message → String
text_of m = if m.is_text then m.content else "{}"

abbrev pushed : Option (Option AgentAction) → List AgentAction → List AgentAction
pushed (some (some a)) l = a ∷ l
pushed _ l = l

module _ (redis : ContextStore) ⦃p : Prisma⦄
    -- `graph.invoke` with the user's tools, which may write; it may throw
    (invoke : String → List Message → Db p → Result (List Message) × Db p)
    -- the field `_action` of a JSON text; `none` if the text is not JSON
    (parse_action : String → Option (Option AgentAction)) where
  abbrev actions_of : List Message → List AgentAction
  actions_of [] = []
  actions_of (m ∷ ms) =
      let rest = actions_of ms in
      if is_tool m.kind then pushed (parse_action (text_of m)) rest else rest

  abbrev user_content_of : String → String → String
  user_content_of sheet_id query =
      append "Sheet ID: " (append sheet_id (append "\n\nQuery: " query))

  unfoldable pub run_agent :
      String
      → Option String
      → String
      → String
      → redis.S
      → Db p
      → Result AgentResult × redis.S × Db p
  unfolding context_key load_context save_context
  run_agent sheet_id session_id query user_id s db =
      let key = context_key user_id session_id sheet_id in
      let history = load_context redis s key in
      let current = user_content_of sheet_id query in
      let (outcome, after) =
        invoke user_id
          (map message_of history ++ message_of (record { role = human; content = current }) ∷ [])
          db in
      elim outcome [
        | err e ↦ (err e, s, after)
        | ok messages ↦
            let answer = answer_of messages in
            (
              ok (record {
                answer = answer;
                tools_used = names_from [] messages;
                actions = actions_of messages;
              }),
              save_context redis s key history current answer,
              after,
            )
      ]
