-- ===== src/Ai/Messages.antt =====
-- The messages of LangChain that src/modules/ai/ai.service.ts builds and reads.
use onsheet_backend.Base.{String, Bool, true, Option, none, List, []}
use onsheet_backend.Ai.Tools.{ToolCall}

pub data Kind : Type 0 where
  system_message human_message ai_message tool_message : Kind

-- Their type, their content (a text, or the JSON text of anything else), the name of the tool, and
-- the calls that an answer asks for.
pub record Message : Type 0 where
  pub kind : Kind
  pub is_text : Bool
  pub content : String
  pub name : Option String
  pub tool_calls : List ToolCall

abbrev pub text_message : Kind → String → Message
text_message kind content = record {
  kind = kind;
  is_text = true;
  content = content;
  name = none;
  tool_calls = [];
}

abbrev pub tool_answer : String → String → Message
tool_answer name content = record {
  kind = tool_message;
  is_text = true;
  content = content;
  name = Option.some name;
  tool_calls = [];
}
