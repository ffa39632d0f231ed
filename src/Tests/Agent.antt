-- ===== src/Tests/Agent.antt =====
-- Runs of the agent's tools and of its conversation.
use onsheet_backend.Base.{
  string_eq, ℕ, ◌+◌, ◌≤◌, String, ◌≡◌, ◌↔◌, refl, some, none, Option, List, [], ◌∷◌, length,
}
use onsheet_backend.Base.Dict.{lookup}
use onsheet_backend.Prisma.Example.{in_memory}
use onsheet_backend.Http.{ok}
use onsheet_backend.Cells.Service.{find_cell, version_of, raw_value_of}
use onsheet_backend.Ai.{CellValue, delete_range, set_action}
use onsheet_backend.Ai.Letters.{to_a1}
use onsheet_backend.Ai.Tools
use onsheet_backend.Ai.Tools.{call_tool, cells_written}
use onsheet_backend.Ai.Calls.{call_tool-set_cells}
use onsheet_backend.Ai.Clearing.{find_cell-delete_range, action_of}
use onsheet_backend.Ai.Context.{
  StoredMessage, human, ai, turn, load_context, save_context, context_key, scope_of,
}
use onsheet_backend.Ai.Context.History.{load_context-save_context, IsPaired}
use onsheet_backend.Ai.Context.Keys.{context_key-inj}
use onsheet_backend.Tests.Office.{office}
use onsheet_backend.Tests.Packages.{conversations}

abbrev entries : List CellValue
entries =
    record { row = 2; col = 3; value = "a" }
    ∷ record { row = 0; col = 0; value = "b" }
    ∷ record { row = 2; col = 3; value = "c" }
    ∷ []

call_tool-set_cells_example :
    let outcome = call_tool ⦃p = in_memory⦄ "dan" (Tools.set_cells "s" entries) office in
    (outcome.0
      ≡ ok (
          cells_written
            (record { count = 3; action = set_action (("D3", "c") ∷ ("A1", "b") ∷ []) })))
    × (version_of (find_cell ⦃p = in_memory⦄ outcome.1 "s" 2 3) ≡ 6)
    × (raw_value_of (find_cell ⦃p = in_memory⦄ outcome.1 "s" 2 3) ≡ some "c")
unfolding to_a1 onsheet_backend.Base.Decimal.decimal
call_tool-set_cells_example = call_tool-set_cells ⦃p = in_memory⦄ "dan" "s" entries office 2 3 refl

find_cell-delete_range_example :
    (find_cell ⦃p = in_memory⦄ (delete_range ⦃p = in_memory⦄ "s" 1 2 3 4 office).1 "s" 2 3 ≡ none)
    × (lookup (to_a1 2 3) (action_of (delete_range ⦃p = in_memory⦄ "s" 1 2 3 4 office).0) ≡ some "")
find_cell-delete_range_example = find_cell-delete_range ⦃p = in_memory⦄ "s" "s" 1 2 3 4 2 3 office

abbrev talk : List StoredMessage
talk =
    record { role = human; content = "hi" }
    ∷ record { role = ai; content = "hello" }
    ∷ record { role = human; content = "more" }
    ∷ record { role = ai; content = "yes" }
    ∷ []

load_context-save_context_example :
    let loaded =
      load_context conversations
        (save_context conversations [] "k" (turn "hi" "hello") "more" "yes")
        "k" in
    (loaded ≡ talk) × (length loaded ≤ 20) × IsPaired loaded
load_context-save_context_example =
    load_context-save_context conversations [] (("k", talk) ∷ []) "k" "more" "yes"
      (turn "hi" "hello") (refl, refl, tt) refl

context_key-inj_example : Path String "ann" "ann" × (scope_of none "s" ≡ scope_of (some "") "s")
unfolding context_key
context_key-inj_example = context_key-inj "ann" "ann" "s" "s" none (some "") refl refl refl
