-- ===== src/Ai/Acting.antt =====
-- For whom the agent acts: the cache of bound tools, and the comments that the tools add.
use onsheet_backend.Base.{
  ℕ, is_some, ◌&&◌, take, Option-cases, String, Bool, true, false, Option, some, List, [], ◌∷◌,
  string_eq, ◌≡◌, ◌⊎◌, inl, inr, refl, arith, ap, ◌∙◌, eq_iff, sym,
}
use onsheet_backend.Base.Dict.{lookup, lookup-insert}
use onsheet_backend.Prisma.{Prisma, Db, Stamp, CellComment}
use onsheet_backend.Prisma.Table.Keeping.{find-create_new, left_by}
use onsheet_backend.Sheets.Service.{find_sheet}
use onsheet_backend.Ai
use onsheet_backend.Ai.{set_cells, set_each, set_cell, delete_range, comment_on}
use onsheet_backend.Ai.Tools
use onsheet_backend.Ai.Tools.{ToolCall, run_tool, call_tool, matches_schema}
use onsheet_backend.Ai.Keeping.{invoke-Keeps}
use onsheet_backend.Ai.Messages.{Message}
use onsheet_backend.Ai.Graph.{LangGraph, Models, invoke, ToolsCache, tools_of}

-- Every user's tools in the cache are those bound to that user.
abbrev pub IsOwn : ToolsCache → Type 0
IsOwn cache = (user bound : String) → lookup user cache ≡ some bound → bound ≡ user

-- The tools that a graph is built with are bound to the user who asks, and stay so.
pub tools_of-IsOwn :
    (user_id : String) (cache : ToolsCache)
    → IsOwn cache
    → ((tools_of user_id cache).0 ≡ user_id) × IsOwn (tools_of user_id cache).1
unfolding tools_of
tools_of-IsOwn user_id cache own = elim (Option-cases (lookup user_id cache)) [
  | inl absent ↦ (
    ground (arith, absent),
    λ user bound h. ground (
      arith,
      absent,
      h,
      lookup-insert user_id user user_id cache,
      own user bound,
      eq_iff user_id user,
    ),
  )
  | inr (bound, found) ↦ (
    ground (arith, found, own user_id bound found),
    λ user bound' h. own user bound' (ground (arith, found, h)),
  )
]

module _ (models : Models) ⦃p : Prisma⦄ (user_id : String) where
  abbrev find_comment : Db p → String → Option CellComment
  find_comment db id = p.comments.find_unique db.comments id

  -- Every comment that is there afterwards was there before, or is by the user.
  abbrev pub AddsAs : Db p → Db p → Type 0
  AddsAs before after =
      (id : String) (c : CellComment)
      → p.comments.find_unique after.comments id ≡ some c
      → (p.comments.find_unique before.comments id ≡ some c) ⊎ (c.created_by ≡ user_id)

  AddsAs-refl : (a b : Db p) → b.comments ≡ a.comments → AddsAs a b
  AddsAs-refl a b same id c h = inl (sym (ap (λ t. p.comments.find_unique t id) same) ∙ h)

  AddsAs-trans : (a b c : Db p) → AddsAs a b → AddsAs b c → AddsAs a c
  AddsAs-trans a b c h k id x found = elim (k id x found) [
    | inl old ↦ h id x old
    | inr mine ↦ inr mine
  ]

  comments-set_each :
      (sheet_id : String) (cells : List Ai.CellValue) (db : Db p)
      → (set_each sheet_id cells db).1.comments ≡ db.comments
  unfolding set_each set_cell
  comments-set_each sheet_id [] db = refl
  comments-set_each sheet_id (c ∷ cells) db =
      ground (arith, comments-set_each sheet_id cells (set_cell sheet_id c db).1)

  abbrev new_comment : String → ℕ → ℕ → String → Stamp → CellComment
  new_comment sheet_id row col content z = record {
    id = z.id;
    sheet_id = sheet_id;
    row = row;
    col = col;
    content = content;
    created_at = z.now;
    created_by = user_id;
  }

  abbrev guard : Db p → String → Bool
  guard db sheet_id =
      is_some (find_sheet db sheet_id) && is_some (p.users.find_unique db.users user_id)

  AddsAs-comment_on :
      (sheet_id : String) (row col : ℕ) (content : String) (db : Db p) (b : Bool)
      → guard db sheet_id ≡ b
      → AddsAs db (run_tool user_id (Tools.add_comment sheet_id row col content) db).1
  unfolding run_tool comment_on
  AddsAs-comment_on sheet_id row col content db false h id c found =
      AddsAs-refl db (run_tool user_id (Tools.add_comment sheet_id row col content) db).1
        (ground (arith, h)) id c found
  AddsAs-comment_on sheet_id row col content db true h id c found =
      let same : (run_tool user_id (Tools.add_comment sheet_id row col content) db).1.comments
          ≡ left_by db.comments
              (p.comments.create db.comments (new_comment sheet_id row col content)) =
        ground (arith, h) in
      elim (find-create_new p.comments p.comments-IsLawful db.comments
        (new_comment sheet_id row col content) id c
        (sym (ap (λ t. p.comments.find_unique t id) same) ∙ found)) [
          | inl old ↦ inl old
          | inr mine ↦ inr (sym (ap (λ (x : CellComment). x.created_by) mine))
        ]

  AddsAs-run_tool : (call : ToolCall) (db : Db p) → AddsAs db (run_tool user_id call db).1
  unfolding run_tool set_cells delete_range comment_on
  AddsAs-run_tool (Tools.set_cells sheet_id cells) db =
      AddsAs-refl db (run_tool user_id (Tools.set_cells sheet_id cells) db).1
        (ground (arith, comments-set_each sheet_id (take 200 cells) db))
  AddsAs-run_tool (Tools.add_comment sheet_id row col content) db =
      AddsAs-comment_on sheet_id row col content db (guard db sheet_id) refl
  AddsAs-run_tool call db = AddsAs-refl db (run_tool user_id call db).1 refl

  -- What the agent's tools leave alone: the accounts, the workbooks with their grants, the sheets and
  -- the snapshots.
  pub record KeepsAccounts (before after : Db p) : Type 0 where
    pub users_kept : after.users ≡ before.users
    pub workbooks_kept : after.workbooks ≡ before.workbooks
    pub permissions_kept : after.permissions ≡ before.permissions
    pub sheets_kept : after.sheets ≡ before.sheets
    pub snapshots_kept : after.snapshots ≡ before.snapshots

  KeepsAccounts-trans : (a b c : Db p) → KeepsAccounts a b → KeepsAccounts b c → KeepsAccounts a c
  KeepsAccounts-trans a b c h k = ground arith

  set_cell-KeepsAccounts :
      (sheet_id : String) (c : Ai.CellValue) (db : Db p)
      → KeepsAccounts db (set_cell sheet_id c db).1
  unfolding set_cell
  set_cell-KeepsAccounts sheet_id c db = ground arith

  set_each-KeepsAccounts :
      (sheet_id : String) (cells : List Ai.CellValue) (db : Db p)
      → KeepsAccounts db (set_each sheet_id cells db).1
  unfolding set_each
  set_each-KeepsAccounts sheet_id [] db = ground arith
  set_each-KeepsAccounts sheet_id (c ∷ cells) db = ground (
    arith,
    set_cell-KeepsAccounts sheet_id c db,
    set_each-KeepsAccounts sheet_id cells (set_cell sheet_id c db).1,
  )

  run_tool-KeepsAccounts :
      (call : ToolCall) (db : Db p) → KeepsAccounts db (run_tool user_id call db).1
  unfolding run_tool set_cells delete_range comment_on
  run_tool-KeepsAccounts (Tools.set_cells sheet_id cells) db =
      ground (arith, set_each-KeepsAccounts sheet_id (take 200 cells) db)
  run_tool-KeepsAccounts call db = ground arith

  -- What the agent does for its user.
  pub record ActsAs (before after : Db p) : Type 0 where
    pub accounts_kept : KeepsAccounts before after
    pub comments_own : AddsAs before after

  pub ActsAs-refl : (a : Db p) → ActsAs a a
  ActsAs-refl a = record {
    accounts_kept = record {
      users_kept = refl;
      workbooks_kept = refl;
      permissions_kept = refl;
      sheets_kept = refl;
      snapshots_kept = refl;
    };
    comments_own = AddsAs-refl a a refl;
  }

  ActsAs-trans : (a b c : Db p) → ActsAs a b → ActsAs b c → ActsAs a c
  ActsAs-trans a b c h k = record {
    accounts_kept = KeepsAccounts-trans a b c h.accounts_kept k.accounts_kept;
    comments_own = AddsAs-trans a b c h.comments_own k.comments_own;
  }

  ActsAs-run_tool : (call : ToolCall) (db : Db p) → ActsAs db (run_tool user_id call db).1
  ActsAs-run_tool call db = record {
    accounts_kept = run_tool-KeepsAccounts call db;
    comments_own = AddsAs-run_tool call db;
  }

  -- However the graph ends, it has acted as the user for whom it ran.
  pub invoke-ActsAs :
      (g : LangGraph) (ms : List Message) (db : Db p) → ActsAs db (invoke models user_id g ms db).1
  invoke-ActsAs = invoke-Keeps models user_id ActsAs ActsAs-refl ActsAs-trans ActsAs-run_tool
