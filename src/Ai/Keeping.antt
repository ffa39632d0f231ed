-- ===== src/Ai/Keeping.antt =====
-- What every tool keeps, a run of the agent's graph keeps.
use onsheet_backend.Base.{
  ℕ, zero, suc, Bool-cases, String, List, [], ◌∷◌, string_eq, ◌≡◌, inl, inr, arith, subst, sym,
}
use onsheet_backend.Prisma.{Prisma, Db}
use onsheet_backend.Http.{Result, ok, err}
use onsheet_backend.Ai.Tools.{ToolCall, run_tool, call_tool, matches_schema}
use onsheet_backend.Ai.Messages.{Message}
use onsheet_backend.Ai.Graph.{
  LangGraph, run_nodes, follow, last_calls, Models, Node, planner, tools, synthesizer, finish,
  run_calls, run, step, invoke,
}

-- A relation of the tables that each tool keeps, whatever it is called with.
module _ (models : Models) ⦃p : Prisma⦄ (user_id : String) (R : Db p → Db p → Type 0)
    (R-refl : (a : Db p) → R a a) (R-trans : (a b c : Db p) → R a b → R b c → R a c)
    (R-run_tool : (call : ToolCall) (db : Db p) → R db (run_tool user_id call db).1) where
  Keeps-call_tool : (call : ToolCall) (db : Db p) → R db (call_tool user_id call db).1
  unfolding call_tool
  Keeps-call_tool call db = elim (Bool-cases (matches_schema call)) [
    | inl fits ↦ rw fits (R-run_tool call db)
    | inr refused ↦ rw refused (R-refl db)
  ]

  run_calls-tail :
      (call : ToolCall) (calls : List ToolCall) (db : Db p)
      → (run_calls models user_id (call ∷ calls) db).1
        ≡ (run_calls models user_id calls (call_tool user_id call db).1).1
  unfolding run_calls
  run_calls-tail call calls db = ground arith

  Keeps-run_calls : (calls : List ToolCall) (db : Db p) → R db (run_calls models user_id calls db).1
  unfolding run_calls
  Keeps-run_calls [] db = R-refl db
  Keeps-run_calls (call ∷ calls) db =
      R-trans db (call_tool user_id call db).1 (run_calls models user_id (call ∷ calls) db).1
        (Keeps-call_tool call db)
        (subst (R (call_tool user_id call db).1) (sym (run_calls-tail call calls db))
          (Keeps-run_calls calls (call_tool user_id call db).1))

  Keeps-step :
      (node : Node) (ms : List Message) (db : Db p) → R db (step models user_id node ms db).1
  unfolding step
  Keeps-step planner ms db = R-refl db
  Keeps-step tools ms db = Keeps-run_calls (last_calls ms) db
  Keeps-step synthesizer ms db = R-refl db
  Keeps-step finish ms db = R-refl db

  Keeps-follow :
      (before : Db p) (now : Db p) (o : Result (Node × List Message))
      (next : Node → List Message → Db p → Result (List Message) × Db p)
      → R before now
      → ((node : Node) (ms : List Message) (db : Db p) → R db (next node ms db).1)
      → R before (follow (o, now) next).1
  Keeps-follow before now (err e) next h k = h
  Keeps-follow before now (ok (node, ms)) next h k =
      R-trans before now (next node ms now).1 h (k node ms now)

  Keeps-run :
      (limit : ℕ) (node : Node) (ms : List Message) (db : Db p)
      → R db (run models user_id limit node ms db).1
  unfolding run_nodes
  Keeps-run limit finish ms db = R-refl db
  Keeps-run zero node ms db = R-refl db
  Keeps-run (suc limit) planner ms db =
      Keeps-follow db (step models user_id planner ms db).1 (step models user_id planner ms db).0
        (run models user_id limit) (Keeps-step planner ms db) (Keeps-run limit)
  Keeps-run (suc limit) tools ms db =
      Keeps-follow db (step models user_id tools ms db).1 (step models user_id tools ms db).0
        (run models user_id limit) (Keeps-step tools ms db) (Keeps-run limit)
  Keeps-run (suc limit) synthesizer ms db =
      Keeps-follow db (step models user_id synthesizer ms db).1
        (step models user_id synthesizer ms db).0 (run models user_id limit)
        (Keeps-step synthesizer ms db) (Keeps-run limit)

  -- However the graph ends, it keeps the relation.
  pub invoke-Keeps :
      (g : LangGraph) (ms : List Message) (db : Db p) → R db (invoke models user_id g ms db).1
  unfolding invoke
  invoke-Keeps g ms db =
      subst (λ x. R db x.1) (sym (g.invoke_lem (step models user_id) 15 ms db))
        (Keeps-run 15 planner ms db)
