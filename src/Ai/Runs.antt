-- ===== src/Ai/Runs.antt =====
-- What a run of the agent's graph does: rounds of questions and tools, then an answer.
use onsheet_backend.Base.{
  ℕ, zero, suc, ◌+◌, ◌-◌, Bool-cases, inl, inr, ◌≤◌, String, true, false, Option, none, some, List,
  [], ◌∷◌, ◌++◌, is_empty, if◌then◌else◌, ◌≡◌, ◌↔◌, refl, arith, ap, subst, ◌∙◌, sym,
}
use onsheet_backend.Prisma.{Prisma, Db}
use onsheet_backend.Http.{Result, ok, err, other_error}
use onsheet_backend.Ai.Prompts.{planner_system, synthesizer_system}
use onsheet_backend.Ai.Messages.{Message, system_message, text_message}
use onsheet_backend.Ai.Graph.{
  Models, planner, tools, synthesizer, finish, run_calls, run, run_nodes, step, invoke, LangGraph,
  last_calls, route_after_planner, final_request,
}

last_calls-snoc : (ms : List Message) (m : Message) → last_calls (ms ++ m ∷ []) ≡ m.tool_calls
last_calls-snoc [] m = refl
last_calls-snoc (x ∷ []) m = refl
last_calls-snoc (x ∷ y ∷ ms) m = last_calls-snoc (y ∷ ms) m

route-snoc :
    (ms : List Message) (m : Message)
    → route_after_planner (ms ++ m ∷ []) ≡ (if is_empty m.tool_calls then synthesizer else tools)
unfolding route_after_planner
route-snoc ms m = rw (last_calls-snoc ms m) refl

ok_lem : {A : Type 0} {a b : A} → ok a ≡ ok b → a ≡ b
ok_lem h = cc

module _ (models : Models) ⦃p : Prisma⦄ (user_id : String) where
  -- what the planner says to a conversation, and what the synthesizer says
  abbrev pub asked : List Message → Option Message
  asked ms = models.plan (text_message system_message planner_system ∷ ms)

  abbrev pub concluded : List Message → Option Message
  concluded ms =
      models.synthesize (text_message system_message synthesizer_system ∷ ms ++ final_request ∷ [])

  -- So many times in turn the planner asks for tools, and they run.
  pub data Rounds : ℕ → List Message → Db p → List Message → Db p → Type 0 where
    start : (ms : List Message) (db : Db p) → Rounds 0 ms db ms db
    round :
        {k : ℕ} {ms ms' : List Message} {db db' : Db p} (r : Message)
        → asked ms ≡ some r
        → is_empty r.tool_calls ≡ false
        → Rounds k
            ((ms ++ r ∷ []) ++ (run_calls models user_id r.tool_calls db).0)
            (run_calls models user_id r.tool_calls db).1
            ms'
            db'
        → Rounds (suc k) ms db ms' db'

  -- After so many rounds the planner asks for no tool, and the synthesizer answers.
  pub record Answered (limit : ℕ) (ms : List Message) (db : Db p) (out : List Message)
      (after : Db p) : Type 0 where
    pub rounds : ℕ
    pub gathered : List Message
    pub summary : Message
    pub answer : Message
    pub in_limit : rounds + rounds + 2 ≤ limit
    pub path : Rounds rounds ms db gathered after
    pub planned : asked gathered ≡ some summary
    pub has_no_calls : is_empty summary.tool_calls ≡ true
    pub composed : concluded (gathered ++ summary ∷ []) ≡ some answer
    pub out_lem : out ≡ (gathered ++ summary ∷ []) ++ answer ∷ []

  step-ask :
      (ms : List Message) (db : Db p) (r : Message)
      → asked ms ≡ some r
      → step models user_id planner ms db
        ≡ (ok ((if is_empty r.tool_calls then synthesizer else tools), ms ++ r ∷ []), db)
  unfolding step
  step-ask ms db r asks = rw (asks, route-snoc ms r) refl

  step-tools :
      (ms : List Message) (db : Db p) (r : Message)
      → step models user_id tools (ms ++ r ∷ []) db ≡ (
        ok (planner, (ms ++ r ∷ []) ++ (run_calls models user_id r.tool_calls db).0),
        (run_calls models user_id r.tool_calls db).1,
      )
  unfolding step
  step-tools ms db r = rw (last_calls-snoc ms r) refl

  step-conclude :
      (ms : List Message) (db : Db p) (a : Message)
      → concluded ms ≡ some a
      → step models user_id synthesizer ms db ≡ (ok (finish, ms ++ a ∷ []), db)
  unfolding step
  step-conclude ms db a composed = rw composed refl

  step-silent :
      (ms : List Message) (db : Db p)
      → concluded ms ≡ none
      → step models user_id synthesizer ms db ≡ (err other_error, db)
  unfolding step
  step-silent ms db composed = rw composed refl

  run-round :
      (n : ℕ) (ms : List Message) (db : Db p) (r : Message)
      → asked ms ≡ some r
      → is_empty r.tool_calls ≡ false
      → run models user_id (suc (suc n)) planner ms db
        ≡ run models user_id n planner
            ((ms ++ r ∷ []) ++ (run_calls models user_id r.tool_calls db).0)
            (run_calls models user_id r.tool_calls db).1
  unfolding run_nodes
  run-round n ms db r asks calls = ground (arith, step-ask ms db r asks, step-tools ms db r)

  run-answer :
      (n : ℕ) (ms : List Message) (db : Db p) (r a : Message)
      → asked ms ≡ some r
      → is_empty r.tool_calls ≡ true
      → concluded (ms ++ r ∷ []) ≡ some a
      → run models user_id (suc (suc n)) planner ms db ≡ (ok ((ms ++ r ∷ []) ++ a ∷ []), db)
  unfolding run_nodes
  run-answer n ms db r a asks calls composed =
      ground (arith, step-ask ms db r asks, step-conclude (ms ++ r ∷ []) db a composed)

  run-Rounds :
      {k : ℕ} {ms ms' : List Message} {db db' : Db p} (n : ℕ)
      → Rounds k ms db ms' db'
      → run models user_id (k + k + n) planner ms db ≡ run models user_id n planner ms' db'
  run-Rounds n (start ms db) =
      let whole : 0 + 0 + n ≡ n = omega arith in
      ap (λ limit. run models user_id limit planner ms db) whole
  run-Rounds n (round {k} {ms} {ms'} {db} {db'} r asks calls path) =
      let split : suc k + suc k + n ≡ suc (suc (k + k + n)) = omega arith in
      ap (λ limit. run models user_id limit planner ms db) split
      ∙ run-round (k + k + n) ms db r asks calls
      ∙ run-Rounds n path

  -- With no tool left to run two more nodes are enough, and one is not.
  run-none :
      (n : ℕ) (ms : List Message) (db : Db p)
      → asked ms ≡ none
      → run models user_id (suc n) planner ms db ≡ (err other_error, db)
  unfolding run_nodes step
  run-none n ms db asks = rw asks refl

  run-one :
      (ms : List Message) (db : Db p) (o : Option Message)
      → asked ms ≡ o
      → run models user_id 1 planner ms db ≡ (err other_error, db)
  unfolding run_nodes
  run-one ms db none asks = run-none 0 ms db asks
  run-one ms db (some r) asks = ground (arith, step-ask ms db r asks)

  run-silent :
      (n : ℕ) (ms : List Message) (db : Db p) (r : Message)
      → asked ms ≡ some r
      → is_empty r.tool_calls ≡ true
      → concluded (ms ++ r ∷ []) ≡ none
      → run models user_id (suc (suc n)) planner ms db ≡ (err other_error, db)
  unfolding run_nodes
  run-silent n ms db r asks calls composed =
      ground (arith, step-ask ms db r asks, step-silent (ms ++ r ∷ []) db composed)

  deeper :
      (n : ℕ) (ms : List Message) (db : Db p) (out : List Message) (after : Db p) (r : Message)
      → asked ms ≡ some r
      → is_empty r.tool_calls ≡ false
      → Answered n
          ((ms ++ r ∷ []) ++ (run_calls models user_id r.tool_calls db).0)
          (run_calls models user_id r.tool_calls db).1
          out
          after
      → Answered (suc (suc n)) ms db out after
  deeper n ms db out after r asks calls a = record {
    rounds = suc a.rounds;
    gathered = a.gathered;
    summary = a.summary;
    answer = a.answer;
    in_limit = omega (arith, a.in_limit);
    path = round r asks calls a.path;
    planned = a.planned;
    has_no_calls = a.has_no_calls;
    composed = a.composed;
    out_lem = a.out_lem;
  }

  at_once :
      (n : ℕ) (ms : List Message) (db : Db p) (out : List Message) (after : Db p) (r a : Message)
      → asked ms ≡ some r
      → is_empty r.tool_calls ≡ true
      → concluded (ms ++ r ∷ []) ≡ some a
      → ◌≡◌ {A = Result (List Message) × Db p} (ok out, after) (ok ((ms ++ r ∷ []) ++ a ∷ []), db)
      → Answered (suc (suc n)) ms db out after
  at_once n ms db out after r a asks calls e same = record {
    rounds = 0;
    gathered = ms;
    summary = r;
    answer = a;
    in_limit = omega arith;
    path = subst (λ d. Rounds 0 ms db ms d) (sym (ap (λ x. x.1) same)) (start ms db);
    planned = asks;
    has_no_calls = calls;
    composed = e;
    out_lem = ok_lem (ap (λ x. x.0) same);
  }

  concluded_lem :
      (n : ℕ) (ms : List Message) (db : Db p) (out : List Message) (after : Db p) (r : Message)
      → asked ms ≡ some r
      → is_empty r.tool_calls ≡ true
      → run models user_id (suc (suc n)) planner ms db ≡ (ok out, after)
      → (o : Option Message) → concluded (ms ++ r ∷ []) ≡ o
      → Answered (suc (suc n)) ms db out after
  concluded_lem n ms db out after r asks calls h none e =
      ground (arith, run-silent n ms db r asks calls e, h)
  concluded_lem n ms db out after r asks calls h (some a) e =
      at_once n ms db out after r a asks calls e (sym h ∙ run-answer n ms db r a asks calls e)

  asked_lem :
      (n : ℕ) (ms : List Message) (db : Db p) (out : List Message) (after : Db p)
      → run models user_id (suc (suc n)) planner ms db ≡ (ok out, after)
      → ((next : List Message) (now : Db p)
          → run models user_id n planner next now ≡ (ok out, after)
          → Answered n next now out after)
      → (o : Option Message) → asked ms ≡ o
      → Answered (suc (suc n)) ms db out after
  asked_lem n ms db out after h more none e = ground (arith, run-none (suc n) ms db e, h)
  asked_lem n ms db out after h more (some r) e = elim (Bool-cases (is_empty r.tool_calls)) [
    | inl silent ↦ concluded_lem n ms db out after r e silent h (concluded (ms ++ r ∷ [])) refl
    | inr calls ↦ deeper n ms db out after r e calls (
        more ((ms ++ r ∷ []) ++ (run_calls models user_id r.tool_calls db).0)
          (run_calls models user_id r.tool_calls db).1 (sym (run-round n ms db r e calls) ∙ h))
  ]

  run-Answered :
      (limit : ℕ) (ms : List Message) (db : Db p) (out : List Message) (after : Db p)
      → run models user_id limit planner ms db ≡ (ok out, after)
      → Answered limit ms db out after
  unfolding run_nodes
  run-Answered zero ms db out after h = ground (arith, h)
  run-Answered (suc zero) ms db out after h = ground (arith, run-one ms db (asked ms) refl, h)
  run-Answered (suc (suc n)) ms db out after h =
      asked_lem n ms db out after h (λ next now. run-Answered n next now out after) (asked ms) refl

  Answered-run :
      (limit : ℕ) (ms : List Message) (db : Db p) (out : List Message) (after : Db p)
      → Answered limit ms db out after
      → run models user_id limit planner ms db ≡ (ok out, after)
  Answered-run limit ms db out after a =
      let spare = limit - (a.rounds + a.rounds + 2) in
      let split : limit ≡ a.rounds + a.rounds + suc (suc spare) = omega (arith, a.in_limit) in
      ap (λ n. run models user_id n planner ms db) split
      ∙ run-Rounds (suc (suc spare)) a.path
      ∙ run-answer spare a.gathered after a.summary a.answer a.planned a.has_no_calls a.composed
      ∙ ap (λ l. (ok l, after)) (sym a.out_lem)

  -- A run of the graph returns messages exactly if, after at most six rounds of the planner asking for
  -- tools and the tools running, the planner asks for none and the synthesizer answers. The messages
  -- are then those of the rounds, the planner's last one and the answer, and the tables are those
  -- that the rounds' tools leave.
  pub invoke-Answered :
      (g : LangGraph) (ms : List Message) (db : Db p) (out : List Message) (after : Db p)
      → (invoke models user_id g ms db ≡ (ok out, after)) ↔ Answered 15 ms db out after
  unfolding invoke
  invoke-Answered g ms db out after =
      let runs = g.invoke_lem (step models user_id) 15 ms db in
      (
        λ h. run-Answered 15 ms db out after (sym runs ∙ h),
        λ a. runs ∙ Answered-run 15 ms db out after a,
      )

  -- A planner that asks for tools seven times in turn ends the run with an exception, whatever it
  -- would say next; what the tools of the seven rounds wrote stays written.
  pub invoke_exhausted :
      {ms ms' : List Message} {db db' : Db p} (g : LangGraph)
      → Rounds 7 ms db ms' db'
      → invoke models user_id g ms db ≡ (err other_error, db')
  unfolding invoke
  invoke_exhausted {ms} {ms'} {db} {db'} g path =
      g.invoke_lem (step models user_id) 15 ms db
      ∙ run-Rounds 1 path
      ∙ run-one ms' db' (asked ms') refl
