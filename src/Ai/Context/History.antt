-- ===== src/Ai/Context/History.antt =====
-- A stored conversation stays a list of whole turns, and stays short.
use onsheet_backend.Ai.Context.{
  turn, last_of, ai, save_context, load_context, human, StoredMessage, ContextStore,
}
use onsheet_backend.Base.{
  ℕ, zero, suc, ◌-◌, ◌≤◌, ◌%◌, String, true, false, some, List, [], ◌∷◌, ◌++◌, ◌≡◌, refl, arith,
  length, length-drop, drop,
}

-- A question of the user, then an answer, and so on.
abbrev pub IsPaired : List StoredMessage → Type 0
IsPaired [] = Unit
IsPaired (q ∷ []) = true ≡ false
IsPaired (q ∷ a ∷ l) = (q.role ≡ human) × (a.role ≡ ai) × IsPaired l

even_of_paired : (l : List StoredMessage) → IsPaired l → length l % 2 ≡ 0
even_of_paired [] h = refl
even_of_paired (q ∷ []) h = ground (arith, h)
even_of_paired (q ∷ a ∷ l) h = omega (arith, even_of_paired l h.2)

IsPaired-append : (l m : List StoredMessage) → IsPaired l → IsPaired m → IsPaired (l ++ m)
IsPaired-append [] m h k = k
IsPaired-append (q ∷ []) m h k = ground (arith, h)
IsPaired-append (q ∷ a ∷ l) m h k = (h.0, h.1, IsPaired-append l m h.2 k)

IsPaired-drop : (n : ℕ) (l : List StoredMessage) → n % 2 ≡ 0 → IsPaired l → IsPaired (drop n l)
IsPaired-drop zero l e h = h
IsPaired-drop (suc zero) l e h = absurd (omega arith)
IsPaired-drop (suc (suc n)) [] e h = tt
IsPaired-drop (suc (suc n)) (q ∷ []) e h = ground (arith, h)
IsPaired-drop (suc (suc n)) (q ∷ a ∷ l) e h = IsPaired-drop n l (omega arith) h.2

module _ (redis : ContextStore) where
  -- If Redis takes the write, the conversation that is loaded next is the last 20 messages of the
  -- old one with the new turn at its end: at most ten turns, each a question and its answer.
  pub load_context-save_context :
      (s s' : redis.S) (key user_content ai_answer : String) (existing : List StoredMessage)
      → IsPaired existing
      → redis.set_ex s key (last_of 20 (existing ++ turn user_content ai_answer)) 7200 ≡ some s'
      → let loaded =
          load_context redis (save_context redis s key existing user_content ai_answer) key in
        (loaded ≡ last_of 20 (existing ++ turn user_content ai_answer))
        × (length loaded ≤ 20)
        × IsPaired loaded
  unfolding load_context save_context
  load_context-save_context s s' key user_content ai_answer existing paired written =
      let updated = existing ++ turn user_content ai_answer in
      let loads : load_context redis (save_context redis s key existing user_content ai_answer) key
          ≡ last_of 20 updated =
        ground (arith, written, redis.get-set_ex s s' key (last_of 20 updated) 7200 written) in
      let whole : IsPaired updated =
        IsPaired-append existing (turn user_content ai_answer) paired (refl, refl, tt) in
      (
        loads,
        rw loads (omega (arith, length-drop {0} (length updated - 20) updated)),
        rw loads (
            IsPaired-drop (length updated - 20) updated
              (omega (arith, even_of_paired updated whole)) whole),
      )
