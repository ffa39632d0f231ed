-- ===== src/Http/Actions.antt =====
-- Actions on a state, for the handlers that write.
use onsheet_backend.Base.{Option, none, some}
use onsheet_backend.Http.{Exception, Result, ok, err, known_request}

-- An action on a state.
abbrev pub Action : Type 0 → Type 0 → Type 0
Action S A = S → Result A × S

abbrev pub pure : {S A : Type 0} → A → Action S A
pure a s = (ok a, s)

abbrev pub raise : {S A : Type 0} → Exception → Action S A
raise e s = (err e, s)

-- A check that only reads.
abbrev pub check : {S A : Type 0} → (S → Result A) → Action S A
check f s = (f s, s)

abbrev pub continue : {S A B : Type 0} → Result A → (A → Action S B) → Action S B
continue (ok a) f s = f a s
continue (err e) f s = (err e, s)

infixl 5 ◌>>=◌ ◌>>◌
abbrev pub ◌>>=◌ : {S A B : Type 0} → Action S A → (A → Action S B) → Action S B
◌>>=◌ m f s = continue (m s).0 f (m s).1

abbrev pub ◌>>◌ : {S A B : Type 0} → Action S A → Action S B → Action S B
m >> k = m >>= λ _. k

-- A statement on one table: a failed one throws and leaves the state, a good one has its row and
-- the state with the new table.
abbrev pub commit : {S T R : Type 0} → (T → S) → Option (T × R) → Action S R
commit put none s = (err known_request, s)
commit put (some (t, r)) s = (ok r, put t)
