-- ===== src/Ai/Context/Keys.antt =====
-- The key of a conversation belongs to one user.
use Prim.Native.String.{String, [], ◌∷◌, ◌++◌}
use Prim.Native.Char.{Char, code}
use text.Mathlib.TextLemmas.{nil-append, cons-append}
use onsheet_backend.Base.{
  Bool, false, ◌||◌, nat_eqb, Option, ◌≡◌, arith, ap, sym, ◌∙◌, if◌then◌else◌,
}
use onsheet_backend.Ai.Context.{context_key, scope_of}

abbrev is_colon : Char → Bool
is_colon c = nat_eqb (code c) 58

abbrev pub has_colon : String → Bool
has_colon [] = false
has_colon (c ∷ s) = is_colon c || has_colon s

abbrev before_colon : String → String
before_colon [] = []
before_colon (c ∷ s) = let rest = before_colon s in if is_colon c then [] else c ∷ rest

before_colon-append : (s t : String) → has_colon s ≡ false → before_colon (s ++ (":" ++ t)) ≡ s
before_colon-append [] t h = ap before_colon (nil-append (":" ++ t) ∙ cons-append ":" [] t)
before_colon-append (c ∷ s) t h =
    ap before_colon (cons-append c s (":" ++ t)) ∙ ground (arith, before_colon-append s t)

abbrev tail_of : String → String
tail_of [] = []
tail_of (c ∷ s) = s

append-inj : (a s t : String) → a ++ s ≡ a ++ t → s ≡ t
append-inj [] s t e = sym (nil-append s) ∙ e ∙ nil-append t
append-inj (c ∷ a) s t e =
    append-inj a s t
      (sym (ap tail_of (cons-append c a s)) ∙ ap tail_of e ∙ ap tail_of (cons-append c a t))

-- Two users never share a conversation, whatever session or sheet they name: for user ids without
-- a colon, equal keys have equal users and equal scopes.
pub context_key-inj :
    (user user' sheet sheet' : String) (session session' : Option String)
    → has_colon user ≡ false
    → has_colon user' ≡ false
    → context_key user session sheet ≡ context_key user' session' sheet'
    → (user ≡ user') × (scope_of session sheet ≡ scope_of session' sheet')
unfolding context_key
context_key-inj user user' sheet sheet' session session' h h' e =
    let scope = scope_of session sheet in
    let scope' = scope_of session' sheet' in
    let tail = append-inj "ai:ctx:" (user ++ (":" ++ scope)) (user' ++ (":" ++ scope')) e in
    let users : user ≡ user' =
      sym (before_colon-append user scope h)
      ∙ ap before_colon tail
      ∙ before_colon-append user' scope' h' in
    (
      users,
      append-inj ":" scope scope' (
          append-inj user' (":" ++ scope) (":" ++ scope')
            (ap (λ u. u ++ (":" ++ scope)) (sym users) ∙ tail)),
    )
