-- ===== src/Http.antt =====
-- What a service call gives: a value, or one of the exceptions that the code throws. An action
-- also has the state that it leaves; what was written before an exception stays written.
pub mod Checks
pub mod Actions
use onsheet_backend.Base.{String, Bool, true, false, Option, none, some}
use onsheet_backend.Prisma.Schema.{Cell}

-- The exceptions of NestJS by their class, with their message; `known_request` is Prisma's
-- `PrismaClientKnownRequestError`, `type_error` JavaScript's, `other_error`
-- any other `Error`, such as LangGraph's `GraphRecursionError`.
pub data Exception : Type 0 where
  bad_request unauthorized forbidden not_found : String → Exception
  conflict : String → Option Cell → Exception
  known_request type_error other_error : Exception

pub data Result (A : Type 0) : Type 0 where
  ok : A → Result A
  err : Exception → Result A

-- `if (!value) throw e`
abbrev pub require : {A : Type 0} → Exception → Option A → Result A
require e none = err e
require e (some a) = ok a

-- `if (test) throw e`
abbrev pub refuse : Exception → Bool → Result (Unit {0})
refuse e true = err e
refuse e false = ok tt

abbrev pub is_ok : {A : Type 0} → Result A → Bool
is_ok (ok a) = true
is_ok (err e) = false
