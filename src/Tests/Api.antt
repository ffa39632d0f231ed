-- ===== src/Tests/Api.antt =====
-- Requests to a server of Ann's workbook, which Bob may only view.
use onsheet_backend.Base.{String, true, none, some, ◌≡◌, ◌≢◌, refl, arith, ap, sym, eq_iff, ◌∙◌}
use onsheet_backend.Prisma.Example.{in_memory}
use onsheet_backend.Http.{Exception, forbidden, Result, ok, err}
use onsheet_backend.Auth.{SafeUser, safe, validate_access}
use onsheet_backend.Workbooks.Access.{find_workbook, find_one, assert_editor}
use onsheet_backend.Workbooks.Roles.{standing}
use onsheet_backend.Cells.Service.{find_cell}
use onsheet_backend.Api.Answers.{filter_exception, failed}
use onsheet_backend.Api.Controllers.Accounts.{Server, Draws}
use onsheet_backend.Api.Controllers.Workbooks
use onsheet_backend.Api.Controllers.Cells
use onsheet_backend.Api.Validation.{Validator}
use onsheet_backend.Api.{Request, Route, workbooks, cells, user_of, serve}
use onsheet_backend.Api.Guarding.{serve_unauthenticated}
use onsheet_backend.Api.Confidential.{serve-reads}
use onsheet_backend.Api.Ownership.Routes.{serve-standing}
use onsheet_backend.Api.Editing.Routes.{serve-find_cell}
use onsheet_backend.Tests.Office.{office, book, dan}
use onsheet_backend.Tests.Packages.{plain, spelled, settings}

abbrev pub server : Server
server = record { bcrypt = plain; jwt = spelled; config = settings; node_env = "development" }

abbrev pub draws : Draws
draws = record { now = 7; salt = "s"; token_salt = "t"; uuid = "uuid" }

abbrev pub lenient : Validator
lenient = record {
  is_email = λ s. true;
  is_url = λ s. true;
  min_length = λ n s. true;
  max_length = λ n s. true;
}

-- a request with Bob's token
abbrev pub from_bob : Route → Request
from_bob route = record {
  route = route;
  url = "/api/v1";
  access_cookie = some "xbxoxb.bob";
  bearer = none;
  refresh_cookie = none;
}

abbrev anonymous : Route → Request
anonymous route = record (from_bob route) { access_cookie = none }

abbrev id_of : Result SafeUser → String
id_of (ok u) = u.id
id_of (err e) = ""

pub sent_by_bob :
    (route : Route) (u : SafeUser)
    → user_of server lenient draws ⦃p = in_memory⦄ (from_bob route) office ≡ ok u
    → "bob" ≡ u.id
unfolding validate_access
sent_by_bob route u h = ap id_of h

serve_unauthenticated_example :
    serve server lenient draws ⦃p = in_memory⦄ (anonymous (workbooks (Workbooks.remove "w"))) office
    ≡ (
      failed
          (record { status_code = 401; timestamp = 7; path = "/api/v1"; message = "Unauthorized" }),
      office,
    )
serve_unauthenticated_example =
    serve_unauthenticated server lenient draws ⦃p = in_memory⦄ office
      (anonymous (workbooks (Workbooks.remove "w"))) refl refl

bob_is_no_owner :
    (u : SafeUser)
    → user_of server lenient draws ⦃p = in_memory⦄
        (from_bob (workbooks (Workbooks.remove "w")))
        office
      ≡ ok u
    → ("ann" ≢ u.id) × ("cid" ≢ u.id)
bob_is_no_owner u h =
    let sent = sent_by_bob (workbooks (Workbooks.remove "w")) u h in
    (
      λ e. ground (arith, (eq_iff "ann" "bob").1 (e ∙ sym sent)),
      λ e. ground (arith, (eq_iff "cid" "bob").1 (e ∙ sym sent)),
    )

serve-standing_example :
    let after =
      (serve server lenient draws ⦃p = in_memory⦄
        (from_bob (workbooks (Workbooks.remove "w")))
        office).1 in
    (find_workbook ⦃p = in_memory⦄ after "w" ≡ some book)
    × (standing ⦃p = in_memory⦄ after "w" "cid" ≡ standing ⦃p = in_memory⦄ office "w" "cid")
serve-standing_example =
    serve-standing server lenient draws ⦃p = in_memory⦄ office "w" book refl
      (from_bob (workbooks (Workbooks.remove "w"))) "cid" bob_is_no_owner

bob_is_denied :
    (u : SafeUser)
    → user_of server lenient draws ⦃p = in_memory⦄ (from_bob (cells "s" (Cells.clear 2 3))) office
      ≡ ok u
    → (e : Exception) × (assert_editor ⦃p = in_memory⦄ office "w" u.id ≡ err e)
unfolding assert_editor
bob_is_denied u h =
    let refused : assert_editor ⦃p = in_memory⦄ office "w" "bob"
        ≡ err (forbidden "Editor access required") =
      refl in
    (
      forbidden "Editor access required",
      ap (assert_editor ⦃p = in_memory⦄ office "w")
            (sym (sent_by_bob (cells "s" (Cells.clear 2 3)) u h))
          ∙ refused,
    )

serve-find_cell_example :
    find_cell ⦃p = in_memory⦄
      (serve server lenient draws ⦃p = in_memory⦄ (from_bob (cells "s" (Cells.clear 2 3))) office).1
      "s"
      2
      3
    ≡ find_cell ⦃p = in_memory⦄ office "s" 2 3
serve-find_cell_example =
    serve-find_cell server lenient draws ⦃p = in_memory⦄ office "s"
      (record { id = "s"; workbook_id = "w"; name = "Sheet1"; index = 0 }) book refl refl 2 3
      (from_bob (cells "s" (Cells.clear 2 3))) bob_is_denied

-- a request with Dan's token, who has no grant
abbrev from_dan : Route → Request
from_dan route = record (from_bob route) { access_cookie = some "xdxaxn.dan" }

serve-reads_example :
    serve server lenient draws ⦃p = in_memory⦄ (from_dan (cells "s" Cells.find_all)) office
    ≡ (filter_exception 7 "/api/v1" (forbidden "Access denied"), office)
unfolding validate_access find_one
serve-reads_example =
    serve-reads server lenient draws ⦃p = in_memory⦄ office "s"
      (record { id = "s"; workbook_id = "w"; name = "Sheet1"; index = 0 }) book refl refl refl
      (safe dan) refl (from_dan (cells "s" Cells.find_all)) (forbidden "Access denied") refl refl
