-- ===== src/Tests/App.antt =====
-- A run in which Bob, who may only view the workbook, sends what he can; and a write that he reads.
use onsheet_backend.Base.{
  ℕ, String, none, some, List, [], ◌∷◌, ◌==◌, ◌≡◌, refl, arith, ap, sym, subst, string_eq, nat_eq,
  find_first, cell_key_eq,
}
use onsheet_backend.Prisma.{Cell, cell_key}
use onsheet_backend.Prisma.Example.{in_memory}
use onsheet_backend.Http.{err}
use onsheet_backend.Auth.{SafeUser, safe, validate_access}
use onsheet_backend.Workbooks.Access
use onsheet_backend.Workbooks.Access.{assert_editor, find_workbook}
use onsheet_backend.Sheets.Service.{find_sheet, assert_editor_access, find_one}
use onsheet_backend.Cells.Service.{find_cell}
use onsheet_backend.Collab.Gateway.{user, authenticate, id_of}
use onsheet_backend.Api.Answers.{succeeded, reply_status, plain_answer, cells_value}
use onsheet_backend.Api.Controllers.Cells
use onsheet_backend.Api.{Request, cells, serve, is_valid}
use onsheet_backend.Api.Saving.{serve-put_get, after_put}
use onsheet_backend.Cells.Contents.{contents_of}
use onsheet_backend.Api.Outsiders.{turned_away}
use onsheet_backend.App.{App, Input, request, connect, join, cell_update, timer, step, run}
use onsheet_backend.App.Senders.{IsLeftToOutsiders, AreSentByOutsiders}
use onsheet_backend.App.Outsiders.{run-find_cell}
use onsheet_backend.Tests.Office.{office, account, book, write_of}
use onsheet_backend.Tests.Presence.{hashes}
use onsheet_backend.Tests.Gateway.{gateway}
use onsheet_backend.Tests.Api.{server, lenient, draws, from_bob, sent_by_bob}

abbrev started : App hashes ⦃p = in_memory⦄
started = record { db = office; clients = []; gateway = gateway }

-- Bob connects, joins the sheet and writes a cell, asks by HTTP to clear it, and the batch is
-- flushed.
abbrev inputs : List Input
inputs =
    connect 5 "x" (some "xbxoxb.bob") none "guest_1"
    ∷ join "x" "s" none none
    ∷ cell_update 6 0 "x" "s" (write_of 2 3 (some "new") none)
    ∷ request draws (from_bob (cells "s" (Cells.clear 2 3)))
    ∷ timer 60 "s"
    ∷ []

abbrev IsBob : String → Type 0
IsBob x = x ≡ "bob"

IsBob-connects :
    (u : SafeUser)
    → authenticate server.jwt server.config ⦃p = in_memory⦄ 5 office
        (some "xbxoxb.bob")
        none
        "guest_1"
      ≡ user u
    → IsBob u.id
unfolding authenticate
IsBob-connects u h = sym (ap id_of h)

sent_by_him : AreSentByOutsiders IsBob hashes ⦃p = in_memory⦄ server lenient inputs started
unfolding step
sent_by_him = (
  IsBob-connects,
  (tt, (tt, (λ u h. sym (sent_by_bob (cells "s" (Cells.clear 2 3)) u h), (tt, tt)))),
)

bob_is_turned_away :
    (x : String) → IsBob x → assert_editor ⦃p = in_memory⦄ office "w" x ≡ err turned_away
unfolding assert_editor
bob_is_turned_away x h =
    subst (λ y. assert_editor ⦃p = in_memory⦄ office "w" y ≡ err turned_away) (sym h) refl

left_to_him : IsLeftToOutsiders IsBob hashes ⦃p = in_memory⦄ server lenient started
left_to_him = record { clients_outside = λ k u h. ground (arith, h); writes_outside = λ k. tt }

run-find_cell_example :
    let after = (run hashes ⦃p = in_memory⦄ server lenient inputs started).db in
    (find_cell ⦃p = in_memory⦄ after "s" 2 3 ≡ find_cell ⦃p = in_memory⦄ office "s" 2 3)
    × (find_sheet ⦃p = in_memory⦄ after "s"
        ≡ some (record { id = "s"; workbook_id = "w"; name = "Sheet1"; index = 0 }))
    × (find_workbook ⦃p = in_memory⦄ after "w" ≡ some book)
    × (assert_editor ⦃p = in_memory⦄ after "w" "bob" ≡ err turned_away)
run-find_cell_example =
    run-find_cell hashes ⦃p = in_memory⦄ server lenient IsBob "s"
      (record { id = "s"; workbook_id = "w"; name = "Sheet1"; index = 0 }) book inputs started refl
      refl bob_is_turned_away left_to_him sent_by_him 2 3 "bob" refl

abbrev put : Request
put = record (from_bob (cells "s" (Cells.upsert (write_of 2 3 (some "new") (some 4))))) {
  access_cookie = some "xcxixd.cid";
}

abbrev cid_user : SafeUser
cid_user = safe (account "cid")

serve-put_get_example :
    let (answer, after) = serve server lenient draws ⦃p = in_memory⦄ put office in
    (reply_status answer ≡ 200)
    × ((listed : List Cell) × (serve server lenient draws ⦃p = in_memory⦄
            (from_bob (cells "s" Cells.find_all))
            after
          ≡ (succeeded 200 (plain_answer (cells_value listed)), after))
        × ((row col : ℕ)
            → contents_of (find_first (λ c. cell_key c == ("s", row, col)) listed)
              ≡ after_put server lenient ⦃p = in_memory⦄ "s"
                  (write_of 2 3 (some "new") (some 4))
                  office
                  row
                  col))
unfolding validate_access assert_editor_access assert_editor find_one Access.find_one is_valid
serve-put_get_example =
    serve-put_get server lenient ⦃p = in_memory⦄ "s" draws draws put
      (from_bob (cells "s" Cells.find_all)) (write_of 2 3 (some "new") (some 4)) cid_user
      (safe (account "bob")) (record { id = "s"; workbook_id = "w"; name = "Sheet1"; index = 0 })
      office refl refl refl refl refl refl refl
