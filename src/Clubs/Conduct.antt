-- ===== src/Clubs/Conduct.antt =====
-- Every request to clubs moves standings only as clubs promise.
use dating_backend.Prelude.{
  ℕ, ◌≡◌, refl, Option, none, some, not, arith, inl, inr, Option-cases, leb, ltb, length, List, [],
  ◌∷◌, String,
}
use dating_backend.Shared.Errors.{
  app_error, user_limited, club_not_found, club_invalid, validation_error,
}
use dating_backend.Shared.Action.{Result, ok, err, committed}
use dating_backend.Shared.Action.Keeps.{Yields, Yields-guard, Yields-or_raise, Yields-bind}
use dating_backend.Shared.Table.{lookup, rows}
use dating_backend.Shared.Users.{User, is_active_user}
use dating_backend.Clubs.Data.{Club, ClubDb, save_club, is_dissolved_club}
use dating_backend.Clubs.Tags.{clean_tags}
use dating_backend.Clubs.Service.{
  ClubEnv, ClubCreate, ClubBrief, same_id, is_blocked, club_brief, join_club, leave_club,
  kick_member, club_chat, dissolve_club,
}
use dating_backend.Clubs.Founding.{
  create_club, create_new, create_chosen, create_again, is_well_formed, is_own_club, has_name,
  ClubAction, hide, unhide, dissolve, admin_set_status, set_status,
}
use dating_backend.Clubs.Handlers.{IsSound}
use dating_backend.Clubs.Requests.{
  ClubRequest, create, join, leave, kick, chat, close, moderate, serve_club, serve_clubs,
  serve_club-IsSound,
}
use dating_backend.Clubs.Standing.{
  Standing, expelled, standing, Moves, stays, Moved, MovedFrom, same-Moved, join-Moves, leave-Moves,
  kick-Moves, chat-Moves, close-Moves, founding-Moves, dissolving-Moves, enters, founds, goes,
  is_expelled,
}

module _ (env : ClubEnv) (user : User) where
  creating-Moves :
      (r : ClubCreate) (id : ℕ) (db : ClubDb)
      → IsSound db
      → lookup id db.clubs ≡ none
      → Yields (MovedFrom user.id db) (create_new env user r id db)
  unfolding create_new
  creating-Moves r id db h new =
      let M : ClubBrief → ClubDb → Type 0 = MovedFrom user.id db in
      Yields-guard M (not (is_well_formed r)) (app_error club_invalid 400) _ db λ _.
        Yields-guard M (leb 5 (length (rows (is_own_club user.id) db.clubs)))
          (app_error club_invalid 409) _ db
          λ _.
            Yields-guard M (ltb 0 (length (rows (has_name env r.name) db.clubs)))
              (app_error club_invalid 409) _ db
              λ _.
                Yields-guard M
                  (is_blocked (env.guard_text r.name r.summary (clean_tags env.clean_tag r.tags)))
                  (app_error validation_error 400) _ db
                  λ _. founding-Moves env user r id db ((h.manned.unused id new).nobody user.id)

  chosen-Moves :
      (r : ClubCreate) (id : ℕ) (o : Option Club) (db : ClubDb)
      → IsSound db
      → lookup id db.clubs ≡ o
      → Yields (MovedFrom user.id db) (create_chosen env user r id o db)
  unfolding create_chosen create_again club_brief
  chosen-Moves r id none db h new = creating-Moves r id db h new
  chosen-Moves r id (some prior) db h at =
      Yields-guard (MovedFrom user.id db) (not (same_id prior.creator_id (some user.id)))
        (app_error club_invalid 409) _ db λ _. same-Moved user.id db.members

  create-Moves :
      (r : ClubCreate) (db : ClubDb)
      → IsSound db
      → Yields (MovedFrom user.id db) (create_club env user r db)
  unfolding create_club
  create-Moves r db h =
      Yields-guard (MovedFrom user.id db) (not (is_active_user user.status))
        (app_error user_limited 403) _ db
        λ _. elim (Option-cases r.id) [
          | inl fresh ↦
              rw fresh
                (creating-Moves r db.next_id db h (h.private.numbered db.next_id (ground arith)))
          | inr (id, given) ↦ rw given (chosen-Moves r id (lookup id db.clubs) db h refl)
        ]

  acting-Moves :
      (action : Option ClubAction) (c : Club) (db : ClubDb)
      → Yields (MovedFrom user.id db) (set_status env action c db)
  unfolding set_status
  acting-Moves none c db = tt
  acting-Moves (some hide) c db = same-Moved user.id db.members
  acting-Moves (some unhide) c db =
      Yields-guard (MovedFrom user.id db) (is_dissolved_club c.status) (app_error club_invalid 400)
        _ db λ _. same-Moved user.id db.members
  acting-Moves (some dissolve) c db = dissolving-Moves env user c db

  moderate-Moves :
      (id : ℕ) (action : Option ClubAction) (remark : Option String) (db : ClubDb)
      → Yields (MovedFrom user.id db) (admin_set_status env id action remark db)
  unfolding admin_set_status save_club
  moderate-Moves id action remark db =
      Yields-or_raise (MovedFrom user.id db) (lookup id db.clubs) (app_error club_not_found 404) _
        db
        λ c found.
          Yields-bind (MovedFrom user.id db) (MovedFrom user.id db) (set_status env action c) _ db
            (acting-Moves action c db) λ _ _ m. m

  committed-Moves :
      {A : Type 0} (r : Result (A × ClubDb)) (db : ClubDb)
      → Yields (MovedFrom user.id db) r
      → Moved user.id db.members (committed r db).members
  unfolding committed
  committed-Moves (ok (a, db')) db m = m
  committed-Moves (err e) db m = same-Moved user.id db.members

-- A request to sound clubs moves the standing of each user in each club along one step that clubs allow. A
-- user may stay; come from outside, as a member or as a founder who owns it, by a request of its own; leave for outside; or, being no owner, be
-- expelled. So the detailed tables implement the standings.
pub serve_club-Moves :
    (env : ClubEnv) (user : User) (r : ClubRequest) (db : ClubDb)
    → IsSound db
    → (k u : ℕ) → Moves user.id u (standing k u db) (standing k u (serve_club env user r db))
unfolding serve_club
serve_club-Moves env user (create r) db h =
    committed-Moves env user (create_club env user r db) db (create-Moves env user r db h)
serve_club-Moves env user (join id) db h =
    committed-Moves env user (join_club env user id db) db (join-Moves env user id db h)
serve_club-Moves env user (leave id) db h =
    committed-Moves env user (leave_club user id db) db (leave-Moves env user id db h)
serve_club-Moves env user (kick id target) db h =
    committed-Moves env user (kick_member user id target db) db (kick-Moves env user id target db h)
serve_club-Moves env user (chat id) db h =
    committed-Moves env user (club_chat env user id db) db (chat-Moves env user id db h)
serve_club-Moves env user (close id) db h =
    committed-Moves env user (dissolve_club env user id db) db (close-Moves env user id db h)
serve_club-Moves env user (moderate id action remark) db h =
    committed-Moves env user (admin_set_status env id action remark db) db
      (moderate-Moves env user id action remark db)

from_expelled : {actor u : ℕ} {s s' : Standing} → Moves actor u s s' → s ≡ expelled → s' ≡ expelled
from_expelled (stays s) e = e
from_expelled (enters _) e = cc
from_expelled (founds _) e = cc
from_expelled (goes r) e = cc
from_expelled (is_expelled r ne) e = refl

-- Whoever was removed from a club stays out of it, whatever requests follow.
pub expelled_stays :
    (rs : List (ClubEnv × User × ClubRequest)) (db : ClubDb) (k u : ℕ)
    → IsSound db
    → standing k u db ≡ expelled
    → standing k u (serve_clubs rs db) ≡ expelled
unfolding serve_clubs
expelled_stays [] db k u h e = e
expelled_stays ((env, user, r) ∷ rs) db k u h e =
    expelled_stays rs (serve_club env user r db) k u (serve_club-IsSound env user r db h)
      (from_expelled (serve_club-Moves env user r db h k u) e)
