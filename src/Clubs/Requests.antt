-- ===== src/Clubs/Requests.antt =====
-- Requests to app/modules/clubs/router.py and the console's club page, one after another.
use dating_backend.Prelude.{ℕ, Option, List, [], ◌∷◌, String}
use dating_backend.Shared.Action.{Action, committed}
use dating_backend.Shared.Action.Keeps.{Keeps, committed_of_commits}
use dating_backend.Shared.Users.{User}
use dating_backend.Clubs.Data.{ClubDb}
use dating_backend.Clubs.Service.{
  ClubEnv, ClubCreate, join_club, leave_club, dissolve_club, kick_member, club_chat,
}
use dating_backend.Clubs.Founding.{create_club, ClubAction, admin_set_status}
use dating_backend.Clubs.Handlers.{IsSound}
use dating_backend.Clubs.Membership.{join-Keeps, leave-Keeps, kick-Keeps, chat-Keeps}
use dating_backend.Clubs.Opening.{create-Keeps, dissolve-Keeps, admin_set_status-Keeps}

pub data ClubRequest : Type 0 where
  create : ClubCreate → ClubRequest
  join : ℕ → ClubRequest
  leave : ℕ → ClubRequest
  kick : ℕ → ℕ → ClubRequest
  chat : ℕ → ClubRequest
  close : ℕ → ClubRequest
  moderate : ℕ → Option ClubAction → Option String → ClubRequest

unfoldable pub serve_club : ClubEnv → User → ClubRequest → ClubDb → ClubDb
serve_club env user (create r) db = committed (create_club env user r db) db
serve_club env user (join id) db = committed (join_club env user id db) db
serve_club env user (leave id) db = committed (leave_club user id db) db
serve_club env user (kick id target) db = committed (kick_member user id target db) db
serve_club env user (chat id) db = committed (club_chat env user id db) db
serve_club env user (close id) db = committed (dissolve_club env user id db) db
serve_club env user (moderate id action remark) db =
    committed (admin_set_status env id action remark db) db

unfoldable pub serve_clubs : List (ClubEnv × User × ClubRequest) → ClubDb → ClubDb
unfolding serve_club
serve_clubs [] db = db
serve_clubs ((env, user, r) ∷ rs) db = serve_clubs rs (serve_club env user r db)

committed-IsSound :
    {A : Type 0} (m : Action ClubDb A) (db : ClubDb)
    → Keeps IsSound m
    → IsSound db
    → IsSound (committed (m db) db)
committed-IsSound m db k h = committed_of_commits IsSound (m db) db (k.at db h) h

pub serve_club-IsSound :
    (env : ClubEnv) (user : User) (r : ClubRequest) (db : ClubDb)
    → IsSound db
    → IsSound (serve_club env user r db)
unfolding serve_club
serve_club-IsSound env user (create r) db h = committed-IsSound _ db (create-Keeps env user r) h
serve_club-IsSound env user (join id) db h = committed-IsSound _ db (join-Keeps env user id) h
serve_club-IsSound env user (leave id) db h = committed-IsSound _ db (leave-Keeps env user id) h
serve_club-IsSound env user (kick id target) db h =
    committed-IsSound _ db (kick-Keeps env user id target) h
serve_club-IsSound env user (chat id) db h = committed-IsSound _ db (chat-Keeps env user id) h
serve_club-IsSound env user (close id) db h = committed-IsSound _ db (dissolve-Keeps env user id) h
serve_club-IsSound env user (moderate id action remark) db h =
    committed-IsSound _ db (admin_set_status-Keeps env id action remark) h

-- Whatever clubs users create, join, leave, dissolve and chat in, and whomever they remove, and whatever the
-- console does to clubs, failing requests included, these hold after it if they held before. Every club's `member_count` is the number
-- of its active members; its creator is an active owner unless it was ever dissolved; and whoever is active in
-- the chat of a club is an active member of that club.
pub serve_clubs-IsSound :
    (rs : List (ClubEnv × User × ClubRequest)) (db : ClubDb)
    → IsSound db
    → IsSound (serve_clubs rs db)
unfolding serve_clubs
serve_clubs-IsSound [] db h = h
serve_clubs-IsSound ((env, user, r) ∷ rs) db h =
    serve_clubs-IsSound rs (serve_club env user r db) (serve_club-IsSound env user r db h)
