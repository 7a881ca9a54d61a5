-- ===== src/Clubs/Console.antt =====
-- What the console's `admin_set_status` does to a dissolved club.
use dating_backend.Prelude.{ℕ, ◌≡◌, refl, true, false, none, some, arith}
use dating_backend.Shared.Errors.{app_error, club_invalid}
use dating_backend.Shared.Action.{err, ◌>>◌, ◌>>=◌, or_raise, ok}
use dating_backend.Shared.Action.Keeps.{Returns}
use dating_backend.Shared.Table.{lookup, insert, lookup-insert, lookup-insert_at}
use dating_backend.Clubs.Data.{Club, ClubStatus, ClubDb, is_dissolved_club, save_club}
use dating_backend.Clubs.Service.{ClubEnv}
use dating_backend.Clubs.Founding.{hide, unhide, admin_set_status, set_status, noted}

set_status_hide :
    (env : ClubEnv) (id : ℕ) (c : Club) (db : ClubDb)
    → lookup id db.clubs ≡ some c
    → admin_set_status env id (some hide) none db
      ≡ ok (
        record c { status = ClubStatus.hidden },
        record db { clubs = insert c.id (record c { status = ClubStatus.hidden }) db.clubs },
      )
unfolding admin_set_status set_status save_club noted
set_status_hide env id c db found = rw (found, or_raise)

set_status_unhide :
    (env : ClubEnv) (id : ℕ) (c : Club) (db : ClubDb)
    → lookup id db.clubs ≡ some c
    → is_dissolved_club c.status ≡ false
    → admin_set_status env id (some unhide) none db
      ≡ ok (
        record c { status = ClubStatus.active },
        record db { clubs = insert c.id (record c { status = ClubStatus.active }) db.clubs },
      )
unfolding admin_set_status set_status save_club noted
set_status_unhide env id c db found live = ground (arith, found, live)

unhide_refused :
    (env : ClubEnv) (id : ℕ) (c : Club) (db : ClubDb)
    → lookup id db.clubs ≡ some c
    → is_dissolved_club c.status ≡ true
    → admin_set_status env id (some unhide) none db ≡ err (app_error club_invalid 400)
unfolding admin_set_status set_status
unhide_refused env id c db found gone = ground (arith, found, gone)

-- By hiding a club and showing it again the console stores it as active, also one that was dissolved, although
-- showing a dissolved club is refused.
pub dissolved_club_reopens :
    (env : ClubEnv) (id : ℕ) (c : Club) (db : ClubDb)
    → c.id ≡ id
    → lookup id db.clubs ≡ some c
    → is_dissolved_club c.status ≡ true
    → (admin_set_status env id (some unhide) none db ≡ err (app_error club_invalid 400))
      × Returns
          (λ c' db'. (c'.status ≡ ClubStatus.active) × (lookup id db'.clubs ≡ some c'))
          ((admin_set_status env id (some hide) none >> admin_set_status env id (some unhide) none)
            db)
unfolding is_dissolved_club
dissolved_club_reopens env id c db keyed found gone =
    let hidden : Club = record c { status = ClubStatus.hidden } in
    let back : Club = record hidden { status = ClubStatus.active } in
    let now : lookup id (insert c.id hidden db.clubs) ≡ some hidden =
      ground (arith, lookup-insert c.id id hidden db.clubs, keyed) in
    (
      unhide_refused env id c db found gone,
      rw (set_status_hide env id c db found, ◌>>=◌)
          (rw
            (set_status_unhide env id hidden (record db { clubs = insert c.id hidden db.clubs }) now
              refl)
            (refl, lookup-insert_at c.id id back (insert c.id hidden db.clubs) keyed)),
    )
