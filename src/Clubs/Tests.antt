-- ===== src/Clubs/Tests.antt =====
-- Concrete clubs, on which the theorems apply.
use dating_backend.Shared.Table.{lookup, rows, insert}
use dating_backend.Messaging.Transfers.{is_active_conversation}
use dating_backend.Prelude.{ℕ, ◌≡◌, refl, true, false, none, some, List, [], ◌∷◌}
use dating_backend.Shared.Errors.{app_error, club_invalid}
use dating_backend.Shared.Action.{err, ◌>>◌, committed}
use dating_backend.Shared.Action.Keeps.{Returns}
use dating_backend.Shared.Users.{User, UserStatus, is_active_user, is_banned}
use dating_backend.Shared.Pairs.{get, count_of, put}
use dating_backend.Clubs.Data.{
  Club, ClubStatus, ClubDb, is_dissolved_club, save_club, save_member, save_circle_member,
  is_club_owner, is_hidden, is_inside, is_kicked, is_moderator,
}
use dating_backend.Clubs.Tags.{clean_tags, add_tags}
use dating_backend.Clubs.Service.{
  ClubEnv, ClubCreate, Verdict, kick_member, get_club, visible, join_club, is_blocked,
  ensure_conversation, club_brief, brief_of, circle_of, enter_club, entered, inside_only,
  is_member_inside, is_out, is_refused, joined_member, may_remove, new_circle, one_member_less,
  one_member_more, open_circle, remove_member, same_id, topic_image, needs_review, dropped,
}
use dating_backend.Clubs.Founding.{
  hide, unhide, admin_set_status, create_club, ask_review, create_chosen, create_new, found_club,
  founder, has_name, is_own_club, is_well_formed, new_club,
}
use dating_backend.Clubs.Handlers.{IsSound}
use dating_backend.Clubs.Requests.{
  ClubRequest, create, join, kick, serve_club, serve_clubs, serve_clubs-IsSound,
}
use dating_backend.Clubs.Standing.{expelled, standing, Moves}
use dating_backend.Clubs.Conduct.{serve_club-Moves, expelled_stays}
use dating_backend.Clubs.Console.{dissolved_club_reopens}

abbrev env : ClubEnv
env = record {
  now = 100;
  guard_text = λ _ _ _. Verdict.pass;
  lower = λ t. t;
  clean_tag = λ t. t;
  open_group = λ _ title. title;
  is_blocked_either = λ _ _. false;
}

abbrev someone : ℕ → User
someone id = record {
  id = id;
  status = UserStatus.active;
  discoverable = true;
  profile_completed = true;
  created_at = 0;
}

abbrev riders : ClubCreate
riders = record {
  id = none;
  name = "Riders";
  topic = "骑行";
  city = "";
  summary = "Riding every Sunday";
  tags = "bike" ∷ "bike" ∷ [];
}

abbrev no_clubs : ClubDb
no_clubs = record {
  clubs = [];
  members = [];
  circles = [];
  circle_members = [];
  reviews = [];
  next_id = 0;
}

no_clubs-IsSound : IsSound no_clubs
unfolding count_of get lookup
no_clubs-IsSound = record {
  manned = record {
    manned = λ k c e. cc;
    unused = λ k e. record { empty = refl; nobody = λ u. refl };
  };
  private = record {
    private = λ k v u c e in_v chatting. cc;
    apart = λ j k v b c e. cc;
    below = λ k v c e. cc;
    unused = λ v u later. refl;
    numbered = λ k later. refl;
  };
}

abbrev requests : List (ClubEnv × User × ClubRequest)
requests =
    (env, someone 1, create riders)
    ∷ (env, someone 2, join 0)
    ∷ (env, someone 3, join 0)
    ∷ (env, someone 1, kick 0 2)
    ∷ []

serve_clubs-IsSound_example : IsSound (serve_clubs requests no_clubs)
serve_clubs-IsSound_example = serve_clubs-IsSound requests no_clubs no_clubs-IsSound

serve_club-Moves_example :
    Moves 2 2
      (standing 0 2 (serve_clubs requests no_clubs))
      (standing 0 2 (serve_club env (someone 2) (join 0) (serve_clubs requests no_clubs)))
serve_club-Moves_example =
    serve_club-Moves env (someone 2) (join 0) (serve_clubs requests no_clubs)
      serve_clubs-IsSound_example 0 2

requests_expel : standing 0 2 (serve_clubs requests no_clubs) ≡ expelled
unfolding kick_member get_club visible join_club is_blocked ensure_conversation club_brief brief_of
    circle_of enter_club entered inside_only is_member_inside is_out is_refused joined_member
    may_remove new_circle one_member_less one_member_more open_circle remove_member same_id
    topic_image needs_review dropped create_club ask_review create_chosen create_new found_club
    founder has_name is_own_club is_well_formed new_club save_club save_member save_circle_member
    is_club_owner is_hidden is_inside is_kicked is_moderator is_dissolved_club lookup rows insert
    get put is_active_user is_banned committed is_active_conversation serve_clubs serve_club
    clean_tags add_tags
requests_expel = refl

expelled_stays_example :
    standing 0 2 (serve_clubs ((env, someone 2, join 0) ∷ []) (serve_clubs requests no_clubs))
    ≡ expelled
expelled_stays_example =
    expelled_stays ((env, someone 2, join 0) ∷ []) (serve_clubs requests no_clubs) 0 2
      serve_clubs-IsSound_example requests_expel

abbrev gone_club : Club
gone_club = record {
  id = 0;
  name = "Gone";
  topic = "骑行";
  city = "";
  summary = "";
  tags = [];
  system_image = "bicycle";
  creator_id = some 1;
  is_official = false;
  status = ClubStatus.dissolved;
  member_count = 0;
  weekly_active = 0;
  conversation_id = none;
  admin_note = none;
  dissolved_at = some 5;
}

abbrev gone_db : ClubDb
gone_db = record {
  clubs = (0, gone_club) ∷ [];
  members = [];
  circles = [];
  circle_members = [];
  reviews = [];
  next_id = 1;
}

dissolved_club_reopens_example :
    (admin_set_status env 0 (some unhide) none gone_db ≡ err (app_error club_invalid 400))
    × Returns
        (λ c' db'. (c'.status ≡ ClubStatus.active) × (lookup 0 db'.clubs ≡ some c'))
        ((admin_set_status env 0 (some hide) none >> admin_set_status env 0 (some unhide) none)
          gone_db)
unfolding is_dissolved_club lookup
dissolved_club_reopens_example = dissolved_club_reopens env 0 gone_club gone_db refl refl refl
