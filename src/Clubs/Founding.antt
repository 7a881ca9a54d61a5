-- ===== src/Clubs/Founding.antt =====
-- `create` and `admin_set_status` of `ClubService`.
use dating_backend.Prelude.{
  ℕ, ◌+◌, max, String, Bool, false, Option, none, some, [], ◌∷◌, ◌++◌, ◌&&◌, not, ltb, leb,
  if◌then◌else◌, length,
}
use text.Mathlib.Text.{◌==◌ as str_eq}
use dating_backend.Shared.Errors.{
  app_error, user_limited, validation_error, club_invalid, club_not_found,
}
use dating_backend.Shared.Action.{
  Action, pure, raise, gets, modify, or_raise, raise_if, ◌>>=◌, ◌>>◌,
}
use dating_backend.Shared.Table.{lookup, rows}
use dating_backend.Shared.Users.{User, is_active_user}
use dating_backend.Clubs.Data.{
  Club, ClubStatus, ClubMember, ClubMemberRole, ClubMemberStatus, ClubDb, is_dissolved_club,
  save_club, save_member,
}
use dating_backend.Clubs.Tags.{clean_tags, has_text}
use dating_backend.Clubs.Service.{
  ClubEnv, ClubCreate, ClubBrief, Verdict, club_topics, topic_images, topic_image, text_length,
  same_id, needs_review, is_blocked, club_brief, ensure_conversation, dissolve_writes,
}

unfoldable pub is_own_club : ℕ → Club → Bool
is_own_club user_id c = same_id c.creator_id (some user_id) && not (is_dissolved_club c.status)

unfoldable pub is_well_formed : ClubCreate → Bool
is_well_formed r =
    leb 2 (text_length r.name)
    && (leb (text_length r.name) 20
        && (leb 8 (text_length r.summary)
            && (leb (text_length r.summary) 300 && has_text r.topic club_topics)))

-- A repeated create of the same club returns it.
unfoldable pub create_again : User → Club → Action ClubDb ClubBrief
create_again user c = do
  raise_if (not (same_id c.creator_id (some user.id))) (app_error club_invalid 409)
  club_brief c user.id

module _ (env : ClubEnv) where
  unfoldable pub has_name : String → Club → Bool
  has_name name c = str_eq (env.lower c.name) (env.lower name) && not (is_dissolved_club c.status)

  unfoldable pub new_club : ℕ → ℕ → ClubCreate → Club
  new_club id user_id r = record {
    id = id;
    name = r.name;
    topic = r.topic;
    city = r.city;
    summary = r.summary;
    tags = clean_tags env.clean_tag r.tags;
    system_image = topic_image r.topic topic_images;
    creator_id = some user_id;
    is_official = false;
    status = ClubStatus.active;
    member_count = 1;
    weekly_active = 1;
    conversation_id = none;
    admin_note = none;
    dissolved_at = none;
  }

  unfoldable pub founder : ClubMember
  founder = record {
    role = ClubMemberRole.owner;
    status = ClubMemberStatus.active;
    joined_at = env.now;
    last_active_at = env.now;
  }

  -- `enqueue_moderation_task`, where the verdict asks for a review.
  unfoldable pub ask_review : Verdict → ℕ → Action ClubDb (Unit {0})
  ask_review v club_id = modify (λ db. record db {
    reviews =
        if needs_review v
        then db.reviews ++ (record { club_id = club_id; machine_label = "review" } ∷ [])
        else db.reviews;
  })

  -- The writes of `create`, under the id that the caller or the database chose.
  unfoldable pub found_club : User → ClubCreate → ℕ → Action ClubDb ClubBrief
  unfolding new_club founder ask_review
  found_club user r id = do
    modify (λ db. record db { next_id = max (id + 1) db.next_id })
    save_club (new_club id user.id r)
    save_member id user.id founder
    c ← ensure_conversation env (new_club id user.id r) user.id
    ask_review (env.guard_text r.name r.summary (clean_tags env.clean_tag r.tags)) id
    club_brief c user.id

  unfoldable pub create_new : User → ClubCreate → ℕ → Action ClubDb ClubBrief
  unfolding found_club is_well_formed has_name is_own_club
  create_new user r id = do
    raise_if (not (is_well_formed r)) (app_error club_invalid 400)
    mine ← gets (λ db. rows (is_own_club user.id) db.clubs)
    raise_if (leb 5 (length mine)) (app_error club_invalid 409)
    same_name ← gets (λ db. rows (has_name r.name) db.clubs)
    raise_if (ltb 0 (length same_name)) (app_error club_invalid 409)
    raise_if (is_blocked (env.guard_text r.name r.summary (clean_tags env.clean_tag r.tags)))
        (app_error validation_error 400)
    found_club user r id

  unfoldable pub create_chosen : User → ClubCreate → ℕ → Option Club → Action ClubDb ClubBrief
  unfolding create_new create_again
  create_chosen user r id none = create_new user r id
  create_chosen user r id (some prior) = create_again user prior

  unfoldable pub create_club : User → ClubCreate → Action ClubDb ClubBrief
  unfolding create_chosen create_new
  create_club user r = do
    raise_if (not (is_active_user user.status)) (app_error user_limited 403)
    elim r.id [
      | none ↦ gets (λ db. db.next_id) >>= create_new user r
      | some id ↦ gets (λ db. lookup id db.clubs) >>= create_chosen user r id
    ]

pub data ClubAction : Type 0 where
  hide unhide dissolve : ClubAction

unfoldable pub noted : Option String → Club → Club
noted none c = c
noted (some note) c = record c { admin_note = if str_eq note "" then none else some note }

module _ (env : ClubEnv) where
  unfoldable pub set_status : Option ClubAction → Club → Action ClubDb Club
  set_status none c = raise (app_error club_invalid 400)
  set_status (some hide) c = pure (record c { status = ClubStatus.hidden })
  set_status (some unhide) c = do
    raise_if (is_dissolved_club c.status) (app_error club_invalid 400)
    pure (record c { status = ClubStatus.active })
  set_status (some dissolve) c = dissolve_writes env c

  unfoldable pub admin_set_status : ℕ → Option ClubAction → Option String → Action ClubDb Club
  unfolding set_status noted
  admin_set_status club_id action note = do
    found ← gets (λ db. lookup club_id db.clubs)
    c ← or_raise found (app_error club_not_found 404)
    c' ← set_status action c
    save_club (noted note c')
    pure (noted note c')
