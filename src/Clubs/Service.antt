-- ===== src/Clubs/Service.antt =====
-- `_get`, `create`, `_ensure_conversation`, `join`, `leave`, `_drop_conversation_member`, `dissolve`,
-- `_dissolve`, `kick`, `chat`, `admin_set_status` and `brief` of `ClubService`. Names and summaries are
-- already stripped.
use dating_backend.Prelude.{
  ℕ, suc, ◌+◌, ◌-◌, String, Bool, true, false, Option, none, some, List, [], ◌∷◌, ◌&&◌, ◌||◌, not,
  ◌==◌, if◌then◌else◌, or_else,
}
use text.Mathlib.Text.{◌==◌ as str_eq}
use dating_backend.Shared.Errors.{app_error, user_limited, club_not_found, club_forbidden}
use dating_backend.Shared.Action.{Action, pure, gets, modify, or_raise, raise_if, ◌>>=◌, ◌>>◌}
use dating_backend.Shared.Table.{Table, lookup, insert}
use dating_backend.Shared.Pairs.{PairTable, get, put, update_of}
use dating_backend.Shared.Users.{User, is_banned}
use dating_backend.Messaging.Transfers.{ConversationStatus, MemberStatus, is_active_conversation}
use dating_backend.Clubs.Data.{
  Club, ClubStatus, ClubMember, ClubMemberRole, ClubMemberStatus, Circle, CircleMember, ClubDb,
  is_dissolved_club, is_hidden, is_inside, is_kicked, is_club_owner, is_moderator, save_club,
  save_member, save_circle_member,
}

pub data Verdict : Type 0 where
  pass warn review block : Verdict

-- The clock, the verdict of the content check, lower case, the clean form of a tag, the group that the
-- chat provider opens, and the users of whom one has blocked the other.
pub record ClubEnv : Type 0 where
  pub now : ℕ
  pub guard_text : String → String → List String → Verdict
  pub lower : String → String
  pub clean_tag : String → String
  pub open_group : ℕ → String → String
  pub is_blocked_either : ℕ → ℕ → Bool

pub record ClubCreate : Type 0 where
  pub id : Option ℕ
  pub name : String
  pub topic : String
  pub city : String
  pub summary : String
  pub tags : List String

-- `brief`, but for the texts that it copies from the club.
pub record ClubBrief : Type 0 where
  pub club : Club
  pub is_joined : Bool
  pub is_creator : Bool
  pub my_role : Option ClubMemberRole
  pub conversation_id : Option ℕ

abbrev pub club_topics : List String
club_topics = "骑行" ∷ "户外" ∷ "运动" ∷ "美食" ∷ "玩乐" ∷ "娱乐" ∷ "咖啡" ∷ "徒步" ∷ "摄影" ∷ "羽毛球" ∷ []

abbrev pub topic_images : List (String × String)
topic_images =
    ("骑行", "bicycle")
    ∷ ("户外", "figure.hiking")
    ∷ ("运动", "figure.run")
    ∷ ("美食", "fork.knife")
    ∷ ("玩乐", "bag")
    ∷ ("娱乐", "gamecontroller")
    ∷ ("咖啡", "cup.and.saucer")
    ∷ ("徒步", "figure.hiking")
    ∷ ("摄影", "camera")
    ∷ ("羽毛球", "figure.badminton")
    ∷ []

-- `CLUB_TOPIC_IMAGES.get(topic, "person.3")`
unfoldable pub topic_image : String → List (String × String) → String
topic_image topic [] = "person.3"
topic_image topic ((t, image) ∷ images) = if str_eq t topic then image else topic_image topic images

-- `len(text)`
abbrev pub text_length : String → ℕ
text_length Prim.Native.String.[] = 0
text_length (Prim.Native.String.◌∷◌ c s) = suc (text_length s)

-- `a == b` of two ids of which either may be `None`.
unfoldable pub same_id : Option ℕ → Option ℕ → Bool
same_id none none = true
same_id (some a) (some b) = a == b
same_id none (some _) = false
same_id (some _) none = false

unfoldable pub needs_review : Verdict → Bool
needs_review review = true
needs_review _ = false

unfoldable pub is_blocked : Verdict → Bool
is_blocked block = true
is_blocked _ = false

unfoldable pub visible : Option ℕ → Option Club → Option Club
visible viewer none = none
visible viewer (some c) =
    if is_dissolved_club c.status
    then none
    else if is_hidden c.status && not (same_id c.creator_id viewer)
    then none
    else some c

-- `_get`, with the user for whom a hidden club is shown.
unfoldable pub get_club : Option ℕ → ℕ → Action ClubDb Club
get_club viewer club_id = do
  found ← gets (λ db. lookup club_id db.clubs)
  or_raise (visible viewer found) (app_error club_not_found 404)

unfoldable pub is_member_inside : Option ClubMember → Bool
is_member_inside none = false
is_member_inside (some m) = is_inside m

unfoldable pub brief_of : Club → ℕ → Option ClubMember → ClubBrief
brief_of c viewer m = record {
  club = c;
  is_joined = is_member_inside m;
  is_creator = same_id c.creator_id (some viewer);
  my_role = elim m [ none ↦ none | some row ↦ if is_inside row then some row.role else none ];
  conversation_id = if is_member_inside m then c.conversation_id else none;
}

unfoldable pub club_brief : Club → ℕ → Action ClubDb ClubBrief
unfolding brief_of
club_brief c viewer = gets (λ db. brief_of c viewer (get c.id viewer db.members))

-- `_ensure_conversation`: the chat, where the club has one.
unfoldable pub circle_of : Option ℕ → Table Circle → Option (ℕ × Circle)
circle_of none t = none
circle_of (some v) t = elim (lookup v t) [ none ↦ none | some conv ↦ some (v, conv) ]

unfoldable pub entered : Club → ℕ → Option CircleMember → CircleMember
entered c user_id none = record {
  is_owner = same_id c.creator_id (some user_id);
  status = MemberStatus.member_active;
}
entered c user_id (some m) = record m { status = MemberStatus.member_active }

unfoldable pub one_member_more : Club → Club
one_member_more c = record c {
  member_count = c.member_count + 1;
  weekly_active = c.weekly_active + 1;
}

unfoldable pub is_out : Option ClubMember → Bool
is_out none = false
is_out (some m) = is_kicked m

-- `_drop_conversation_member`
unfoldable pub dropped :
    MemberStatus → ℕ → Option ℕ → PairTable CircleMember → PairTable CircleMember
dropped status user_id none t = t
dropped status user_id (some v) t = elim (get v user_id t) [
  | none ↦ t
  | some m ↦ put v user_id (record m { status = status }) t
]

unfoldable pub one_member_less : Club → Club
one_member_less c = record c { member_count = c.member_count - 1 }

-- The writes by which a member goes, with the status of the club's row and the chat's.
unfoldable pub remove_member :
    Club → ℕ → ClubMember → ClubMemberStatus → MemberStatus → Action ClubDb (Unit {0})
unfolding dropped one_member_less
remove_member c user_id m status chat_status = do
  save_member c.id user_id (record m { status = status })
  save_club (one_member_less c)
  modify (λ db. record db {
    circle_members = dropped chat_status user_id c.conversation_id db.circle_members;
  })

unfoldable pub leave_as : Club → ℕ → Option ClubMember → Action ClubDb ClubBrief
leave_as c user_id none = club_brief c user_id
leave_as c user_id (some m) =
    if is_inside m
    then (raise_if (is_club_owner m && same_id c.creator_id (some user_id))
          (app_error club_forbidden 409)
        >> remove_member c user_id m ClubMemberStatus.left MemberStatus.left
        >> club_brief (one_member_less c) user_id)
    else club_brief c user_id

unfoldable pub leave_club : User → ℕ → Action ClubDb ClubBrief
unfolding leave_as
leave_club user club_id = do
  c ← get_club (some user.id) club_id
  found ← gets (λ db. get c.id user.id db.members)
  leave_as c user.id found

unfoldable pub left_row : ClubMember → ClubMember
left_row m = if is_inside m then record m { status = ClubMemberStatus.left } else m

unfoldable pub close_circle : Option ℕ → Table Circle → Table Circle
close_circle none t = t
close_circle (some v) t = elim (lookup v t) [
  | none ↦ t
  | some conv ↦ insert v (record conv { status = ConversationStatus.dissolved }) t
]

unfoldable pub all_left : Option ℕ → PairTable CircleMember → PairTable CircleMember
all_left none t = t
all_left (some v) t = update_of (λ m. record m { status = MemberStatus.left }) v t

unfoldable pub may_remove : Option ClubMember → Bool
may_remove none = false
may_remove (some m) = is_inside m && is_moderator m

unfoldable pub inside_only : Option ClubMember → Option ClubMember
inside_only none = none
inside_only (some m) = if is_inside m then some m else none

unfoldable pub kick_member : User → ℕ → ℕ → Action ClubDb (Unit {0})
unfolding inside_only
kick_member user club_id target_user_id = do
  c ← get_club (some user.id) club_id
  me ← gets (λ db. get c.id user.id db.members)
  raise_if (not (may_remove me)) (app_error club_forbidden 403)
  found ← gets (λ db. get c.id target_user_id db.members)
  victim ← or_raise (inside_only found) (app_error club_not_found 404)
  raise_if (is_club_owner victim) (app_error club_forbidden 403)
  remove_member c target_user_id victim ClubMemberStatus.kicked MemberStatus.kicked

module _ (env : ClubEnv) where
  unfoldable pub new_circle : Club → ℕ → Circle
  new_circle c user_id = record {
    im_conversation_id = env.open_group (or_else c.creator_id user_id) c.name;
    title = c.name;
    owner_id = c.creator_id;
    related_circle_id = some c.id;
    status = ConversationStatus.active;
  }

  -- The club with its chat, and the id of the chat.
  unfoldable pub open_circle : Club → ℕ → Option (ℕ × Circle) → Action ClubDb (ℕ × Club)
  open_circle c user_id none = do
    id ← gets (λ db. db.next_id)
    modify (λ db. record db {
      circles = insert id (new_circle c user_id) db.circles;
      next_id = db.next_id + 1;
    })
    save_club (record c { conversation_id = some id })
    pure (id, record c { conversation_id = some id })
  open_circle c user_id (some (v, conv)) = do
    modify (λ db. record db {
      circles =
          if is_active_conversation conv.status
          then db.circles
          else insert v (record conv { status = ConversationStatus.active }) db.circles;
    })
    pure (v, c)

  unfoldable pub ensure_conversation : Club → ℕ → Action ClubDb Club
  unfolding open_circle circle_of
  ensure_conversation c user_id = do
    found ← gets (λ db. circle_of c.conversation_id db.circles)
    chat ← open_circle c user_id found
    existing ← gets (λ db. get chat.0 user_id db.circle_members)
    save_circle_member chat.0 user_id (entered chat.1 user_id existing)
    pure chat.1

  unfoldable pub joined_member : Option ClubMember → ClubMember
  joined_member _ = record {
    role = ClubMemberRole.member;
    status = ClubMemberStatus.active;
    joined_at = env.now;
    last_active_at = env.now;
  }

  unfoldable pub is_refused : Club → ℕ → Bool
  is_refused c user_id = elim c.creator_id [
    | none ↦ false
    | some owner ↦ env.is_blocked_either user_id owner
  ]

  unfoldable pub enter_club : Club → ℕ → Option ClubMember → Action ClubDb ClubBrief
  unfolding joined_member one_member_more
  enter_club c user_id found = do
    save_member c.id user_id (joined_member found)
    save_club (one_member_more c)
    c' ← ensure_conversation (one_member_more c) user_id
    club_brief c' user_id

  unfoldable pub join_club : User → ℕ → Action ClubDb ClubBrief
  unfolding enter_club
  join_club user club_id = do
    c ← get_club none club_id
    raise_if (is_banned user.status) (app_error user_limited 403)
    found ← gets (λ db. get c.id user.id db.members)
    if is_member_inside found
        then club_brief c user.id
        else (raise_if (is_out found) (app_error club_forbidden 403)
            >> raise_if (is_refused c user.id) (app_error club_forbidden 403)
            >> enter_club c user.id found)

  unfoldable pub dissolved_club : Club → Club
  dissolved_club c = record c {
    status = ClubStatus.dissolved;
    dissolved_at = some env.now;
    member_count = 0;
  }

  -- `_dissolve`
  unfoldable pub dissolve_writes : Club → Action ClubDb Club
  unfolding left_row close_circle all_left dissolved_club
  dissolve_writes c = do
    modify (λ db. record db {
      members = update_of left_row c.id db.members;
      circles = close_circle c.conversation_id db.circles;
      circle_members = all_left c.conversation_id db.circle_members;
    })
    save_club (dissolved_club c)
    pure (dissolved_club c)

  unfoldable pub dissolve_club : User → ℕ → Action ClubDb (Unit {0})
  dissolve_club user club_id = do
    c ← get_club (some user.id) club_id
    raise_if (c.is_official || not (same_id c.creator_id (some user.id)))
        (app_error club_forbidden 403)
    dissolve_writes c >> pure tt

  unfoldable pub club_chat : User → ℕ → Action ClubDb Club
  club_chat user club_id = do
    c ← get_club (some user.id) club_id
    me ← gets (λ db. get c.id user.id db.members)
    raise_if (not (is_member_inside me)) (app_error club_forbidden 403)
    ensure_conversation c user.id
