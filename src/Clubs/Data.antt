-- ===== src/Clubs/Data.antt =====
-- The clubs of app/models/orgs.py, and the chats of clubs of app/models/entities.py. Members of a club and
-- of a chat are found by the pairs that `uq_club_member` and `uq_conversation_member` keep unique.
use dating_backend.Prelude.{ℕ, String, Bool, true, false, Option, List}
use dating_backend.Shared.Action.{Action, modify}
use dating_backend.Shared.Table.{Table, insert}
use dating_backend.Shared.Pairs.{PairTable, put}
use dating_backend.Messaging.Transfers.{ConversationStatus, MemberStatus}

pub data ClubStatus : Type 0 where
  active hidden dissolved : ClubStatus

pub data ClubMemberRole : Type 0 where
  owner admin member : ClubMemberRole

pub data ClubMemberStatus : Type 0 where
  active left kicked : ClubMemberStatus

pub record Club : Type 0 where
  pub id : ℕ
  pub name : String
  pub topic : String
  pub city : String
  pub summary : String
  pub tags : List String
  pub system_image : String
  pub creator_id : Option ℕ
  pub is_official : Bool
  pub status : ClubStatus
  pub member_count : ℕ
  pub weekly_active : ℕ
  pub conversation_id : Option ℕ
  pub admin_note : Option String
  pub dissolved_at : Option ℕ

pub record ClubMember : Type 0 where
  pub role : ClubMemberRole
  pub status : ClubMemberStatus
  pub joined_at : ℕ
  pub last_active_at : ℕ

-- The chat of a club: a `Conversation` of the kind CIRCLE.
pub record Circle : Type 0 where
  pub im_conversation_id : String
  pub title : String
  pub owner_id : Option ℕ
  pub related_circle_id : Option ℕ
  pub status : ConversationStatus

-- A `ConversationMember`; whether it is the owner is its role.
pub record CircleMember : Type 0 where
  pub is_owner : Bool
  pub status : MemberStatus

-- A row of `moderation_tasks`: the club that waits for a review.
pub record ClubReview : Type 0 where
  pub club_id : ℕ
  pub machine_label : String

pub record ClubDb : Type 0 where
  pub clubs : Table Club
  pub members : PairTable ClubMember
  pub circles : Table Circle
  pub circle_members : PairTable CircleMember
  pub reviews : List ClubReview
  pub next_id : ℕ

unfoldable pub is_dissolved_club : ClubStatus → Bool
is_dissolved_club dissolved = true
is_dissolved_club _ = false

unfoldable pub is_hidden : ClubStatus → Bool
is_hidden hidden = true
is_hidden _ = false

-- A member's row: `status == ACTIVE`, `status == KICKED`, `role == OWNER`.
unfoldable pub is_inside : ClubMember → Bool
is_inside m = elim m.status [ ClubMemberStatus.active ↦ true | _ ↦ false ]

unfoldable pub is_kicked : ClubMember → Bool
is_kicked m = elim m.status [ ClubMemberStatus.kicked ↦ true | _ ↦ false ]

unfoldable pub is_club_owner : ClubMember → Bool
is_club_owner m = elim m.role [ ClubMemberRole.owner ↦ true | _ ↦ false ]

unfoldable pub is_moderator : ClubMember → Bool
is_moderator m = elim m.role [ ClubMemberRole.member ↦ false | _ ↦ true ]

unfoldable pub is_in_circle : CircleMember → Bool
is_in_circle m = elim m.status [ MemberStatus.member_active ↦ true | _ ↦ false ]

unfoldable pub save_club : Club → Action ClubDb (Unit {0})
save_club c = modify (λ db. record db { clubs = insert c.id c db.clubs })

unfoldable pub save_member : ℕ → ℕ → ClubMember → Action ClubDb (Unit {0})
save_member club_id user_id m =
    modify (λ db. record db { members = put club_id user_id m db.members })

unfoldable pub save_circle_member : ℕ → ℕ → CircleMember → Action ClubDb (Unit {0})
save_circle_member conv_id user_id m =
    modify (λ db. record db { circle_members = put conv_id user_id m db.circle_members })
