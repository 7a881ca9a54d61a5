-- ===== src/Chats/Data.antt =====
-- Conversations, their members, friendships and the requests for them, of app/models/entities.py. Members and
-- friendships are found by the pairs that their unique constraints keep.
use dating_backend.Prelude.{ℕ, String, Bool, true, false, Option, none, ◌+◌}
use dating_backend.Shared.Action.{Action, modify, on_part, ok}
use dating_backend.Shared.Table.{Table, insert}
use dating_backend.Shared.Pairs.{PairTable, put}
use dating_backend.Shared.Users.{User}
use dating_backend.Events.{Outbox, DomainEvent, DomainEventName, enqueue}
use dating_backend.Messaging.Transfers.{ConversationStatus, MemberStatus}

pub data ConversationKind : Type 0 where
  direct group activity circle notice : ConversationKind

pub data MemberRole : Type 0 where
  owner admin member : MemberRole

pub data FriendshipStatus : Type 0 where
  active deleted : FriendshipStatus

pub data FriendRequestStatus : Type 0 where
  pending accepted declined expired : FriendRequestStatus

pub data MessageRequestStatus : Type 0 where
  pending accepted rejected : MessageRequestStatus

-- `is_message_request` is the entry of that name in `meta`.
pub record Chat : Type 0 where
  pub kind : ConversationKind
  pub im_conversation_id : String
  pub title : String
  pub owner_id : Option ℕ
  pub related_activity_id : Option ℕ
  pub related_circle_id : Option ℕ
  pub announcement : Option String
  pub last_message_preview : String
  pub last_message_at : Option ℕ
  pub status : ConversationStatus
  pub is_message_request : Bool

pub record ChatMember : Type 0 where
  pub role : MemberRole
  pub alias : Option String
  pub muted : Bool
  pub pinned : Bool
  pub unread_count : ℕ
  pub last_read_at : Option ℕ
  pub cleared_at : Option ℕ
  pub status : MemberStatus
  pub joined_at : ℕ

pub record Friendship : Type 0 where
  pub remark : Option String
  pub group_name : Option String
  pub status : FriendshipStatus

pub record FriendRequest : Type 0 where
  pub id : ℕ
  pub from_user_id : ℕ
  pub to_user_id : ℕ
  pub message : String
  pub source : String
  pub status : FriendRequestStatus
  pub responded_at : Option ℕ

pub record MessageRequest : Type 0 where
  pub id : ℕ
  pub conversation_id : ℕ
  pub from_user_id : ℕ
  pub to_user_id : ℕ
  pub preview_text : String
  pub source : String
  pub status : MessageRequestStatus
  pub responded_at : Option ℕ

pub record ChatsDb : Type 0 where
  pub users : Table User
  pub blocks : PairTable (Unit {0})
  pub chats : Table Chat
  pub members : PairTable ChatMember
  pub friendships : PairTable Friendship
  pub friend_requests : Table FriendRequest
  pub message_requests : Table MessageRequest
  pub outbox : Outbox
  pub next_id : ℕ

-- The clock, the ids that the chat provider gives to a new group of an owner and to a direct conversation, and names.
pub record ChatsEnv : Type 0 where
  pub now : ℕ
  pub open_group : ℕ → String → String
  pub open_direct : ℕ → ℕ → String
  pub display_name : ℕ → String

unfoldable pub is_active_row : ChatMember → Bool
is_active_row m = elim m.status [ MemberStatus.member_active ↦ true | _ ↦ false ]

unfoldable pub is_owner : MemberRole → Bool
is_owner owner = true
is_owner _ = false

unfoldable pub is_admin : MemberRole → Bool
is_admin admin = true
is_admin _ = false

unfoldable pub is_direct : ConversationKind → Bool
is_direct direct = true
is_direct _ = false

unfoldable pub is_group : ConversationKind → Bool
is_group group = true
is_group _ = false

unfoldable pub is_activity : ConversationKind → Bool
is_activity activity = true
is_activity _ = false

unfoldable pub is_circle : ConversationKind → Bool
is_circle circle = true
is_circle _ = false

unfoldable pub save_chat : ℕ → Chat → Action ChatsDb (Unit {0})
save_chat id c = modify (λ db. record db { chats = insert id c db.chats })

unfoldable pub save_chat_member : ℕ → ℕ → ChatMember → Action ChatsDb (Unit {0})
save_chat_member id user_id m = modify (λ db. record db { members = put id user_id m db.members })

unfoldable pub next_row : Action ChatsDb ℕ
next_row db = ok (db.next_id, record db { next_id = db.next_id + 1 })

unfoldable pub tell : ℕ → DomainEventName → String → ℕ → Action ChatsDb DomainEvent
tell now name kind id =
    on_part (λ db. db.outbox) (λ o db. record db { outbox = o }) (enqueue now name kind id none)
