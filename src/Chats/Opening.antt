-- ===== src/Chats/Opening.antt =====
-- `open_direct`, `_find_direct`, `_are_friends`, `ensure_activity_group` and `respond_message_request` of
-- `MessagingService`.
use dating_backend.Prelude.{
  ℕ, String, Bool, true, false, Option, none, some, ◌&&◌, not, ◌==◌, if◌then◌else◌, find, filter,
  is_some,
}
use text.Mathlib.Text.{◌==◌ as str_eq}
use Prim.Native.String.{◌++◌}
use dating_backend.Shared.Errors.{
  app_error, chat_not_found, chat_forbidden, chat_invalid, user_not_found,
}
use dating_backend.Shared.Action.{Action, pure, gets, modify, or_raise, raise_if, ◌>>=◌, ◌>>◌}
use dating_backend.Shared.Table.{Table, lookup, insert, one_or_none}
use dating_backend.Shared.Pairs.{PairTable, get}
use dating_backend.Shared.Users.{is_blocked_either}
use dating_backend.Events.{DomainEventName}
use dating_backend.Messaging.Transfers.{ConversationStatus, is_active_conversation}
use dating_backend.Chats.Data.{
  Chat, ChatMember, ChatsDb, ChatsEnv, ConversationKind, MemberRole, Friendship, FriendshipStatus,
  MessageRequest, MessageRequestStatus, is_direct, is_activity, next_row, tell,
}
use dating_backend.Chats.Members.{active_row, add_member, open_chat}

unfoldable pub is_friend_row : Friendship → Bool
is_friend_row f = elim f.status [
  | FriendshipStatus.active ↦ true
  | FriendshipStatus.deleted ↦ false
]

unfoldable pub is_friend : Option Friendship → Bool
is_friend none = false
is_friend (some f) = is_friend_row f

-- `_are_friends`
unfoldable pub are_friends : ℕ → ℕ → PairTable Friendship → Bool
unfolding is_friend
are_friends a b t = is_friend (get a b t)

-- Whether this is the conversation of the two alone.
unfoldable pub is_direct_of : ℕ → ℕ → PairTable ChatMember → ℕ × Chat → Bool
is_direct_of a b members r =
    (is_direct r.1.kind && is_active_conversation r.1.status)
    && (is_some (active_row (get r.0 a members)) && is_some (active_row (get r.0 b members)))

-- `_find_direct`
unfoldable pub find_direct : ℕ → ℕ → ChatsDb → Option (ℕ × Chat)
find_direct a b db = find (is_direct_of a b db.members) db.chats

unfoldable pub is_activity_chat : ℕ → ℕ × Chat → Bool
is_activity_chat activity_id r =
    (is_activity r.1.kind && is_active_conversation r.1.status)
    && (elim r.1.related_activity_id [ none ↦ false | some a ↦ a == activity_id ])

-- The request that goes with a conversation of users who are no friends.
unfoldable pub ask_first : Bool → ℕ → ℕ → ℕ → String → Action ChatsDb (Unit {0})
ask_first false id user_id peer_id preview = pure tt
ask_first true id user_id peer_id preview = do
  request_id ← next_row
  modify (λ db. record db {
    message_requests =
        insert request_id
          (record {
            id = request_id;
            conversation_id = id;
            from_user_id = user_id;
            to_user_id = peer_id;
            preview_text = if str_eq preview "" then "你好" else preview;
            source = "direct_message";
            status = MessageRequestStatus.pending;
            responded_at = none;
          })
          db.message_requests;
  })

unfoldable pub addressed_request : ℕ → Option MessageRequest → Option MessageRequest
addressed_request user_id none = none
addressed_request user_id (some r) = if r.to_user_id == user_id then some r else none

unfoldable pub is_open_request : MessageRequest → Bool
is_open_request r = elim r.status [ MessageRequestStatus.pending ↦ true | _ ↦ false ]

unfoldable pub answered : ℕ → Bool → Option Chat → Table Chat → Table Chat
answered id accept none t = t
answered id accept (some c) t = insert id (record c { is_message_request = not accept }) t

module _ (env : ChatsEnv) where
  unfoldable pub new_direct : ℕ → ℕ → String → Bool → Chat
  new_direct user_id peer_id preview asks = record {
    kind = ConversationKind.direct;
    im_conversation_id = env.open_direct user_id peer_id;
    title = env.display_name peer_id;
    owner_id = some user_id;
    related_activity_id = none;
    related_circle_id = none;
    announcement = none;
    last_message_preview = preview;
    last_message_at = if str_eq preview "" then none else some env.now;
    status = ConversationStatus.active;
    is_message_request = asks;
  }

  unfoldable pub start_direct : ℕ → ℕ → String → Action ChatsDb ℕ
  unfolding new_direct ask_first
  start_direct user_id peer_id preview = do
    id ← next_row
    friends ← gets (λ db. are_friends user_id peer_id db.friendships)
    open_chat env.now id (new_direct user_id peer_id preview (not friends)) user_id
    add_member env.now id peer_id MemberRole.member
    ask_first (not friends) id user_id peer_id preview
    tell env.now DomainEventName.conversation_created "conversation" id
    pure id

  unfoldable pub direct_or_new : ℕ → ℕ → String → Option (ℕ × Chat) → Action ChatsDb ℕ
  direct_or_new user_id peer_id preview none = start_direct user_id peer_id preview
  direct_or_new user_id peer_id preview (some r) = pure r.0

  unfoldable pub open_direct : ℕ → ℕ → String → Action ChatsDb ℕ
  open_direct user_id peer_id preview = do
    raise_if (peer_id == user_id) (app_error chat_invalid 400)
    peer ← gets (λ db. lookup peer_id db.users)
    or_raise peer (app_error user_not_found 404)
    blocked ← gets (λ db. is_blocked_either user_id peer_id db.blocks)
    raise_if blocked (app_error chat_forbidden 403)
    existing ← gets (find_direct user_id peer_id)
    direct_or_new user_id peer_id preview existing

  unfoldable pub new_activity_chat : ℕ → ℕ → String → Chat
  new_activity_chat activity_id host_id title = record {
    kind = ConversationKind.activity;
    im_conversation_id = env.open_group host_id title;
    title = title ++ " · 活动群";
    owner_id = some host_id;
    related_activity_id = some activity_id;
    related_circle_id = none;
    announcement = none;
    last_message_preview = "";
    last_message_at = none;
    status = ConversationStatus.active;
    is_message_request = false;
  }

  unfoldable pub activity_chat : ℕ → ℕ → String → Option (ℕ × Chat) → Action ChatsDb ℕ
  unfolding new_activity_chat
  activity_chat activity_id host_id title (some r) = pure r.0
  activity_chat activity_id host_id title none = do
    id ← next_row
    open_chat env.now id (new_activity_chat activity_id host_id title) host_id
    pure id

  unfoldable pub ensure_activity_group : ℕ → ℕ → String → ℕ → Action ChatsDb ℕ
  unfolding is_activity_chat
  ensure_activity_group activity_id host_id title user_id = do
    rows ← gets (λ db. filter (is_activity_chat activity_id) db.chats)
    found ← one_or_none rows
    id ← activity_chat activity_id host_id title found
    add_member env.now id user_id MemberRole.member
    pure id

  unfoldable pub respond_message_request : ℕ → ℕ → Bool → Action ChatsDb (Unit {0})
  unfolding answered
  respond_message_request user_id request_id accept = do
    found ← gets (λ db. addressed_request user_id (lookup request_id db.message_requests))
    r ← or_raise found (app_error chat_not_found 404)
    raise_if (not (is_open_request r)) (app_error chat_invalid 409)
    modify (λ db. record db {
      message_requests =
          insert request_id
            (record r {
              responded_at = some env.now;
              status =
                  if accept then MessageRequestStatus.accepted else MessageRequestStatus.rejected;
            })
            db.message_requests;
      chats = answered r.conversation_id accept (lookup r.conversation_id db.chats) db.chats;
    })
