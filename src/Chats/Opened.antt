-- ===== src/Chats/Opened.antt =====
-- What the handlers of app/modules/messaging/service.py on direct chats, activity groups and friends keep of the
-- owners of conversations.
use dating_backend.Prelude.{
  ℕ, ◌≡◌, refl, Bool, true, false, not, Option, none, some, List, [], ◌∷◌, String,
}
use dating_backend.Shared.Errors.{app_error, chat_not_found, chat_invalid}
use dating_backend.Shared.Action.{modify}
use dating_backend.Shared.Action.Keeps.{
  Keeps, Yields-guard, Yields-or_raise, Keeps-pure, keeps_rules,
}
use dating_backend.Shared.Table.{Table, lookup, one_or_none}
use dating_backend.Shared.Pairs.{PairTable}
use dating_backend.Chats.Data.{
  Chat, ChatsDb, ChatsEnv, FriendRequest, FriendRequestStatus, Friendship, MessageRequest,
}
use dating_backend.Chats.Opening.{
  new_direct, ask_first, start_direct, direct_or_new, open_direct, new_activity_chat, activity_chat,
  ensure_activity_group, answered, addressed_request, is_open_request, respond_message_request,
}
use dating_backend.Chats.Friends.{
  delete_friend, update_friend, request_or_new, send_friend_request, answer, accept_request,
  respond_friend_request,
}
use dating_backend.Chats.Owned.{HasOwners, chat_written}
use dating_backend.Chats.Keeping.{add_member-Keeps, open_chat-Keeps, next_row-Keeps, tell-Keeps}

one_row-Keeps : {A : Type 0} (rows : List A) → Keeps HasOwners (one_or_none rows)
one_row-Keeps [] = search keeps_rules
one_row-Keeps (a ∷ []) = search keeps_rules
one_row-Keeps (a ∷ b ∷ l) = search keeps_rules

-- Writes to what no owner depends on.
friendships-Keeps :
    (f : ChatsDb → PairTable Friendship)
    → Keeps HasOwners (modify (λ db. record db { friendships = f db }))
friendships-Keeps f = record { at = λ db h. record { chats_owned = h.chats_owned } }

friend_requests-Keeps :
    (f : ChatsDb → Table FriendRequest)
    → Keeps HasOwners (modify (λ db. record db { friend_requests = f db }))
friend_requests-Keeps f = record { at = λ db h. record { chats_owned = h.chats_owned } }

message_requests-Keeps :
    (f : ChatsDb → Table MessageRequest)
    → Keeps HasOwners (modify (λ db. record db { message_requests = f db }))
message_requests-Keeps f = record { at = λ db h. record { chats_owned = h.chats_owned } }

ask_first-Keeps :
    (asks : Bool) (id user_id peer_id : ℕ) (preview : String)
    → Keeps HasOwners (ask_first asks id user_id peer_id preview)
unfolding ask_first
ask_first-Keeps false id user_id peer_id preview = Keeps-pure tt
ask_first-Keeps true id user_id peer_id preview =
    search (keeps_rules, next_row-Keeps, message_requests-Keeps)

module _ (env : ChatsEnv) where
  start_direct-Keeps :
      (user_id peer_id : ℕ) (preview : String)
      → Keeps HasOwners (start_direct env user_id peer_id preview)
  unfolding start_direct new_direct
  start_direct-Keeps user_id peer_id preview =
      search
        (
          keeps_rules, next_row-Keeps, open_chat-Keeps, add_member-Keeps, ask_first-Keeps,
          tell-Keeps,
        )
        depth 16

  direct_or_new-Keeps :
      (user_id peer_id : ℕ) (preview : String) (found : Option (ℕ × Chat))
      → Keeps HasOwners (direct_or_new env user_id peer_id preview found)
  unfolding direct_or_new
  direct_or_new-Keeps user_id peer_id preview none = start_direct-Keeps user_id peer_id preview
  direct_or_new-Keeps user_id peer_id preview (some r) = Keeps-pure r.0

  pub open_direct-Keeps :
      (user_id peer_id : ℕ) (preview : String)
      → Keeps HasOwners (open_direct env user_id peer_id preview)
  unfolding open_direct
  open_direct-Keeps user_id peer_id preview = search (keeps_rules, direct_or_new-Keeps) depth 16

  activity_chat-Keeps :
      (activity_id host_id : ℕ) (title : String) (found : Option (ℕ × Chat))
      → Keeps HasOwners (activity_chat env activity_id host_id title found)
  unfolding activity_chat new_activity_chat
  activity_chat-Keeps activity_id host_id title (some r) = Keeps-pure r.0
  activity_chat-Keeps activity_id host_id title none =
      search (keeps_rules, next_row-Keeps, open_chat-Keeps) depth 12

  pub activity_group-Keeps :
      (activity_id host_id : ℕ) (title : String) (user_id : ℕ)
      → Keeps HasOwners (ensure_activity_group env activity_id host_id title user_id)
  unfolding ensure_activity_group
  activity_group-Keeps activity_id host_id title user_id =
      search (keeps_rules, one_row-Keeps, activity_chat-Keeps, add_member-Keeps) depth 12

  answered-HasOwners :
      (db : ChatsDb) (id : ℕ) (accept : Bool) (found : Option Chat)
      → lookup id db.chats ≡ found
      → HasOwners db
      → HasOwners (record db { chats = answered id accept found db.chats })
  unfolding answered
  answered-HasOwners db id accept none e h = h
  answered-HasOwners db id accept (some c) e h = record {
    chats_owned = chat_written db.chats db.members h.chats_owned id c _ e refl refl refl;
  }

  pub respond_message-Keeps :
      (user_id request_id : ℕ) (accept : Bool)
      → Keeps HasOwners (respond_message_request env user_id request_id accept)
  unfolding respond_message_request
  respond_message-Keeps user_id request_id accept = record {
    at = λ db h.
        Yields-or_raise (λ _. HasOwners)
          (addressed_request user_id (lookup request_id db.message_requests))
          (app_error chat_not_found 404) _ db
          λ r _.
            Yields-guard (λ _. HasOwners) (not (is_open_request r)) (app_error chat_invalid 409) _
              db
              λ _. record {
                chats_owned =
                    (answered-HasOwners db r.conversation_id accept
                      (lookup r.conversation_id db.chats) refl h).chats_owned;
              };
  }

  request_or_new-Keeps :
      (user_id to : ℕ) (message source : String) (found : Option FriendRequest)
      → Keeps HasOwners (request_or_new env user_id to message source found)
  unfolding request_or_new
  request_or_new-Keeps user_id to message source (some hit) = Keeps-pure hit
  request_or_new-Keeps user_id to message source none =
      search (keeps_rules, next_row-Keeps, friend_requests-Keeps, tell-Keeps) depth 12

  pub friend_request-Keeps :
      (user_id : ℕ) (addressee : Option ℕ) (message source : String)
      → Keeps HasOwners (send_friend_request env user_id addressee message source)
  unfolding send_friend_request
  friend_request-Keeps user_id addressee message source =
      search (keeps_rules, one_row-Keeps, request_or_new-Keeps) depth 18

  answer-Keeps :
      (r : FriendRequest) (status : FriendRequestStatus) → Keeps HasOwners (answer env r status)
  unfolding answer
  answer-Keeps r status = record { at = λ db h. record { chats_owned = h.chats_owned } }

  accept-Keeps : (user_id : ℕ) (r : FriendRequest) → Keeps HasOwners (accept_request env user_id r)
  unfolding accept_request
  accept-Keeps user_id r =
      search (keeps_rules, answer-Keeps, friendships-Keeps, open_direct-Keeps) depth 12

  pub respond_friend-Keeps :
      (user_id request_id : ℕ) (accept : Bool)
      → Keeps HasOwners (respond_friend_request env user_id request_id accept)
  unfolding respond_friend_request
  respond_friend-Keeps user_id request_id accept =
      search (keeps_rules, answer-Keeps, accept-Keeps) depth 12

pub delete_friend-Keeps :
    (user_id friend_id : ℕ) → Keeps HasOwners (delete_friend user_id friend_id)
unfolding delete_friend
delete_friend-Keeps user_id friend_id = record {
  at = λ db h. record { chats_owned = h.chats_owned };
}

pub update_friend-Keeps :
    (user_id friend_id : ℕ) (remark group_name : Option String)
    → Keeps HasOwners (update_friend user_id friend_id remark group_name)
unfolding update_friend
update_friend-Keeps user_id friend_id remark group_name =
    search (keeps_rules, friendships-Keeps) depth 12
