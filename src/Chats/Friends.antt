-- ===== src/Chats/Friends.antt =====
-- `update_friend`, `delete_friend`, `send_friend_request`, `respond_friend_request` and `_create_friendship` of
-- `MessagingService`. The addressee of a request is already found by its id, UID or phone number.
use dating_backend.Prelude.{
  ℕ, String, Bool, true, false, Option, none, some, ◌&&◌, not, ◌==◌, if◌then◌else◌,
}
use text.Mathlib.Text.{◌==◌ as str_eq}
use dating_backend.Shared.Errors.{
  app_error, user_not_found, friend_invalid, friend_already, friend_not_found, chat_forbidden,
}
use dating_backend.Shared.Action.{Action, pure, gets, modify, or_raise, raise_if, ◌>>=◌, ◌>>◌}
use dating_backend.Shared.Table.{lookup, insert, rows, one_or_none}
use dating_backend.Shared.Pairs.{PairTable, get, put}
use dating_backend.Shared.Users.{is_blocked_either}
use dating_backend.Events.{DomainEventName}
use dating_backend.Chats.Data.{
  ChatsDb, ChatsEnv, Friendship, FriendshipStatus, FriendRequest, FriendRequestStatus, next_row,
  tell,
}
use dating_backend.Chats.Opening.{are_friends, is_friend_row, open_direct}

unfoldable pub befriended : Option Friendship → Friendship
befriended none = record { remark = none; group_name = none; status = FriendshipStatus.active }
befriended (some f) = record f { status = FriendshipStatus.active }

-- `_create_friendship`: the rows both ways.
unfoldable pub create_friendship : ℕ → ℕ → PairTable Friendship → PairTable Friendship
unfolding befriended
create_friendship a b t =
    let t' = put a b (befriended (get a b t)) t in put b a (befriended (get b a t')) t'

unfoldable pub unfriended_row :
    ℕ → ℕ → Option Friendship → PairTable Friendship → PairTable Friendship
unfriended_row a b none t = t
unfriended_row a b (some f) t = put a b (record f { status = FriendshipStatus.deleted }) t

unfoldable pub unfriended : ℕ → ℕ → PairTable Friendship → PairTable Friendship
unfolding unfriended_row
unfriended a b t = unfriended_row a b (get a b t) t

unfoldable pub delete_friend : ℕ → ℕ → Action ChatsDb (Unit {0})
delete_friend user_id friend_id = modify (λ db. record db {
  friendships = unfriended friend_id user_id (unfriended user_id friend_id db.friendships);
})

unfoldable pub active_friend : Option Friendship → Option Friendship
active_friend none = none
active_friend (some f) = if is_friend_row f then some f else none

unfoldable pub or_null : Option String → Option String → Option String
or_null none old = old
or_null (some s) old = if str_eq s "" then none else some s

unfoldable pub update_friend : ℕ → ℕ → Option String → Option String → Action ChatsDb Friendship
unfolding active_friend or_null
update_friend user_id friend_id remark group_name = do
  found ← gets (λ db. active_friend (get user_id friend_id db.friendships))
  f ← or_raise found (app_error friend_not_found 404)
  modify (λ db. record db {
    friendships =
        put user_id friend_id
          (record f {
            remark = or_null remark f.remark;
            group_name = or_null group_name f.group_name;
          })
          db.friendships;
  })
  pure (record f { remark = or_null remark f.remark; group_name = or_null group_name f.group_name })

unfoldable pub is_pending_request : FriendRequest → Bool
is_pending_request r = elim r.status [ FriendRequestStatus.pending ↦ true | _ ↦ false ]

unfoldable pub is_pending_of : ℕ → ℕ → FriendRequest → Bool
is_pending_of from to r = (r.from_user_id == from && r.to_user_id == to) && is_pending_request r

unfoldable pub request_to : ℕ → Option FriendRequest → Option FriendRequest
request_to user_id none = none
request_to user_id (some r) = if r.to_user_id == user_id then some r else none

unfoldable pub new_request : ℕ → ℕ → ℕ → String → String → FriendRequest
new_request id user_id to message source = record {
  id = id;
  from_user_id = user_id;
  to_user_id = to;
  message = message;
  source = if str_eq source "" then "uid" else source;
  status = FriendRequestStatus.pending;
  responded_at = none;
}

module _ (env : ChatsEnv) where
  unfoldable pub request_or_new :
      ℕ → ℕ → String → String → Option FriendRequest → Action ChatsDb FriendRequest
  unfolding new_request
  request_or_new user_id to message source (some hit) = pure hit
  request_or_new user_id to message source none = do
    id ← next_row
    modify (λ db. record db {
      friend_requests = insert id (new_request id user_id to message source) db.friend_requests;
    })
    tell env.now DomainEventName.friend_request_sent "friend_request" id
    pure (new_request id user_id to message source)

  unfoldable pub send_friend_request : ℕ → Option ℕ → String → String → Action ChatsDb FriendRequest
  send_friend_request user_id addressee message source = do
    to ← or_raise addressee (app_error user_not_found 404)
    raise_if (to == user_id) (app_error friend_invalid 400)
    friends ← gets (λ db. are_friends user_id to db.friendships)
    raise_if friends (app_error friend_already 409)
    blocked ← gets (λ db. is_blocked_either user_id to db.blocks)
    raise_if blocked (app_error chat_forbidden 403)
    pending ← gets (λ db. rows (is_pending_of user_id to) db.friend_requests)
    hit ← one_or_none pending
    request_or_new user_id to message source hit

  unfoldable pub answer : FriendRequest → FriendRequestStatus → Action ChatsDb (Unit {0})
  answer r status = modify (λ db. record db {
    friend_requests =
        insert r.id (record r { responded_at = some env.now; status = status }) db.friend_requests;
  })

  unfoldable pub accept_request : ℕ → FriendRequest → Action ChatsDb (Unit {0})
  unfolding answer
  accept_request user_id r = do
    answer r FriendRequestStatus.accepted
    modify (λ db. record db {
      friendships = create_friendship r.from_user_id r.to_user_id db.friendships;
    })
    open_direct env user_id r.from_user_id "我们已成为好友"
    pure tt

  unfoldable pub respond_friend_request : ℕ → ℕ → Bool → Action ChatsDb (Unit {0})
  unfolding answer
  respond_friend_request user_id request_id accept = do
    found ← gets (λ db. request_to user_id (lookup request_id db.friend_requests))
    r ← or_raise found (app_error friend_not_found 404)
    raise_if (not (is_pending_request r)) (app_error friend_invalid 409)
    if accept then accept_request user_id r else answer r FriendRequestStatus.declined
