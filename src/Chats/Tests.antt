-- ===== src/Chats/Tests.antt =====
-- Concrete chats, on which the theorems apply.
use dating_backend.Prelude.{ℕ, ◌≡◌, refl, true, none, some, List, [], ◌∷◌, Option}
use dating_backend.Shared.Users.{User, UserStatus}
use dating_backend.Shared.Table.{lookup}
use dating_backend.Shared.Pairs.{get, put}
use dating_backend.Chats.Data.{
  Chat, ChatsDb, ChatsEnv, is_active_row, is_owner, is_admin, is_direct, is_activity, is_circle,
  save_chat, save_chat_member, next_row, tell,
}
use dating_backend.Shared.Action.{committed}
use dating_backend.Shared.Table.{insert, rows}
use dating_backend.Shared.Users.{is_blocked_either}
use dating_backend.Events.{enqueue}
use dating_backend.Messaging.Transfers.{is_dissolved, is_active_conversation}
use dating_backend.Chats.Opening.{
  are_friends, is_friend, is_friend_row, is_direct_of, find_direct, ask_first, new_direct,
  start_direct, direct_or_new, open_direct,
}
use dating_backend.Chats.Members.{
  live_chat, active_row, active_member, chat_of_member, new_member, added_member, add_member,
  open_chat, add_all, other_ids, create_group, earliest, remains_in, heir_of, hand_over,
  reassign_owner_or_dissolve, leave_chat, club_of, leave_or_hand_on, hosts, leave_or_kick,
}
use dating_backend.Chats.Friends.{
  befriended, create_friendship, is_pending_request, is_pending_of, request_to, new_request,
  request_or_new, send_friend_request, answer, accept_request, respond_friend_request,
}
use dating_backend.Chats.Requests.{
  ChatRequest, new_group, leave_or_put_out, befriend, answer_friend, serve_chat, serve_chats,
}
use dating_backend.Chats.Company.{HasMutualFriends}
use dating_backend.Chats.Friendly.{serve_chats-HasMutualFriends}

abbrev env : ChatsEnv
env = record {
  now = 100;
  open_group = λ _ title. title;
  open_direct = λ _ _. "im";
  display_name = λ _. "someone";
}

abbrev someone : ℕ → User
someone id = record {
  id = id;
  status = UserStatus.active;
  discoverable = true;
  profile_completed = true;
  created_at = 0;
}

abbrev quiet : ChatsDb
quiet = record {
  users = (1, someone 1) ∷ (2, someone 2) ∷ (3, someone 3) ∷ [];
  blocks = [];
  chats = [];
  members = [];
  friendships = [];
  friend_requests = [];
  message_requests = [];
  outbox = record { events = []; next_id = 0 };
  next_id = 10;
}

-- One founds a group with two others and leaves it; two become friends.
abbrev busy : List (ChatsEnv × ℕ × ChatRequest)
busy =
    (env, 1, new_group "hiking" (2 ∷ 3 ∷ []))
    ∷ (env, 1, leave_or_put_out 10 1)
    ∷ (env, 2, befriend (some 3) "hi" "")
    ∷ (env, 3, answer_friend 11 true)
    ∷ []

quiet-HasMutualFriends : HasMutualFriends quiet
unfolding are_friends is_friend get
quiet-HasMutualFriends = record { friends = record { both_ways = λ a b. refl } }

serve_chats-HasMutualFriends_example : HasMutualFriends (serve_chats busy quiet)
serve_chats-HasMutualFriends_example =
    serve_chats-HasMutualFriends busy quiet quiet-HasMutualFriends

owner_of_chat : Option Chat → Option ℕ
owner_of_chat none = none
owner_of_chat (some c) = c.owner_id

-- The group is handed to the first of the others, and the two are friends, in a chat of their own.
heir_takes_over : owner_of_chat (lookup 10 (serve_chats busy quiet).chats) ≡ some 2
unfolding owner_of_chat serve_chats serve_chat committed lookup insert rows get put are_friends
    is_friend is_friend_row live_chat active_row active_member chat_of_member new_member
    added_member add_member open_chat add_all other_ids create_group earliest remains_in heir_of
    hand_over reassign_owner_or_dissolve leave_chat club_of leave_or_hand_on hosts leave_or_kick
    dating_backend.Chats.Members.new_group befriended create_friendship is_pending_request
    is_pending_of request_to new_request request_or_new send_friend_request answer accept_request
    respond_friend_request is_direct_of find_direct ask_first new_direct start_direct direct_or_new
    open_direct is_active_row is_owner is_admin is_direct is_activity is_circle save_chat
    save_chat_member next_row tell enqueue is_dissolved is_active_conversation is_blocked_either
heir_takes_over = refl

friends_now : are_friends 3 2 (serve_chats busy quiet).friendships ≡ true
unfolding owner_of_chat serve_chats serve_chat committed lookup insert rows get put are_friends
    is_friend is_friend_row live_chat active_row active_member chat_of_member new_member
    added_member add_member open_chat add_all other_ids create_group earliest remains_in heir_of
    hand_over reassign_owner_or_dissolve leave_chat club_of leave_or_hand_on hosts leave_or_kick
    dating_backend.Chats.Members.new_group befriended create_friendship is_pending_request
    is_pending_of request_to new_request request_or_new send_friend_request answer accept_request
    respond_friend_request is_direct_of find_direct ask_first new_direct start_direct direct_or_new
    open_direct is_active_row is_owner is_admin is_direct is_activity is_circle save_chat
    save_chat_member next_row tell enqueue is_dissolved is_active_conversation is_blocked_either
friends_now = refl
