-- ===== src/Chats/Friendly.antt =====
-- Friendship stays mutual, whatever requests come to app/modules/messaging/router.py.
use dating_backend.Prelude.{
  ℕ, ◌≡◌, refl, Bool, true, Option, none, some, List, [], ◌∷◌, String, arith,
}
use dating_backend.Shared.Errors.{app_error, friend_not_found}
use dating_backend.Shared.Action.{modify}
use dating_backend.Shared.Action.Keeps.{Keeps, Keeps-pure, keeps_rules, Yields-or_raise}
use dating_backend.Shared.Table.{Table}
use dating_backend.Shared.Pairs.{get}
use dating_backend.Chats.Data.{ChatsDb, ChatsEnv, Friendship, FriendRequest, FriendRequestStatus}
use dating_backend.Chats.Opening.{are_friends, is_friend, is_friend_row}
use dating_backend.Chats.Friends.{
  active_friend, create_friendship, delete_friend, update_friend, request_or_new,
  send_friend_request, answer, accept_request, respond_friend_request, or_null,
}
use dating_backend.Chats.Mutual.{created-AreMutual, deleted-AreMutual, edited-AreMutual}
use dating_backend.Chats.Company.{
  HasMutualFriends, next-Keeps, told-Keeps, row-Keeps, activity_opened-Keeps, brought-Keeps,
  cleared-Keeps, closed-Keeps, direct_opened-Keeps, grouped-Keeps, left_or_kicked-Keeps,
  message_answered-Keeps, preferred-Keeps, updated-Keeps,
}
use dating_backend.Chats.Requests.{
  ChatRequest, serve_chat, serve_chats, committed-Keeps, direct, new_group, bring, retitle, prefer,
  clear, leave_or_put_out, close, activity_group, answer_message, befriend, answer_friend, unfriend,
  rename,
}

requests-Keeps :
    (f : ChatsDb → Table FriendRequest)
    → Keeps HasMutualFriends (modify (λ db. record db { friend_requests = f db }))
requests-Keeps f = record { at = λ db h. record { friends = h.friends } }

befriend-Keeps :
    (a b : ℕ)
    → Keeps HasMutualFriends
        (modify (λ db. record db { friendships = create_friendship a b db.friendships }))
befriend-Keeps a b = record {
  at = λ db h. record { friends = created-AreMutual a b db.friendships h.friends };
}

module _ (env : ChatsEnv) where
  requested-Keeps :
      (u to : ℕ) (message source : String) (found : Option FriendRequest)
      → Keeps HasMutualFriends (request_or_new env u to message source found)
  unfolding request_or_new
  requested-Keeps u to message source (some hit) = Keeps-pure hit
  requested-Keeps u to message source none =
      search (keeps_rules, next-Keeps, requests-Keeps, told-Keeps) depth 12

  sent-Keeps :
      (u : ℕ) (addressee : Option ℕ) (message source : String)
      → Keeps HasMutualFriends (send_friend_request env u addressee message source)
  unfolding send_friend_request
  sent-Keeps u addressee message source = search (keeps_rules, row-Keeps, requested-Keeps) depth 18

  answered-Keeps :
      (r : FriendRequest) (status : FriendRequestStatus)
      → Keeps HasMutualFriends (answer env r status)
  unfolding answer
  answered-Keeps r status = search requests-Keeps

  accepted-Keeps : (u : ℕ) (r : FriendRequest) → Keeps HasMutualFriends (accept_request env u r)
  unfolding accept_request
  accepted-Keeps u r =
      search (keeps_rules, answered-Keeps, befriend-Keeps, direct_opened-Keeps) depth 12

  responded-Keeps :
      (u id : ℕ) (accept : Bool) → Keeps HasMutualFriends (respond_friend_request env u id accept)
  unfolding respond_friend_request
  responded-Keeps u id accept = search (keeps_rules, answered-Keeps, accepted-Keeps) depth 12

deleted-Keeps : (u id : ℕ) → Keeps HasMutualFriends (delete_friend u id)
unfolding delete_friend
deleted-Keeps u id = record {
  at = λ db h. record { friends = deleted-AreMutual u id db.friendships h.friends };
}

active_friends :
    (o : Option Friendship) (f : Friendship)
    → active_friend o ≡ some f
    → (is_friend o ≡ true) × (is_friend_row f ≡ true)
unfolding active_friend is_friend
active_friends none f e = cc
active_friends (some g) f e = ground (arith, e)

kept_active :
    (o : Option Friendship) (f : Friendship)
    → active_friend o ≡ some f
    → is_friend o ≡ is_friend_row f
kept_active o f e = let (was, is) = active_friends o f e in ground (arith, was, is)

same_row :
    (f : Friendship) (remark group_name : Option String)
    → is_friend_row (record f { remark = remark; group_name = group_name }) ≡ is_friend_row f
unfolding is_friend_row
same_row f remark group_name = refl

renamed-Keeps :
    (u id : ℕ) (remark group_name : Option String)
    → Keeps HasMutualFriends (update_friend u id remark group_name)
unfolding update_friend are_friends
renamed-Keeps u id remark group_name = record {
  at = λ db h.
      Yields-or_raise (λ _. HasMutualFriends) (active_friend (get u id db.friendships))
        (app_error friend_not_found 404) _ db
        λ f e. record {
          friends =
              edited-AreMutual u id _ db.friendships
                (ground (
                  arith,
                  kept_active (get u id db.friendships) f e,
                  same_row f (or_null remark f.remark) (or_null group_name f.group_name),
                ))
                h.friends;
        };
}

serve_chat-HasMutualFriends :
    (env : ChatsEnv) (u : ℕ) (r : ChatRequest) (db : ChatsDb)
    → HasMutualFriends db
    → HasMutualFriends (serve_chat env u r db)
unfolding serve_chat
serve_chat-HasMutualFriends env u (direct peer preview) db h =
    committed-Keeps HasMutualFriends _ db (direct_opened-Keeps env u peer preview) h
serve_chat-HasMutualFriends env u (new_group title ids) db h =
    committed-Keeps HasMutualFriends _ db (grouped-Keeps env u title ids) h
serve_chat-HasMutualFriends env u (bring id ids) db h =
    committed-Keeps HasMutualFriends _ db (brought-Keeps env u id ids) h
serve_chat-HasMutualFriends env u (retitle id title announcement) db h =
    committed-Keeps HasMutualFriends _ db (updated-Keeps u id title announcement) h
serve_chat-HasMutualFriends env u (prefer id muted pinned alias mark_read) db h =
    committed-Keeps HasMutualFriends _ db (preferred-Keeps env u id muted pinned alias mark_read) h
serve_chat-HasMutualFriends env u (clear id) db h =
    committed-Keeps HasMutualFriends _ db (cleared-Keeps env u id) h
serve_chat-HasMutualFriends env u (leave_or_put_out id target) db h =
    committed-Keeps HasMutualFriends _ db (left_or_kicked-Keeps u id target) h
serve_chat-HasMutualFriends env u (close id) db h =
    committed-Keeps HasMutualFriends _ db (closed-Keeps u id) h
serve_chat-HasMutualFriends env u (activity_group activity_id host_id title) db h =
    committed-Keeps HasMutualFriends _ db (activity_opened-Keeps env activity_id host_id title u) h
serve_chat-HasMutualFriends env u (answer_message id accept) db h =
    committed-Keeps HasMutualFriends _ db (message_answered-Keeps env u id accept) h
serve_chat-HasMutualFriends env u (befriend to message source) db h =
    committed-Keeps HasMutualFriends _ db (sent-Keeps env u to message source) h
serve_chat-HasMutualFriends env u (answer_friend id accept) db h =
    committed-Keeps HasMutualFriends _ db (responded-Keeps env u id accept) h
serve_chat-HasMutualFriends env u (unfriend id) db h =
    committed-Keeps HasMutualFriends _ db (deleted-Keeps u id) h
serve_chat-HasMutualFriends env u (rename id remark group_name) db h =
    committed-Keeps HasMutualFriends _ db (renamed-Keeps u id remark group_name) h

-- Whatever chats users open, found, join others to, leave and close, and whatever friend requests they send,
-- answer, edit and take back, failing requests included, friendship is mutual after it if it was before: one user
-- is an active friend of another exactly where the other is one of the first.
pub serve_chats-HasMutualFriends :
    (rs : List (ChatsEnv × ℕ × ChatRequest)) (db : ChatsDb)
    → HasMutualFriends db
    → HasMutualFriends (serve_chats rs db)
unfolding serve_chats
serve_chats-HasMutualFriends [] db h = h
serve_chats-HasMutualFriends ((env, u, r) ∷ rs) db h =
    serve_chats-HasMutualFriends rs (serve_chat env u r db)
      (serve_chat-HasMutualFriends env u r db h)
