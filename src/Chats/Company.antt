-- ===== src/Chats/Company.antt =====
-- What the handlers on conversations keep of the friends: they write no friendship.
use dating_backend.Prelude.{ℕ, Bool, true, false, Option, none, some, List, [], ◌∷◌, String}
use dating_backend.Shared.Action.{modify}
use dating_backend.Shared.Action.Keeps.{Keeps, Keeps-bind, keeps_rules}
use dating_backend.Shared.Table.{Table, one_or_none}
use dating_backend.Shared.Pairs.{PairTable}
use dating_backend.Messaging.Transfers.{MemberStatus}
use dating_backend.Events.{DomainEventName, enqueue}
use dating_backend.Chats.Data.{
  Chat, ChatMember, ChatsDb, ChatsEnv, MemberRole, MessageRequest, save_chat, save_chat_member,
  next_row, tell,
}
use dating_backend.Chats.Members.{
  chat_of_member, active_member, add_member, add_all, open_chat, create_group, add_members,
  update_prefs, clear_history, update_conversation, hand_over, reassign_owner_or_dissolve,
  leave_chat, put_out, kick_from, leave_or_hand_on, leave_or_kick, dissolve_chat,
}
use dating_backend.Chats.Opening.{
  ask_first, start_direct, direct_or_new, open_direct, activity_chat, ensure_activity_group,
  respond_message_request,
}
use dating_backend.Chats.Mutual.{AreMutual}

pub record HasMutualFriends (db : ChatsDb) : Type 0 where
  pub friends : AreMutual db.friendships

module _ (id : ℕ) where
  save_chat-Keeps : (c : Chat) → Keeps HasMutualFriends (save_chat id c)
  unfolding save_chat
  save_chat-Keeps c = record { at = λ db h. record { friends = h.friends } }

  save_member-Keeps : (u : ℕ) (m : ChatMember) → Keeps HasMutualFriends (save_chat_member id u m)
  unfolding save_chat_member
  save_member-Keeps u m = record { at = λ db h. record { friends = h.friends } }

pub next-Keeps : Keeps HasMutualFriends next_row
unfolding next_row
next-Keeps = record { at = λ db h. record { friends = h.friends } }

pub told-Keeps :
    (now : ℕ) (name : DomainEventName) (kind : String) (id : ℕ)
    → Keeps HasMutualFriends (tell now name kind id)
unfolding tell enqueue
told-Keeps now name kind id = record { at = λ db h. record { friends = h.friends } }

members-Keeps :
    (f : ChatsDb → PairTable ChatMember)
    → Keeps HasMutualFriends (modify (λ db. record db { members = f db }))
members-Keeps f = record { at = λ db h. record { friends = h.friends } }

messages-Keeps :
    (f : ChatsDb → Table MessageRequest)
    → Keeps HasMutualFriends (modify (λ db. record db { message_requests = f db }))
messages-Keeps f = record { at = λ db h. record { friends = h.friends } }

answers-Keeps :
    (f : ChatsDb → Table MessageRequest) (g : ChatsDb → Table Chat)
    → Keeps HasMutualFriends (modify (λ db. record db { message_requests = f db; chats = g db }))
answers-Keeps f g = record { at = λ db h. record { friends = h.friends } }

pub row-Keeps : {A : Type 0} (rows : List A) → Keeps HasMutualFriends (one_or_none rows)
row-Keeps [] = search keeps_rules
row-Keeps (a ∷ []) = search keeps_rules
row-Keeps (a ∷ b ∷ l) = search keeps_rules

active-Keeps : (id u : ℕ) → Keeps HasMutualFriends (active_member id u)
unfolding active_member
active-Keeps id u = search keeps_rules

found-Keeps : (u id : ℕ) → Keeps HasMutualFriends (chat_of_member u id)
unfolding chat_of_member
found-Keeps u id = search (keeps_rules, active-Keeps) depth 12

added-Keeps : (now id u : ℕ) (role : MemberRole) → Keeps HasMutualFriends (add_member now id u role)
unfolding add_member
added-Keeps now id u role = search members-Keeps

all_added-Keeps : (now id : ℕ) (us : List ℕ) → Keeps HasMutualFriends (add_all now id us)
unfolding add_all
all_added-Keeps now id [] = search keeps_rules
all_added-Keeps now id (u ∷ us) =
    Keeps-bind _ _ (added-Keeps now id u MemberRole.member) λ _. all_added-Keeps now id us

opened-Keeps : (now id : ℕ) (c : Chat) (u : ℕ) → Keeps HasMutualFriends (open_chat now id c u)
unfolding open_chat
opened-Keeps now id c u = search (keeps_rules, save_chat-Keeps, added-Keeps)

ruleset chat_rules = (
  keeps_rules, next-Keeps, told-Keeps, row-Keeps, found-Keeps, active-Keeps, added-Keeps,
  all_added-Keeps, opened-Keeps, save_chat-Keeps, save_member-Keeps, members-Keeps, messages-Keeps,
  answers-Keeps,
)

handed-Keeps :
    (id : ℕ) (c : Chat) (o : Option (ℕ × ChatMember)) → Keeps HasMutualFriends (hand_over id c o)
unfolding hand_over
handed-Keeps id c none = search chat_rules
handed-Keeps id c (some (u, m)) = search chat_rules

out-Keeps :
    (id u : ℕ) (status : MemberStatus) (victim : Option ChatMember)
    → Keeps HasMutualFriends (put_out id u status victim)
unfolding put_out
out-Keeps id u status none = search chat_rules
out-Keeps id u status (some m) = search chat_rules

left-Keeps : (u id : ℕ) (c : Chat) (m : ChatMember) → Keeps HasMutualFriends (leave_chat u id c m)
unfolding leave_chat reassign_owner_or_dissolve
left-Keeps u id c m = search (chat_rules, handed-Keeps) depth 12

handed_on-Keeps :
    (u id : ℕ) (c : Chat) (m : ChatMember) (o : Option ℕ)
    → Keeps HasMutualFriends (leave_or_hand_on u id c m o)
unfolding leave_or_hand_on
handed_on-Keeps u id c m none = left-Keeps u id c m
handed_on-Keeps u id c m (some club_id) = search chat_rules

kicked-Keeps : (id target : ℕ) (me : ChatMember) → Keeps HasMutualFriends (kick_from id target me)
unfolding kick_from
kicked-Keeps id target me = search (chat_rules, out-Keeps) depth 16

asked-Keeps :
    (asks : Bool) (id user_id peer_id : ℕ) (preview : String)
    → Keeps HasMutualFriends (ask_first asks id user_id peer_id preview)
unfolding ask_first
asked-Keeps false id user_id peer_id preview = search chat_rules
asked-Keeps true id user_id peer_id preview = search chat_rules

pub left_or_kicked-Keeps : (u id target : ℕ) → Keeps HasMutualFriends (leave_or_kick u id target)
unfolding leave_or_kick
left_or_kicked-Keeps u id target = search (chat_rules, kicked-Keeps, handed_on-Keeps) depth 16

pub closed-Keeps : (u id : ℕ) → Keeps HasMutualFriends (dissolve_chat u id)
unfolding dissolve_chat
closed-Keeps u id = search chat_rules depth 16

pub updated-Keeps :
    (u id : ℕ) (title announcement : Option String)
    → Keeps HasMutualFriends (update_conversation u id title announcement)
unfolding update_conversation
updated-Keeps u id title announcement = search chat_rules depth 12

module _ (env : ChatsEnv) where
  pub grouped-Keeps :
      (u : ℕ) (title : String) (ids : List ℕ)
      → Keeps HasMutualFriends (create_group env u title ids)
  unfolding create_group
  grouped-Keeps u title ids = search chat_rules depth 12

  pub brought-Keeps : (u id : ℕ) (ids : List ℕ) → Keeps HasMutualFriends (add_members env u id ids)
  unfolding add_members
  brought-Keeps u id ids = search chat_rules depth 12

  pub preferred-Keeps :
      (u id : ℕ) (muted pinned : Option Bool) (alias : Option String) (mark_read : Bool)
      → Keeps HasMutualFriends (update_prefs env u id muted pinned alias mark_read)
  unfolding update_prefs
  preferred-Keeps u id muted pinned alias mark_read = search chat_rules

  pub cleared-Keeps : (u id : ℕ) → Keeps HasMutualFriends (clear_history env u id)
  unfolding clear_history
  cleared-Keeps u id = search chat_rules

  started-Keeps :
      (u peer : ℕ) (preview : String) → Keeps HasMutualFriends (start_direct env u peer preview)
  unfolding start_direct
  started-Keeps u peer preview = search (chat_rules, asked-Keeps) depth 16

  direct-Keeps :
      (u peer : ℕ) (preview : String) (found : Option (ℕ × Chat))
      → Keeps HasMutualFriends (direct_or_new env u peer preview found)
  unfolding direct_or_new
  direct-Keeps u peer preview none = started-Keeps u peer preview
  direct-Keeps u peer preview (some r) = search chat_rules

  pub direct_opened-Keeps :
      (u peer : ℕ) (preview : String) → Keeps HasMutualFriends (open_direct env u peer preview)
  unfolding open_direct
  direct_opened-Keeps u peer preview = search (chat_rules, direct-Keeps) depth 16

  activity-Keeps :
      (activity_id host_id : ℕ) (title : String) (found : Option (ℕ × Chat))
      → Keeps HasMutualFriends (activity_chat env activity_id host_id title found)
  unfolding activity_chat
  activity-Keeps activity_id host_id title (some r) = search chat_rules
  activity-Keeps activity_id host_id title none = search chat_rules depth 12

  pub activity_opened-Keeps :
      (activity_id host_id : ℕ) (title : String) (u : ℕ)
      → Keeps HasMutualFriends (ensure_activity_group env activity_id host_id title u)
  unfolding ensure_activity_group
  activity_opened-Keeps activity_id host_id title u = search (chat_rules, activity-Keeps) depth 12

  pub message_answered-Keeps :
      (u id : ℕ) (accept : Bool) → Keeps HasMutualFriends (respond_message_request env u id accept)
  unfolding respond_message_request
  message_answered-Keeps u id accept = search chat_rules depth 12
