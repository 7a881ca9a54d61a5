-- ===== src/Chats/Members.antt =====
-- `get_conversation`, `_active_member`, `_add_member`, `create_group`, `update_conversation`, `update_prefs`,
-- `add_members`, `leave_or_kick`, `_reassign_owner_or_dissolve`, `dissolve`, `clear_history` and
-- `ensure_activity_group` of `MessagingService`. Titles are already stripped.
use dating_backend.Prelude.{
  ℕ, String, Bool, false, Option, none, some, List, [], ◌∷◌, ◌++◌, ◌&&◌, ◌||◌, not, ◌==◌, leb,
  if◌then◌else◌, or_else, is_some, any,
}
use text.Mathlib.Text.{◌==◌ as str_eq}
use dating_backend.Shared.Errors.{app_error, chat_not_found, chat_forbidden, chat_invalid}
use dating_backend.Shared.Action.{Action, pure, gets, modify, or_raise, raise_if, ◌>>=◌, ◌>>◌}
use dating_backend.Shared.Table.{lookup}
use dating_backend.Shared.Pairs.{PairTable, get, put, update_of}
use dating_backend.Messaging.Transfers.{ConversationStatus, MemberStatus, is_dissolved}
use dating_backend.Chats.Data.{
  Chat, ChatMember, ChatsDb, ChatsEnv, ConversationKind, MemberRole, is_active_row, is_owner,
  is_admin, is_direct, is_group, is_activity, is_circle, save_chat, save_chat_member, next_row,
}

unfoldable pub live_chat : Option Chat → Option Chat
live_chat none = none
live_chat (some c) = if is_dissolved c.status then none else some c

unfoldable pub active_row : Option ChatMember → Option ChatMember
active_row none = none
active_row (some m) = if is_active_row m then some m else none

-- `_active_member`
unfoldable pub active_member : ℕ → ℕ → Action ChatsDb (Option ChatMember)
unfolding active_row
active_member chat_id user_id = gets (λ db. active_row (get chat_id user_id db.members))

-- The conversation of a member, with the member's row.
unfoldable pub chat_of_member : ℕ → ℕ → Action ChatsDb (Chat × ChatMember)
unfolding live_chat
chat_of_member user_id chat_id = do
  found ← gets (λ db. lookup chat_id db.chats)
  c ← or_raise (live_chat found) (app_error chat_not_found 404)
  row ← active_member chat_id user_id
  me ← or_raise row (app_error chat_forbidden 403)
  pure (c, me)

unfoldable pub new_member : ℕ → MemberRole → ChatMember
new_member now role = record {
  role = role;
  alias = none;
  muted = false;
  pinned = false;
  unread_count = 0;
  last_read_at = none;
  cleared_at = none;
  status = MemberStatus.member_active;
  joined_at = now;
}

unfoldable pub added_member : ℕ → MemberRole → Option ChatMember → ChatMember
unfolding new_member
added_member now role none = new_member now role
added_member now role (some m) = record m {
  status = MemberStatus.member_active;
  role = if is_owner role then role else m.role;
}

-- `_add_member`
unfoldable pub add_member : ℕ → ℕ → ℕ → MemberRole → Action ChatsDb (Unit {0})
unfolding added_member
add_member now chat_id user_id role = modify (λ db. record db {
  members = put chat_id user_id (added_member now role (get chat_id user_id db.members)) db.members;
})

-- A new conversation, led by its owner.
unfoldable pub open_chat : ℕ → ℕ → Chat → ℕ → Action ChatsDb (Unit {0})
open_chat now id c owner_id = save_chat id c >> add_member now id owner_id MemberRole.owner

unfoldable pub add_all : ℕ → ℕ → List ℕ → Action ChatsDb (Unit {0})
add_all now chat_id [] = pure tt
add_all now chat_id (u ∷ us) = add_member now chat_id u MemberRole.member >> add_all now chat_id us

-- `if mid != user.id and mid not in ids: ids.append(mid)`
unfoldable pub other_ids : ℕ → List ℕ → List ℕ → List ℕ
other_ids user_id [] ids = ids
other_ids user_id (u ∷ us) ids =
    other_ids user_id us
      (if not (u == user_id) && not (any (λ i. i == u) ids) then ids ++ (u ∷ []) else ids)

unfoldable pub may_manage : ChatMember → Bool
may_manage m = is_owner m.role || is_admin m.role

module _ (env : ChatsEnv) where
  unfoldable pub new_group : ℕ → String → Chat
  new_group user_id title = record {
    kind = ConversationKind.group;
    im_conversation_id = env.open_group user_id title;
    title = title;
    owner_id = some user_id;
    related_activity_id = none;
    related_circle_id = none;
    announcement = none;
    last_message_preview = "";
    last_message_at = none;
    status = ConversationStatus.active;
    is_message_request = false;
  }

  unfoldable pub create_group : ℕ → String → List ℕ → Action ChatsDb ℕ
  unfolding new_group add_all
  create_group user_id title member_ids = do
    raise_if (str_eq title "") (app_error chat_invalid 400)
    id ← next_row
    open_chat env.now id (new_group user_id title) user_id
    add_all env.now id (other_ids user_id member_ids [])
    pure id

  unfoldable pub add_members : ℕ → ℕ → List ℕ → Action ChatsDb (Unit {0})
  unfolding add_all
  add_members user_id chat_id member_ids = do
    found ← chat_of_member user_id chat_id
    raise_if (not (may_manage found.1)) (app_error chat_forbidden 403)
    add_all env.now chat_id member_ids

  unfoldable pub prefs : Option Bool → Option Bool → Option String → Bool → ChatMember → ChatMember
  prefs muted pinned alias mark_read m = record m {
    muted = or_else muted m.muted;
    pinned = or_else pinned m.pinned;
    alias = elim alias [ none ↦ m.alias | some a ↦ if str_eq a "" then none else some a ];
    unread_count = if mark_read then 0 else m.unread_count;
    last_read_at = if mark_read then some env.now else m.last_read_at;
  }

  unfoldable pub update_prefs :
      ℕ → ℕ → Option Bool → Option Bool → Option String → Bool → Action ChatsDb (Unit {0})
  unfolding prefs
  update_prefs user_id chat_id muted pinned alias mark_read = do
    found ← chat_of_member user_id chat_id
    save_chat_member chat_id user_id (prefs muted pinned alias mark_read found.1)

  unfoldable pub cleared : ChatMember → ChatMember
  cleared m = record m { cleared_at = some env.now; unread_count = 0; last_read_at = some env.now }

  unfoldable pub clear_history : ℕ → ℕ → Action ChatsDb (Unit {0})
  unfolding cleared
  clear_history user_id chat_id = do
    found ← chat_of_member user_id chat_id
    save_chat_member chat_id user_id (cleared found.1)

unfoldable pub retitled : Option String → Option String → Chat → Chat
retitled title announcement c = record c {
  title = or_else title c.title;
  announcement = elim announcement [ none ↦ c.announcement | some a ↦ some a ];
}

unfoldable pub update_conversation : ℕ → ℕ → Option String → Option String → Action ChatsDb Chat
unfolding retitled
update_conversation user_id chat_id title announcement = do
  found ← chat_of_member user_id chat_id
  raise_if (not (may_manage found.1) && (is_some title || is_some announcement))
      (app_error chat_forbidden 403)
  save_chat chat_id (retitled title announcement found.0)
  pure (retitled title announcement found.0)

-- Of the rows of a conversation that pass a test, the one of the earliest member.
unfoldable pub earliest :
    (ℕ → ChatMember → Bool) → ℕ → PairTable ChatMember → Option (ℕ × ChatMember)
earliest p chat_id [] = none
earliest p chat_id ((i, u, m) ∷ t) = elim (earliest p chat_id t) [
  | none ↦ if i == chat_id && p u m then some (u, m) else none
  | some r ↦
      if (i == chat_id && p u m) && leb m.joined_at r.1.joined_at then some (u, m) else some r
]

unfoldable pub remains_in : ℕ → ℕ → ChatMember → Bool
remains_in leaving u m = is_active_row m && not (u == leaving)

unfoldable pub heir_of : ℕ → ℕ → PairTable ChatMember → Option (ℕ × ChatMember)
unfolding earliest remains_in
heir_of chat_id leaving t =
    elim (earliest (λ u m. remains_in leaving u m && is_admin m.role) chat_id t) [
      | some r ↦ some r
      | none ↦ earliest (remains_in leaving) chat_id t
    ]

unfoldable pub hand_over : ℕ → Chat → Option (ℕ × ChatMember) → Action ChatsDb (Unit {0})
hand_over chat_id c none = save_chat chat_id (record c { status = ConversationStatus.dissolved })
hand_over chat_id c (some (u, m)) =
    save_chat_member chat_id u (record m { role = MemberRole.owner })
    >> save_chat chat_id (record c { owner_id = some u })

-- `_reassign_owner_or_dissolve`
unfoldable pub reassign_owner_or_dissolve : ℕ → Chat → ℕ → Action ChatsDb (Unit {0})
reassign_owner_or_dissolve chat_id c leaving =
    gets (λ db. heir_of chat_id leaving db.members) >>= hand_over chat_id c

-- Whether a member went, or is to leave a club by `ClubService.leave`.
pub data Departure : Type 0 where
  went : Departure
  leaves_club : ℕ → Departure

unfoldable pub put_out : ℕ → ℕ → MemberStatus → Option ChatMember → Action ChatsDb (Unit {0})
put_out chat_id user_id status none = pure tt
put_out chat_id user_id status (some m) =
    save_chat_member chat_id user_id (record m { status = status })

unfoldable pub is_protected : ChatMember → Option ChatMember → Bool
is_protected me none = false
is_protected me (some victim) = is_admin victim.role && not (is_owner me.role)

unfoldable pub is_owner_row : Option ChatMember → Bool
is_owner_row none = false
is_owner_row (some m) = is_owner m.role

unfoldable pub kick_from : ℕ → ℕ → ChatMember → Action ChatsDb Departure
unfolding put_out
kick_from chat_id target me = do
  raise_if (not (may_manage me)) (app_error chat_forbidden 403)
  victim ← active_member chat_id target
  raise_if (is_owner_row victim) (app_error chat_forbidden 403)
  raise_if (is_protected me victim) (app_error chat_forbidden 403)
  put_out chat_id target MemberStatus.kicked victim
  pure went

unfoldable pub leave_chat : ℕ → ℕ → Chat → ChatMember → Action ChatsDb Departure
leave_chat user_id chat_id c me = do
  save_chat_member chat_id user_id (record me { status = MemberStatus.left })
  if is_owner me.role then reassign_owner_or_dissolve chat_id c user_id else pure tt
  pure went

-- The club that a member leaves by leaving its chat.
unfoldable pub club_of : Chat → Option ℕ
club_of c = if is_circle c.kind then c.related_circle_id else none

unfoldable pub leave_or_hand_on : ℕ → ℕ → Chat → ChatMember → Option ℕ → Action ChatsDb Departure
unfolding leave_chat
leave_or_hand_on user_id chat_id c me (some club_id) = pure (leaves_club club_id)
leave_or_hand_on user_id chat_id c me none = leave_chat user_id chat_id c me

unfoldable pub hosts : ℕ → Chat → Bool
hosts user_id c = is_activity c.kind && (elim c.owner_id [ none ↦ false | some o ↦ o == user_id ])

unfoldable pub leave_or_kick : ℕ → ℕ → ℕ → Action ChatsDb Departure
leave_or_kick user_id chat_id target = do
  found ← chat_of_member user_id chat_id
  raise_if (is_direct found.0.kind) (app_error chat_invalid 400)
  if not (target == user_id)
      then kick_from chat_id target found.1
      else (raise_if (hosts user_id found.0) (app_error chat_forbidden 400)
          >> leave_or_hand_on user_id chat_id found.0 found.1 (club_of found.0))

unfoldable pub gone_row : ChatMember → ChatMember
gone_row m = if is_active_row m then record m { status = MemberStatus.left } else m

unfoldable pub dissolve_chat : ℕ → ℕ → Action ChatsDb (Unit {0})
unfolding gone_row
dissolve_chat user_id chat_id = do
  found ← chat_of_member user_id chat_id
  raise_if (not (is_group found.0.kind)) (app_error chat_invalid 400)
  raise_if (not (is_owner found.1.role)) (app_error chat_forbidden 403)
  save_chat chat_id (record found.0 { status = ConversationStatus.dissolved })
  modify (λ db. record db { members = update_of gone_row chat_id db.members })
