-- ===== src/Chats/Keeping.antt =====
-- What each handler of app/modules/messaging/service.py on conversations and friends keeps of their owners.
use dating_backend.Prelude.{
  ℕ, ◌≡◌, refl, Bool, ◌&&◌, ◌||◌, not, Option, some, List, [], ◌∷◌, String, is_some,
}
use dating_backend.Shared.Errors.{app_error, chat_forbidden}
use dating_backend.Shared.Action.Keeps.{Keeps, Yields-guard, Keeps-bind, Keeps-pure, keeps_rules}
use dating_backend.Events.{DomainEventName, enqueue}
use dating_backend.Chats.Data.{
  next_row, tell, Chat, ChatsEnv, MemberRole, save_chat, save_chat_member,
}
use dating_backend.Chats.Members.{
  new_group, add_member, add_all, open_chat, create_group, add_members, update_prefs, prefs,
  clear_history, cleared, update_conversation, retitled, may_manage, new_group,
}
use dating_backend.Chats.Owned.{HasOwners, chat_written}
use dating_backend.Chats.Leaving.{on_member, same_standing, added, opened}

module _ (now k : ℕ) where
  pub add_member-Keeps : (u : ℕ) (role : MemberRole) → Keeps HasOwners (add_member now k u role)
  unfolding add_member
  add_member-Keeps u role = record { at = λ db h. added db h now k u role }

  add_all-Keeps : (us : List ℕ) → Keeps HasOwners (add_all now k us)
  unfolding add_all
  add_all-Keeps [] = Keeps-pure tt
  add_all-Keeps (u ∷ us) =
      Keeps-bind _ _ (add_member-Keeps u MemberRole.member) (λ _. add_all-Keeps us)

  pub open_chat-Keeps :
      (c : Chat) (u : ℕ) → c.owner_id ≡ some u → Keeps HasOwners (open_chat now k c u)
  unfolding open_chat add_member save_chat
  open_chat-Keeps c u own = record { at = λ db h. opened db h now k u c own }

pub next_row-Keeps : Keeps HasOwners next_row
unfolding next_row
next_row-Keeps = record { at = λ db h. record { chats_owned = h.chats_owned } }

pub tell-Keeps :
    (now : ℕ) (name : DomainEventName) (kind : String) (id : ℕ)
    → Keeps HasOwners (tell now name kind id)
unfolding tell enqueue
tell-Keeps now name kind id = record { at = λ db h. record { chats_owned = h.chats_owned } }

module _ (env : ChatsEnv) where
  pub create_group-Keeps :
      (user_id : ℕ) (title : String) (ids : List ℕ)
      → Keeps HasOwners (create_group env user_id title ids)
  unfolding create_group new_group
  create_group-Keeps user_id title ids =
      search (keeps_rules, next_row-Keeps, open_chat-Keeps, add_all-Keeps) depth 12

  pub add_members-Keeps :
      (user_id chat_id : ℕ) (ids : List ℕ) → Keeps HasOwners (add_members env user_id chat_id ids)
  unfolding add_members
  add_members-Keeps user_id chat_id ids = record {
    at = λ db h.
        on_member (λ _. HasOwners) user_id chat_id _ db
          λ c m found lives at active.
            Yields-guard (λ _. HasOwners) (not (may_manage m)) (app_error chat_forbidden 403) _ db
              λ _. (add_all-Keeps env.now chat_id ids).at db h;
  }

  pub prefs-Keeps :
      (user_id chat_id : ℕ) (muted pinned : Option Bool) (alias : Option String) (mark_read : Bool)
      → Keeps HasOwners (update_prefs env user_id chat_id muted pinned alias mark_read)
  unfolding update_prefs prefs save_chat_member
  prefs-Keeps user_id chat_id muted pinned alias mark_read = record {
    at = λ db h.
        on_member (λ _. HasOwners) user_id chat_id _ db
          λ c m found lives at active. same_standing db h chat_id user_id m _ at refl refl;
  }

  pub clear-Keeps : (user_id chat_id : ℕ) → Keeps HasOwners (clear_history env user_id chat_id)
  unfolding clear_history cleared save_chat_member
  clear-Keeps user_id chat_id = record {
    at = λ db h.
        on_member (λ _. HasOwners) user_id chat_id _ db
          λ c m found lives at active. same_standing db h chat_id user_id m _ at refl refl;
  }

pub update-Keeps :
    (user_id chat_id : ℕ) (title announcement : Option String)
    → Keeps HasOwners (update_conversation user_id chat_id title announcement)
unfolding update_conversation retitled save_chat
update-Keeps user_id chat_id title announcement = record {
  at = λ db h.
      on_member (λ _. HasOwners) user_id chat_id _ db
        λ c m found lives at active.
          Yields-guard (λ _. HasOwners)
            (not (may_manage m) && (is_some title || is_some announcement))
            (app_error chat_forbidden 403) _ db
            λ _. record {
              chats_owned =
                  chat_written db.chats db.members h.chats_owned chat_id c _ found refl refl refl;
            };
}
