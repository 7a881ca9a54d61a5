-- ===== src/Chats/Requests.antt =====
-- Requests to app/modules/messaging/router.py on conversations and friends, one after another.
use dating_backend.Prelude.{ℕ, Bool, Option, List, [], ◌∷◌, String}
use dating_backend.Shared.Action.{Action, committed}
use dating_backend.Shared.Action.Keeps.{Keeps, committed_of_commits}
use dating_backend.Chats.Data.{ChatsDb, ChatsEnv}
use dating_backend.Chats.Members.{
  create_group, add_members, update_prefs, clear_history, update_conversation, leave_or_kick,
  dissolve_chat,
}
use dating_backend.Chats.Opening.{open_direct, ensure_activity_group, respond_message_request}
use dating_backend.Chats.Friends.{
  delete_friend, update_friend, send_friend_request, respond_friend_request,
}

pub data ChatRequest : Type 0 where
  direct : ℕ → String → ChatRequest
  new_group : String → List ℕ → ChatRequest
  bring : ℕ → List ℕ → ChatRequest
  retitle : ℕ → Option String → Option String → ChatRequest
  prefer : ℕ → Option Bool → Option Bool → Option String → Bool → ChatRequest
  clear : ℕ → ChatRequest
  leave_or_put_out : ℕ → ℕ → ChatRequest
  close : ℕ → ChatRequest
  activity_group : ℕ → ℕ → String → ChatRequest
  answer_message : ℕ → Bool → ChatRequest
  befriend : Option ℕ → String → String → ChatRequest
  answer_friend : ℕ → Bool → ChatRequest
  unfriend : ℕ → ChatRequest
  rename : ℕ → Option String → Option String → ChatRequest

unfoldable pub serve_chat : ChatsEnv → ℕ → ChatRequest → ChatsDb → ChatsDb
serve_chat env u (direct peer preview) db = committed (open_direct env u peer preview db) db
serve_chat env u (new_group title ids) db = committed (create_group env u title ids db) db
serve_chat env u (bring id ids) db = committed (add_members env u id ids db) db
serve_chat env u (retitle id title announcement) db =
    committed (update_conversation u id title announcement db) db
serve_chat env u (prefer id muted pinned alias mark_read) db =
    committed (update_prefs env u id muted pinned alias mark_read db) db
serve_chat env u (clear id) db = committed (clear_history env u id db) db
serve_chat env u (leave_or_put_out id target) db = committed (leave_or_kick u id target db) db
serve_chat env u (close id) db = committed (dissolve_chat u id db) db
serve_chat env u (activity_group activity_id host_id title) db =
    committed (ensure_activity_group env activity_id host_id title u db) db
serve_chat env u (answer_message id accept) db =
    committed (respond_message_request env u id accept db) db
serve_chat env u (befriend to message source) db =
    committed (send_friend_request env u to message source db) db
serve_chat env u (answer_friend id accept) db =
    committed (respond_friend_request env u id accept db) db
serve_chat env u (unfriend id) db = committed (delete_friend u id db) db
serve_chat env u (rename id remark group_name) db =
    committed (update_friend u id remark group_name db) db

unfoldable pub serve_chats : List (ChatsEnv × ℕ × ChatRequest) → ChatsDb → ChatsDb
unfolding serve_chat
serve_chats [] db = db
serve_chats ((env, u, r) ∷ rs) db = serve_chats rs (serve_chat env u r db)

-- An invariant that each handler keeps is one of the requests.
module _ (P : ChatsDb → Type 0) where
  pub committed-Keeps :
      {A : Type 0} (m : Action ChatsDb A) (db : ChatsDb)
      → Keeps P m
      → P db
      → P (committed (m db) db)
  committed-Keeps m db k h = committed_of_commits P (m db) db (k.at db h) h
