-- ===== src/Chats/Departures.antt =====
-- `leave_or_kick`, `dissolve` and the writes of members keep every chat's owner in it.
use dating_backend.Chats.Members.{hand_over, leave_chat, heir_of, reassign_owner_or_dissolve}
use dating_backend.Prelude.{
  ℕ, ◌≡◌, refl, true, false, ◌&&◌, not, Option, none, some, arith, ◌==◌, Bool-cases, inl, inr,
}
use dating_backend.Shared.Errors.{app_error, chat_forbidden, chat_invalid}
use dating_backend.Shared.Action.Keeps.{Yields, Keeps, Yields-guard, Yields-bind}
use dating_backend.Shared.Table.{lookup}
use dating_backend.Shared.Pairs.{PairTable, get, put, get-put, get-update_of}
use dating_backend.Messaging.Transfers.{MemberStatus, is_dissolved}
use dating_backend.Chats.Data.{
  Chat, ChatMember, ChatsDb, is_active_row, is_owner, is_admin, is_direct, is_group, save_chat,
  save_chat_member,
}
use dating_backend.Chats.Members.{
  heir_of, remains_in, hand_over, reassign_owner_or_dissolve, leave_chat, put_out, is_owner_row,
  is_protected, kick_from, may_manage, active_row, active_member, leave_or_hand_on, leave_or_kick,
  hosts, club_of, gone_row, dissolve_chat,
}
use dating_backend.Chats.Owned.{HasOwners}
use dating_backend.Chats.Leaving.{
  on_member, put_out_row, closed, handed, earliest_passes, active_found,
}

heir_active :
    (k leaving : ℕ) (t : PairTable ChatMember) (u : ℕ) (m : ChatMember)
    → heir_of k leaving t ≡ some (u, m)
    → is_active_row m ≡ true
unfolding heir_of remains_in
heir_active k leaving t u m e = ground (
  arith,
  e,
  earliest_passes (λ v n. remains_in leaving v n && is_admin n.role) k t u m,
  earliest_passes (remains_in leaving) k t u m,
)

module _ (db : ChatsDb) (h : HasOwners db) (k : ℕ) (c : Chat)
    (found : lookup k db.chats ≡ some c) where
  handing :
      (leaving : ℕ) (gone : ChatMember) (o : Option (ℕ × ChatMember))
      → ((u : ℕ) (m : ChatMember) → o ≡ some (u, m) → is_active_row m ≡ true)
      → Yields
          (λ _. HasOwners)
          (hand_over k c o (record db { members = put k leaving gone db.members }))
  unfolding hand_over save_chat save_chat_member is_dissolved
  handing leaving gone none active =
      closed db h k c found _ _ refl
        (λ j u ne. ground (arith, ne, get-put k leaving j u gone db.members))
  handing leaving gone (some (u, m)) active =
      handed db h k c found leaving u gone m (active u m refl)

  left_chat :
      (u : ℕ) (m : ChatMember)
      → get k u db.members ≡ some m
      → Yields (λ _. HasOwners) (leave_chat u k c m db)
  unfolding leave_chat reassign_owner_or_dissolve save_chat_member
  left_chat u m at = elim (Bool-cases (is_owner m.role)) [
    | inr plain ↦ rw plain (put_out_row db h k u m _ at plain)
    | inl leading ↦ rw leading (
        let gone : ChatMember = record m { status = MemberStatus.left } in
        Yields-bind (λ _. HasOwners) (λ _. HasOwners) (reassign_owner_or_dissolve k c u) _ _
          (handing u gone _ (heir_active k u (put k u gone db.members))) λ _ _ h'. h')
  ]

  gone_with :
      (u : ℕ) (m : ChatMember) (o : Option ℕ)
      → get k u db.members ≡ some m
      → Yields (λ _. HasOwners) (leave_or_hand_on u k c m o db)
  unfolding leave_or_hand_on
  gone_with u m none at = left_chat u m at
  gone_with u m (some club_id) at = h

  put_out_of :
      (target : ℕ) (status : MemberStatus) (victim : Option ChatMember)
      → is_owner_row victim ≡ false
      → active_row (get k target db.members) ≡ victim
      → Yields (λ _. HasOwners) (put_out k target status victim db)
  unfolding put_out is_owner_row save_chat_member
  put_out_of target status none plain at = h
  put_out_of target status (some m) plain at =
      put_out_row db h k target m _ (active_found (get k target db.members) m at).0 plain

  kicked_from : (target : ℕ) (me : ChatMember) → Yields (λ _. HasOwners) (kick_from k target me db)
  unfolding kick_from active_member
  kicked_from target me =
      let victim = active_row (get k target db.members) in
      Yields-guard (λ _. HasOwners) (not (may_manage me)) (app_error chat_forbidden 403) _ db
        λ _.
          Yields-guard (λ _. HasOwners) (is_owner_row victim) (app_error chat_forbidden 403) _ db
            λ plain.
              Yields-guard (λ _. HasOwners) (is_protected me victim) (app_error chat_forbidden 403)
                _ db
                λ _.
                  Yields-bind (λ _. HasOwners) (λ _. HasOwners)
                    (put_out k target MemberStatus.kicked victim) _ db
                    (put_out_of target MemberStatus.kicked victim plain refl) λ _ _ h'. h'

pub leave_or_kick-Keeps :
    (user_id chat_id target : ℕ) → Keeps HasOwners (leave_or_kick user_id chat_id target)
unfolding leave_or_kick
leave_or_kick-Keeps user_id chat_id target = record {
  at = λ db h.
      on_member (λ _. HasOwners) user_id chat_id _ db
        λ c m found lives at active.
          Yields-guard (λ _. HasOwners) (is_direct c.kind) (app_error chat_invalid 400) _ db
            λ _. elim (Bool-cases (target == user_id)) [
              | inr other ↦ rw other (kicked_from db h chat_id c found target m)
              | inl own ↦ rw own (
                  Yields-guard (λ _. HasOwners) (hosts user_id c) (app_error chat_forbidden 400) _
                    db λ _. gone_with db h chat_id c found user_id m (club_of c) at)
            ];
}

pub dissolve-Keeps : (user_id chat_id : ℕ) → Keeps HasOwners (dissolve_chat user_id chat_id)
unfolding dissolve_chat save_chat is_dissolved
dissolve-Keeps user_id chat_id = record {
  at = λ db h.
      on_member (λ _. HasOwners) user_id chat_id _ db
        λ c m found lives at active.
          Yields-guard (λ _. HasOwners) (not (is_group c.kind)) (app_error chat_invalid 400) _ db
            λ _.
              Yields-guard (λ _. HasOwners) (not (is_owner m.role)) (app_error chat_forbidden 403) _
                db
                λ _.
                  closed db h chat_id c found _ _ refl
                    (λ j u ne. ground (arith, ne, get-update_of gone_row chat_id j u db.members));
}
