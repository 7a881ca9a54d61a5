-- ===== src/Chats/Leaving.antt =====
-- Whoever leaves, is put out or comes in, the chats of the others keep their owner.
use dating_backend.Prelude.{
  ℕ, ◌≡◌, ◌≢◌, refl, Bool, true, false, Option, none, some, [], ◌∷◌, arith, Bool-cases, inl, inr,
}
use dating_backend.Shared.Errors.{app_error, chat_not_found, chat_forbidden}
use dating_backend.Shared.Action.{Action, ◌>>=◌}
use dating_backend.Shared.Action.Keeps.{Yields, Yields-or_raise, Yields-bind}
use dating_backend.Shared.Table.{lookup, insert}
use dating_backend.Shared.Pairs.{PairTable, get, put, get-put}
use dating_backend.Messaging.Transfers.{is_dissolved}
use dating_backend.Chats.Data.{Chat, ChatMember, ChatsDb, MemberRole, is_active_row, is_owner}
use dating_backend.Chats.Members.{
  live_chat, active_row, active_member, chat_of_member, added_member, new_member, earliest,
}
use dating_backend.Chats.Owned.{is_lead, HasOwners, one_changed, member_written}

live_found :
    (o : Option Chat) (c : Chat)
    → live_chat o ≡ some c
    → (o ≡ some c) × (is_dissolved c.status ≡ false)
unfolding live_chat
live_found none c e = cc
live_found (some b) c e = ground (arith, e)

pub active_found :
    (o : Option ChatMember) (m : ChatMember)
    → active_row o ≡ some m
    → (o ≡ some m) × (is_active_row m ≡ true)
unfolding active_row
active_found none m e = cc
active_found (some n) m e = ground (arith, e)

-- A handler on a conversation that the caller is in.
pub on_member :
    {A : Type 0} (R : A → ChatsDb → Type 0) (user_id chat_id : ℕ)
    (f : Chat × ChatMember → Action ChatsDb A) (db : ChatsDb)
    → ((c : Chat) (m : ChatMember)
        → lookup chat_id db.chats ≡ some c
        → is_dissolved c.status ≡ false
        → get chat_id user_id db.members ≡ some m
        → is_active_row m ≡ true
        → Yields R (f (c, m) db))
    → Yields R ((chat_of_member user_id chat_id >>= f) db)
unfolding chat_of_member active_member
on_member R user_id chat_id f db k =
    Yields-bind
      (λ r s.
        (s ≡ db)
        × ((lookup chat_id db.chats ≡ some r.0)
            × ((is_dissolved r.0.status ≡ false)
                × ((get chat_id user_id db.members ≡ some r.1) × (is_active_row r.1 ≡ true)))))
      R (chat_of_member user_id chat_id) f db
      (Yields-or_raise _ (live_chat (lookup chat_id db.chats)) (app_error chat_not_found 404) _ db
        λ c is_c.
          Yields-or_raise _ (active_row (get chat_id user_id db.members))
            (app_error chat_forbidden 403) _ db
            λ m is_m.
              let (found, lives) = live_found (lookup chat_id db.chats) c is_c in
              let (at, active) = active_found (get chat_id user_id db.members) m is_m in
              (refl, (found, (lives, (at, active)))))
      λ r s q. rw (q.0) (k r.0 r.1 q.1.0 q.1.1.0 q.1.1.1.0 q.1.1.1.1)

module _ (db : ChatsDb) (h : HasOwners db) where
  -- The row of a member written anew, in the role and with the status that it had.
  pub same_standing :
      (k u : ℕ) (m m' : ChatMember)
      → get k u db.members ≡ some m
      → m'.role ≡ m.role
      → m'.status ≡ m.status
      → HasOwners (record db { members = put k u m' db.members })
  unfolding is_lead is_active_row
  same_standing k u m m' at role status = record {
    chats_owned =
        member_written db.chats db.members h.chats_owned k u m'
          (λ was. ground (arith, was, at, role, status));
  }

  pub added :
      (now k u : ℕ) (role : MemberRole)
      → HasOwners
          (record db { members = put k u (added_member now role (get k u db.members)) db.members })
  unfolding is_lead is_active_row added_member is_owner
  added now k u role = record {
    chats_owned =
        member_written db.chats db.members h.chats_owned k u _ (keeps_lead (get k u db.members));
  }
    where
      keeps_lead :
          (o : Option ChatMember)
          → is_lead o ≡ true
          → is_lead (some (added_member now role o)) ≡ true
      keeps_lead none e = cc
      keeps_lead (some m) e = elim (Bool-cases (is_owner role)) [
        | inl leading ↦ ground (arith, e, leading)
        | inr plain ↦ ground (arith, e, plain)
      ]

  -- A conversation opened by its owner.
  pub opened :
      (now k u : ℕ) (c : Chat)
      → c.owner_id ≡ some u
      → HasOwners (record db {
        chats = insert k c db.chats;
        members = put k u (added_member now MemberRole.owner (get k u db.members)) db.members;
      })
  unfolding is_lead is_active_row added_member new_member is_owner
  opened now k u c own = record {
    chats_owned =
        one_changed db.chats db.members h.chats_owned k c _
          (record {
            led = λ v _ _ is_v.
                let who : u ≡ v = ground (arith, own, is_v) in
                ground (
                  arith,
                  get-put k u k v (added_member now MemberRole.owner (get k u db.members))
                      db.members,
                  who,
                  leads_now (get k u db.members),
                );
          })
          (λ j v ne. ground (
            arith,
            ne,
            get-put k u j v (added_member now MemberRole.owner (get k u db.members)) db.members,
          ));
  }
    where
      leads_now :
          (o : Option ChatMember) → is_lead (some (added_member now MemberRole.owner o)) ≡ true
      leads_now none = refl
      leads_now (some m) = refl

  -- A member who leads no conversation of its own goes.
  pub put_out_row :
      (k u : ℕ) (m m' : ChatMember)
      → get k u db.members ≡ some m
      → is_owner m.role ≡ false
      → HasOwners (record db { members = put k u m' db.members })
  unfolding is_lead
  put_out_row k u m m' at plain = record {
    chats_owned =
        member_written db.chats db.members h.chats_owned k u m'
          (λ was. ground (arith, was, at, plain));
  }

  module _ (k : ℕ) (c : Chat) (found : lookup k db.chats ≡ some c) where
    -- The chat closed, and its members' rows written.
    pub closed :
        (c' : Chat) (members' : PairTable ChatMember)
        → is_dissolved c'.status ≡ true
        → ((j u : ℕ) → j ≢ k → get j u members' ≡ get j u db.members)
        → HasOwners (record db { chats = insert k c' db.chats; members = members' })
    closed c' members' dead same = record {
      chats_owned =
          one_changed db.chats db.members h.chats_owned k c' members'
            (record { led = λ u _ lives _. absurd (ground (arith, dead, lives)) }) same;
    }

    -- An owner leaves, and the chat is handed to an active member.
    pub handed :
        (leaving u : ℕ) (gone m : ChatMember)
        → is_active_row m ≡ true
        → HasOwners (record db {
          chats = insert k (record c { owner_id = some u }) db.chats;
          members = put k u (record m { role = MemberRole.owner }) (put k leaving gone db.members);
        })
    unfolding is_lead is_active_row is_owner
    handed leaving u gone m active = record {
      chats_owned =
          one_changed db.chats db.members h.chats_owned k (record c { owner_id = some u }) _
            (record {
              led = λ v _ _ is_v. ground (
                arith,
                is_v,
                active,
                get-put k u k v (record m { role = MemberRole.owner })
                    (put k leaving gone db.members),
              );
            })
            (λ j v ne. ground (
              arith,
              ne,
              get-put k u j v (record m { role = MemberRole.owner })
                  (put k leaving gone db.members),
              get-put k leaving j v gone db.members,
            ));
    }

-- The row that `earliest` finds passes its test.
pub earliest_passes :
    (p : ℕ → ChatMember → Bool) (k : ℕ) (t : PairTable ChatMember) (u : ℕ) (m : ChatMember)
    → earliest p k t ≡ some (u, m)
    → p u m ≡ true
unfolding earliest
earliest_passes p k [] u m e = cc
earliest_passes p k ((i, v, n) ∷ t) u m e = ground (arith, e, earliest_passes p k t u m)
