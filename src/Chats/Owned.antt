-- ===== src/Chats/Owned.antt =====
-- The owner that a conversation names leads it: an active member in the role of owner.
use dating_backend.Prelude.{
  ℕ, ◌≡◌, ◌≢◌, refl, Bool, true, false, ◌&&◌, Option, none, some, arith, ◌==◌, Bool-cases, inl, inr,
  ==_iff, sym,
}
use dating_backend.Shared.Table.{Table, lookup, insert, lookup-insert}
use dating_backend.Shared.Pairs.{PairTable, get, put, get-put}
use dating_backend.Messaging.Transfers.{is_dissolved}
use dating_backend.Chats.Data.{Chat, ChatMember, ChatsDb, is_active_row, is_owner, is_circle}

unfoldable pub is_lead : Option ChatMember → Bool
is_lead none = false
is_lead (some m) = is_active_row m && is_owner m.role

pub record IsLedChat (k : ℕ) (c : Chat) (members : PairTable ChatMember) : Type 0 where
  pub led :
      (u : ℕ)
      → is_circle c.kind ≡ false
      → is_dissolved c.status ≡ false
      → c.owner_id ≡ some u
      → is_lead (get k u members) ≡ true

pub record IsOwned (chats : Table Chat) (members : PairTable ChatMember) : Type 0 where
  pub owned : (k : ℕ) (c : Chat) → lookup k chats ≡ some c → IsLedChat k c members

-- Every conversation of a user's own, so none of a club, has its owner in it.
pub record HasOwners (db : ChatsDb) : Type 0 where
  pub chats_owned : IsOwned db.chats db.members

module _ (chats : Table Chat) (members : PairTable ChatMember) (h : IsOwned chats members) where
  -- A chat and its members change, and the others do not.
  pub one_changed :
      (k : ℕ) (c' : Chat) (members' : PairTable ChatMember)
      → IsLedChat k c' members'
      → ((j u : ℕ) → j ≢ k → get j u members' ≡ get j u members)
      → IsOwned (insert k c' chats) members'
  one_changed k c' members' now_led same = record {
    owned = λ j b e. elim (Bool-cases (k == j)) [
      | inl this ↦
          let at : k ≡ j = (==_iff k j).0 this in
          let is_c : c' ≡ b = ground (arith, lookup-insert k j c' chats, this, e) in
          rw (sym at, sym is_c) now_led
      | inr other ↦
          let ne : j ≢ k = λ at. ground (arith, other) in
          let old = h.owned j b (ground (arith, lookup-insert k j c' chats, other, e)) in
          record { led = λ u own lives is_u. ground (arith, old.led u own lives is_u, same j u ne) }
    ];
  }

  pub member_written :
      (k u : ℕ) (m : ChatMember)
      → (is_lead (get k u members) ≡ true → is_lead (some m) ≡ true)
      → IsOwned chats (put k u m members)
  member_written k u m keeps = record {
    owned = λ j b e. record {
      led = λ v own lives is_v. elim (Bool-cases (k == j && u == v)) [
        | inl this ↦
            let at : k ≡ j = ground (arith, this) in
            let who : u ≡ v = ground (arith, this) in
            let was : is_lead (get k u members) ≡ true =
              rw (at, who) ((h.owned j b e).led v own lives is_v) in
            ground (arith, get-put k u j v m members, this, keeps was)
        | inr other ↦
            ground (arith, get-put k u j v m members, other, (h.owned j b e).led v own lives is_v)
      ];
    };
  }

  -- The conversation's row changed, but not who owns it.
  pub chat_written :
      (k : ℕ) (c c' : Chat)
      → lookup k chats ≡ some c
      → c'.kind ≡ c.kind
      → c'.owner_id ≡ c.owner_id
      → c'.status ≡ c.status
      → IsOwned (insert k c' chats) members
  chat_written k c c' found kind owner status =
      one_changed k c' members
        (record {
          led = λ u own lives is_u.
              (h.owned k c found).led u (ground (arith, own, kind)) (ground (arith, lives, status))
                (ground (arith, is_u, owner));
        })
        (λ j u ne. refl)
