-- ===== src/Clubs/Handlers.antt =====
-- Joining, leaving, removing and dissolving keep the members of clubs and of their chats in step.
use dating_backend.Prelude.{
  ℕ, ◌+◌, ◌≡◌, ◌≢◌, refl, true, false, Option, none, some, arith, ◌==◌, Bool-cases, inl, inr,
  Option-cases,
}
use dating_backend.Shared.Action.Keeps.{Yields, Yields-bind}
use dating_backend.Shared.Table.{Table, lookup, insert, lookup-insert_at}
use dating_backend.Shared.Pairs.{PairTable, get, put, get-put, one_if-le-count_of}
use dating_backend.Messaging.Transfers.{MemberStatus}
use dating_backend.Clubs.Data.{
  Club, ClubMember, ClubMemberStatus, Circle, CircleMember, ClubDb, is_inside, is_in_circle,
  is_club_owner, save_club, save_circle_member,
}
use dating_backend.Clubs.Service.{
  ClubEnv, visible, is_member_inside, circle_of, open_circle, ensure_conversation, dropped,
  one_member_less,
}
use dating_backend.Clubs.Manned.{IsManned, leads, member_written, club_written}
use dating_backend.Clubs.Private.{
  IsPrivate, chats, club-IsPrivate, entered-IsPrivate, opened-IsPrivate,
}

pub record IsSound (db : ClubDb) : Type 0 where
  pub manned : IsManned db.clubs db.members
  pub private : IsPrivate db.clubs db.members db.circle_members db.next_id

-- The club's row is stored, and this user is inside.
pub record IsInside (u : ℕ) (c : Club) (db : ClubDb) : Type 0 where
  pub stored : lookup c.id db.clubs ≡ some c
  pub inside : is_member_inside (get c.id u db.members) ≡ true

pub visible_found :
    (viewer : Option ℕ) (o : Option Club) (c : Club) → visible viewer o ≡ some c → o ≡ some c
unfolding visible
visible_found viewer none c e = cc
visible_found viewer (some b) c e = ground (arith, e)

chat_at :
    (o : Option ℕ) (t : Table Circle) (v : ℕ) (conv : Circle)
    → circle_of o t ≡ some (v, conv)
    → o ≡ some v
unfolding circle_of
chat_at none t v conv e = cc
chat_at (some w) t v conv e = ground (arith, e)

module _ (env : ClubEnv) (u : ℕ) where
  -- The chat's id and the club with it.
  abbrev IsOpened : ℕ × Club → ClubDb → Type 0
  IsOpened r db = IsSound db × (r.1.conversation_id ≡ some r.0) × IsInside u r.1 db

  new_chat :
      (c : Club) (db : ClubDb)
      → IsSound db
      → IsInside u c db
      → Yields IsOpened (open_circle env c u none db)
  unfolding open_circle save_club
  new_chat c db h i =
      let c' : Club = record c { conversation_id = some db.next_id } in
      (
        record {
          manned = club_written db.clubs db.members c.id h.manned c c' i.stored refl refl refl refl;
          private =
              opened-IsPrivate db.clubs db.members db.circle_members db.next_id h.private c.id
                (db.next_id + 1) c' (ground arith)
                (ground (arith, h.private.numbered c.id, i.stored))
                (λ v e. (ground (arith, e), ground (arith, e)));
        },
        refl,
        record { stored = lookup-insert_at c.id c.id c' db.clubs refl; inside = i.inside },
      )

  found_chat :
      (c : Club) (v : ℕ) (conv : Circle) (db : ClubDb)
      → c.conversation_id ≡ some v
      → IsSound db
      → IsInside u c db
      → Yields IsOpened (open_circle env c u (some (v, conv)) db)
  unfolding open_circle
  found_chat c v conv db at h i = (
    record { manned = h.manned; private = h.private },
    at,
    record { stored = i.stored; inside = i.inside },
  )

  opened :
      (found : Option (ℕ × Circle)) (c : Club) (db : ClubDb)
      → circle_of c.conversation_id db.circles ≡ found
      → IsSound db
      → IsInside u c db
      → Yields IsOpened (open_circle env c u found db)
  opened none c db e h i = new_chat c db h i
  opened (some (v, conv)) c db e h i =
      found_chat c v conv db (chat_at c.conversation_id db.circles v conv e) h i

  pub ensured :
      (c : Club) (db : ClubDb)
      → IsSound db
      → IsInside u c db
      → Yields (λ _. IsSound) (ensure_conversation env c u db)
  unfolding ensure_conversation save_circle_member
  ensured c db h i =
      Yields-bind IsOpened (λ _. IsSound)
        (open_circle env c u (circle_of c.conversation_id db.circles)) _ db
        (opened (circle_of c.conversation_id db.circles) c db refl h i)
        λ r db' (h', at, i'). record {
          manned = h'.manned;
          private =
              entered-IsPrivate db'.clubs db'.members db'.circle_members db'.next_id h'.private
                r.1.id r.0 u r.1 _ i'.stored at i'.inside;
        }

-- A member's row, the count and the chat's row, written together.
module _ (db : ClubDb) (h : IsSound db) (c : Club) (found : lookup c.id db.clubs ≡ some c) (u : ℕ)
    (m : ClubMember) (at : get c.id u db.members ≡ some m) (was_inside : is_inside m ≡ true)
    (no_leader : c.creator_id ≡ some u → is_club_owner m ≡ false) where
  away_chat :
      (status : MemberStatus) (o : Option ℕ) (v w : ℕ) (t : PairTable CircleMember)
      → o ≢ some v
      → get v w (dropped status u o t) ≡ get v w t
  unfolding dropped
  away_chat status none v w t ne = refl
  away_chat status (some x) v w t ne = elim (Option-cases (get x u t)) [
    | inl gone ↦ rw (gone, dropped) refl
    | inr (r, there) ↦
        let ne' : x ≢ v = λ same. ground (arith, ne, same) in
        rw (there, dropped) (ground (arith, get-put x u v w (record r { status = status }) t, ne'))
  ]

  other_user :
      (status : MemberStatus) (o : Option ℕ) (v w : ℕ) (t : PairTable CircleMember)
      → u ≢ w
      → get v w (dropped status u o t) ≡ get v w t
  unfolding dropped
  other_user status none v w t ne = refl
  other_user status (some x) v w t ne = elim (Option-cases (get x u t)) [
    | inl gone ↦ rw (gone, dropped) refl
    | inr (r, there) ↦
        rw (there, dropped) (ground (arith, get-put x u v w (record r { status = status }) t, ne))
  ]

  silent_chat :
      (status : MemberStatus) (v : ℕ) (t : PairTable CircleMember)
      → chats (some (record { is_owner = false; status = status })) ≡ false
      → chats (get v u (dropped status u (some v) t)) ≡ false
  unfolding dropped chats is_in_circle
  silent_chat status v t out = elim (Option-cases (get v u t)) [
    | inl gone ↦ rw (gone, dropped) (rw gone refl)
    | inr (r, there) ↦
        rw (there, dropped) (ground (arith, get-put v u v u (record r { status = status }) t, out))
  ]

  pub removed :
      (status : ClubMemberStatus) (chat_status : MemberStatus)
      → is_inside (record m { status = status }) ≡ false
      → chats (some (record { is_owner = false; status = chat_status })) ≡ false
      → IsSound (record db {
        clubs = insert c.id (one_member_less c) db.clubs;
        members = put c.id u (record m { status = status }) db.members;
        circle_members = dropped chat_status u c.conversation_id db.circle_members;
      })
  unfolding one_member_less leads
  removed status chat_status out silent =
      let m' : ClubMember = record m { status = status } in
      let old = h.manned.manned c.id c found in
      record {
        manned =
            member_written db.clubs db.members c.id h.manned c (one_member_less c) u m' found refl
              refl refl
              (ground (
                arith,
                one_if-le-count_of is_inside c.id u db.members,
                old.counted,
                at,
                was_inside,
                out,
              ))
              (λ is_u lives. absurd (ground (arith, old.led u is_u lives, at, no_leader is_u)));
        private =
            club-IsPrivate db.clubs db.members db.circle_members db.next_id h.private c.id c
              (one_member_less c) _ _ found refl
              (λ j w ne. ground (arith, ne, get-put c.id u j w m' db.members))
              (λ v w ne. away_chat chat_status c.conversation_id v w db.circle_members ne)
              (λ v w e chatting. elim (Bool-cases (u == w)) [
                | inl this ↦
                    ground
                      (arith, this, e, chatting, silent_chat chat_status v db.circle_members silent)
                | inr other ↦
                    let ne : u ≢ w = λ same. ground (arith, same, other) in
                    let before =
                      other_user chat_status c.conversation_id v w db.circle_members ne in
                    ground (
                      arith,
                      other,
                      get-put c.id u c.id w m' db.members,
                      before,
                      chatting,
                      h.private.private c.id v w c found e,
                    )
              ]);
      }
