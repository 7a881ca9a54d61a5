-- ===== src/Clubs/Membership.antt =====
-- Joining, leaving, removing and entering the chat keep clubs sound.
use dating_backend.Prelude.{
  ℕ, ◌≡◌, refl, true, false, Option, none, some, ◌&&◌, not, arith, Bool-cases, inl, inr,
}
use dating_backend.Shared.Errors.{app_error, user_limited, club_forbidden, club_not_found}
use dating_backend.Shared.Action.{Action, ◌>>=◌}
use dating_backend.Shared.Action.Keeps.{Yields, Keeps, Yields-guard, Yields-or_raise, Yields-bind}
use dating_backend.Shared.Table.{lookup, insert, lookup-insert_at}
use dating_backend.Shared.Pairs.{get, put, get-put, one_if}
use dating_backend.Shared.Users.{User, is_banned}
use dating_backend.Messaging.Transfers.{MemberStatus}
use dating_backend.Clubs.Data.{
  Club, ClubMember, ClubMemberStatus, ClubDb, is_inside, is_club_owner, is_in_circle, save_club,
  save_member,
}
use dating_backend.Clubs.Service.{
  ClubEnv, visible, get_club, is_member_inside, enter_club, join_club, leave_club, leave_as,
  remove_member, kick_member, club_chat, club_brief, is_out, is_refused, same_id, inside_only,
  may_remove, one_member_more, joined_member, ensure_conversation,
}
use dating_backend.Clubs.Manned.{leads, member_written}
use dating_backend.Clubs.Private.{IsPrivate, chats, club-IsPrivate}
use dating_backend.Clubs.Handlers.{IsSound, visible_found, ensured, removed}

outside_none : (o : Option ClubMember) → is_member_inside o ≡ false → one_if is_inside o ≡ 0
unfolding is_member_inside
outside_none none e = refl
outside_none (some m) e = ground (arith, e)

outside_follows : (o : Option ClubMember) → is_member_inside o ≡ false → leads o ≡ false
unfolding is_member_inside leads
outside_follows none e = refl
outside_follows (some m) e = ground (arith, e)

-- A user who comes in leaves the chats private.
inside-IsPrivate :
    (db : ClubDb) (c c' : Club) (u : ℕ) (m : ClubMember)
    → IsSound db
    → lookup c.id db.clubs ≡ some c
    → c'.conversation_id ≡ c.conversation_id
    → is_inside m ≡ true
    → IsPrivate (insert c.id c' db.clubs) (put c.id u m db.members) db.circle_members db.next_id
unfolding is_member_inside
inside-IsPrivate db c c' u m h found same inside =
    club-IsPrivate db.clubs db.members db.circle_members db.next_id h.private c.id c c'
      (put c.id u m db.members) db.circle_members found same
      (λ j w ne. ground (arith, ne, get-put c.id u j w m db.members)) (λ v w ne. refl)
      (λ v w e chatting. ground (
        arith,
        get-put c.id u c.id w m db.members,
        inside,
        h.private.private c.id v w c found e chatting,
      ))

pub inside_found :
    (o : Option ClubMember) (m : ClubMember)
    → inside_only o ≡ some m
    → (o ≡ some m) × (is_inside m ≡ true)
unfolding inside_only
inside_found none m e = cc
inside_found (some n) m e = ground (arith, e)

-- A handler on a club that the caller sees.
pub on_club :
    {A : Type 0} (R : A → ClubDb → Type 0) (viewer : Option ℕ) (club_id : ℕ)
    (f : Club → Action ClubDb A) (db : ClubDb)
    → IsSound db
    → ((c : Club) → lookup c.id db.clubs ≡ some c → Yields R (f c db))
    → Yields R ((get_club viewer club_id >>= f) db)
unfolding get_club
on_club R viewer club_id f db h k =
    Yields-or_raise R (visible viewer (lookup club_id db.clubs)) (app_error club_not_found 404) f db
      λ c e.
        let found = visible_found viewer (lookup club_id db.clubs) c e in
        let keyed = (h.manned.manned club_id c found).keyed in k c (ground (arith, found, keyed))

module _ (env : ClubEnv) where
  entering :
      (c : Club) (u : ℕ) (o : Option ClubMember) (db : ClubDb)
      → IsSound db
      → lookup c.id db.clubs ≡ some c
      → get c.id u db.members ≡ o
      → is_member_inside o ≡ false
      → Yields (λ _. IsSound) (enter_club env c u o db)
  unfolding enter_club save_member save_club club_brief joined_member one_member_more
      is_member_inside is_inside leads is_club_owner
  entering c u o db h found at out =
      let c' = one_member_more c in
      let m = joined_member env o in
      Yields-bind (λ _. IsSound) (λ _. IsSound) (ensure_conversation env c' u) _ _
        (ensured env u c' _
          (record {
            manned =
                member_written db.clubs db.members c.id h.manned c c' u m found refl refl refl
                  (ground (arith, at, outside_none o out))
                  (λ is_u lives. absurd (
                    ground (
                      arith,
                      (h.manned.manned c.id c found).led u is_u lives,
                      at,
                      outside_follows o out,
                    )));
            private = inside-IsPrivate db c c' u m h found refl refl;
          })
          (record {
            stored = lookup-insert_at c.id c.id c' db.clubs refl;
            inside = ground (arith, get-put c.id u c.id u m db.members);
          }))
        λ _ _ h'. h'

  pub join-Keeps : (user : User) (club_id : ℕ) → Keeps IsSound (join_club env user club_id)
  unfolding join_club club_brief
  join-Keeps user club_id = record {
    at = λ db h.
        on_club (λ _. IsSound) none club_id _ db h
          λ c found.
            Yields-guard (λ _. IsSound) (is_banned user.status) (app_error user_limited 403) _ db
              λ _. elim (Bool-cases (is_member_inside (get c.id user.id db.members))) [
                | inl already ↦ rw already h
                | inr new ↦ rw new (
                    Yields-guard (λ _. IsSound) (is_out (get c.id user.id db.members))
                      (app_error club_forbidden 403) _ db
                      λ _.
                        Yields-guard (λ _. IsSound) (is_refused env c user.id)
                          (app_error club_forbidden 403) _ db
                          λ _. entering c user.id (get c.id user.id db.members) db h found refl new)
              ];
  }

  leaving :
      (c : Club) (u : ℕ) (o : Option ClubMember) (db : ClubDb)
      → IsSound db
      → lookup c.id db.clubs ≡ some c
      → get c.id u db.members ≡ o
      → Yields (λ _. IsSound) (leave_as c u o db)
  unfolding leave_as club_brief remove_member save_member save_club same_id is_inside chats
      is_in_circle
  leaving c u none db h found at = h
  leaving c u (some m) db h found at = elim (Bool-cases (is_inside m)) [
    | inr gone ↦ rw gone h
    | inl inside ↦ rw inside (
        Yields-guard (λ _. IsSound) (is_club_owner m && same_id c.creator_id (some u))
          (app_error club_forbidden 409) _ db
          λ no_owner.
            removed db h c found u m at inside (λ e. ground (arith, no_owner, e))
              ClubMemberStatus.left MemberStatus.left refl refl)
  ]

  pub leave-Keeps : (user : User) (club_id : ℕ) → Keeps IsSound (leave_club user club_id)
  unfolding leave_club
  leave-Keeps user club_id = record {
    at = λ db h.
        on_club (λ _. IsSound) (some user.id) club_id _ db h
          λ c found. leaving c user.id (get c.id user.id db.members) db h found refl;
  }

  pub kick-Keeps :
      (user : User) (club_id target : ℕ) → Keeps IsSound (kick_member user club_id target)
  unfolding kick_member remove_member save_member save_club is_inside chats is_in_circle
  kick-Keeps user club_id target = record {
    at = λ db h.
        on_club (λ _. IsSound) (some user.id) club_id _ db h
          λ c found.
            Yields-guard (λ _. IsSound) (not (may_remove (get c.id user.id db.members)))
              (app_error club_forbidden 403) _ db
              λ _.
                Yields-or_raise (λ _. IsSound) (inside_only (get c.id target db.members))
                  (app_error club_not_found 404) _ db
                  λ victim e.
                    Yields-guard (λ _. IsSound) (is_club_owner victim)
                      (app_error club_forbidden 403) _ db
                      λ no_owner.
                        let (at, inside) = inside_found (get c.id target db.members) victim e in
                        removed db h c found target victim at inside (λ _. no_owner)
                          ClubMemberStatus.kicked MemberStatus.kicked refl refl;
  }

  pub chat-Keeps : (user : User) (club_id : ℕ) → Keeps IsSound (club_chat env user club_id)
  unfolding club_chat
  chat-Keeps user club_id = record {
    at = λ db h.
        on_club (λ _. IsSound) (some user.id) club_id _ db h
          λ c found.
            Yields-guard (λ _. IsSound) (not (is_member_inside (get c.id user.id db.members)))
              (app_error club_forbidden 403) _ db
              λ inside.
                ensured env user.id c db h
                  (record { stored = found; inside = ground (arith, inside) });
  }
