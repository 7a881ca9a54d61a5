-- ===== src/Clubs/Opening.antt =====
-- Founding, dissolving and the console's actions keep clubs sound.
use dating_backend.Clubs.Tags.{clean_tags}
use dating_backend.Shared.Errors.{
  app_error, club_forbidden, user_limited, club_invalid, club_not_found, validation_error,
}
use dating_backend.Clubs.Manned.{club_written, leads, members_put_out, founded}
use dating_backend.Shared.Table.{insert, rows, lookup, lookup-insert_at}
use dating_backend.Clubs.Membership.{on_club}
use dating_backend.Clubs.Handlers.{IsSound, ensured}
use dating_backend.Shared.Action.Keeps.{
  Keeps, Yields-map, Yields-or_raise, Yields-guard, Yields, Yields-bind,
}
use dating_backend.Shared.Pairs.{PairTable, get, get-update_of, update_of, get-put, put}
use dating_backend.Clubs.Private.{founder-IsPrivate, chats, club-IsPrivate, opened-IsPrivate}
use dating_backend.Shared.Users.{User, is_active_user}
use dating_backend.Clubs.Data.{
  save_club, is_inside, ClubMember, save_member, is_in_circle, Club, CircleMember, ClubDb,
  is_club_owner, is_dissolved_club,
}
use dating_backend.Clubs.Founding.{
  is_well_formed, is_own_club, has_name, hide, unhide, dissolve, noted, admin_set_status,
  found_club, new_club, founder, ask_review, create_chosen, create_club, create_new, set_status,
  ClubAction, create_again,
}
use dating_backend.Clubs.Service.{
  ClubEnv, left_row, dissolve_writes, all_left, dissolve_club, dissolved_club, club_brief, same_id,
  is_member_inside, ClubCreate, ensure_conversation, ClubBrief, is_blocked,
}
use dating_backend.Messaging.Transfers.{MemberStatus}
use dating_backend.Prelude.{
  ℕ, ◌+◌, ◌≡◌, refl, Option, false, Bool-cases, ◌≢◌, some, inl, arith, ◌||◌, inr, not, none, max,
  String, Option-cases, leb, length, ltb,
}

-- The row may be written over the club's row: what its soundness rests on is the same.
record MayReplace (c' : Club) (db : ClubDb) : Type 0 where
  sound : IsSound db
  row : Club
  stored : lookup c'.id db.clubs ≡ some row
  creator : c'.creator_id ≡ row.creator_id
  lives : c'.dissolved_at ≡ row.dissolved_at
  count : c'.member_count ≡ row.member_count
  chat : c'.conversation_id ≡ row.conversation_id

replaced :
    (remark : Option String) (c' : Club) (db : ClubDb)
    → MayReplace c' db
    → IsSound (record db { clubs = insert (noted remark c').id (noted remark c') db.clubs })
unfolding noted
replaced none c' db may = record {
  manned =
      club_written db.clubs db.members c'.id may.sound.manned may.row c' may.stored refl may.creator
        may.lives may.count;
  private =
      club-IsPrivate db.clubs db.members db.circle_members db.next_id may.sound.private c'.id
        may.row c' db.members db.circle_members may.stored may.chat (λ j u ne. refl)
        (λ v u ne. refl) (λ v u e. may.sound.private.private c'.id v u may.row may.stored e);
}
replaced (some remark) c' db may = record {
  manned =
      club_written db.clubs db.members c'.id may.sound.manned may.row (noted (some remark) c')
        may.stored refl may.creator may.lives may.count;
  private =
      club-IsPrivate db.clubs db.members db.circle_members db.next_id may.sound.private c'.id
        may.row (noted (some remark) c') db.members db.circle_members may.stored may.chat
        (λ j u ne. refl) (λ v u ne. refl)
        (λ v u e. may.sound.private.private c'.id v u may.row may.stored e);
}

everyone_left :
    (o : Option ℕ) (v u : ℕ) (t : PairTable CircleMember)
    → o ≡ some v
    → chats (get v u (all_left o t)) ≡ false
unfolding all_left chats is_in_circle
everyone_left none v u t e = cc
everyone_left (some w) v u t e =
    ground (arith, get-update_of (λ m. record m { status = MemberStatus.left }) w v u t, e)

others_stay :
    (o : Option ℕ) (v u : ℕ) (t : PairTable CircleMember)
    → o ≢ some v
    → get v u (all_left o t) ≡ get v u t
unfolding all_left
others_stay none v u t ne = refl
others_stay (some w) v u t ne =
    let ne' : v ≢ w = λ same. ground (arith, ne, same) in
    ground (arith, get-update_of (λ m. record m { status = MemberStatus.left }) w v u t, ne')

left_outside : (m : ClubMember) → is_inside (left_row m) ≡ false
unfolding left_row is_inside
left_outside m = elim (Bool-cases (is_inside m)) [
  | inl inside ↦ rw inside refl
  | inr out ↦ rw out out
]

module _ (env : ClubEnv) where
  pub dissolving :
      (c : Club) (db : ClubDb)
      → IsSound db
      → lookup c.id db.clubs ≡ some c
      → Yields
          (λ c' db'. IsSound db' × (lookup c'.id db'.clubs ≡ some c'))
          (dissolve_writes env c db)
  unfolding dissolve_writes save_club dissolved_club
  dissolving c db h found =
      let c' = dissolved_club env c in
      (
        record {
          manned =
              members_put_out db.clubs db.members c.id h.manned c' left_row env.now refl refl refl
                left_outside;
          private =
              club-IsPrivate db.clubs db.members db.circle_members db.next_id h.private c.id c c'
                (update_of left_row c.id db.members) (all_left c.conversation_id db.circle_members)
                found refl
                (λ j u ne. ground (arith, ne, get-update_of left_row c.id j u db.members))
                (λ v u ne. others_stay c.conversation_id v u db.circle_members ne)
                (λ v u e chatting. absurd (
                  ground
                    (arith, chatting, everyone_left c.conversation_id v u db.circle_members e)));
        },
        lookup-insert_at c.id c.id c' db.clubs refl,
      )

  pub dissolve-Keeps : (user : User) (club_id : ℕ) → Keeps IsSound (dissolve_club env user club_id)
  unfolding dissolve_club
  dissolve-Keeps user club_id = record {
    at = λ db h.
        on_club (λ _. IsSound) (some user.id) club_id _ db h
          λ c found.
            Yields-guard (λ _. IsSound) (c.is_official || not (same_id c.creator_id (some user.id)))
              (app_error club_forbidden 403) _ db
              λ _.
                Yields-bind (λ c' db'. IsSound db' × (lookup c'.id db'.clubs ≡ some c'))
                  (λ _. IsSound) (dissolve_writes env c) _ db (dissolving c db h found)
                  λ _ _ h'. h'.0;
  }

  -- The writes of `create` under an id that no club has.
  founding :
      (user : User) (r : ClubCreate) (id : ℕ) (db : ClubDb)
      → IsSound db
      → lookup id db.clubs ≡ none
      → Yields (λ _. IsSound) (found_club env user r id db)
  unfolding found_club save_club save_member new_club founder leads is_inside is_club_owner
      club_brief ask_review is_member_inside
  founding user r id db h new =
      let c = new_club env id user.id r in
      let m = founder env in
      Yields-bind (λ _. IsSound) (λ _. IsSound) (ensure_conversation env c user.id) _ _
        (ensured env user.id c _
          (record {
            manned = founded db.clubs db.members id h.manned c user.id m new refl refl refl refl;
            private =
                opened-IsPrivate db.clubs (put id user.id m db.members) db.circle_members db.next_id
                  (founder-IsPrivate db.clubs db.members db.circle_members db.next_id h.private id
                    user.id m refl)
                  id (max (id + 1) db.next_id) c (ground arith) (ground arith) (λ v e. cc);
          })
          (record {
            stored = lookup-insert_at id id c db.clubs refl;
            inside = ground (arith, get-put id user.id id user.id m db.members);
          }))
        λ _ _ h'. record { manned = h'.manned; private = h'.private }

  creating :
      (user : User) (r : ClubCreate) (id : ℕ) (db : ClubDb)
      → IsSound db
      → lookup id db.clubs ≡ none
      → Yields (λ _. IsSound) (create_new env user r id db)
  unfolding create_new
  creating user r id db h new =
      let S : ClubBrief → ClubDb → Type 0 = λ _. IsSound in
      Yields-guard S (not (is_well_formed r)) (app_error club_invalid 400) _ db λ _.
        Yields-guard S (leb 5 (length (rows (is_own_club user.id) db.clubs)))
          (app_error club_invalid 409) _ db
          λ _.
            Yields-guard S (ltb 0 (length (rows (has_name env r.name) db.clubs)))
              (app_error club_invalid 409) _ db
              λ _.
                Yields-guard S
                  (is_blocked (env.guard_text r.name r.summary (clean_tags env.clean_tag r.tags)))
                  (app_error validation_error 400) _ db λ _. founding user r id db h new

  chosen :
      (user : User) (r : ClubCreate) (id : ℕ) (o : Option Club) (db : ClubDb)
      → IsSound db
      → lookup id db.clubs ≡ o
      → Yields (λ _. IsSound) (create_chosen env user r id o db)
  unfolding create_chosen create_again club_brief
  chosen user r id none db h new = creating user r id db h new
  chosen user r id (some prior) db h at =
      Yields-guard (λ _. IsSound) (not (same_id prior.creator_id (some user.id)))
        (app_error club_invalid 409) _ db λ _. h

  pub create-Keeps : (user : User) (r : ClubCreate) → Keeps IsSound (create_club env user r)
  unfolding create_club
  create-Keeps user r = record {
    at = λ db h.
        Yields-guard (λ _. IsSound) (not (is_active_user user.status)) (app_error user_limited 403)
          _ db
          λ _. elim (Option-cases r.id) [
            | inl fresh ↦
                rw fresh
                  (creating user r db.next_id db h (h.private.numbered db.next_id (ground arith)))
            | inr (id, given) ↦ rw given (chosen user r id (lookup id db.clubs) db h refl)
          ];
  }

  -- The console's action, before the note is written.
  acting :
      (action : Option ClubAction) (c : Club) (db : ClubDb)
      → IsSound db
      → lookup c.id db.clubs ≡ some c
      → Yields MayReplace (set_status env action c db)
  unfolding set_status
  acting none c db h found = tt
  acting (some hide) c db h found = record {
    sound = h;
    row = c;
    stored = found;
    creator = refl;
    lives = refl;
    count = refl;
    chat = refl;
  }
  acting (some unhide) c db h found =
      Yields-guard MayReplace (is_dissolved_club c.status) (app_error club_invalid 400) _ db λ _.
        record {
          sound = h;
          row = c;
          stored = found;
          creator = refl;
          lives = refl;
          count = refl;
          chat = refl;
        }
  acting (some dissolve) c db h found =
      Yields-map (λ c' db'. IsSound db' × (lookup c'.id db'.clubs ≡ some c')) MayReplace
        (dissolve_writes env c db)
        (λ c' db' (h', there). record {
          sound = h';
          row = c';
          stored = there;
          creator = refl;
          lives = refl;
          count = refl;
          chat = refl;
        })
        (dissolving c db h found)

  pub admin_set_status-Keeps :
      (club_id : ℕ) (action : Option ClubAction) (remark : Option String)
      → Keeps IsSound (admin_set_status env club_id action remark)
  unfolding admin_set_status save_club
  admin_set_status-Keeps club_id action remark = record {
    at = λ db h.
        Yields-or_raise (λ _. IsSound) (lookup club_id db.clubs) (app_error club_not_found 404) _ db
          λ c found.
            let keyed = (h.manned.manned club_id c found).keyed in
            Yields-bind MayReplace (λ _. IsSound) (set_status env action c) _ db
              (acting action c db h (ground (arith, found, keyed)))
              λ c' db' may. replaced remark c' db' may;
  }
