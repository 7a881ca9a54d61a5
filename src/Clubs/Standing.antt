-- ===== src/Clubs/Standing.antt =====
-- What clubs promise their members: where a user stands in a club, and how that may change.
use dating_backend.Prelude.{
  ℕ, ◌≡◌, refl, true, false, Option, none, some, ◌&&◌, ◌||◌, not, arith, ◌==◌, Bool-cases, inl, inr,
  sym, ◌≢◌,
}
use dating_backend.Shared.Errors.{app_error, user_limited, club_forbidden, club_not_found}
use dating_backend.Shared.Action.Keeps.{
  Yields, Yields-guard, Yields-or_raise, Yields-bind, Yields-map,
}
use dating_backend.Shared.Pairs.{PairTable, get, put, get-put, update_of, get-update_of}
use dating_backend.Shared.Users.{User, is_banned}
use dating_backend.Clubs.Data.{
  Club, ClubMember, ClubMemberRole, ClubMemberStatus, Circle, ClubDb, is_inside, is_kicked,
  is_club_owner, save_club, save_member, save_circle_member,
}
use dating_backend.Clubs.Service.{
  ClubEnv, ClubCreate, is_member_inside, circle_of, open_circle, ensure_conversation, enter_club,
  join_club, leave_club, leave_as, remove_member, dissolve_writes, dissolve_club, kick_member,
  club_chat, club_brief, is_out, is_refused, same_id, inside_only, may_remove, left_row,
  joined_member,
}
use dating_backend.Clubs.Founding.{found_club, founder, ask_review}
use dating_backend.Clubs.Handlers.{IsSound}
use dating_backend.Clubs.Membership.{on_club, inside_found}

pub data Standing : Type 0 where
  outside : Standing
  inside : ClubMemberRole → Standing
  expelled : Standing

abbrev pub stand_as : ClubMemberRole → ClubMemberStatus → Standing
stand_as role ClubMemberStatus.active = inside role
stand_as role ClubMemberStatus.left = outside
stand_as role ClubMemberStatus.kicked = expelled

abbrev pub stand : Option ClubMember → Standing
stand none = outside
stand (some m) = stand_as m.role m.status

-- Where a user stands in a club.
abbrev pub standing : ℕ → ℕ → ClubDb → Standing
standing club_id user_id db = stand (get club_id user_id db.members)

-- How the standing of `user` may change by a request of `actor`.
pub data Moves (actor user : ℕ) : Standing → Standing → Type 0 where
  stays : (s : Standing) → Moves actor user s s
  enters : actor ≡ user → Moves actor user outside (inside ClubMemberRole.member)
  founds : actor ≡ user → Moves actor user outside (inside ClubMemberRole.owner)
  goes : (r : ClubMemberRole) → Moves actor user (inside r) outside
  is_expelled :
      (r : ClubMemberRole) → r ≢ ClubMemberRole.owner → Moves actor user (inside r) expelled

-- Every user's standing in every club.
abbrev pub Moved : ℕ → PairTable ClubMember → PairTable ClubMember → Type 0
Moved actor before after =
    (k u : ℕ) → Moves actor u (stand (get k u before)) (stand (get k u after))

abbrev pub MovedFrom : {A : Type 0} → ℕ → ClubDb → A → ClubDb → Type 0
MovedFrom actor before a after = Moved actor before.members after.members

pub same-Moved : (actor : ℕ) (ms : PairTable ClubMember) → Moved actor ms ms
same-Moved actor ms k u = stays (stand (get k u ms))

left_status : ClubMemberStatus → ClubMemberStatus
left_status ClubMemberStatus.active = ClubMemberStatus.left
left_status ClubMemberStatus.left = ClubMemberStatus.left
left_status ClubMemberStatus.kicked = ClubMemberStatus.kicked

stand-left_row :
    (m : ClubMember) → stand (some (left_row m)) ≡ stand_as m.role (left_status m.status)
unfolding left_row is_inside left_status
stand-left_row m = ground arith

module _ (actor : ℕ) (ms : PairTable ClubMember) where
  -- One row written.
  one-Moved :
      (k u : ℕ) (m : ClubMember)
      → Moves actor u (stand (get k u ms)) (stand (some m))
      → Moved actor ms (put k u m ms)
  one-Moved k u m move j w = elim (Bool-cases (k == j && u == w)) [
    | inl this ↦
        let at : k ≡ j = ground (arith, this) in
        let by : u ≡ w = ground (arith, this) in
        let now : get j w (put k u m ms) ≡ some m = ground (arith, get-put k u j w m ms, this) in
        rw now (rw (sym at, sym by) move)
    | inr other ↦
        let same : get j w (put k u m ms) ≡ get j w ms =
          ground (arith, get-put k u j w m ms, other) in
        rw same (stays (stand (get j w ms)))
  ]

  left-Moves :
      (u : ℕ) (role : ClubMemberRole) (s : ClubMemberStatus)
      → Moves actor u (stand_as role s) (stand_as role (left_status s))
  unfolding left_status
  left-Moves u role ClubMemberStatus.active = goes role
  left-Moves u role ClubMemberStatus.left = stays outside
  left-Moves u role ClubMemberStatus.kicked = stays expelled

  row_left-Moves :
      (u : ℕ) (o : Option ClubMember)
      → Moves actor u (stand o) (stand (elim o [ none ↦ none | some m ↦ some (left_row m) ]))
  row_left-Moves u none = stays outside
  row_left-Moves u (some m) = rw (stand-left_row m) (left-Moves u m.role m.status)

  put_out-Moved : (k : ℕ) → Moved actor ms (update_of left_row k ms)
  put_out-Moved k j u = elim (Bool-cases (j == k)) [
    | inl this ↦
        let now : get j u (update_of left_row k ms)
            ≡ (elim (get j u ms) [ none ↦ none | some m ↦ some (left_row m) ]) =
          ground (arith, get-update_of left_row k j u ms, this) in
        rw now (row_left-Moves u (get j u ms))
    | inr other ↦
        let same : get j u (update_of left_row k ms) ≡ get j u ms =
          ground (arith, get-update_of left_row k j u ms, other) in
        rw same (stays (stand (get j u ms)))
  ]

out_stands :
    (o : Option ClubMember) → is_member_inside o ≡ false → is_out o ≡ false → stand o ≡ outside
unfolding is_member_inside is_out is_inside is_kicked
out_stands none e f = refl
out_stands (some m) e f = ground (arith, e, f)

inside_stands : (m : ClubMember) → is_inside m ≡ true → stand (some m) ≡ inside m.role
unfolding is_inside
inside_stands m e = ground (arith, e)

not_owner : (m : ClubMember) → is_club_owner m ≡ false → m.role ≢ ClubMemberRole.owner
unfolding is_club_owner
not_owner m e same = ground (arith, e, same)

module _ (env : ClubEnv) (user : User) where
  -- The chat's writes leave the members as they are.
  opened_same :
      (u : ℕ) (c : Club) (found : Option (ℕ × Circle)) (db : ClubDb)
      → Yields (λ _ db'. db'.members ≡ db.members) (open_circle env c u found db)
  unfolding open_circle save_club
  opened_same u c none db = refl
  opened_same u c (some (v, conv)) db = refl

  ensured_same :
      (c : Club) (u : ℕ) (db : ClubDb)
      → Yields (λ _ db'. db'.members ≡ db.members) (ensure_conversation env c u db)
  unfolding ensure_conversation save_circle_member
  ensured_same c u db =
      Yields-bind (λ _ db'. db'.members ≡ db.members) (λ _ db'. db'.members ≡ db.members)
        (open_circle env c u (circle_of c.conversation_id db.circles)) _ db
        (opened_same u c (circle_of c.conversation_id db.circles) db) λ _ _ e. e

  carried :
      (ms : PairTable ClubMember) (db : ClubDb) (ms' : PairTable ClubMember)
      → db.members ≡ ms'
      → Moved user.id ms ms'
      → Moved user.id ms db.members
  carried ms db ms' e h = rw e h

  entering-Moves :
      (c : Club) (o : Option ClubMember) (db : ClubDb)
      → get c.id user.id db.members ≡ o
      → stand o ≡ outside
      → Yields (MovedFrom user.id db) (enter_club env c user.id o db)
  unfolding enter_club save_member save_club club_brief joined_member
  entering-Moves c o db at out =
      Yields-bind (λ _ db'. db'.members ≡ put c.id user.id (joined_member env o) db.members)
        (MovedFrom user.id db) (ensure_conversation env _ user.id) _ _ (ensured_same _ user.id _)
        λ _ db' e. carried db.members db' (put c.id user.id (joined_member env o) db.members) e (
          one-Moved user.id db.members c.id user.id (joined_member env o)
            (rw at (rw out (enters refl))))

  pub join-Moves :
      (club_id : ℕ) (db : ClubDb)
      → IsSound db
      → Yields (MovedFrom user.id db) (join_club env user club_id db)
  unfolding join_club club_brief
  join-Moves club_id db h = on_club (MovedFrom user.id db) none club_id _ db h λ c found.
      Yields-guard (MovedFrom user.id db) (is_banned user.status) (app_error user_limited 403) _ db
        λ _. elim (Bool-cases (is_member_inside (get c.id user.id db.members))) [
          | inl already ↦ rw already (same-Moved user.id db.members)
          | inr new ↦ rw new (
              Yields-guard (MovedFrom user.id db) (is_out (get c.id user.id db.members))
                (app_error club_forbidden 403) _ db
                λ in_favour.
                  Yields-guard (MovedFrom user.id db) (is_refused env c user.id)
                    (app_error club_forbidden 403) _ db
                    λ _.
                      entering-Moves c (get c.id user.id db.members) db refl
                        (out_stands (get c.id user.id db.members) new in_favour))
        ]

  leaving-Moves :
      (c : Club) (o : Option ClubMember) (db : ClubDb)
      → get c.id user.id db.members ≡ o
      → Yields (MovedFrom user.id db) (leave_as c user.id o db)
  unfolding leave_as club_brief remove_member save_member save_club
  leaving-Moves c none db at = same-Moved user.id db.members
  leaving-Moves c (some m) db at = elim (Bool-cases (is_inside m)) [
    | inr gone ↦ rw gone (same-Moved user.id db.members)
    | inl within ↦ rw within (
        Yields-guard (MovedFrom user.id db) (is_club_owner m && same_id c.creator_id (some user.id))
          (app_error club_forbidden 409) _ db
          λ _.
            one-Moved user.id db.members c.id user.id (record m { status = ClubMemberStatus.left })
              (rw at (rw (inside_stands m within) (goes m.role))))
  ]

  pub leave-Moves :
      (club_id : ℕ) (db : ClubDb)
      → IsSound db
      → Yields (MovedFrom user.id db) (leave_club user club_id db)
  unfolding leave_club
  leave-Moves club_id db h =
      on_club (MovedFrom user.id db) (some user.id) club_id _ db h
        λ c found. leaving-Moves c (get c.id user.id db.members) db refl

  pub kick-Moves :
      (club_id target : ℕ) (db : ClubDb)
      → IsSound db
      → Yields (MovedFrom user.id db) (kick_member user club_id target db)
  unfolding kick_member remove_member save_member save_club
  kick-Moves club_id target db h =
      on_club (MovedFrom user.id db) (some user.id) club_id _ db h λ c found.
        Yields-guard (MovedFrom user.id db) (not (may_remove (get c.id user.id db.members)))
          (app_error club_forbidden 403) _ db
          λ _.
            Yields-or_raise (MovedFrom user.id db) (inside_only (get c.id target db.members))
              (app_error club_not_found 404) _ db
              λ victim e.
                Yields-guard (MovedFrom user.id db) (is_club_owner victim)
                  (app_error club_forbidden 403) _ db
                  λ no_owner.
                    let (at, within) = inside_found (get c.id target db.members) victim e in
                    one-Moved user.id db.members c.id target
                      (record victim { status = ClubMemberStatus.kicked })
                      (rw at (
                        rw (inside_stands victim within)
                          (is_expelled victim.role (not_owner victim no_owner))))

  pub chat-Moves :
      (club_id : ℕ) (db : ClubDb)
      → IsSound db
      → Yields (MovedFrom user.id db) (club_chat env user club_id db)
  unfolding club_chat
  chat-Moves club_id db h = on_club (MovedFrom user.id db) (some user.id) club_id _ db h λ c found.
      Yields-guard (MovedFrom user.id db) (not (is_member_inside (get c.id user.id db.members)))
        (app_error club_forbidden 403) _ db
        λ _.
          Yields-map (λ _ db'. db'.members ≡ db.members) (MovedFrom user.id db)
            (ensure_conversation env c user.id db)
            (λ _ db' e. carried db.members db' db.members e (same-Moved user.id db.members))
            (ensured_same c user.id db)

  pub dissolving-Moves :
      (c : Club) (db : ClubDb) → Yields (MovedFrom user.id db) (dissolve_writes env c db)
  unfolding dissolve_writes save_club
  dissolving-Moves c db = put_out-Moved user.id db.members c.id

  pub close-Moves :
      (club_id : ℕ) (db : ClubDb)
      → IsSound db
      → Yields (MovedFrom user.id db) (dissolve_club env user club_id db)
  unfolding dissolve_club
  close-Moves club_id db h = on_club (MovedFrom user.id db) (some user.id) club_id _ db h λ c found.
      Yields-guard (MovedFrom user.id db)
        (c.is_official || not (same_id c.creator_id (some user.id))) (app_error club_forbidden 403)
        _ db
        λ _.
          Yields-bind (MovedFrom user.id db) (MovedFrom user.id db) (dissolve_writes env c) _ db
            (dissolving-Moves c db) λ _ _ m. m

  pub founding-Moves :
      (r : ClubCreate) (id : ℕ) (db : ClubDb)
      → get id user.id db.members ≡ none
      → Yields (MovedFrom user.id db) (found_club env user r id db)
  unfolding found_club save_member save_club club_brief founder ask_review
  founding-Moves r id db new =
      Yields-bind (λ _ db'. db'.members ≡ put id user.id (founder env) db.members)
        (MovedFrom user.id db) (ensure_conversation env _ user.id) _ _ (ensured_same _ user.id _)
        λ _ db' e.
          carried db.members db' (put id user.id (founder env) db.members) e
            (one-Moved user.id db.members id user.id (founder env) (rw new (founds refl)))
