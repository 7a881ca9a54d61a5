-- ===== src/Clubs/Manned.antt =====
-- `member_count` counts the members inside, and the creator leads the club until it is dissolved.
use dating_backend.Prelude.{
  ℕ, ◌+◌, ◌≡◌, ◌≢◌, refl, Bool, true, false, ◌&&◌, Option, none, some, arith, ◌==◌, Bool-cases, inl,
  inr, ==_iff, sym,
}
use dating_backend.Shared.Table.{Table, lookup, insert, lookup-insert}
use dating_backend.Shared.Pairs.{
  PairTable, get, put, count_of, update_of, one_if, get-put, count_of-put, get-update_of,
  count_of-update_of_other, count_of-update_of_none,
}
use dating_backend.Clubs.Data.{Club, ClubMember, is_inside, is_club_owner}

-- The row of a member who leads the club.
unfoldable pub leads : Option ClubMember → Bool
leads none = false
leads (some m) = is_inside m && is_club_owner m

pub record IsLed (k : ℕ) (c : Club) (members : PairTable ClubMember) : Type 0 where
  pub keyed : c.id ≡ k
  pub counted : c.member_count ≡ count_of is_inside k members
  pub led : (u : ℕ) → c.creator_id ≡ some u → c.dissolved_at ≡ none → leads (get k u members) ≡ true

pub record IsEmpty (k : ℕ) (members : PairTable ClubMember) : Type 0 where
  pub empty : count_of is_inside k members ≡ 0
  pub nobody : (u : ℕ) → get k u members ≡ none

pub record IsManned (clubs : Table Club) (members : PairTable ClubMember) : Type 0 where
  pub manned : (k : ℕ) (c : Club) → lookup k clubs ≡ some c → IsLed k c members
  pub unused : (k : ℕ) → lookup k clubs ≡ none → IsEmpty k members

module _ (clubs : Table Club) (members : PairTable ClubMember) (k : ℕ) (c' : Club)
    (members' : PairTable ClubMember) (h : IsManned clubs members) (now_led : IsLed k c' members')
    (same_count : (j : ℕ) → j ≢ k → count_of is_inside j members' ≡ count_of is_inside j members)
    (same_rows : (j u : ℕ) → j ≢ k → get j u members' ≡ get j u members) where
  -- A club and its members change, and the others do not.
  pub one_changed : IsManned (insert k c' clubs) members'
  one_changed = record {
    manned = λ j b e. elim (Bool-cases (k == j)) [
      | inl this ↦
          let at : k ≡ j = (==_iff k j).0 this in
          let is_c : c' ≡ b = ground (arith, lookup-insert k j c' clubs, this, e) in
          rw (sym at, sym is_c) now_led
      | inr other ↦
          let ne : j ≢ k = λ at. ground (arith, other) in
          let old = h.manned j b (ground (arith, lookup-insert k j c' clubs, other, e)) in
          record {
            keyed = old.keyed;
            counted = ground (arith, old.counted, same_count j ne);
            led = λ u is_u lives. ground (arith, old.led u is_u lives, same_rows j u ne);
          }
    ];
    unused = λ j e. elim (Bool-cases (k == j)) [
      | inl this ↦ absurd (ground (arith, lookup-insert k j c' clubs, this, e))
      | inr other ↦
          let ne : j ≢ k = λ at. ground (arith, other) in
          let old = h.unused j (ground (arith, lookup-insert k j c' clubs, other, e)) in
          record {
            empty = ground (arith, old.empty, same_count j ne);
            nobody = λ u. ground (arith, old.nobody u, same_rows j u ne);
          }
    ];
  }

module _ (clubs : Table Club) (members : PairTable ClubMember) (k : ℕ)
    (h : IsManned clubs members) where
  -- A member's row written, and the count changed to match.
  pub member_written :
      (c c' : Club) (u : ℕ) (m : ClubMember)
      → lookup k clubs ≡ some c
      → c'.id ≡ k
      → c'.creator_id ≡ c.creator_id
      → c'.dissolved_at ≡ c.dissolved_at
      → c'.member_count + one_if is_inside (get k u members)
        ≡ c.member_count + one_if is_inside (some m)
      → (c.creator_id ≡ some u → c.dissolved_at ≡ none → leads (some m) ≡ true)
      → IsManned (insert k c' clubs) (put k u m members)
  member_written c c' u m found same creator lives balance leader =
      let old = h.manned k c found in
      one_changed clubs members k c' (put k u m members) h
        (record {
          keyed = same;
          counted = ground (arith, old.counted, balance, count_of-put is_inside k k u m members);
          led = λ v is_v alive. elim (Bool-cases (u == v)) [
            | inl this ↦
                ground (arith, get-put k u k v m members, this, leader, creator, lives, is_v, alive)
            | inr other ↦
                ground
                  (arith, get-put k u k v m members, other, old.led v, creator, lives, is_v, alive)
          ];
        })
        (λ j ne. ground (arith, ne, count_of-put is_inside j k u m members))
        (λ j v ne. ground (arith, ne, get-put k u j v m members))

  -- The club's row changed, but nothing that its members are counted by.
  pub club_written :
      (c c' : Club)
      → lookup k clubs ≡ some c
      → c'.id ≡ k
      → c'.creator_id ≡ c.creator_id
      → c'.dissolved_at ≡ c.dissolved_at
      → c'.member_count ≡ c.member_count
      → IsManned (insert k c' clubs) members
  club_written c c' found same creator lives count =
      let old = h.manned k c found in
      one_changed clubs members k c' members h
        (record {
          keyed = same;
          counted = ground (arith, old.counted, count);
          led = λ v is_v alive. ground (arith, old.led v, creator, lives, is_v, alive);
        })
        (λ j ne. refl) (λ j v ne. refl)

  -- All its members put out at once, and the count set to zero.
  pub members_put_out :
      (c' : Club) (f : ClubMember → ClubMember) (now : ℕ)
      → c'.id ≡ k
      → c'.member_count ≡ 0
      → c'.dissolved_at ≡ some now
      → ((m : ClubMember) → is_inside (f m) ≡ false)
      → IsManned (insert k c' clubs) (update_of f k members)
  members_put_out c' f now same zero gone out =
      one_changed clubs members k c' (update_of f k members) h
        (record {
          keyed = same;
          counted = ground (arith, zero, count_of-update_of_none is_inside f k members out);
          led = λ v is_v alive. ground (arith, gone, alive);
        })
        (λ j ne. count_of-update_of_other is_inside f k j members ne)
        (λ j v ne. ground (arith, ne, get-update_of f k j v members))

  -- A new club with its founder.
  pub founded :
      (c' : Club) (u : ℕ) (m : ClubMember)
      → lookup k clubs ≡ none
      → c'.id ≡ k
      → c'.creator_id ≡ some u
      → c'.member_count ≡ 1
      → leads (some m) ≡ true
      → IsManned (insert k c' clubs) (put k u m members)
  unfolding leads
  founded c' u m new same creator one leader =
      let old = h.unused k new in
      one_changed clubs members k c' (put k u m members) h
        (record {
          keyed = same;
          counted =
              ground (
                arith,
                old.empty,
                old.nobody u,
                one,
                leader,
                count_of-put is_inside k k u m members,
              );
          led = λ v is_v alive. ground (arith, get-put k u k v m members, creator, is_v, leader);
        })
        (λ j ne. ground (arith, ne, count_of-put is_inside j k u m members))
        (λ j v ne. ground (arith, ne, get-put k u j v m members))
