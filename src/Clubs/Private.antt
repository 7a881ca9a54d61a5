-- ===== src/Clubs/Private.antt =====
-- Whoever is in the chat of a club is inside the club.
use dating_backend.Prelude.{
  ℕ, ◌≤◌, ◌<◌, ◌≡◌, ◌≢◌, Bool, true, false, ◌&&◌, Option, none, some, arith, ◌==◌, Bool-cases, inl,
  inr, ==_iff,
}
use dating_backend.Shared.Table.{Table, lookup, insert, lookup-insert}
use dating_backend.Shared.Pairs.{PairTable, get, put, get-put}
use dating_backend.Clubs.Data.{Club, ClubMember, CircleMember, is_inside, is_in_circle}
use dating_backend.Clubs.Service.{is_member_inside}

unfoldable pub chats : Option CircleMember → Bool
chats none = false
chats (some m) = is_in_circle m

pub record IsPrivate (clubs : Table Club) (members : PairTable ClubMember)
    (circle_members : PairTable CircleMember) (next_id : ℕ) : Type 0 where
  pub private :
      (k v u : ℕ) (c : Club)
      → lookup k clubs ≡ some c
      → c.conversation_id ≡ some v
      → chats (get v u circle_members) ≡ true
      → is_member_inside (get k u members) ≡ true
  pub apart :
      (j k v : ℕ) (b c : Club)
      → lookup j clubs ≡ some b
      → lookup k clubs ≡ some c
      → b.conversation_id ≡ some v
      → c.conversation_id ≡ some v
      → j ≡ k
  pub below :
      (k v : ℕ) (c : Club) → lookup k clubs ≡ some c → c.conversation_id ≡ some v → v < next_id
  pub unused : (v u : ℕ) → next_id ≤ v → get v u circle_members ≡ none
  pub numbered : (k : ℕ) → next_id ≤ k → lookup k clubs ≡ none

module _ (clubs : Table Club) (members : PairTable ClubMember)
    (circle_members : PairTable CircleMember) (next_id : ℕ)
    (h : IsPrivate clubs members circle_members next_id) where
  -- A club's row written, with its chat as before, and rows of its members; whoever chats there is inside.
  pub club-IsPrivate :
      (k : ℕ) (c c' : Club) (members' : PairTable ClubMember)
      (circle_members' : PairTable CircleMember)
      → lookup k clubs ≡ some c
      → c'.conversation_id ≡ c.conversation_id
      → ((j u : ℕ) → j ≢ k → get j u members' ≡ get j u members)
      → ((v u : ℕ) → c.conversation_id ≢ some v → get v u circle_members' ≡ get v u circle_members)
      → ((v u : ℕ)
          → c.conversation_id ≡ some v
          → chats (get v u circle_members') ≡ true
          → is_member_inside (get k u members') ≡ true)
      → IsPrivate (insert k c' clubs) members' circle_members' next_id
  club-IsPrivate k c c' members' circle_members' found same others away here = record {
    private = λ j v u b e in_v chatting. elim (Bool-cases (k == j)) [
      | inl this ↦
          let at : k ≡ j = (==_iff k j).0 this in
          let is_c : c' ≡ b = ground (arith, lookup-insert k j c' clubs, this, e) in
          ground (arith, at, is_c, same, in_v, here v u)
      | inr other ↦
          let was : lookup j clubs ≡ some b =
            ground (arith, lookup-insert k j c' clubs, other, e) in
          let ne : c.conversation_id ≢ some v =
            λ p. ground (arith, h.apart j k v b c was found in_v p, other) in
          ground (arith, others j u, h.private j v u b was in_v, away v u ne, other)
    ];
    apart = λ i j v a b ea eb va vb. elim (Bool-cases (k == i)) [
      | inl this ↦ elim (Bool-cases (k == j)) [
        | inl that ↦ ground (arith, this, that)
        | inr that ↦
            let is_c : c' ≡ a = ground (arith, lookup-insert k i c' clubs, this, ea) in
            let was : lookup j clubs ≡ some b =
              ground (arith, lookup-insert k j c' clubs, that, eb) in
            ground (arith, is_c, same, va, this, h.apart k j v c b found was)
      ]
      | inr this ↦ elim (Bool-cases (k == j)) [
        | inl that ↦
            let is_c : c' ≡ b = ground (arith, lookup-insert k j c' clubs, that, eb) in
            let was : lookup i clubs ≡ some a =
              ground (arith, lookup-insert k i c' clubs, this, ea) in
            ground (arith, is_c, same, vb, that, h.apart i k v a c was found)
        | inr that ↦
            h.apart i j v a b (ground (arith, lookup-insert k i c' clubs, this, ea))
              (ground (arith, lookup-insert k j c' clubs, that, eb)) va vb
      ]
    ];
    below = λ j v b e in_v. elim (Bool-cases (k == j)) [
      | inl this ↦
          let is_c : c' ≡ b = ground (arith, lookup-insert k j c' clubs, this, e) in
          h.below k v c found (ground (arith, is_c, same, in_v))
      | inr other ↦ h.below j v b (ground (arith, lookup-insert k j c' clubs, other, e)) in_v
    ];
    unused = λ v u later.
        let ne : c.conversation_id ≢ some v = λ p. ground (arith, h.below k v c found p) in
        ground (arith, away v u ne, h.unused v u later);
    numbered = λ j later. ground (arith, lookup-insert k j c' clubs, h.numbered j later, found);
  }

  -- A user inside enters the chat of the club.
  pub entered-IsPrivate :
      (k v u : ℕ) (c : Club) (m : CircleMember)
      → lookup k clubs ≡ some c
      → c.conversation_id ≡ some v
      → is_member_inside (get k u members) ≡ true
      → IsPrivate clubs members (put v u m circle_members) next_id
  entered-IsPrivate k v u c m found in_v inside = record {
    private = λ j w x b e in_w chatting. elim (Bool-cases (v == w && u == x)) [
      | inl this ↦
          let at : v ≡ w = ground (arith, this) in
          let is_k : j ≡ k = h.apart j k v b c e found (ground (arith, in_w, at)) in_v in
          ground (arith, is_k, this, inside)
      | inr other ↦
          h.private j w x b e in_w
            (ground (arith, get-put v u w x m circle_members, other, chatting))
    ];
    apart = h.apart;
    below = h.below;
    unused = λ w x later.
        ground
          (arith, get-put v u w x m circle_members, h.unused w x later, h.below k v c found in_v);
    numbered = h.numbered;
  }

  -- A club without a chat gets a new one, or a new club none.
  pub opened-IsPrivate :
      (k n : ℕ) (c' : Club)
      → next_id ≤ n
      → k < n
      → ((v : ℕ) → c'.conversation_id ≡ some v → (v ≡ next_id) × (v < n))
      → IsPrivate (insert k c' clubs) members circle_members n
  unfolding chats
  opened-IsPrivate k n c' more known new = record {
    private = λ j v u b e in_v chatting. elim (Bool-cases (k == j)) [
      | inl this ↦
          let is_c : c' ≡ b = ground (arith, lookup-insert k j c' clubs, this, e) in
          let (at, _) = new v (ground (arith, is_c, in_v)) in
          absurd (ground (arith, h.unused v u (ground (arith, at)), chatting))
      | inr other ↦
          h.private j v u b (ground (arith, lookup-insert k j c' clubs, other, e)) in_v chatting
    ];
    apart = λ i j v a b ea eb va vb. elim (Bool-cases (k == i)) [
      | inl this ↦ elim (Bool-cases (k == j)) [
        | inl that ↦ ground (arith, this, that)
        | inr that ↦
            let is_c : c' ≡ a = ground (arith, lookup-insert k i c' clubs, this, ea) in
            let (at, _) = new v (ground (arith, is_c, va)) in
            absurd (
              ground (
                arith,
                h.below j v b (ground (arith, lookup-insert k j c' clubs, that, eb)) vb,
                at,
              ))
      ]
      | inr this ↦ elim (Bool-cases (k == j)) [
        | inl that ↦
            let is_c : c' ≡ b = ground (arith, lookup-insert k j c' clubs, that, eb) in
            let (at, _) = new v (ground (arith, is_c, vb)) in
            absurd (
              ground (
                arith,
                h.below i v a (ground (arith, lookup-insert k i c' clubs, this, ea)) va,
                at,
              ))
        | inr that ↦
            h.apart i j v a b (ground (arith, lookup-insert k i c' clubs, this, ea))
              (ground (arith, lookup-insert k j c' clubs, that, eb)) va vb
      ]
    ];
    below = λ j v b e in_v. elim (Bool-cases (k == j)) [
      | inl this ↦
          let is_c : c' ≡ b = ground (arith, lookup-insert k j c' clubs, this, e) in
          (new v (ground (arith, is_c, in_v))).1
      | inr other ↦
          ground (arith, h.below j v b (ground (arith, lookup-insert k j c' clubs, other, e)) in_v)
    ];
    unused = λ v u later. h.unused v u (ground (arith, later));
    numbered = λ j later.
        ground (arith, lookup-insert k j c' clubs, h.numbered j (ground (arith, later)), later);
  }

  -- A row of a club that is not there yet.
  pub founder-IsPrivate :
      (k u : ℕ) (m : ClubMember)
      → is_inside m ≡ true
      → IsPrivate clubs (put k u m members) circle_members next_id
  unfolding is_member_inside
  founder-IsPrivate k u m inside = record {
    private = λ j v x b e in_v chatting.
        ground (arith, get-put k u j x m members, h.private j v x b e in_v chatting, inside);
    apart = h.apart;
    below = h.below;
    unused = h.unused;
    numbered = h.numbered;
  }
