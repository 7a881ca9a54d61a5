-- ===== src/Chats/Mutual.antt =====
-- Friendship is mutual: `_create_friendship` and `delete_friend` write both rows.
use dating_backend.Prelude.{
  ℕ, ◌≡◌, refl, true, false, ◌&&◌, Option, none, some, arith, ◌==◌, if◌then◌else◌,
}
use dating_backend.Shared.Pairs.{PairTable, get, put, get-put}
use dating_backend.Chats.Data.{Friendship, FriendshipStatus}
use dating_backend.Chats.Opening.{are_friends, is_friend, is_friend_row}
use dating_backend.Chats.Friends.{befriended, create_friendship, unfriended, unfriended_row}

pub record AreMutual (t : PairTable Friendship) : Type 0 where
  pub both_ways : (a b : ℕ) → are_friends a b t ≡ are_friends b a t

are_friends-put :
    (a b i j : ℕ) (f : Friendship) (t : PairTable Friendship)
    → are_friends i j (put a b f t)
      ≡ (if a == i && b == j then is_friend_row f else are_friends i j t)
unfolding are_friends is_friend
are_friends-put a b i j f t = ground (arith, get-put a b i j f t)

befriended_friend : (o : Option Friendship) → is_friend_row (befriended o) ≡ true
unfolding befriended is_friend_row
befriended_friend none = refl
befriended_friend (some f) = refl

unfriended_one_way :
    (a b i j : ℕ) (o : Option Friendship) (t : PairTable Friendship)
    → get a b t ≡ o
    → are_friends i j (unfriended_row a b o t)
      ≡ (if a == i && b == j then false else are_friends i j t)
unfolding unfriended_row are_friends is_friend is_friend_row
unfriended_one_way a b i j none t e = ground (arith, e)
unfriended_one_way a b i j (some f) t e =
    are_friends-put a b i j (record f { status = FriendshipStatus.deleted }) t

are_friends-unfriended :
    (a b i j : ℕ) (t : PairTable Friendship)
    → are_friends i j (unfriended a b t) ≡ (if a == i && b == j then false else are_friends i j t)
unfolding unfriended
are_friends-unfriended a b i j t = unfriended_one_way a b i j (get a b t) t refl

pub created-AreMutual :
    (a b : ℕ) (t : PairTable Friendship) → AreMutual t → AreMutual (create_friendship a b t)
unfolding create_friendship
created-AreMutual a b t h = record {
  both_ways = λ i j.
      let t' = put a b (befriended (get a b t)) t in
      ground (
        arith,
        h.both_ways i j,
        are_friends-put a b i j (befriended (get a b t)) t,
        are_friends-put a b j i (befriended (get a b t)) t,
        are_friends-put b a i j (befriended (get b a t')) t',
        are_friends-put b a j i (befriended (get b a t')) t',
        befriended_friend (get a b t),
        befriended_friend (get b a t'),
      );
}

pub deleted-AreMutual :
    (a b : ℕ) (t : PairTable Friendship)
    → AreMutual t
    → AreMutual (unfriended b a (unfriended a b t))
deleted-AreMutual a b t h = record {
  both_ways = λ i j. ground (
    arith,
    h.both_ways i j,
    are_friends-unfriended a b i j t,
    are_friends-unfriended a b j i t,
    are_friends-unfriended b a i j (unfriended a b t),
    are_friends-unfriended b a j i (unfriended a b t),
  );
}

-- A friend's row written anew with the status it had.
pub edited-AreMutual :
    (a b : ℕ) (f : Friendship) (t : PairTable Friendship)
    → are_friends a b t ≡ is_friend_row f
    → AreMutual t
    → AreMutual (put a b f t)
edited-AreMutual a b f t was h = record {
  both_ways = λ i j. ground (
    arith,
    was,
    h.both_ways i j,
    h.both_ways a b,
    are_friends-put a b i j f t,
    are_friends-put a b j i f t,
  );
}
