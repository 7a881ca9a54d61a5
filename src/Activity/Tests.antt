-- ===== src/Activity/Tests.antt =====
-- Concrete activities, on which the theorems apply.
use dating_backend.Prelude.{ℕ, ◌≡◌, refl, true, false, Option, none, some, List, [], ◌∷◌, arith}
use dating_backend.Shared.Action.Keeps.{Returns}
use dating_backend.Shared.Table.{lookup}
use dating_backend.Commerce.Data.{ActivityStatus}
use dating_backend.Activity.Data.{
  Activity, ActivityDb, ActivityParticipant, ParticipantRole, ParticipantStatus, participant, seats,
  is_joined, is_waitlisted,
}
use dating_backend.Activity.Rows.{seat_found}
use dating_backend.Activity.Participation.{
  ActivityEnv, Caller, promote_waitlist, next_waitlisted, waits, is_earlier,
}
use dating_backend.Activity.Seats.{IsSeated}
use dating_backend.Activity.Promotion.{IsPromoted, promote_waitlist-IsPromoted}
use dating_backend.Activity.Order.{IsFirst, next_waitlisted-IsFirst}
use dating_backend.Activity.Requests.{
  ActivityRequest, create_activity, join_activity, quit_activity, wait_for, set_capacity,
  serve_activities, serve_activities-IsSeated,
}

abbrev env : ActivityEnv
env = record { now = 100; is_blocked = λ _. false; is_locked = λ _. false }

abbrev caller : ℕ → Caller
caller id = record { id = id; is_limited = false; profile_completed = true }

abbrev row_of : ℕ → ParticipantRole → ParticipantStatus → Option ℕ → ActivityParticipant
row_of user_id role status since = record {
  activity_id = 0;
  user_id = user_id;
  role = role;
  status = status;
  note = none;
  waitlisted_at = since;
}

abbrev hike : Activity
hike = record {
  id = 0;
  host_id = 1;
  capacity = 2;
  join_count = 1;
  status = ActivityStatus.published;
  cancel_reason = none;
  cancelled_at = none;
}

abbrev hike_rows : List ActivityParticipant
hike_rows =
    row_of 1 ParticipantRole.host ParticipantStatus.joined none
    ∷ row_of 2 ParticipantRole.member ParticipantStatus.waitlisted (some 40)
    ∷ row_of 3 ParticipantRole.member ParticipantStatus.waitlisted (some 30)
    ∷ []

abbrev hikes : ActivityDb
hikes = record {
  activities = (0, hike) ∷ [];
  participants = hike_rows;
  outbox = record { events = []; next_id = 0 };
  next_id = 1;
}

abbrev no_activities : ActivityDb
no_activities = record {
  activities = [];
  participants = [];
  outbox = record { events = []; next_id = 0 };
  next_id = 0;
}

abbrev activity_requests : List (ActivityEnv × Caller × ActivityRequest)
activity_requests =
    (env, caller 1, create_activity 2)
    ∷ (env, caller 2, join_activity 0 "")
    ∷ (env, caller 3, wait_for 0)
    ∷ (env, caller 2, quit_activity 0)
    ∷ (env, caller 1, set_capacity 0 5)
    ∷ []

no_activities-IsSeated : IsSeated no_activities
unfolding lookup participant seats
no_activities-IsSeated = record {
  unique = tt;
  seated = λ k a e. cc;
  unused = λ k later. record { absent = refl; empty = refl; nobody = λ u. refl };
  referenced = λ k u row e. cc;
}

hikes-IsSeated : IsSeated hikes
unfolding lookup participant seats seat_found is_joined
hikes-IsSeated = record {
  unique = (refl, (refl, (refl, tt)));
  seated = λ k a e. record { keyed = ground arith; counted = ground arith; hosted = ground arith };
  unused =
      λ k later. record { absent = ground arith; empty = ground arith; nobody = λ u. ground arith };
  referenced = λ k u row e. (hike, ground arith);
}

serve_activities-IsSeated_example : IsSeated (serve_activities activity_requests no_activities)
serve_activities-IsSeated_example =
    serve_activities-IsSeated activity_requests no_activities no_activities-IsSeated

promote_waitlist-IsPromoted_example :
    Returns (λ r db'. IsPromoted env hike r.0 r.1 db') (promote_waitlist env hike hikes)
promote_waitlist-IsPromoted_example =
    promote_waitlist-IsPromoted env hike hikes hikes-IsSeated (unfold lookup in refl)

next_waitlisted-IsFirst_example :
    (waits env 0 (row_of 3 ParticipantRole.member ParticipantStatus.waitlisted (some 30)) ≡ true)
    × IsFirst env 0
        (row_of 3 ParticipantRole.member ParticipantStatus.waitlisted (some 30))
        hike_rows
next_waitlisted-IsFirst_example =
    next_waitlisted-IsFirst env 0 hike_rows
      (row_of 3 ParticipantRole.member ParticipantStatus.waitlisted (some 30))
      (unfold next_waitlisted waits is_earlier is_waitlisted in refl)
