-- ===== src/Shared/Idempotency/Replay.antt =====
-- A request that was completed is replayed, not run again.
use dating_backend.Prelude.{
  ℕ, ◌+◌, ◌≤◌, ◌≡◌, refl, String, true, false, Option, none, some, [], ◌∷◌, leb, arith, Bool-cases,
  inl, inr, if◌then◌else◌, ◌||◌, ap,
}
use dating_backend.Shared.Errors.{app_error, idempotency_conflict}
use dating_backend.Shared.Action.{ok, err, ◌>>=◌, ◌>>◌, Action, pure}
use dating_backend.Shared.Idempotency.{
  IdempotencyRecord, Records, replay, is_record, find_record, put_record, lookup_record,
  check_found, is_foreign, begin, decide, resume, new_record, complete, completed_record,
  add_record, Begun, update_record, fresh,
}
use text.Mathlib.TextPositions.{eq_refl}
use text.Mathlib.Text.{◌==◌ as str_eq}

own_user : (v : Option ℕ) → is_foreign v v ≡ false
unfolding is_foreign
own_user none = refl
own_user (some v) = ground arith

module _ {Response : Type 0} where
  find-put :
      (row : IdempotencyRecord Response) (rows : Records Response)
      → is_record row.scope row.key row ≡ true
      → find_record row.scope row.key (put_record row rows) ≡ some row
  unfolding find_record put_record
  find-put row [] self = ground (arith, self)
  find-put row (r ∷ rows) self = ground (arith, self, find-put row rows)

  -- Writing the attributes of a row that is there is what putting it would be.
  update-put :
      (row row' : IdempotencyRecord Response) (rows : Records Response)
      → row.scope ≡ row'.scope
      → row.key ≡ row'.key
      → is_record row'.scope row'.key row ≡ true
      → update_record row' (put_record row rows) ≡ put_record row' rows
  unfolding update_record put_record
  update-put row row' [] scopes keys self = ground (arith, self)
  update-put row row' (r ∷ rows) scopes keys self =
      ground (arith, self, scopes, keys, update-put row row' rows scopes keys self)

  -- What the caller of `begin` does with a new row: it runs the request and completes the row.
  unfoldable pub finish : Response → Begun Response → Action (Records Response) (Unit {0})
  finish response (fresh row) = complete row response
  finish response (replay _) = pure tt

  module _ (ttl now : ℕ) (scope key : String) (u : Option ℕ) (hash : String) where
    abbrev begun : IdempotencyRecord Response
    begun = new_record now scope key u hash ttl

    -- The row that is there for a request, once its first run has completed.
    done_found :
        (response : Response) (rows : Records Response)
        → find_record scope key (put_record (completed_record begun response) rows)
          ≡ some (completed_record begun response)
    unfolding completed_record new_record
    done_found response rows =
        find-put (completed_record begun response) rows (ground (arith, eq_refl scope, eq_refl key))

    -- The first run of a request leaves its row, with the response.
    first_run :
        (response : Response) (rows : Records Response)
        → find_record scope key rows ≡ none
        → (begin ttl now scope key u hash >>= finish response) rows
          ≡ ok (tt, put_record (completed_record begun response) rows)
    unfolding begin lookup_record check_found decide finish complete add_record
    first_run response rows absent =
        rw (absent, ◌>>=◌)
          (ap (λ t. ok (tt, t))
            (unfold completed_record new_record in
              update-put begun (completed_record begun response) rows refl refl
                (ground (arith, eq_refl scope, eq_refl key))))

    looked_up :
        (now' : ℕ) (response : Response) (rows : Records Response)
        → (now' + 1) ≤ (now + ttl)
        → lookup_record now' scope key u (put_record (completed_record begun response) rows)
          ≡ ok (
            some (completed_record begun response),
            put_record (completed_record begun response) rows,
          )
    unfolding lookup_record check_found
    looked_up now' response rows alive =
        let early : leb (now + ttl) now' ≡ false = ground arith in
        rw (done_found response rows, ◌>>=◌)
          (unfold completed_record new_record in rw (own_user u) (rw early refl))

    answered_again :
        (ttl' now' : ℕ) (hash' : String) (response : Response) (rows : Records Response)
        → (now' + 1) ≤ (now + ttl)
        → begin ttl' now' scope key u hash' (put_record (completed_record begun response) rows) ≡ (
            if str_eq hash "" || str_eq hash hash'
            then ok (replay response, put_record (completed_record begun response) rows)
            else err (app_error idempotency_conflict 409))
    unfolding begin decide resume
    answered_again ttl' now' hash' response rows alive =
        rw (looked_up now' response rows alive, ◌>>=◌)
          (unfold completed_record new_record in
            (elim (Bool-cases (str_eq hash "")) [
              | inl nameless ↦ rw nameless refl
              | inr named ↦ elim (Bool-cases (str_eq hash hash')) [
                | inl same ↦ rw (named, same) refl
                | inr differs ↦ rw (named, differs) refl
              ]
            ]))

    -- Once a request whose key no record had has begun and completed, and before its record expires, a request
    -- of the same user under its key is answered with the response that was kept, and changes nothing more, where it
    -- is the same request or the first one kept no hash; and any other request is refused.
    pub completed_answers :
        (ttl' now' : ℕ) (hash' : String) (response : Response) (rows : Records Response)
        → find_record scope key rows ≡ none
        → (now' + 1) ≤ (now + ttl)
        → ((begin ttl now scope key u hash >>= finish response)
              >> begin ttl' now' scope key u hash')
            rows
          ≡ (if str_eq hash "" || str_eq hash hash'
              then ok (replay response, put_record (completed_record begun response) rows)
              else err (app_error idempotency_conflict 409))
    completed_answers ttl' now' hash' response rows absent alive =
        rw (first_run response rows absent, ◌>>=◌)
          (answered_again ttl' now' hash' response rows alive)
