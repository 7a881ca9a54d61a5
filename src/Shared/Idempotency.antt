-- ===== src/Shared/Idempotency.antt =====
-- `IdempotencyService` of app/shared/idempotency.py. A record is found by its scope and key, which
-- `uq_idempotency_scope_key` keeps unique.
pub mod Replay
mod Tests
use dating_backend.Prelude.{
  ℕ, ◌+◌, String, Bool, true, false, Option, none, some, List, [], ◌∷◌, not, ◌&&◌, ◌==◌, leb,
  if◌then◌else◌, is_some,
}
use dating_backend.Shared.Errors.{
  app_error, integrity_error, idempotency_conflict, idempotency_in_progress,
}
use dating_backend.Shared.Action.{Action, pure, raise, gets, modify, ◌>>=◌, ◌>>◌}
use text.Mathlib.Text.{◌==◌ as str_eq}

pub data RecordStatus : Type 0 where
  pending completed : RecordStatus

-- A row, with the response that was kept.
pub record IdempotencyRecord (Response : Type 0) : Type 0 where
  pub scope : String
  pub key : String
  pub user_id : Option ℕ
  pub request_hash : String
  pub status : RecordStatus
  pub response_snapshot : Option Response
  pub expires_at : ℕ

-- What `begin` returns: the response to replay, or the new row.
pub data Begun (Response : Type 0) : Type 0 where
  replay : Response → Begun Response
  fresh : IdempotencyRecord Response → Begun Response

abbrev pub Records : Type 0 → Type 0
Records Response = List (IdempotencyRecord Response)

-- Both users are known and differ.
unfoldable pub is_foreign : Option ℕ → Option ℕ → Bool
is_foreign none _ = false
is_foreign (some u) none = false
is_foreign (some u) (some v) = not (v == u)

module _ {Response : Type 0} where
  abbrev pub is_record : String → String → IdempotencyRecord Response → Bool
  is_record scope key row = str_eq row.scope scope && str_eq row.key key

  unfoldable pub find_record :
      String → String → Records Response → Option (IdempotencyRecord Response)
  find_record scope key [] = none
  find_record scope key (row ∷ rows) =
      if is_record scope key row then some row else find_record scope key rows

  -- The flush of a row.
  unfoldable pub put_record : IdempotencyRecord Response → Records Response → Records Response
  put_record row [] = row ∷ []
  put_record row (r ∷ rows) =
      let rest = put_record row rows in
      if is_record row.scope row.key r then row ∷ rows else r ∷ rest

  -- The flush of an attribute of a row: it is written where the row is there.
  unfoldable pub update_record : IdempotencyRecord Response → Records Response → Records Response
  update_record row [] = []
  update_record row (r ∷ rows) =
      let rest = update_record row rows in
      if is_record row.scope row.key r then row ∷ rows else r ∷ rest

  -- `db.delete(row)`
  unfoldable pub delete_record : String → String → Records Response → Records Response
  delete_record scope key [] = []
  delete_record scope key (r ∷ rows) =
      let rest = delete_record scope key rows in if is_record scope key r then rest else r ∷ rest

  -- The branches of `lookup` on the row that it finds.
  unfoldable pub check_found :
      ℕ
      → Option ℕ
      → Option (IdempotencyRecord Response)
      → Action (Records Response) (Option (IdempotencyRecord Response))
  unfolding is_foreign delete_record
  check_found now user_id none = pure none
  check_found now user_id (some row) =
      if is_foreign user_id row.user_id
      then raise (app_error idempotency_conflict 409)
      else if leb row.expires_at now
      then modify (delete_record row.scope row.key) >> pure none
      else pure (some row)

  unfoldable pub lookup_record :
      ℕ
      → String
      → String
      → Option ℕ
      → Action (Records Response) (Option (IdempotencyRecord Response))
  unfolding find_record check_found
  lookup_record now scope key user_id = gets (find_record scope key) >>= check_found now user_id

  unfoldable pub new_record :
      ℕ → String → String → Option ℕ → String → ℕ → IdempotencyRecord Response
  new_record now scope key user_id request_hash ttl = record {
    scope = scope;
    key = key;
    user_id = user_id;
    request_hash = request_hash;
    status = pending;
    response_snapshot = none;
    expires_at = now + ttl;
  }

  unfoldable pub add_record :
      IdempotencyRecord Response → Action (Records Response) (Begun Response)
  unfolding put_record
  add_record row = modify (put_record row) >> pure (fresh row)

  -- A completed record without a response is not replayed, and a second row for its key is refused.
  unfoldable pub resume :
      RecordStatus
      → Option Response
      → IdempotencyRecord Response
      → Action (Records Response) (Begun Response)
  unfolding add_record
  resume completed (some response) row = pure (replay response)
  resume completed none row = raise integrity_error
  resume pending _ row = raise (app_error idempotency_in_progress 409)

  -- A stored hash that is empty is not compared.
  unfoldable pub decide :
      Option (IdempotencyRecord Response)
      → IdempotencyRecord Response
      → Action (Records Response) (Begun Response)
  unfolding resume
  decide none row = add_record row
  decide (some existing) row =
      if not (str_eq existing.request_hash "")
        && not (str_eq existing.request_hash row.request_hash)
      then raise (app_error idempotency_conflict 409)
      else resume existing.status existing.response_snapshot row

  -- `ttl` is `settings.idempotency_ttl_seconds`.
  unfoldable pub begin :
      ℕ → ℕ → String → String → Option ℕ → String → Action (Records Response) (Begun Response)
  unfolding new_record decide
  begin ttl now scope key user_id request_hash = lookup_record now scope key user_id >>= λ existing.
      decide existing (new_record now scope key user_id request_hash ttl)

  unfoldable pub completed_record :
      IdempotencyRecord Response → Response → IdempotencyRecord Response
  completed_record row response = record row {
    status = completed;
    response_snapshot = some response;
  }

  unfoldable pub complete :
      IdempotencyRecord Response → Response → Action (Records Response) (Unit {0})
  unfolding completed_record update_record
  complete row response = modify (update_record (completed_record row response))

  unfoldable pub fail : IdempotencyRecord Response → Action (Records Response) (Unit {0})
  fail row = modify (delete_record row.scope row.key)
