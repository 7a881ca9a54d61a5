-- ===== src/Auth/OneLogin.antt =====
-- A code that was sent logs in once: `login` of `AuthService`.
use dating_backend.Prelude.{
  ℕ, ◌≡◌, refl, String, Bool, true, false, Option, none, some, List, [], ◌∷◌, ◌&&◌, not, ◌==◌,
  arith, All, Bool-cases, inl, inr, ◌+◌,
}
use text.Mathlib.Text.{◌==◌ as str_eq}
use text.Mathlib.TextEquality.{eq_iff}
use dating_backend.Shared.Errors.{Failure, app_error, auth_code_expired}
use dating_backend.Shared.Action.{err}
use dating_backend.Shared.Table.{lookup, lookup-insert, lookup-erase}
use dating_backend.Auth.Data.{AuthEnv, AuthState, SmsStore}
use dating_backend.Auth.Codes.{
  alive_code, stored_code, check_stored, check_code, send_unless, send_sms, code_sent, new_code,
  is_bypass,
}
use dating_backend.Auth.Sessions.{login_checked, login}
use dating_backend.Auth.Requests.{
  AuthRequest, sms_send, sms_login, password_login, token_refresh, log_out, serve_auth, serve_auths,
}

-- Whether a request has a code sent to this phone.
unfoldable pub sends_to : ℕ → AuthRequest → Bool
sends_to phone (sms_send p _) = p == phone
sends_to phone _ = false

module _ (phone : ℕ) where
  without_code :
      (env : AuthEnv) (p : ℕ) (code : String) (stored : Option String) (sms : SmsStore)
      → lookup phone sms.codes ≡ none
      → (device_id : ℕ) (platform : String) (s : AuthState) → s.sms ≡ sms
      → lookup phone
          (login_checked env
            (check_stored env p code stored sms)
            p
            device_id
            platform
            s).1.sms.codes
        ≡ none
  unfolding check_stored login_checked
  without_code env p code none sms h device_id platform s same =
      elim (Bool-cases (is_bypass env p code)) [
        | inl past ↦ rw past h
        | inr refused ↦ rw (refused, same) h
      ]
  without_code env p code (some stored) sms h device_id platform s same =
      elim (Bool-cases (not (str_eq stored code) && not (is_bypass env p code))) [
        | inl refused ↦ rw (refused, same) h
        | inr past ↦ rw past (ground (arith, h, lookup-erase p phone sms.codes))
      ]

  sent_elsewhere :
      (env : AuthEnv) (refusal : Option Failure) (p : ℕ) (ip : Option String) (s : AuthState)
      → (p == phone) ≡ false
      → lookup phone s.sms.codes ≡ none
      → lookup phone (send_unless env refusal p ip s).1.sms.codes ≡ none
  unfolding send_unless code_sent
  sent_elsewhere env (some e) p ip s other h = h
  sent_elsewhere env none p ip s other h = ground (
    arith,
    other,
    h,
    lookup-insert p phone (new_code env p, env.now + env.sms_code_ttl_seconds) s.sms.codes,
  )

  still_none :
      (env : AuthEnv) (r : AuthRequest) (s : AuthState)
      → sends_to phone r ≡ false
      → lookup phone s.sms.codes ≡ none
      → lookup phone (serve_auth env r s).sms.codes ≡ none
  unfolding serve_auth sends_to send_sms login check_code
  still_none env (sms_send p ip) s other h = sent_elsewhere env _ p ip s other h
  still_none env (sms_login p code device_id platform) s other h =
      without_code env p code (stored_code env p s.sms) s.sms h device_id platform s refl
  still_none env (password_login _ _ _ _) s other h = h
  still_none env (token_refresh _) s other h = h
  still_none env (log_out _) s other h = h

  none_after :
      (rs : List (AuthEnv × AuthRequest)) (s : AuthState)
      → All (λ r. sends_to phone r.1 ≡ false) rs
      → lookup phone s.sms.codes ≡ none
      → lookup phone (serve_auths rs s).sms.codes ≡ none
  unfolding serve_auths
  none_after [] s others h = h
  none_after ((env, r) ∷ rs) s (other, others) h =
      none_after rs (serve_auth env r s) others (still_none env r s other h)

  no_code :
      (env : AuthEnv) (code : String) (device_id : ℕ) (platform : String) (s : AuthState)
      → is_bypass env phone code ≡ false
      → lookup phone s.sms.codes ≡ none
      → (login env phone code device_id platform s).0 ≡ err (app_error auth_code_expired 400)
  unfolding login check_code stored_code alive_code check_stored login_checked
  no_code env code device_id platform s plain h = rw (h, plain) refl

  used_code :
      (env : AuthEnv) (code : String) (device_id : ℕ) (platform : String) (s : AuthState)
      → stored_code env phone s.sms ≡ some code
      → str_eq code code ≡ true
      → lookup phone (login env phone code device_id platform s).1.sms.codes ≡ none
  unfolding login check_code check_stored login_checked
  used_code env code device_id platform s stored same =
      rw (stored, same) (ground (arith, lookup-erase phone phone s.sms.codes))

-- A login with the code that was sent to a phone uses the code up, whether or not the account is let in: after any
-- requests but a new code to that phone, every login with any code is told that the code has expired, but for the
-- fixed code where that is allowed.
pub code_logs_in_once :
    (env : AuthEnv) (phone : ℕ) (code : String) (device_id : ℕ) (platform : String) (s : AuthState)
    → stored_code env phone s.sms ≡ some code
    → (rs : List (AuthEnv × AuthRequest)) → All (λ r. sends_to phone r.1 ≡ false) rs
    → (later : AuthEnv) (tried : String) (other_device : ℕ) (other_platform : String)
    → is_bypass later phone tried ≡ false
    → (login later phone tried other_device other_platform
        (serve_auths rs (serve_auth env (sms_login phone code device_id platform) s))).0
      ≡ err (app_error auth_code_expired 400)
unfolding serve_auth
code_logs_in_once env phone code device_id platform s stored rs others later tried other_device
      other_platform plain =
    no_code phone later tried other_device other_platform _ plain (
      none_after phone rs _ others
        (used_code phone env code device_id platform s stored ((eq_iff code code).1 refl)))
