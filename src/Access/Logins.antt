-- ===== src/Access/Logins.antt =====
-- How many sign-ins are in progress, that each is taken once, and that deleting lapsed rows is not
-- noticed.
use neorc.Prelude.{
  ℕ, ◌+◌, String, nat_eq, string_eq, list_eq, ◌≤◌, ◌≡◌, refl, sym, ◌∙◌, inl, inr, true, ◌||◌,
  Option, length, Bool-cases, Option-cases, ltb, arith,
}
use neorc.Prelude.Dict
use neorc.Prelude.Dict.Keyed.{get-remove_self}
use neorc.Errors.{Result, ok, err, authentication}
use neorc.Json.{Text}
use neorc.Runs.{Time}
use neorc.Access.Signing
use neorc.Access.Signing.{Settings, is_empty, max_secret_length}
use neorc.Access.Rows.{
  either, unexpired-keep_alive, count_alive-keep_alive, count_alive-later, count_alive-set,
  count_alive-remove,
}
use neorc.Access.Issued.{
  IsIssued, Granted, Call, creates, revokes, begins, takes, opens, ends, ends_all, serve,
}
use neorc.Credentials.{
  PendingLogin, Credentials, count_alive, keep_alive, token_by_hash, session_by_hash, take_login,
  add_login, delete_expired, add_token, delete_token, add_session, delete_session, delete_sessions,
}
use neorc.Credentials.Port.{memory}
use neorc.Access.{Principal, Role}

-- Deleting the lapsed rows changes nothing that is found at that time or later: no token, no session,
-- no sign-in, and not how many sign-ins are in progress.
pub delete_expired-unnoticed :
    (s : Credentials) (hash : Text) (now later : Time)
    → IsIssued s
    → now ≤ later
    → (token_by_hash hash later (delete_expired now s) ≡ token_by_hash hash later s)
      × (session_by_hash hash later (delete_expired now s) ≡ session_by_hash hash later s)
      × ((take_login hash later (delete_expired now s)).0 ≡ (take_login hash later s).0)
      × (count_alive later (delete_expired now s).logins ≡ count_alive later s.logins)
unfolding delete_expired token_by_hash session_by_hash take_login
delete_expired-unnoticed s hash now later h le = (
  refl,
  unexpired-keep_alive now hash later s.sessions le h.sessions_unique,
  unexpired-keep_alive now hash later s.logins le h.logins_unique,
  count_alive-keep_alive now later s.logins le,
)

add_login-bounded :
    (hash : Text) (login : PendingLogin) (seconds limit : ℕ) (now : Time) (s : Credentials)
    → count_alive now s.logins ≤ limit
    → count_alive now (add_login hash login seconds limit now s).1.logins ≤ limit
unfolding add_login
add_login-bounded hash login seconds limit now s h =
    elim (Bool-cases (ltb (count_alive now s.logins) limit)) [
      | inl room ↦
          let more = count_alive-set now hash (login, now + seconds) s.logins in
          rw (room, add_login) (ground arith)
      | inr full ↦ rw (full, add_login) h
    ]

module _ (settings : Settings) where
  swept-bounded :
      (monotonic now : Time) (s : Granted settings)
      → count_alive now s.credentials.logins ≤ settings.max_pending_logins
      → count_alive now (Signing.swept memory settings monotonic now s).credentials.logins
        ≤ settings.max_pending_logins
  unfolding Signing.swept delete_expired
  swept-bounded monotonic now s h =
      let rest : count_alive now (keep_alive now s.credentials.logins)
          ≤ settings.max_pending_logins =
        rw (count_alive-keep_alive now now s.credentials.logins (ground arith)) h in
      either {X = Granted settings}
        (λ r. count_alive now r.credentials.logins ≤ settings.max_pending_logins) _ _ _ rest h

  create_token-bounded :
      (name : Text) (role : Role) (queue : Option String) (expires : Option ℕ) (random : Text)
      (fresh : ℕ) (now : Time) (s : Granted settings)
      → count_alive now s.credentials.logins ≤ settings.max_pending_logins
      → count_alive now
          (Signing.create_token memory settings name role queue expires random fresh now
            s).1.credentials.logins
        ≤ settings.max_pending_logins
  unfolding Signing.create_token add_token
  create_token-bounded name role queue expires random fresh now s h =
      go (Signing.check_token memory settings name role queue expires) refl
    where
      go :
          (r : Result (Unit {0}))
          → Signing.check_token memory settings name role queue expires ≡ r
          → count_alive now
              (Signing.create_token memory settings name role queue expires random fresh now
                s).1.credentials.logins
            ≤ settings.max_pending_logins
      go (err x) e = rw (e, Signing.create_token) h
      go (ok checked) e = elim (Option-cases (Dict.get name s.credentials.tokens)) [
        | inr (old, taken) ↦ rw (e, Signing.create_token, taken, add_token) h
        | inl free ↦ rw (e, Signing.create_token, free, add_token) h
      ]

  -- Not more sign-ins than the limit are in progress after a call either.
  served :
      (call : Call) (now : Time) (s : Granted settings)
      → count_alive now s.credentials.logins ≤ settings.max_pending_logins
      → count_alive now (serve settings call now s).credentials.logins ≤ settings.max_pending_logins
  unfolding serve delete_token take_login add_session delete_session delete_sessions
  served (creates name role queue expires random fresh) now s h =
      create_token-bounded name role queue expires random fresh now s h
  served (revokes name) now s h = h
  served (begins provider state nonce verifier monotonic) now s h =
      add_login-bounded (settings.secret_hash state) _ settings.login_seconds
        settings.max_pending_logins now _ (swept-bounded monotonic now s h)
  served (takes provider state) now s h =
      let hash = settings.secret_hash state in
      let fewer = count_alive-remove now hash s.credentials.logins in
      let rest : count_alive now (Dict.remove hash s.credentials.logins)
          ≤ settings.max_pending_logins =
        ground arith in
      either {X = Result PendingLogin × Granted settings}
        (λ r. count_alive now r.1.credentials.logins ≤ settings.max_pending_logins) _ _ _ h rest
  served (opens identity secret) now s h =
      either {X = Result (Text × Principal) × Granted settings}
        (λ r. count_alive now r.1.credentials.logins ≤ settings.max_pending_logins) _ _ _ h h
  served (ends secret) now s h =
      either {X = Granted settings}
        (λ r. count_alive now r.credentials.logins ≤ settings.max_pending_logins) _ _ _ h h
  served ends_all now s h = h

  -- Where the sign-ins in progress are within the limit, they still are at any time after any call.
  pub serve-bounded :
      (call : Call) (now later : Time) (s : Granted settings)
      → count_alive now s.credentials.logins ≤ settings.max_pending_logins
      → now ≤ later
      → count_alive later (serve settings call now s).credentials.logins
        ≤ settings.max_pending_logins
  serve-bounded call now later s h le =
      let at_once = served call now s h in
      let fewer = count_alive-later now later (serve settings call now s).credentials.logins le in
      ground arith

  -- A sign-in is taken once: whoever presents its state again, for any provider and at any time, is
  -- refused.
  pub take_login-once :
      (provider provider' : String) (state : Text) (now later : Time) (s : Granted settings)
      (login : PendingLogin)
      → (Signing.take_login memory settings provider state now s).0 ≡ ok login
      → (Signing.take_login memory settings provider' state later
          (Signing.take_login memory settings provider state now s).1).0
        ≡ err authentication
  unfolding Signing.take_login take_login
  take_login-once provider provider' state now later s login h =
      elim (Bool-cases (is_empty state || ltb max_secret_length (length state))) [
        | inl wrong ↦ absurd (unless_wrong wrong)
        | inr right ↦
            rw (right, get-remove_self (settings.secret_hash state) s.credentials.logins) refl
      ]
    where
      unless_wrong : is_empty state || ltb max_secret_length (length state) ≡ true → ⊥
      unless_wrong wrong =
          let same : (Signing.take_login memory settings provider state now s).0
              ≡ err authentication =
            rw (wrong, Signing.take_login) refl in
          let p : err authentication ≡ ok login = sym same ∙ h in absurd (ground arith)
