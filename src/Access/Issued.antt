-- ===== src/Access/Issued.antt =====
-- What the credentials that Access has issued may be: a token has a role that its queue fits, and a
-- session is of a person.
use neorc.Prelude.{
  ℕ, String, nat_eq, string_eq, list_eq, ◌≡◌, refl, inl, inr, Bool, Option, none, ◌++◌,
  Option-cases, if◌then◌else◌, arith,
}
use neorc.Prelude.Dict
use neorc.Prelude.Dict.{Dict}
use neorc.Errors.{Result, ok, err, ◌>>=◌, invalid_value}
use neorc.Json.{Text}
use neorc.Runs.{Time}
use neorc.Access.{Principal, Role, user, check_role, Identity}
use neorc.Access.Signing
use neorc.Access.Signing.{Settings, Access}
use neorc.Credentials.{
  ApiToken, PendingLogin, Credentials, init, add_token, delete_token, add_session, add_login,
  take_login, delete_session, delete_sessions, delete_expired,
}
use neorc.Credentials.Port.{memory}
use neorc.Access.Rows.{
  either, Every, Every-set, Every-remove, keep_alive-Every, IsUnique, IsUnique-set, IsUnique-remove,
  keep_alive-IsUnique,
}

-- A call of Access that may write, with the random texts, ids and clocks that it draws.
pub data Call : Type 0 where
  creates :
      (name : Text) (role : Role) (queue : Option String) (expires : Option ℕ) (random : Text)
      (fresh : ℕ)
      → Call
  revokes : (name : Text) → Call
  begins : (provider : String) (state nonce verifier : Text) (monotonic : Time) → Call
  takes : (provider : String) (state : Text) → Call
  opens : (identity : Identity) (secret : Text) → Call
  ends : (secret : Text) → Call
  ends_all : Call

abbrev pub Granted : Settings → Type 0
Granted settings = Access memory settings

-- What a call leaves, whether it returns or raises.
unfoldable pub serve : (settings : Settings) → Call → Time → Granted settings → Granted settings
unfolding Signing.create_token Signing.revoke_token Signing.begin_login Signing.take_login
    Signing.open_session Signing.end_session Signing.end_sessions
serve settings (creates name role queue expires random fresh) now s =
    (Signing.create_token memory settings name role queue expires random fresh now s).1
serve settings (revokes name) now s = (Signing.revoke_token memory settings name s).1
serve settings (begins provider state nonce verifier monotonic) now s =
    (Signing.begin_login memory settings provider state nonce verifier monotonic now s).1
serve settings (takes provider state) now s =
    (Signing.take_login memory settings provider state now s).1
serve settings (opens identity secret) now s =
    (Signing.open_session memory settings identity secret now s).1
serve settings (ends secret) now s = Signing.end_session memory settings secret s
serve settings ends_all now s = (Signing.end_sessions memory settings s).1

abbrev pub IsTokenIssued : Text × ApiToken → Type 0
IsTokenIssued (hash, token) = check_role token.role token.queue ≡ ok tt

abbrev pub IsSessionIssued : Principal × Time → Type 0
IsSessionIssued (principal, expires) = (principal.role ≡ user) × (principal.queue ≡ none)

pub record IsIssued (s : Credentials) : Type 0 where
  pub tokens_issued : Every IsTokenIssued s.tokens
  pub sessions_issued : Every IsSessionIssued s.sessions
  pub tokens_unique : IsUnique s.tokens
  pub sessions_unique : IsUnique s.sessions
  pub logins_unique : IsUnique s.logins

pub init-IsIssued : IsIssued init
init-IsIssued = record {
  tokens_issued = tt;
  sessions_issued = tt;
  tokens_unique = tt;
  sessions_unique = tt;
  logins_unique = tt;
}

add_token-IsIssued :
    (name hash : Text) (role : Role) (queue : Option String) (expires : Option ℕ) (fresh : ℕ)
    (now : Time) (s : Credentials)
    → check_role role queue ≡ ok tt
    → IsIssued s
    → IsIssued (add_token name hash role queue expires fresh now s).1
unfolding add_token
add_token-IsIssued name hash role queue expires fresh now s fits h =
    elim (Option-cases (Dict.get name s.tokens)) [
      | inr (old, taken) ↦ rw (taken, add_token) h
      | inl free ↦
          rw (free, add_token)
            (record {
              tokens_issued = Every-set IsTokenIssued name _ s.tokens fits h.tokens_issued;
              tokens_unique = IsUnique-set name _ s.tokens h.tokens_unique;
              sessions_issued = h.sessions_issued;
              sessions_unique = h.sessions_unique;
              logins_unique = h.logins_unique;
            })
    ]

add_login-IsIssued :
    (hash : Text) (login : PendingLogin) (seconds limit : ℕ) (now : Time) (s : Credentials)
    → IsIssued s
    → IsIssued (add_login hash login seconds limit now s).1
unfolding add_login
add_login-IsIssued hash login seconds limit now s h =
    either {X = Bool × Credentials} (λ r. IsIssued r.1) _ _ _
      (record {
        tokens_issued = h.tokens_issued;
        tokens_unique = h.tokens_unique;
        sessions_issued = h.sessions_issued;
        sessions_unique = h.sessions_unique;
        logins_unique = IsUnique-set hash _ s.logins h.logins_unique;
      })
      h

second :
    (a b c : Result (Unit {0})) {checked : Unit {0}}
    → ◌≡◌ {A = Result (Unit {0})} (a >>= λ x. (b >>= λ y. c)) (ok checked)
    → b ≡ ok tt
second (ok a) (ok b) c h = refl
second (ok a) (err e) c h = absurd (ground arith)
second (err e) b c h = absurd (ground arith)

module _ (settings : Settings) where
  check_token-role :
      (name : Text) (role : Role) (queue : Option String) (expires : Option ℕ) (checked : Unit {0})
      → Signing.check_token memory settings name role queue expires ≡ ok checked
      → check_role role queue ≡ ok tt
  unfolding Signing.check_token
  check_token-role name role queue expires checked h =
      second (if Signing.is_token_name name then ok tt else err invalid_value)
        (check_role role queue) (Signing.check_life expires) h

  swept-IsIssued :
      (monotonic now : Time) (s : Granted settings)
      → IsIssued s.credentials
      → IsIssued (Signing.swept memory settings monotonic now s).credentials
  unfolding Signing.swept delete_expired
  swept-IsIssued monotonic now s h =
      either {X = Granted settings} (λ r. IsIssued r.credentials) _ _ _
        (record {
          tokens_issued = h.tokens_issued;
          tokens_unique = h.tokens_unique;
          sessions_issued =
              keep_alive-Every IsSessionIssued now s.credentials.sessions h.sessions_issued;
          sessions_unique = keep_alive-IsUnique now s.credentials.sessions h.sessions_unique;
          logins_unique = keep_alive-IsUnique now s.credentials.logins h.logins_unique;
        })
        h

  create_token-IsIssued :
      (name : Text) (role : Role) (queue : Option String) (expires : Option ℕ) (random : Text)
      (fresh : ℕ) (now : Time) (s : Granted settings)
      → IsIssued s.credentials
      → IsIssued
          (Signing.create_token memory settings name role queue expires random fresh now
            s).1.credentials
  unfolding Signing.create_token
  create_token-IsIssued name role queue expires random fresh now s h = go _ refl
    where
      go :
          (r : Result (Unit {0}))
          → Signing.check_token memory settings name role queue expires ≡ r
          → IsIssued
              (Signing.create_token memory settings name role queue expires random fresh now
                s).1.credentials
      go (ok checked) e =
          rw (e, Signing.create_token)
            (add_token-IsIssued name (settings.secret_hash (Signing.token_prefix ++ random)) role
              queue expires fresh now s.credentials
              (check_token-role name role queue expires checked e) h)
      go (err x) e = rw (e, Signing.create_token) h

  -- Every call of Access, whatever it draws and whether it returns or raises, keeps to tokens whose
  -- queue fits their role, to sessions of people, role user and no queue, to tables of sessions and of
  -- sign-ins that hold no hash twice, and to a table of tokens that holds no name twice.
  pub serve-IsIssued :
      (call : Call) (now : Time) (s : Granted settings)
      → IsIssued s.credentials
      → IsIssued (serve settings call now s).credentials
  unfolding serve delete_token take_login add_session delete_session delete_sessions
  serve-IsIssued (creates name role queue expires random fresh) now s h =
      create_token-IsIssued name role queue expires random fresh now s h
  serve-IsIssued (revokes name) now s h = record {
    tokens_issued = Every-remove IsTokenIssued name s.credentials.tokens h.tokens_issued;
    tokens_unique = IsUnique-remove name s.credentials.tokens h.tokens_unique;
    sessions_issued = h.sessions_issued;
    sessions_unique = h.sessions_unique;
    logins_unique = h.logins_unique;
  }
  serve-IsIssued (begins provider state nonce verifier monotonic) now s h =
      add_login-IsIssued (settings.secret_hash state) _ settings.login_seconds
        settings.max_pending_logins now _ (swept-IsIssued monotonic now s h)
  serve-IsIssued (takes provider state) now s h =
      either {X = Result PendingLogin × Granted settings} (λ r. IsIssued r.1.credentials) _ _ _ h
        (record {
          tokens_issued = h.tokens_issued;
          tokens_unique = h.tokens_unique;
          sessions_issued = h.sessions_issued;
          sessions_unique = h.sessions_unique;
          logins_unique =
              IsUnique-remove (settings.secret_hash state) s.credentials.logins h.logins_unique;
        })
  serve-IsIssued (opens identity secret) now s h =
      either {X = Result (Text × Principal) × Granted settings} (λ r. IsIssued r.1.credentials) _ _
        _
        (record {
          tokens_issued = h.tokens_issued;
          tokens_unique = h.tokens_unique;
          sessions_issued =
              Every-set IsSessionIssued (settings.secret_hash secret) _ s.credentials.sessions
                (refl, refl) h.sessions_issued;
          sessions_unique =
              IsUnique-set (settings.secret_hash secret) _ s.credentials.sessions h.sessions_unique;
          logins_unique = h.logins_unique;
        })
        h
  serve-IsIssued (ends secret) now s h =
      either {X = Granted settings} (λ r. IsIssued r.credentials) _ _ _
        (record {
          tokens_issued = h.tokens_issued;
          tokens_unique = h.tokens_unique;
          sessions_issued =
              Every-remove IsSessionIssued (settings.secret_hash secret) s.credentials.sessions
                h.sessions_issued;
          sessions_unique =
              IsUnique-remove (settings.secret_hash secret) s.credentials.sessions
                h.sessions_unique;
          logins_unique = h.logins_unique;
        })
        h
  serve-IsIssued ends_all now s h = record {
    tokens_issued = h.tokens_issued;
    tokens_unique = h.tokens_unique;
    sessions_issued = tt;
    sessions_unique = tt;
    logins_unique = h.logins_unique;
  }
