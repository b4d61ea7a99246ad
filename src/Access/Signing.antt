-- ===== src/Access/Signing.antt =====
-- neorc_core/_access.py: the class Access, over a credential store. Random secrets, the hash of a
-- secret and the two clocks are arguments; a span of time is a whole number of seconds.
use Prim.Native.Nat.{◌-◌}
use neorc.Prelude.{
  ℕ, ◌*◌, String, ◌==◌, nat_eq, string_eq, Bool, true, false, ◌&&◌, ◌||◌, not, Option, none, some,
  List, [], ◌∷◌, ◌++◌, length, ltb, leb, if◌then◌else◌,
}
use neorc.Errors.{Result, ok, err, invalid_value, authentication, sign_in_refused, ◌>>=◌, ◌>>◌}
use neorc.Json.{Text}
use neorc.Flow.Definition.{codes}
use neorc.Runs.{Time}
use neorc.Access.{Principal, Role, check_role, token, session, user, Identity, Allow, allowed}
use neorc.Credentials.{ApiToken, PendingLogin}
use neorc.Credentials.Port.{CredentialStore}

abbrev pub token_prefix : Text
token_prefix = codes "neorc_"

abbrev pub max_seconds : ℕ
max_seconds = 5 * 366 * 24 * 60 * 60

abbrev pub max_secret_length : ℕ
max_secret_length = 256

unfoldable pub check_seconds : ℕ → Result (Unit {0})
check_seconds seconds =
    if ltb 0 seconds && leb seconds max_seconds then ok tt else err invalid_value

-- A token's life, where it has an end.
unfoldable pub check_life : Option ℕ → Result (Unit {0})
unfolding check_seconds
check_life none = ok tt
check_life (some seconds) = check_seconds seconds

-- The characters of a token name: one first, and those behind it.
abbrev pub is_alphanumeric : ℕ → Bool
is_alphanumeric c =
    (leb b'A' c && leb c b'Z') || (leb b'a' c && leb c b'z') || (leb b'0' c && leb c b'9')

all_in_name : Text → Bool
all_in_name [] = true
all_in_name (c ∷ cs) =
    (is_alphanumeric c || (c == b'_') || (c == b'.') || (c == b'-')) && all_in_name cs

unfoldable pub is_token_name : Text → Bool
unfolding all_in_name
is_token_name [] = false
is_token_name (c ∷ cs) = is_alphanumeric c && all_in_name cs && leb (length cs) 99

-- `secret.startswith(TOKEN_PREFIX)`
unfoldable pub starts_with : Text → Text → Bool
starts_with [] text = true
starts_with (c ∷ cs) [] = false
starts_with (c ∷ cs) (d ∷ ds) = (d == c) && starts_with cs ds

-- `not secret`
abbrev pub is_empty : Text → Bool
is_empty [] = true
is_empty (c ∷ cs) = false

-- `first or second`, for texts that may be missing.
abbrev pub or_else : Option Text → Text → Text
or_else none other = other
or_else (some text) other = if is_empty text then other else text

-- What the class reads of its arguments, and what it calls of Python: the hash, `str.lower`, and the
-- text of an id.
pub record Settings : Type 0 where
  pub allow : List Allow
  pub session_seconds : ℕ
  pub login_seconds : ℕ
  pub max_pending_logins : ℕ
  pub sweep_seconds : ℕ
  pub secret_hash : Text → Text
  pub lower : Text → Text
  pub id_text : ℕ → Text

-- `__init__`
unfoldable pub check_settings : Settings → Result (Unit {0})
unfolding check_seconds
check_settings settings = do
  check_seconds settings.session_seconds
  check_seconds settings.login_seconds
  if ltb settings.max_pending_logins 1 then err invalid_value else ok tt

module _ (c : CredentialStore) (settings : Settings) where
  -- The credentials, and when expired rows were deleted last.
  pub record Access : Type 0 where
    pub credentials : c.State
    pub swept_at : Option Time

  unfoldable pub check_token : Text → Role → Option String → Option ℕ → Result (Unit {0})
  unfolding is_token_name check_role check_life
  check_token name role queue expires = do
    (if is_token_name name then ok tt else err invalid_value)
    check_role role queue
    check_life expires

  unfoldable pub create_token :
      Text
      → Role
      → Option String
      → Option ℕ
      → Text
      → ℕ
      → Time
      → Access
      → Result (Text × ApiToken) × Access
  unfolding check_token
  create_token name role queue expires random fresh now s =
      let secret = token_prefix ++ random in
      elim (check_token name role queue expires) [
        | err e ↦ (err e, s)
        | ok checked ↦
            let (added, kept) =
              c.add_token name (settings.secret_hash secret) role queue expires fresh now
                s.credentials in
            (added >>= (λ token. ok (secret, token)), record s { credentials = kept })
      ]

  unfoldable pub tokens : Access → List ApiToken
  tokens s = c.tokens s.credentials

  unfoldable pub revoke_token : Text → Access → Bool × Access
  revoke_token name s =
      let (found, kept) = c.delete_token name s.credentials in
      (found, record s { credentials = kept })

  -- The principal that a token stands for.
  abbrev pub token_principal : ApiToken → Principal
  token_principal kept = record {
    kind = token;
    subject = settings.id_text kept.id;
    name = kept.name;
    role = kept.role;
    queue = kept.queue;
    provider = none;
    email = none;
  }

  unfoldable pub authenticate_token : Text → Time → Access → Result Principal
  unfolding starts_with
  authenticate_token secret now s =
      if not (starts_with token_prefix secret) || ltb max_secret_length (length secret)
      then err authentication
      else elim (c.token_by_hash (settings.secret_hash secret) now s.credentials) [
        | none ↦ err authentication
        | some kept ↦ ok (token_principal kept)
      ]

  -- Expired rows go, unless they went within the sweep interval.
  unfoldable pub swept : Time → Time → Access → Access
  swept monotonic now s =
      let due : Bool = elim s.swept_at [
        | none ↦ true
        | some last ↦ leb settings.sweep_seconds (monotonic - last)
      ] in
      if due
      then record { credentials = c.delete_expired now s.credentials; swept_at = some monotonic }
      else s

  unfoldable pub begin_login :
      String → Text → Text → Text → Time → Time → Access → Result (Text × PendingLogin) × Access
  unfolding swept
  begin_login provider state nonce verifier monotonic now s =
      let login : PendingLogin = record {
        provider = provider;
        nonce = nonce;
        verifier = verifier;
      } in
      let s' = swept monotonic now s in
      let (stored, kept) =
        c.add_login (settings.secret_hash state) login settings.login_seconds
          settings.max_pending_logins now s'.credentials in
      (if stored then ok (state, login) else err authentication, record s' { credentials = kept })

  unfoldable pub take_login : String → Text → Time → Access → Result PendingLogin × Access
  take_login provider state now s =
      let (found, kept) = c.take_login (settings.secret_hash state) now s.credentials in
      if is_empty state || ltb max_secret_length (length state) then (err authentication, s) else (
        elim found [
          | none ↦ err authentication
          | some login ↦ if login.provider == provider then ok login else err authentication
        ],
        record s { credentials = kept },
      )

  abbrev pub session_principal : Identity → Principal
  session_principal identity =
      let email = if identity.email_verified then identity.email else none in
      record {
        kind = session;
        subject = identity.subject;
        name = or_else identity.name (or_else email identity.subject);
        role = user;
        queue = none;
        provider = some identity.provider;
        email = email;
      }

  unfoldable pub open_session : Identity → Text → Time → Access → Result (Text × Principal) × Access
  unfolding allowed
  open_session identity secret now s =
      if allowed settings.lower identity settings.allow
      then (
        ok (secret, session_principal identity),
        record s {
          credentials =
              c.add_session (settings.secret_hash secret) (session_principal identity)
                settings.session_seconds now s.credentials;
        },
      )
      else (err sign_in_refused, s)

  unfoldable pub authenticate_session : Text → Time → Access → Result Principal
  authenticate_session secret now s =
      if is_empty secret || ltb max_secret_length (length secret)
      then err authentication
      else elim (c.session_by_hash (settings.secret_hash secret) now s.credentials) [
        | none ↦ err authentication
        | some principal ↦ ok principal
      ]

  unfoldable pub end_session : Text → Access → Access
  end_session secret s =
      if not (is_empty secret) && leb (length secret) max_secret_length
      then record s {
        credentials = (c.delete_session (settings.secret_hash secret) s.credentials).1;
      }
      else s

  unfoldable pub end_sessions : Access → ℕ × Access
  end_sessions s =
      let (count, kept) = c.delete_sessions s.credentials in
      (count, record s { credentials = kept })
