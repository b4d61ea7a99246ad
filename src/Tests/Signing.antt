-- ===== src/Tests/Signing.antt =====
-- A worker's token, a person's session and a sign-in in progress.
use neorc.Prelude.{
  ◌≡◌, ◌≤◌, refl, none, some, [], ◌∷◌, ◌++◌, true, if◌then◌else◌, ltb, nat_eq, string_eq, list_eq,
  arith,
}
use neorc.Prelude.Dict
use neorc.Errors.{ok, err, authentication, permission_denied}
use neorc.Json.{Text}
use neorc.Flow.Definition.{codes}
use neorc.Access
use neorc.Access.{Principal, worker, authorize, queue_receive}
use neorc.Access.Signing
use neorc.Access.Signing.{Settings, token_prefix}
use neorc.Access.Issued.{IsIssued, init-IsIssued, Granted, creates, begins, serve, serve-IsIssued}
use neorc.Access.Logins.{delete_expired-unnoticed, serve-bounded, take_login-once}
use neorc.Access.Sessions.{token-worker, session-denied, open_session-lasts}
use neorc.Credentials
use neorc.Credentials.{
  ApiToken, PendingLogin, alive, token_with, count_alive, token_by_hash, session_by_hash,
  delete_expired,
}
use neorc.Credentials.Port.{memory}
use neorc.Tests.Access.{person, colleagues, as_written}

abbrev settings : Settings
settings = record {
  allow = colleagues;
  session_seconds = 100;
  login_seconds = 50;
  max_pending_logins = 2;
  sweep_seconds = 60;
  secret_hash = as_written;
  lower = as_written;
  id_text = λ n. n ∷ [];
}

abbrev empty : Granted settings
empty = record { credentials = Credentials.init; swept_at = none }

abbrev worker_secret : Text
worker_secret = token_prefix ++ codes "abc"

abbrev creating : Access.Issued.Call
creating = creates (codes "w1") worker (some "words") (some 1000) (codes "abc") 1

abbrev with_token : Granted settings
with_token = serve settings creating 5 empty

serve-IsIssued_example : IsIssued with_token.credentials
serve-IsIssued_example = serve-IsIssued settings creating 5 empty init-IsIssued

abbrev worker_token : ApiToken
worker_token = record {
  id = 1;
  name = codes "w1";
  role = worker;
  created_at = 5;
  queue = some "words";
  expires_at = some 1005;
}

token-worker_example :
    (kept : ApiToken) × (token_with worker_secret with_token.credentials.tokens ≡ some kept)
    × (alive kept.expires_at 9 ≡ true)
    × (kept.role ≡ worker)
    × (kept.queue ≡ some "words")
unfolding serve Signing.authenticate_token authorize Dict.get Dict.set token_by_hash
    Credentials.add_token
token-worker_example =
    token-worker settings worker_secret 9 with_token
      (Signing.token_principal memory settings worker_token) queue_receive "words" refl refl refl

abbrev session_secret : Text
session_secret = codes "s"

abbrev with_session : Granted settings
with_session = (Signing.open_session memory settings person session_secret 10 with_token).1

abbrev signed_in : Principal
signed_in = Signing.session_principal memory settings person

open_session-lasts_example :
    (Signing.authenticate_session memory settings session_secret 50 with_session
      ≡ (if ltb 50 110 then ok signed_in else err authentication))
    × (Signing.authenticate_session memory settings session_secret 50
          (Signing.end_session memory settings session_secret with_session)
        ≡ err authentication)
unfolding Signing.open_session
open_session-lasts_example =
    open_session-lasts settings person session_secret 10 50 with_token with_session signed_in refl
      refl refl

abbrev opening : Access.Issued.Call
opening = Access.Issued.opens person session_secret

session-denied_example :
    authorize (some signed_in) queue_receive (some "words") ≡ err permission_denied
unfolding serve Signing.authenticate_session Dict.get Dict.set session_by_hash
    Credentials.add_session Credentials.add_token Access.is_queue_permission
session-denied_example =
    session-denied settings session_secret 50 (serve settings opening 10 with_token) signed_in
      queue_receive (some "words")
      (serve-IsIssued settings opening 10 with_token serve-IsIssued_example) refl refl

abbrev beginning : Access.Issued.Call
beginning = begins "company" (codes "state") (codes "n") (codes "v") 7

abbrev with_login : Granted settings
with_login = serve settings beginning 10 with_token

serve-bounded_example : count_alive 30 with_login.credentials.logins ≤ 2
unfolding serve count_alive Credentials.add_token Dict.get
serve-bounded_example =
    serve-bounded settings beginning 10 30 with_token (ground arith) (ground arith)

delete_expired-unnoticed_example :
    (token_by_hash worker_secret 30 (delete_expired 20 with_login.credentials)
      ≡ token_by_hash worker_secret 30 with_login.credentials)
    × (session_by_hash worker_secret 30 (delete_expired 20 with_login.credentials)
        ≡ session_by_hash worker_secret 30 with_login.credentials)
    × ((Credentials.take_login worker_secret 30 (delete_expired 20 with_login.credentials)).0
        ≡ (Credentials.take_login worker_secret 30 with_login.credentials).0)
    × (count_alive 30 (delete_expired 20 with_login.credentials).logins
        ≡ count_alive 30 with_login.credentials.logins)
delete_expired-unnoticed_example =
    delete_expired-unnoticed with_login.credentials worker_secret 20 30
      (serve-IsIssued settings beginning 10 with_token
        (serve-IsIssued settings creating 5 empty init-IsIssued))
      (ground arith)

take_login-once_example :
    (Signing.take_login memory settings "company"
      (codes "state")
      25
      (Signing.take_login memory settings "company" (codes "state") 20 with_login).1).0
    ≡ err authentication
unfolding serve Signing.begin_login Signing.take_login Dict.get Dict.set Dict.remove
    Credentials.take_login Credentials.add_login delete_expired Credentials.add_token
take_login-once_example =
    take_login-once settings "company" "company" (codes "state") 20 25 with_login
      (record { provider = "company"; nonce = codes "n"; verifier = codes "v" }) refl
