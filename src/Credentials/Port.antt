-- ===== src/Credentials/Port.antt =====
-- neorc_core/ports/_credentials.py: what every credential store offers, and the dictionaries as one.
use neorc.Prelude.{ℕ, String, Bool, Option, List}
use neorc.Errors.{Result}
use neorc.Json.{Text}
use neorc.Runs.{Time}
use neorc.Access.{Principal, Role}
use neorc.Credentials
use neorc.Credentials.{ApiToken, PendingLogin}

pub record CredentialStore : Type 1 where
  pub State : Type 0
  pub add_token :
      Text → Text → Role → Option String → Option ℕ → ℕ → Time → State → Result ApiToken × State
  pub token_by_hash : Text → Time → State → Option ApiToken
  pub tokens : State → List ApiToken
  pub delete_token : Text → State → Bool × State
  pub add_session : Text → Principal → ℕ → Time → State → State
  pub session_by_hash : Text → Time → State → Option Principal
  pub delete_session : Text → State → Bool × State
  pub delete_sessions : State → ℕ × State
  pub add_login : Text → PendingLogin → ℕ → ℕ → Time → State → Bool × State
  pub take_login : Text → Time → State → Option PendingLogin × State
  pub delete_expired : Time → State → State

abbrev pub memory : CredentialStore
memory = record {
  State = Credentials.Credentials;
  add_token = Credentials.add_token;
  token_by_hash = Credentials.token_by_hash;
  tokens = λ s. Credentials.sorted_tokens s.tokens;
  delete_token = Credentials.delete_token;
  add_session = Credentials.add_session;
  session_by_hash = Credentials.session_by_hash;
  delete_session = Credentials.delete_session;
  delete_sessions = Credentials.delete_sessions;
  add_login = Credentials.add_login;
  take_login = Credentials.take_login;
  delete_expired = Credentials.delete_expired;
}
