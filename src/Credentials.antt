-- ===== src/Credentials.antt =====
-- neorc_core/ports/_credentials.py and neorc_core/local/_memory_credentials.py: tokens, sessions and
-- sign-ins in progress, found by the hash of their secret. Each operation is one step, and takes the
-- clock and the random id that it uses as arguments.
pub mod Port
use neorc.Prelude.{
  ℕ, suc, ◌+◌, String, ◌==◌, nat_eq, list_eq, Bool, true, false, Option, none, some, List, [], ◌∷◌,
  length, ltb, if◌then◌else◌,
}
use neorc.Prelude.Dict
use neorc.Prelude.Dict.{Dict}
use neorc.Errors.{Result, ok, err, invalid_value}
use neorc.Json.{Text}
use neorc.Runs.{Time}
use neorc.Access.{Principal, Role}

pub record ApiToken : Type 0 where
  pub id : ℕ
  pub name : Text
  pub role : Role
  pub created_at : Time
  pub queue : Option String
  pub expires_at : Option Time

pub record PendingLogin : Type 0 where
  pub provider : String
  pub nonce : Text
  pub verifier : Text

pub record Credentials : Type 0 where
  pub tokens : Dict Text (Text × ApiToken)
  pub sessions : Dict Text (Principal × Time)
  pub logins : Dict Text (PendingLogin × Time)

abbrev pub init : Credentials
init = record { tokens = []; sessions = []; logins = [] }

-- `_after`
abbrev pub after : Time → Option ℕ → Option Time
after now none = none
after now (some seconds) = some (now + seconds)

-- `_alive`
abbrev pub alive : Option Time → Time → Bool
alive none now = true
alive (some expires_at) now = ltb now expires_at

unfoldable pub add_token :
    Text
    → Text
    → Role
    → Option String
    → Option ℕ
    → ℕ
    → Time
    → Credentials
    → Result ApiToken × Credentials
add_token name hash role queue expires fresh now s =
    let token : ApiToken = record {
      id = fresh;
      name = name;
      role = role;
      created_at = now;
      queue = queue;
      expires_at = after now expires;
    } in
    elim (Dict.get name s.tokens) [
      | some taken ↦ (err invalid_value, s)
      | none ↦ (ok token, record s { tokens = Dict.set name (hash, token) s.tokens })
    ]

-- The loop over the tokens: the first with the hash.
unfoldable pub token_with : Text → Dict Text (Text × ApiToken) → Option ApiToken
token_with hash [] = none
token_with hash ((name, (kept, token)) ∷ rest) =
    if kept == hash then some token else token_with hash rest

unfoldable pub token_by_hash : Text → Time → Credentials → Option ApiToken
unfolding token_with
token_by_hash hash now s = elim (token_with hash s.tokens) [
  | none ↦ none
  | some token ↦ if alive token.expires_at now then some token else none
]

-- The order of names, by their code points.
before : Text → Text → Bool
before [] [] = false
before [] (d ∷ ds) = true
before (c ∷ cs) [] = false
before (c ∷ cs) (d ∷ ds) = let rest = before cs ds in if c == d then rest else ltb c d

insert : ApiToken → List ApiToken → List ApiToken
unfolding before
insert token [] = token ∷ []
insert token (other ∷ rest) =
    let later = insert token rest in
    if before other.name token.name then other ∷ later else token ∷ other ∷ rest

-- `tokens`, by name: each stands under its own.
unfoldable pub sorted_tokens : Dict Text (Text × ApiToken) → List ApiToken
unfolding insert
sorted_tokens [] = []
sorted_tokens ((name, (kept, token)) ∷ rest) = insert token (sorted_tokens rest)

abbrev is_some {ℓ} : {A : Type ℓ} → Option A → Bool
is_some none = false
is_some (some a) = true

unfoldable pub delete_token : Text → Credentials → Bool × Credentials
delete_token name s =
    (is_some (Dict.get name s.tokens), record s { tokens = Dict.remove name s.tokens })

unfoldable pub add_session : Text → Principal → ℕ → Time → Credentials → Credentials
add_session hash principal seconds now s = record s {
  sessions = Dict.set hash (principal, now + seconds) s.sessions;
}

-- What is found of a row with an expiry: nothing once it has lapsed.
abbrev pub unexpired : {A : Type 0} → Option (A × Time) → Time → Option A
unexpired none now = none
unexpired (some (kept, expires)) now = if ltb now expires then some kept else none

unfoldable pub session_by_hash : Text → Time → Credentials → Option Principal
session_by_hash hash now s = unexpired (Dict.get hash s.sessions) now

unfoldable pub delete_session : Text → Credentials → Bool × Credentials
delete_session hash s =
    (is_some (Dict.get hash s.sessions), record s { sessions = Dict.remove hash s.sessions })

unfoldable pub delete_sessions : Credentials → ℕ × Credentials
delete_sessions s = (length s.sessions, record s { sessions = [] })

-- How many rows have not lapsed.
unfoldable pub count_alive : {A : Type 0} → Time → Dict Text (A × Time) → ℕ
count_alive now [] = 0
count_alive now ((hash, (kept, expires)) ∷ rest) =
    let others = count_alive now rest in if ltb now expires then suc others else others

unfoldable pub add_login : Text → PendingLogin → ℕ → ℕ → Time → Credentials → Bool × Credentials
unfolding count_alive
add_login hash login seconds limit now s =
    if ltb (count_alive now s.logins) limit
    then (true, record s { logins = Dict.set hash (login, now + seconds) s.logins })
    else (false, s)

unfoldable pub take_login : Text → Time → Credentials → Option PendingLogin × Credentials
take_login hash now s =
    (unexpired (Dict.get hash s.logins) now, record s { logins = Dict.remove hash s.logins })

-- The rows that have not lapsed.
unfoldable pub keep_alive : {A : Type 0} → Time → Dict Text (A × Time) → Dict Text (A × Time)
keep_alive now [] = []
keep_alive now ((hash, (kept, expires)) ∷ rest) =
    let others = keep_alive now rest in
    if ltb now expires then (hash, (kept, expires)) ∷ others else others

unfoldable pub delete_expired : Time → Credentials → Credentials
unfolding keep_alive
delete_expired now s = record s {
  sessions = keep_alive now s.sessions;
  logins = keep_alive now s.logins;
}
