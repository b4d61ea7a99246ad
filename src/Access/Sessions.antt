-- ===== src/Access/Sessions.antt =====
-- Who is authenticated by a secret, for how long, and what for.
use neorc.Prelude.{
  ℕ, ◌+◌, String, nat_eq, string_eq, list_eq, ◌≡◌, refl, sym, ◌∙◌, ap, subst, inl, inr, true, false,
  not, ◌||◌, Option, some, length, Bool-cases, Option-cases, if◌then◌else◌, ltb, leb, arith,
}
use neorc.Prelude.Dict
use neorc.Prelude.Dict.{Dict}
use neorc.Prelude.Dict.Keyed.{get-set_self, get-remove_self}
use neorc.Errors.{Result, ok, err, ok-injective, authentication, sign_in_refused, permission_denied}
use neorc.Json.{Text}
use neorc.Runs.{Time}
use neorc.Access
use neorc.Access.{
  Principal, Identity, Permission, authorize, is_queue_permission, permits, check_role, allowed,
}
use neorc.Access.Permitted.{authorize-worker}
use neorc.Access.Signing
use neorc.Access.Signing.{Settings, is_empty, max_secret_length, token_prefix, starts_with}
use neorc.Access.Rows.{Every-get}
use neorc.Access.Issued.{IsIssued, IsSessionIssued, Granted}
use neorc.Credentials.{
  ApiToken, alive, token_with, token_by_hash, session_by_hash, add_session, delete_session,
}
use neorc.Credentials.Port.{memory}

module _ (settings : Settings) where
  -- How a session stands: for whom until when, and for nobody once it is ended.
  abbrev Lasts : Text → Time → Time → Granted settings → Principal → Type 0
  Lasts secret expires later s p =
      (Signing.authenticate_session memory settings secret later s
        ≡ (if ltb later expires then ok p else err authentication))
      × (Signing.authenticate_session memory settings secret later
            (Signing.end_session memory settings secret s)
          ≡ err authentication)

  added-Lasts :
      (secret : Text) (seconds : ℕ) (now later : Time) (s : Granted settings) (p : Principal)
      → is_empty secret ≡ false
      → ltb max_secret_length (length secret) ≡ false
      → Lasts secret
          (now + seconds)
          later
          (record s {
            credentials = add_session (settings.secret_hash secret) p seconds now s.credentials;
          })
          p
  unfolding Signing.authenticate_session Signing.end_session session_by_hash add_session
      delete_session
  added-Lasts secret seconds now later s p given short =
      let hash = settings.secret_hash secret in
      let fits : leb (length secret) max_secret_length ≡ true = ground arith in
      let found = get-set_self hash (p, now + seconds) s.credentials.sessions in
      let gone = get-remove_self hash (Dict.set hash (p, now + seconds) s.credentials.sessions) in
      (
        elim (Bool-cases (ltb later (now + seconds))) [
          | inl early ↦ rw (given, short, found, early) refl
          | inr late ↦ rw (given, short, found, late) refl
        ],
        rw (given, short, fits, gone) refl,
      )

  -- A session opened for an identity stands for the same person until it has lasted session_seconds,
  -- and for nobody from then on; once it is ended, it stands for nobody at any time. The secret is one
  -- that is long enough to be looked up.
  pub open_session-lasts :
      (identity : Identity) (secret : Text) (now later : Time) (s s' : Granted settings)
      (p : Principal)
      → is_empty secret ≡ false
      → ltb max_secret_length (length secret) ≡ false
      → Signing.open_session memory settings identity secret now s ≡ (ok (secret, p), s')
      → (Signing.authenticate_session memory settings secret later s'
          ≡ (if ltb later (now + settings.session_seconds) then ok p else err authentication))
        × (Signing.authenticate_session memory settings secret later
              (Signing.end_session memory settings secret s')
            ≡ err authentication)
  unfolding Signing.open_session
  open_session-lasts identity secret now later s s' p given short h =
      elim (Bool-cases (allowed settings.lower identity settings.allow)) [
        | inr refused ↦
            let e : (Signing.open_session memory settings identity secret now s).0
                ≡ err sign_in_refused =
              rw (refused, Signing.open_session) refl in
            let q : ◌≡◌ {A = Result (Text × Principal)} (err sign_in_refused) (ok (secret, p)) =
              sym e ∙ ap (λ r. r.0) h in
            absurd (ground arith)
        | inl admitted ↦
            let q = Signing.session_principal memory settings identity in
            let r : Granted settings = record s {
              credentials =
                  add_session (settings.secret_hash secret) q settings.session_seconds now
                    s.credentials;
            } in
            let e : Signing.open_session memory settings identity secret now s
                ≡ (ok (secret, q), r) =
              rw (admitted, Signing.open_session) refl in
            let same : (ok (secret, q), r) ≡ (ok (secret, p), s') = sym e ∙ h in
            let opened : q ≡ p = ap (λ x. x.1) (ok-injective (ap (λ x. x.0) same)) in
            subst (λ u. Lasts secret (now + settings.session_seconds) later u p)
              (ap (λ x. x.1) same)
              (subst (λ x. Lasts secret (now + settings.session_seconds) later r x) opened
                (added-Lasts secret settings.session_seconds now later s q given short))
      ]

  user-denied :
      (permission : Permission)
      → is_queue_permission permission ≡ true
      → permits Access.user permission ≡ false
  unfolding permits is_queue_permission
  user-denied permission h = ground arith

  session-found :
      (secret : Text) (now : Time) (s : Granted settings) (p : Principal)
      → Signing.authenticate_session memory settings secret now s ≡ ok p
      → (expires : Time) × (Dict.get (settings.secret_hash secret) s.credentials.sessions
          ≡ some (p, expires))
  unfolding Signing.authenticate_session session_by_hash
  session-found secret now s p h =
      elim (Bool-cases (is_empty secret || ltb max_secret_length (length secret))) [
        | inl wrong ↦ absurd (let q = rw wrong at h in ground arith)
        | inr right ↦
            elim (Option-cases (Dict.get (settings.secret_hash secret) s.credentials.sessions)) [
              | inl unknown ↦ absurd (let q = rw (right, unknown) at h in ground arith)
              | inr ((kept, expires), known) ↦ elim (Bool-cases (ltb now expires)) [
                | inr lapsed ↦ absurd (let q = rw (right, known, lapsed) at h in ground arith)
                | inl early ↦
                    let q : ok kept ≡ ok p = rw (right, known, early) at h in
                    (expires, known ∙ ap (λ x. some (x, expires)) (ok-injective q))
              ]
            ]
      ]

  -- Where Access has issued the credentials, whoever a session secret stands for is denied each
  -- permission of a queue, on any queue or on none.
  pub session-denied :
      (secret : Text) (now : Time) (s : Granted settings) (p : Principal) (permission : Permission)
      (queue : Option String)
      → IsIssued s.credentials
      → Signing.authenticate_session memory settings secret now s ≡ ok p
      → is_queue_permission permission ≡ true
      → authorize (some p) permission queue ≡ err permission_denied
  unfolding authorize permits is_queue_permission
  session-denied secret now s p permission queue issued h of_queue =
      let (expires, found) = session-found secret now s p h in
      let (person, unbound) =
        Every-get IsSessionIssued _ _ s.credentials.sessions issued.sessions_issued found in
      rw (person, user-denied permission of_queue) refl

  token-found :
      (secret : Text) (now : Time) (s : Granted settings) (p : Principal)
      → Signing.authenticate_token memory settings secret now s ≡ ok p
      → (kept : ApiToken) × (token_with (settings.secret_hash secret) s.credentials.tokens
          ≡ some kept)
        × (alive kept.expires_at now ≡ true)
        × (p ≡ Signing.token_principal memory settings kept)
  unfolding Signing.authenticate_token token_by_hash
  token-found secret now s p h =
      elim (Bool-cases
        (not (starts_with token_prefix secret) || ltb max_secret_length (length secret))) [
          | inl wrong ↦ absurd (let q = rw wrong at h in ground arith)
          | inr right ↦
              elim (Option-cases (token_with (settings.secret_hash secret) s.credentials.tokens)) [
                | inl unknown ↦ absurd (let q = rw (right, unknown) at h in ground arith)
                | inr (kept, known) ↦ elim (Bool-cases (alive kept.expires_at now)) [
                  | inr lapsed ↦ absurd (let q = rw (right, known, lapsed) at h in ground arith)
                  | inl early ↦
                      let q : ok (Signing.token_principal memory settings kept) ≡ ok p =
                        rw (right, known, early) at h in
                      (kept, known, early, sym (ok-injective q))
                ]
              ]
        ]

  -- Whoever a token secret stands for and is authorized for a permission of a queue on a named queue
  -- has it by a stored token of that hash, not expired, which is a worker's and bound to that queue.
  pub token-worker :
      (secret : Text) (now : Time) (s : Granted settings) (p : Principal) (permission : Permission)
      (queue : String)
      → Signing.authenticate_token memory settings secret now s ≡ ok p
      → is_queue_permission permission ≡ true
      → authorize (some p) permission (some queue) ≡ ok tt
      → (kept : ApiToken) × (token_with (settings.secret_hash secret) s.credentials.tokens
          ≡ some kept)
        × (alive kept.expires_at now ≡ true)
        × (kept.role ≡ Access.worker)
        × (kept.queue ≡ some queue)
  token-worker secret now s p permission queue h of_queue authorized =
      let (kept, known, early, same) = token-found secret now s p h in
      let (role, bound) = authorize-worker p permission queue of_queue authorized in
      (kept, known, early, sym (ap (λ x. x.role) same) ∙ role, sym (ap (λ x. x.queue) same) ∙ bound)
