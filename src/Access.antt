-- ===== src/Access.antt =====
-- neorc_core/_access.py: roles and what they permit, and who may sign in. `str.lower` is an argument.
pub mod Permitted
pub mod Signing
pub mod Issued
pub mod Rows
pub mod Logins
pub mod Sessions
use neorc.Prelude.{
  ℕ, String, ◌==◌, nat_eq, string_eq, option_eq, list_eq, Bool, true, false, ◌&&◌, ◌||◌, not,
  Option, none, some, List, [], ◌∷◌, if◌then◌else◌,
}
use neorc.Errors.{Result, ok, err, permission_denied, invalid_value, ◌>>=◌}
use neorc.Json.{Text}
use neorc.Flow.Definition.{is_queue_name}

pub data PrincipalKind : Type 0 where
  token session : PrincipalKind

pub data Role : Type 0 where
  worker scheduler ci user external_trigger : Role

pub data Permission : Type 0 where
  flows_upload flows_read runs_start runs_read runs_cancel runs_schedule events_read : Permission
  queue_definitions queue_receive tasks_claim tasks_heartbeat tasks_finish : Permission

-- `QUEUE_PERMISSIONS`
unfoldable pub is_queue_permission : Permission → Bool
is_queue_permission queue_definitions = true
is_queue_permission queue_receive = true
is_queue_permission tasks_claim = true
is_queue_permission tasks_heartbeat = true
is_queue_permission tasks_finish = true
is_queue_permission _ = false

-- `PERMISSIONS`
unfoldable pub permits : Role → Permission → Bool
unfolding is_queue_permission
permits worker p = is_queue_permission p
permits scheduler flows_read = true
permits scheduler runs_read = true
permits scheduler runs_schedule = true
permits scheduler events_read = true
permits scheduler _ = false
permits ci flows_upload = true
permits ci _ = false
permits user flows_read = true
permits user runs_start = true
permits user runs_read = true
permits user runs_cancel = true
permits user events_read = true
permits user _ = false
permits external_trigger runs_start = true
permits external_trigger _ = false

pub record Principal : Type 0 where
  pub kind : PrincipalKind
  pub subject : Text
  pub name : Text
  pub role : Role
  pub queue : Option String
  pub provider : Option String
  pub email : Option Text

unfoldable pub authorize : Option Principal → Permission → Option String → Result (Unit {0})
unfolding permits is_queue_permission
authorize none permission queue = ok tt
authorize (some principal) permission queue =
    if not (permits principal.role permission)
    then err permission_denied
    else if not (queue == none) && is_queue_permission permission && not (queue == principal.queue)
    then err permission_denied
    else ok tt

-- `Role(value)`, by the roles' values.
unfoldable pub role_of : String → Result Role
role_of value =
    if value == "worker"
    then ok worker
    else if value == "scheduler"
    then ok scheduler
    else if value == "ci"
    then ok ci
    else if value == "user"
    then ok user
    else if value == "external-trigger"
    then ok external_trigger
    else err invalid_value

unfoldable pub check_role : Role → Option String → Result (Unit {0})
unfolding is_queue_name
check_role worker none = err invalid_value
check_role worker (some queue) = if is_queue_name queue then ok tt else err invalid_value
check_role _ none = ok tt
check_role _ (some queue) = err invalid_value

pub record Identity : Type 0 where
  pub provider : String
  pub subject : Text
  pub name : Option Text
  pub email : Option Text
  pub email_verified : Bool
  pub hosted_domain : Option Text
  pub groups : List Text

pub data Matcher : Type 0 where
  everyone by_subject by_email by_email_domain by_hosted_domain by_group : Matcher

pub record Allow : Type 0 where
  pub provider : String
  pub matcher : Matcher
  pub value : Option Text

abbrev is_everyone : Matcher → Bool
is_everyone everyone = true
is_everyone _ = false

-- `__post_init__`: an entry as it is made, or refused.
unfoldable pub check_allow : Allow → Result (Unit {0})
check_allow a =
    if a.provider == ""
    then err invalid_value
    else if is_everyone a.matcher
    then (if a.value == none then ok tt else err invalid_value)
    else elim a.value [
      | none ↦ err invalid_value
      | some [] ↦ err invalid_value
      | some (c ∷ cs) ↦ ok tt
    ]

unfoldable pub holds : ℕ → Text → Bool
holds c [] = false
holds c (d ∷ ds) = (d == c) || holds c ds

-- `rpartition(c)[2]`: what stands behind the last `c`, or all of the text.
unfoldable pub after_last : ℕ → Text → Text
unfolding holds
after_last c [] = []
after_last c (d ∷ ds) =
    let rest = after_last c ds in if holds c ds then rest else if d == c then ds else d ∷ ds

holds_text : Text → List Text → Bool
holds_text t [] = false
holds_text t (u ∷ us) = (u == t) || holds_text t us

module _ (lower : Text → Text) where
  -- `_verified_email`
  unfoldable pub verified_email : Identity → Option Text
  unfolding holds
  verified_email identity = elim identity.email [
    | none ↦ none
    | some email ↦ if identity.email_verified && holds b'@' email then some (lower email) else none
  ]

  -- `Allow.matches`, once the provider is the same one.
  matches_value : Matcher → Text → Identity → Bool
  unfolding verified_email after_last holds_text
  matches_value everyone value identity = true
  matches_value by_subject value identity = identity.subject == value
  matches_value by_email value identity = elim (verified_email identity) [
    | none ↦ false
    | some email ↦ email == lower value
  ]
  matches_value by_email_domain value identity = elim (verified_email identity) [
    | none ↦ false
    | some email ↦ after_last b'@' email == lower value
  ]
  matches_value by_hosted_domain value identity = elim identity.hosted_domain [
    | none ↦ false
    | some domain ↦ lower domain == lower value
  ]
  matches_value by_group value identity = holds_text value identity.groups

  unfoldable pub matches : Allow → Identity → Bool
  unfolding matches_value
  matches a identity =
      (identity.provider == a.provider)
      && matches_value a.matcher (elim a.value [ none ↦ [] | some v ↦ v ]) identity

  unfoldable pub allowed : Identity → List Allow → Bool
  unfolding matches
  allowed identity [] = false
  allowed identity (a ∷ rest) = matches a identity || allowed identity rest
