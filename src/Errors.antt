-- ===== src/Errors.antt =====
-- neorc_core/_errors.py: the exceptions that the modelled code raises, and Python's own ones that
-- its assertions, lookups and recursion raise. A call that may raise returns a `Result`; the
-- messages are not modelled.
use neorc.Prelude.{◌≡◌, refl, ap}

pub data Error : Type 0 where
  task_not_found task_state invalid_value payload_too_large flow_definition resolution : Error
  flow_not_found flow_version run_not_found run_state : Error
  manager_unavailable authentication permission_denied sign_in_refused : Error
  cross_site_request unsupported_media_type : Error
  value_error key_error index_error assertion recursion : Error

-- What a call gives: it raises, or it returns.
pub data Result {ℓ} (Returned : Type ℓ) : Type ℓ where
  err : (raised : Error) → Result Returned
  ok : (returned : Returned) → Result Returned

infixl 5 ◌>>◌
infixl 5 ◌>>=◌
abbrev pub ◌>>=◌ {ℓ κ} :
    {Now : Type ℓ} {Later : Type κ} → Result Now → (Now → Result Later) → Result Later
err raised >>= later = err raised
ok returned >>= later = later returned

-- A check, and what follows it.
abbrev pub ◌>>◌ {κ} : {Later : Type κ} → Result (Unit {0}) → Result Later → Result Later
check >> later = check >>= (λ checked. later)

-- Inversion of a chain that succeeded.
pub >>=-eq-ok {κ ℓ} :
    {Now : Type κ} {Later : Type ℓ} (first : Result Now) (later : Now → Result Later)
    {value : Later}
    → ◌≡◌ {A = Result Later} (first >>= later) (ok value)
    → (returned : Now) × (first ≡ ok returned) × (later returned ≡ ok value)
>>=-eq-ok (err raised) later e = cc
>>=-eq-ok (ok returned) later e = (returned, refl, e)

unwrap {ℓ} : {A : Type ℓ} → A → Result A → A
unwrap d (ok a) = a
unwrap d (err e) = d

pub ok-injective {ℓ} : {A : Type ℓ} {a b : A} → ◌≡◌ {A = Result A} (ok a) (ok b) → a ≡ b
unfolding unwrap
ok-injective {a = a} h = ap (unwrap a) h

raised_by {ℓ} : {A : Type ℓ} → Error → Result A → Error
raised_by d (ok a) = d
raised_by d (err e) = e

pub err-injective {ℓ} : {A : Type ℓ} {d e : Error} → ◌≡◌ {A = Result A} (err d) (err e) → d ≡ e
unfolding raised_by
err-injective {d = d} h = ap (raised_by d) h
