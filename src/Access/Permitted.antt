-- ===== src/Access/Permitted.antt =====
-- What being authorized, or allowed to sign in, takes.
use mathlib.Core.Option.{some-injective}
use neorc.Prelude.{
  ℕ, Option, none, ◌&&◌, ◌∙◌, ap, subst, ◌++◌, String, ◌==◌, ==_iff, nat_eq, string_eq, option_eq,
  list_eq, ◌≡◌, ◌⊎◌, refl, sym, inl, inr, true, false, some, List, In, [], ◌∷◌, &&-eq-true, arith,
  Bool-cases, Option-cases,
}
use neorc.Errors.{ok}
use neorc.Json.{Text}
use neorc.Access

queue-worker :
    (r : Access.Role) (p : Access.Permission)
    → Access.is_queue_permission p ≡ true
    → Access.permits r p ≡ true
    → r ≡ Access.worker
unfolding Access.permits Access.is_queue_permission
queue-worker r p h e = ground arith

-- Whoever is authorized for a queue permission on a named queue is a worker bound to that queue.
pub authorize-worker :
    (p : Access.Principal) (permission : Access.Permission) (queue : String)
    → Access.is_queue_permission permission ≡ true
    → Access.authorize (some p) permission (some queue) ≡ ok tt
    → (p.role ≡ Access.worker) × (p.queue ≡ some queue)
unfolding Access.authorize Access.permits Access.is_queue_permission
authorize-worker p permission queue h e = elim (Bool-cases (Access.permits p.role permission)) [
  | inr denied ↦ absurd (ground arith)
  | inl permitted ↦ elim (Bool-cases (some queue == p.queue)) [
    | inl own ↦
        (queue-worker p.role permission h permitted, sym ((==_iff (some queue) p.queue).0 own))
    | inr another ↦ absurd (refused permitted another)
  ]
]
  where
    refused : Access.permits p.role permission ≡ true → (some queue == p.queue) ≡ false → ⊥
    refused permitted another = ground (arith, h, e)

holds-In : (c : ℕ) (t : Text) → Access.holds c t ≡ true → In c t
unfolding Access.holds
holds-In c [] h = absurd (ground arith)
holds-In c (d ∷ t) h = elim (Bool-cases (d == c)) [
  | inl same ↦ inl ground arith
  | inr other ↦ inr (holds-In c t (rw other at h))
]

holds_none-In : (c : ℕ) (t : Text) → Access.holds c t ≡ false → In c t → ⊥
unfolding Access.holds
holds_none-In c [] h found = absurd found
holds_none-In c (d ∷ t) h (inl here) = ground arith
holds_none-In c (d ∷ t) h (inr later) = holds_none-In c t (ground arith) later

holds_text-In : (t : Text) (ts : List Text) → Access.holds_text t ts ≡ true → In t ts
unfolding Access.holds_text
holds_text-In t [] h = absurd (ground arith)
holds_text-In t (u ∷ ts) h = elim (Bool-cases (u == t)) [
  | inl same ↦ inl ((==_iff u t).0 same)
  | inr other ↦ inr (holds_text-In t ts (rw other at h))
]

-- What stands behind the last `c` of a text, or the text where it has none.
pub IsBehindLast : ℕ → Text → Text → Type 0
IsBehindLast c t end = (In c end → ⊥) × ((t ≡ end) ⊎ ((before : Text) × (t ≡ before ++ (c ∷ end))))

after_last-IsBehindLast : (c : ℕ) (t : Text) → IsBehindLast c t (Access.after_last c t)
unfolding Access.after_last Access.holds IsBehindLast
after_last-IsBehindLast c [] = (λ found. absurd found, inl refl)
after_last-IsBehindLast c (d ∷ t) =
    let (absent, split) = after_last-IsBehindLast c t in
    elim (Bool-cases (Access.holds c t)) [
      | inl more ↦ rw more (absent, inr (further absent split more))
      | inr last ↦ elim (Bool-cases (d == c)) [
        | inl same ↦ rw (last, same) (holds_none-In c t last, inr ([], ground arith))
        | inr other ↦ rw (last, other) (holds_none-In c (d ∷ t) (rw (last, other) refl), inl refl)
      ]
    ]
  where
    further :
        (In c (Access.after_last c t) → ⊥)
        → (t ≡ Access.after_last c t)
          ⊎ ((before : Text) × (t ≡ before ++ (c ∷ Access.after_last c t)))
        → Access.holds c t ≡ true
        → (before : Text) × (d ∷ t ≡ before ++ (c ∷ Access.after_last c t))
    further absent (inl whole) more =
        absurd (absent (subst (λ u. In c u) whole (holds-In c t more)))
    further absent (inr (before, e)) more = (d ∷ before, ap (λ u. d ∷ u) e)

-- The address that the provider has verified, which has an `@`.
pub IsVerified : Access.Identity → Text → Type 0
IsVerified identity e = (identity.email ≡ some e) × (identity.email_verified ≡ true) × In b'@' e

abbrev pub value_of : Access.Allow → Text
value_of a = elim a.value [ none ↦ [] | some v ↦ v ]

module _ (lower : Text → Text) where
  -- What a matcher and its value ask of a person.
  abbrev pub Fits : Access.Matcher → Text → Access.Identity → Type 0
  Fits Access.everyone value identity = Unit
  Fits Access.by_subject value identity = identity.subject ≡ value
  Fits Access.by_email value identity = (e : Text) × IsVerified identity e × (lower e ≡ lower value)
  Fits Access.by_email_domain value identity =
      (e : Text) × IsVerified identity e × IsBehindLast b'@' (lower e) (lower value)
  Fits Access.by_hosted_domain value identity =
      (d : Text) × (identity.hosted_domain ≡ some d) × (lower d ≡ lower value)
  Fits Access.by_group value identity = In value identity.groups

  verified :
      (identity : Access.Identity) (t : Text)
      → Access.verified_email lower identity ≡ some t
      → (e : Text) × IsVerified identity e × (lower e ≡ t)
  unfolding Access.verified_email IsVerified
  verified identity t h = elim (Option-cases identity.email) [
    | inl unknown ↦ absurd (ground arith)
    | inr (e, known) ↦ elim (Bool-cases (identity.email_verified && Access.holds b'@' e)) [
      | inl vouched ↦
          let (own, at) = &&-eq-true _ _ vouched in
          let p : ◌≡◌ {A = Option Text} (some (lower e)) (some t) = rw (known, vouched) at h in
          (e, (known, own, holds-In b'@' e at), some-injective _ _ p)
      | inr unvouched ↦ absurd (ground arith)
    ]
  ]

  matches_value-Fits :
      (m : Access.Matcher) (value : Text) (identity : Access.Identity)
      → Access.matches_value lower m value identity ≡ true
      → Fits m value identity
  unfolding Access.matches_value
  matches_value-Fits Access.everyone value identity h = tt
  matches_value-Fits Access.by_subject value identity h = (==_iff identity.subject value).0 h
  matches_value-Fits Access.by_email value identity h =
      elim (Option-cases (Access.verified_email lower identity)) [
        | inl unverified ↦ absurd (ground arith)
        | inr (t, found) ↦
            let (e, own, same) = verified identity t found in
            (e, own, same ∙ (==_iff t (lower value)).0 (rw (found, Access.matches_value) at h))
      ]
  matches_value-Fits Access.by_email_domain value identity h =
      elim (Option-cases (Access.verified_email lower identity)) [
        | inl unverified ↦ absurd (ground arith)
        | inr (t, found) ↦
            let (e, own, same) = verified identity t found in
            let p : Access.after_last b'@' t ≡ lower value =
              (==_iff (Access.after_last b'@' t) (lower value)).0
                (rw (found, Access.matches_value) at h) in
            (
              e,
              own,
              subst (λ u. IsBehindLast b'@' u (lower value)) (sym same)
                  (subst (IsBehindLast b'@' t) p (after_last-IsBehindLast b'@' t)),
            )
      ]
  matches_value-Fits Access.by_hosted_domain value identity h =
      elim (Option-cases identity.hosted_domain) [
        | inl unknown ↦ absurd (ground arith)
        | inr (d, known) ↦
            (d, known, (==_iff (lower d) (lower value)).0 (rw (known, Access.matches_value) at h))
      ]
  matches_value-Fits Access.by_group value identity h = holds_text-In value identity.groups h

  matches-Fits :
      (a : Access.Allow) (identity : Access.Identity)
      → Access.matches lower a identity ≡ true
      → (a.provider ≡ identity.provider) × Fits a.matcher (value_of a) identity
  unfolding Access.matches
  matches-Fits a identity h =
      let (same, fits) = &&-eq-true _ _ h in
      (
        sym ((==_iff identity.provider a.provider).0 same),
        matches_value-Fits a.matcher (value_of a) identity fits,
      )

  -- Whoever may sign in fits an entry of the list for the provider that identified them: the person's
  -- subject is the entry's value, or the value is one of the person's groups, or the person has an
  -- address with an `@`, verified by the provider, that is the value or has the value behind its last
  -- `@`, or a hosted domain that is the value, with letters of either case alike in these three, or
  -- the entry is for everyone.
  pub allowed-Fits :
      (identity : Access.Identity) (allow : List Access.Allow)
      → Access.allowed lower identity allow ≡ true
      → (a : Access.Allow) × In a allow
        × (a.provider ≡ identity.provider)
        × Fits a.matcher (value_of a) identity
  unfolding Access.allowed
  allowed-Fits identity [] h = absurd (ground arith)
  allowed-Fits identity (a ∷ rest) h = elim (Bool-cases (Access.matches lower a identity)) [
    | inl m ↦ let (same, fits) = matches-Fits a identity m in (a, inl refl, same, fits)
    | inr no_match ↦
        let (b, found, same, fits) = allowed-Fits identity rest (rw no_match at h) in
        (b, inr found, same, fits)
  ]
