-- ===== src/Manager/Calls.antt =====
-- What calls of a service do: each gives its result, or what it raises, with the state it leaves.
use neorc.Errors.{Error, Result, ok, err}

abbrev pub Op : Type 0 → Type 0 → Type 0
Op S A = S → Result A × S

abbrev pub continue : {S A B : Type 0} → Result A → (A → Op S B) → Op S B
continue (ok a) next s = next a s
continue (err e) next s = (err e, s)

infixl 5 ◌>>=◌
abbrev pub ◌>>=◌ : {S A B : Type 0} → Op S A → (A → Op S B) → Op S B
◌>>=◌ call next s = let (r, s') = call s in continue r next s'

infixl 5 ◌>>◌
abbrev pub ◌>>◌ : {S B : Type 0} → Op S (Unit {0}) → Op S B → Op S B
call >> next = call >>= (λ checked. next)

abbrev pub pure : {S A : Type 0} → A → Op S A
pure a s = (ok a, s)

abbrev pub lift : {S A : Type 0} → Result A → Op S A
lift r s = (r, s)

abbrev pub raise : {S A : Type 0} → Error → Op S A
raise e s = (err e, s)

-- What others do to the state meanwhile.
abbrev pub meanwhile : {S : Type 0} → (S → S) → Op S (Unit {0})
meanwhile others s = (ok tt, others s)
