-- ===== src/Tests/Access.antt =====
-- A worker on its queue, and a person who signs in by a verified address.
use neorc.Prelude.{String, ◌≡◌, refl, true, none, some, List, In, [], ◌∷◌}
use neorc.Json.{Text}
use neorc.Flow.Definition.{codes}
use neorc.Access
use neorc.Access.Permitted.{Fits, value_of, authorize-worker, allowed-Fits}

abbrev worker_on : String → Access.Principal
worker_on queue = record {
  kind = Access.token;
  subject = codes "1";
  name = codes "worker";
  role = Access.worker;
  queue = some queue;
  provider = none;
  email = none;
}

authorize-worker_example :
    ((worker_on "words").role ≡ Access.worker) × ((worker_on "words").queue ≡ some "words")
unfolding Access.authorize
authorize-worker_example =
    authorize-worker (worker_on "words") Access.queue_receive "words" refl refl

abbrev pub person : Access.Identity
person = record {
  provider = "company";
  subject = codes "42";
  name = none;
  email = some (codes "ada@example.org");
  email_verified = true;
  hosted_domain = none;
  groups = [];
}

abbrev pub colleagues : List Access.Allow
colleagues =
    record {
      provider = "company";
      matcher = Access.by_email_domain;
      value = some (codes "example.org");
    }
    ∷ []

abbrev pub as_written : Text → Text
as_written t = t

allowed-Fits_example :
    (a : Access.Allow) × In a colleagues
    × (a.provider ≡ "company")
    × Fits as_written a.matcher (value_of a) person
unfolding Access.allowed
allowed-Fits_example = allowed-Fits as_written person colleagues refl
