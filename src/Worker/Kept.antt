-- ===== src/Worker/Kept.antt =====
-- What a worker reports is what the manager records.
use neorc.Prelude.{◌≡◌, refl, subst, some, arith}
use neorc.Errors.{Result, ok, err, ok-injective, >>=-eq-ok}
use neorc.Json.{JsonValue}
use neorc.Values.{Value, Datetime, encode, ensure_fits, max_value_depth}
use neorc.Values.RoundTrip.{decode-encode}
use neorc.Manager.Checks.{Services, checked_result, max_payload_bytes}
use neorc.Manager.Working.{recorded}
use neorc.Worker.{Called, returned, raised, Handlers, encoded, report_checked, report_of}

module _ (services : Services) (handlers : Handlers)
    (reads : (d : Datetime)
      → services.written.fromisoformat (services.written.isoformat d) ≡ some d) where
  encoded-checked :
      (value : Value) (result : JsonValue)
      → encoded services handlers value ≡ ok result
      → checked_result services result ≡ ok result
  unfolding encoded checked_result
  encoded-checked value result h =
      let (first, written, h') = >>=-eq-ok _ _ h in
      let (fits, small, same) = >>=-eq-ok _ _ h' in
      let again : encode services.written value ≡ ok result =
        subst (λ j. encode services.written value ≡ ok j) (ok-injective same) written in
      let fine : ensure_fits (services.dumps_json result) max_payload_bytes ≡ ok tt =
        subst (λ j. ensure_fits (services.dumps_json j) max_payload_bytes ≡ ok tt)
          (ok-injective same) small in
      let back =
        decode-encode services.written reads max_value_depth (omega arith) value result again in
      rw (back, again, fine) refl

  -- Whatever a handler comes to, the manager records the worker's report on it as it was sent: a
  -- reported value passes the manager's check and is kept unchanged; given that fromisoformat reads
  -- back what isoformat writes.
  pub recorded-report_of :
      (called : Called)
      → recorded services (report_of services handlers called)
        ≡ ok (report_of services handlers called)
  unfolding recorded report_of report_checked
  recorded-report_of (raised why) = refl
  recorded-report_of (returned value) = checked (encoded services handlers value) refl
    where
      checked :
          (r : Result JsonValue)
          → encoded services handlers value ≡ r
          → recorded services (report_checked services handlers r)
            ≡ ok (report_checked services handlers r)
      checked (ok result) e = rw (encoded-checked value result e, recorded) refl
      checked (err x) e = refl
