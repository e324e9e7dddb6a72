-- ===== src/Smoke/Requests/Tests.antt =====
-- The smoke check's requests against a service with a small runtime.
use kavach_ai.Common.{pos, finite, true, ◌≡◌, refl, arith}
use kavach_ai.Py.{Result, ok}
use kavach_ai.Example.Runtime.{small_runtime, small_runtime-IsRuntime}
use kavach_ai.Api.Reply.{returned}
use kavach_ai.Api.Settings.{Settings, default_signing_key}
use kavach_ai.Api.Bodies.{confirmation_valid}
use kavach_ai.Api.Requests.Flow.{initiated}
use kavach_ai.Api.Serve.{serve}
use kavach_ai.Api.Serve.Session.{Succeeds}
use kavach_ai.Smoke.{prepare}
use kavach_ai.Smoke.Requests.{login_request, initiate_request, request_for}
use kavach_ai.Smoke.Requests.Served.{granted, token, receipt, service_site, smoke-Succeeds}

abbrev settings : Settings
settings = record {
  cpu_work_factor = pos 2000;
  io_delay_ms = finite (pos 0);
  error_injection_rate = finite (pos 0);
  seed = pos 240005;
  signing_key = default_signing_key;
}

receipt-IsValid :
    confirmation_valid (record { transaction_id = receipt small_runtime settings }) ≡ true
unfolding confirmation_valid kavach_ai.Api.Token.sign kavach_ai.Example.Codec.escape
    kavach_ai.Example.Codec.dump_fields kavach_ai.Py.merge kavach_ai.Api.Bodies.dump_payment
    kavach_ai.Py.put kavach_ai.Example.Codec.put_text kavach_ai.Example.Codec.strokes
    kavach_ai.Example.Codec.numeral kavach_ai.Api.Runtime.equal_signs
receipt-IsValid = refl

smoke-Succeeds_example :
    let session = token small_runtime settings in
    let paid = receipt small_runtime settings in
    (prepare (service_site small_runtime settings (ok tt)) ≡ ok tt)
    × (serve small_runtime settings login_request ≡ returned (granted session))
    × (serve small_runtime settings (initiate_request session "smoke") ≡ returned (initiated paid))
    × Succeeds (serve small_runtime settings (request_for small_runtime.decimal session paid 13))
smoke-Succeeds_example =
    smoke-Succeeds small_runtime small_runtime-IsRuntime settings refl (ok tt) 13 (omega arith)
      receipt-IsValid
