-- ===== src/OpenSky/Fetch.antt =====
-- The token and one poll, of `src/drivers/opensky_client.cpp`: `request_token` and `fetch_states`.
use flight_telemetry.Prelude.{
  ◌+◌, ◌*◌, ◌%◌, Bool, true, false, not, ◌&&◌, ◌||◌, ltb, ◌==◌, if◌then◌else◌, Option, none, some,
  [], ℤ, pos, ltb_int, ◌^◌,
}
use flight_telemetry.Double.{DoubleOps}
use flight_telemetry.Bytes.{Bytes, codes}
use flight_telemetry.Json.{Json}
use flight_telemetry.OpenSkyJson.{parse_states, parse_token}
use flight_telemetry.OpenSky.{
  FetchResult, HttpResponse, OpenSkyClient, Service, TokenOutcome, char_at, count_unavailable,
  failure, fetched, granted, header, http_error, is_success, is_unauthorized, malformed,
  no_token_result, rate_limited, refused, token_form, token_refused, token_unavailable,
  transport_error, unauthorized, unavailable, usable_s,
}

module _ (ops : DoubleOps) (parse : Bytes → Option Json) where
  -- The value of a 429's header, when it is a count of seconds.
  unfoldable pub retry_after : HttpResponse → Option ℤ
  retry_after r = elim (header r.headers (codes "x-rate-limit-retry-after-seconds")) [
    | none ↦ none
    | some value ↦
        let (seconds, read) = ops.strtol value in
        if not (read == 0) && char_at value read == 0 && not (ltb_int seconds (pos 0))
        then some seconds
        else none
  ]

  abbrev rate_limit : HttpResponse → OpenSkyClient → FetchResult × OpenSkyClient
  rate_limit r c =
      let seconds = retry_after r in
      let n = c.counters in
      (
        record (failure rate_limited r) { retry_after_s = seconds },
        record c {
          counters = record n {
            rate_limited = n.rate_limited + 1;
            last_retry_after_s = elim seconds [ none ↦ n.last_retry_after_s | some s ↦ some s ];
          };
        },
      )

  -- A body of the service's.
  abbrev take_body : HttpResponse → OpenSkyClient → FetchResult × OpenSkyClient
  take_body r c =
      let parsed = parse_states parse ops r.body in
      let n = c.counters in
      if not parsed.ok
      then (
        record (failure malformed r) { detail = parsed.problem },
        record c { counters = record n { malformed = n.malformed + 1 } },
      )
      else (
        record {
          status = fetched;
          document = parsed.document;
          retry_after_s = none;
          http_status = r.status;
          detail = [];
        },
        record c {
          counters = record n {
            ok = n.ok + 1;
            rows_skipped = n.rows_skipped + parsed.document.rows_skipped;
          };
        },
      )

  -- `fetch_states` from the response that is not a 401.
  unfoldable pub take_response : HttpResponse → OpenSkyClient → FetchResult × OpenSkyClient
  take_response r c =
      let n = c.counters in
      let answered = record c { counters = record n { last_http_status = r.status } } in
      let n' = answered.counters in
      if not r.transport_ok
      then (
        failure transport_error r,
        record c {
          counters = record n {
            transport_errors = n.transport_errors + 1;
            last_error_code = r.error_code;
          };
        },
      )
      else if r.status == 429
      then rate_limit r answered
      else if not (is_success r)
      then (
        failure http_error r,
        record answered { counters = record n' { http_errors = n'.http_errors + 1 } },
      )
      else take_body r answered

  module _ {ℓ} {W : Type ℓ} (service : Service W) where
    -- The token endpoint's answer.
    unfoldable pub take_token : HttpResponse → OpenSkyClient → W → TokenOutcome × OpenSkyClient × W
    take_token r c w =
        let n = c.counters in
        let answered = record c { counters = record n { last_http_status = r.status } } in
        let n' = answered.counters in
        let parsed = parse_token parse r.body in
        let (now, w') = service.now_ns w in
        if not r.transport_ok
        then (
          unavailable,
          record c {
            counters = record n {
              token_unavailable = n.token_unavailable + 1;
              last_error_code = r.error_code;
            };
          },
          w,
        )
        else if r.status == 400 || r.status == 401 || r.status == 403
        then (
          refused,
          record answered { counters = record n' { token_refused = n'.token_refused + 1 } },
          w,
        )
        else if not (is_success r)
        then (unavailable, count_unavailable answered, w)
        else if not parsed.ok
        then (unavailable, count_unavailable answered, w)
        else (
          granted,
          record answered {
            token = parsed.access_token;
            has_token = true;
            token_expires_at_ns = (now + usable_s parsed.expires_in_s * 1_000_000_000) % 2 ^ 64;
          },
          w',
        )

    unfoldable pub request_token : OpenSkyClient → W → TokenOutcome × OpenSkyClient × W
    request_token c w =
        let (r, w') = service.post_form w c.token_url (token_form c.credentials) in
        take_token r
          (record c {
            token = [];
            has_token = false;
            counters = record c.counters { token_requests = c.counters.token_requests + 1 };
          })
          w'

    abbrev pub token_valid_now : OpenSkyClient → W → Bool × W
    token_valid_now c w =
        let (now, w') = service.now_ns w in
        if c.has_token then (ltb now c.token_expires_at_ns, w') else (false, w)

    -- What follows a token that was granted, and the results without one.
    unfoldable pub with_token :
        (OpenSkyClient → W → FetchResult × OpenSkyClient × W)
        → TokenOutcome × OpenSkyClient × W
        → FetchResult × OpenSkyClient × W
    with_token next (granted, c, w) = next c w
    with_token next (refused, c, w) = (no_token_result token_refused c, c, w)
    with_token next (unavailable, c, w) = (no_token_result token_unavailable c, c, w)

    -- The second request of a poll.
    unfoldable pub request_again : OpenSkyClient → W → FetchResult × OpenSkyClient × W
    request_again c w =
        let (r, w') = service.get w c.states_url c.token in
        let n = c.counters in
        let (result, taken) = take_response r c in
        if is_unauthorized r
        then (
          failure unauthorized r,
          record c {
            counters = record n {
              auth = n.auth + 1;
              unauthorized = n.unauthorized + 1;
              last_http_status = 401;
            };
          },
          w',
        )
        else (result, taken, w')

    -- After a 401: one refresh, and one retry of the same poll.
    unfoldable pub retry : OpenSkyClient → W → FetchResult × OpenSkyClient × W
    retry c w = with_token request_again (request_token c w)

    -- The poll once there is a token.
    unfoldable pub request_states : OpenSkyClient → W → FetchResult × OpenSkyClient × W
    request_states c w =
        let (r, w') = service.get w c.states_url c.token in
        let (result, taken) = take_response r c in
        if is_unauthorized r
        then retry (record c { counters = record c.counters { auth = c.counters.auth + 1 } }) w'
        else (result, taken, w')

    unfoldable pub fetch_states : OpenSkyClient → W → FetchResult × OpenSkyClient × W
    fetch_states c w =
        let polled = record c { counters = record c.counters { polls = c.counters.polls + 1 } } in
        let (valid, w') = token_valid_now polled w in
        with_token request_states (if valid then (granted, polled, w') else request_token polled w')
