-- ===== src/OpenSky/Outcomes.antt =====
-- The counters of `OpenSkyClient` in `src/drivers/opensky_client.cpp`, and the outcome of a poll.
use flight_telemetry.Prelude.{
  ℕ, ◌+◌, ◌≡◌, refl, ap, ◌∙◌, false, Bool-cases, inl, inr, Option, [], ◌||◌, ◌==◌,
}
use flight_telemetry.Double.{DoubleOps}
use flight_telemetry.Bytes.{Bytes}
use flight_telemetry.Json.{Json}
use flight_telemetry.OpenSkyJson.{parse_token, parse_states}
use flight_telemetry.OpenSky.{
  FetchStatus, fetched, token_refused, token_unavailable, unauthorized, rate_limited, http_error,
  transport_error, malformed, OpenSkyClient, HttpResponse, TokenOutcome, granted, refused,
  unavailable, Service, is_success, is_unauthorized, token_form, FetchResult,
}
use flight_telemetry.OpenSky.Fetch.{
  take_response, take_token, request_token, with_token, request_again, retry, request_states,
  fetch_states, token_valid_now,
}

-- The counts of the outcomes.
pub record Outcomes : Type 0 where
  pub ok : ℕ
  pub token_refused : ℕ
  pub token_unavailable : ℕ
  pub unauthorized : ℕ
  pub rate_limited : ℕ
  pub http_errors : ℕ
  pub transport_errors : ℕ
  pub malformed : ℕ

abbrev pub outcomes : OpenSkyClient → Outcomes
outcomes c = record {
  ok = c.counters.ok;
  token_refused = c.counters.token_refused;
  token_unavailable = c.counters.token_unavailable;
  unauthorized = c.counters.unauthorized;
  rate_limited = c.counters.rate_limited;
  http_errors = c.counters.http_errors;
  transport_errors = c.counters.transport_errors;
  malformed = c.counters.malformed;
}

-- One more of an outcome.
abbrev pub with_outcome : FetchStatus → Outcomes → Outcomes
with_outcome fetched o = record o { ok = o.ok + 1 }
with_outcome token_refused o = record o { token_refused = o.token_refused + 1 }
with_outcome token_unavailable o = record o { token_unavailable = o.token_unavailable + 1 }
with_outcome unauthorized o = record o { unauthorized = o.unauthorized + 1 }
with_outcome rate_limited o = record o { rate_limited = o.rate_limited + 1 }
with_outcome http_error o = record o { http_errors = o.http_errors + 1 }
with_outcome transport_error o = record o { transport_errors = o.transport_errors + 1 }
with_outcome malformed o = record o { malformed = o.malformed + 1 }

abbrev with_refusal : TokenOutcome → Outcomes → Outcomes
with_refusal granted o = o
with_refusal refused o = with_outcome token_refused o
with_refusal unavailable o = with_outcome token_unavailable o

module _ (ops : DoubleOps) (parse : Bytes → Option Json) where
  take_response-outcomes :
      (r : HttpResponse) (c : OpenSkyClient)
      → let (result, c') = take_response ops parse r c in
        (outcomes c' ≡ with_outcome result.status (outcomes c))
        × (c'.counters.polls ≡ c.counters.polls)
  unfolding take_response
  take_response-outcomes r c = elim (Bool-cases r.transport_ok) [
    | inr e ↦ rw e (refl, refl)
    | inl e ↦ elim (Bool-cases (r.status == 429)) [
      | inl f ↦ rw (e, f) (refl, refl)
      | inr f ↦ elim (Bool-cases (is_success r)) [
        | inr g ↦ rw (e, f, g) (refl, refl)
        | inl g ↦ elim (Bool-cases (parse_states parse ops r.body).ok) [
          | inr h ↦ rw (e, f, g, h) (refl, refl)
          | inl h ↦ rw (e, f, g, h) (refl, refl)
        ]
      ]
    ]
  ]

  module _ {ℓ} {W : Type ℓ} (service : Service W) where
    -- One outcome more, by the status of the result, and the polls as they were.
    abbrev Counts : OpenSkyClient → FetchResult × OpenSkyClient × W → Type 0
    Counts c (result, c', w) =
        (outcomes c' ≡ with_outcome result.status (outcomes c))
        × (c'.counters.polls ≡ c.counters.polls)

    abbrev CountsToken : OpenSkyClient → TokenOutcome × OpenSkyClient × W → Type 0
    CountsToken c (outcome, c', w) =
        (outcomes c' ≡ with_refusal outcome (outcomes c)) × (c'.counters.polls ≡ c.counters.polls)

    take_token-outcomes :
        (r : HttpResponse) (c : OpenSkyClient) (w : W)
        → CountsToken c (take_token ops parse service r c w)
    unfolding take_token
    take_token-outcomes r c w = elim (Bool-cases r.transport_ok) [
      | inr e ↦ rw e (refl, refl)
      | inl e ↦ elim (Bool-cases (r.status == 400 || r.status == 401 || r.status == 403)) [
        | inl f ↦ rw (e, f) (refl, refl)
        | inr f ↦ elim (Bool-cases (is_success r)) [
          | inr g ↦ rw (e, f, g) (refl, refl)
          | inl g ↦ elim (Bool-cases (parse_token parse r.body).ok) [
            | inr h ↦ rw (e, f, g, h) (refl, refl)
            | inl h ↦ rw (e, f, g, h) (refl, refl)
          ]
        ]
      ]
    ]

    request_token-outcomes :
        (c : OpenSkyClient) (w : W) → CountsToken c (request_token ops parse service c w)
    unfolding request_token
    request_token-outcomes c w =
        let (r, w') = service.post_form w c.token_url (token_form c.credentials) in
        take_token-outcomes r
          (record c {
            token = [];
            has_token = false;
            counters = record c.counters { token_requests = c.counters.token_requests + 1 };
          })
          w'

    request_again-outcomes :
        (c : OpenSkyClient) (w : W) → Counts c (request_again ops parse service c w)
    unfolding request_again
    request_again-outcomes c w =
        let r = (service.get w c.states_url c.token).0 in
        elim (Bool-cases (is_unauthorized r)) [
          | inl e ↦ rw e (refl, refl)
          | inr e ↦ rw e (take_response-outcomes r c)
        ]

    with_token-outcomes :
        (next : OpenSkyClient → W → FetchResult × OpenSkyClient × W)
        → ((c : OpenSkyClient) (w : W) → Counts c (next c w))
        → (c : OpenSkyClient) (t : TokenOutcome × OpenSkyClient × W) → CountsToken c t
        → Counts c (with_token ops parse service next t)
    unfolding with_token
    with_token-outcomes next counts c (refused, c', w') h = h
    with_token-outcomes next counts c (unavailable, c', w') h = h
    with_token-outcomes next counts c (granted, c', w') (h, p) =
        let (a, b) = counts c' w' in (a ∙ ap (with_outcome (next c' w').0.status) h, b ∙ p)

    retry-outcomes : (c : OpenSkyClient) (w : W) → Counts c (retry ops parse service c w)
    unfolding retry
    retry-outcomes c w =
        with_token-outcomes (request_again ops parse service) (λ k v. request_again-outcomes k v) c
          (request_token ops parse service c w) (request_token-outcomes c w)

    request_states-outcomes :
        (c : OpenSkyClient) (w : W) → Counts c (request_states ops parse service c w)
    unfolding request_states
    request_states-outcomes c w =
        let (r, w') = service.get w c.states_url c.token in
        let again : OpenSkyClient = record c {
          counters = record c.counters { auth = c.counters.auth + 1 };
        } in
        elim (Bool-cases (is_unauthorized r)) [
          | inl e ↦ rw e (retry-outcomes again w')
          | inr e ↦ rw e (take_response-outcomes r c)
        ]

    -- Every poll counts itself and exactly one outcome, the one its result names, whatever the network and
    -- the token endpoint answer.
    pub fetch_states-outcomes :
        (c : OpenSkyClient) (w : W)
        → let (result, c', w') = fetch_states ops parse service c w in
          (outcomes c' ≡ with_outcome result.status (outcomes c))
          × (c'.counters.polls ≡ c.counters.polls + 1)
    unfolding fetch_states
    fetch_states-outcomes c w =
        let polled : OpenSkyClient = record c {
          counters = record c.counters { polls = c.counters.polls + 1 };
        } in
        let (valid, w') = token_valid_now ops parse service polled w in
        elim (Bool-cases valid) [
          | inl e ↦ rw e (
              with_token-outcomes (request_states ops parse service)
                (λ k v. request_states-outcomes k v) polled (granted, polled, w') (refl, refl))
          | inr e ↦ rw e (
              with_token-outcomes (request_states ops parse service)
                (λ k v. request_states-outcomes k v) polled
                (request_token ops parse service polled w') (request_token-outcomes polled w'))
        ]
