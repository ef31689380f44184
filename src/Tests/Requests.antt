-- ===== src/Tests/Requests.antt =====
-- The request client at concrete requests.
use algorithmic_trading_simu.Prelude.{
  ◌≡◌, refl, false, none, some, String, str_eq, [], ◌∷◌, ◌++◌, inr,
}
use algorithmic_trading_simu.Js.{Value, string, object, end, field, lookup, undefined}
use algorithmic_trading_simu.Auth.{initial_state, replied, failed}
use algorithmic_trading_simu.Api.{
  Client, Request, Method, status, sends, fails, refresh_replies, run, fresh, is_auth_endpoint,
  needs_key, is_mutating, refresh_ok,
}
use algorithmic_trading_simu.Api.Message.{Render, api_message, api_message_text}
use algorithmic_trading_simu.Api.Refresh.{SingleFlight, run-SingleFlight}
use algorithmic_trading_simu.Api.Burst.{refused, Refreshed, burst-Refreshed, Expired, burst-Expired}

abbrev render : Render
render = record { to_text = λ v. "text"; stringify = λ v. "json" }

abbrev client : Client
client = fresh initial_state "/trade"

abbrev quotes : Request
quotes = record {
  id = 1;
  url = "/market";
  method = Method.get;
  authorization = none;
  idempotency_key = none;
  retried = false;
}

abbrev order : Request
order = record {
  id = 2;
  url = "/trade";
  method = Method.post;
  authorization = none;
  idempotency_key = some 0;
  retried = false;
}

abbrev signed_in : Value
signed_in = object (field "access_token" (string "t2") (field "user" (string "u") end))

run-SingleFlight_example : SingleFlight (
    run render client (
      sends quotes
      ∷ fails quotes (status 401 undefined)
      ∷ fails order (status 401 undefined)
      ∷ refresh_replies (replied signed_in)
      ∷ []))
run-SingleFlight_example = run-SingleFlight render initial_state "/trade" (
    sends quotes
    ∷ fails quotes (status 401 undefined)
    ∷ fails order (status 401 undefined)
    ∷ refresh_replies (replied signed_in)
    ∷ [])

burst-Refreshed_example : Refreshed (string "t2") quotes (order ∷ []) client (
    run render client
      (refused undefined (quotes ∷ order ∷ []) ++ refresh_replies (replied signed_in) ∷ []))
unfolding lookup is_auth_endpoint needs_key is_mutating
burst-Refreshed_example =
    burst-Refreshed render undefined signed_in (string "t2") (string "u") quotes (order ∷ []) client
      (refl, refl, refl) ((refl, refl, refl), ((refl, refl, refl), tt)) refl refl refl refl

burst-Expired_example : Expired quotes (order ∷ []) client (
    run render client
      (refused undefined (quotes ∷ order ∷ []) ++ refresh_replies (failed undefined) ∷ []))
unfolding is_auth_endpoint needs_key is_mutating refresh_ok
burst-Expired_example =
    burst-Expired render undefined (failed undefined) quotes (order ∷ []) client (refl, refl, refl)
      ((refl, refl, refl), ((refl, refl, refl), tt)) refl

abbrev refusal : Value
refusal = object (field "message" (string "No cash left") end)

api_message_text_example :
    (s : String) × (api_message render 400 refusal ≡ string s) × (str_eq s "" ≡ false)
unfolding lookup
api_message_text_example = api_message_text render 400 refusal (inr ("No cash left", refl))
