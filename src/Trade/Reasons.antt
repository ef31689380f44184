-- ===== src/Trade/Reasons.antt =====
-- The reason that the ticket shows for a rejected order.
use algorithmic_trading_simu.Prelude.{ℕ, ◌≡◌, ◌⊎◌, false, String, str_eq, arith}
use algorithmic_trading_simu.Js.{Value, string, truthy, lookup, opt_get}
use algorithmic_trading_simu.Api.Message.{Render, api_message, api_rejection, api_message_text}
use algorithmic_trading_simu.Trade.{trade_error}

own_reason :
    (s : String) (code : ℕ) (d : Value)
    → str_eq s "" ≡ false
    → trade_error (api_rejection (string s) code d) ≡ s
unfolding trade_error lookup
own_reason s code d h = ground arith

-- The message that apiClient makes of a rejected order's reply is a text, and it is the message of
-- the error that `executeTrade` throws, provided the reply's own `message` is absent, falsy or a
-- text.
trade_error-api_message :
    (k : Render) (code : ℕ) (d : Value)
    → (truthy (opt_get "message" d) ≡ false) ⊎ ((t : String) × (opt_get "message" d ≡ string t))
    → (s : String) × (api_message k code d ≡ string s)
      × (trade_error (api_rejection (api_message k code d) code d) ≡ s)
trade_error-api_message k code d h =
    let (s, text, full) = api_message_text k code d h in
    (s, text, rw (text) (own_reason s code d full))
