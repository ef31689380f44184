-- ===== src/Api/Message.antt =====
-- The error message of apiClient.js: a FastAPI reply's `detail`, which is a text or a list of
-- validation errors, is made into one text.
use Prim.Native.String.{◌++◌}
use text.Mathlib.TextLemmas.{cons-append, cons-ne-nil}
use algorithmic_trading_simu.Prelude.{
  sym, ◌∙◌, ℕ, ◌≡◌, refl, Bool, false, not, ◌&&◌, String, str_eq, eq_iff, if◌then◌else◌, ◌⊎◌,
  Bool-cases, inl, inr,
}
use algorithmic_trading_simu.Prelude.Int.{pos}
use algorithmic_trading_simu.Js.{
  Value, Items, undefined, null, number, string, array, object, field, end, nil, cons, finite,
  truthy, or_else, opt_get,
}

-- The language's conversion to a text, `String(v)`, and `JSON.stringify(v)`.
pub record Render : Type 0 where
  pub to_text : Value → String
  pub stringify : Value → String

-- `loc[loc.length - 1]`, `undefined` for an empty list.
unfoldable pub last_item : Items → Value
last_item nil = undefined
last_item (cons v nil) = v
last_item (cons v (cons w ws)) = last_item (cons w ws)

abbrev pub field_of : Value → Value
field_of d = elim (opt_get "loc" d) [ array xs ↦ last_item xs | _ ↦ null ]

abbrev pub is_text : Value → String → Bool
is_text (string s) t = str_eq s t
is_text _ t = false

abbrev pub text_or : Render → Value → String
text_or k (string s) = s
text_or k d = k.stringify d

-- `d?.msg || (typeof d === "string" ? d : JSON.stringify(d))`, as a text.
abbrev pub msg_of : Render → Value → String
msg_of k d = let msg = opt_get "msg" d in if truthy msg then k.to_text msg else text_or k d

unfoldable pub detail_text : Render → Value → String
unfolding last_item
detail_text k d =
    let name = field_of d in
    if truthy name && not (is_text name "body")
    then k.to_text name ++ ": " ++ msg_of k d
    else msg_of k d

-- `.map(…).join("; ")`.
unfoldable pub join_details : Render → Items → String
join_details k nil = ""
join_details k (cons d nil) = detail_text k d
join_details k (cons d (cons e es)) = detail_text k d ++ "; " ++ join_details k (cons e es)

abbrev pub detail_message : Render → Value → Value
detail_message k (array ds) = string (join_details k ds)
detail_message k (string s) = string s
detail_message k _ = undefined

unfoldable pub api_message : Render → ℕ → Value → Value
unfolding join_details
api_message k code d = or_else (detail_message k (opt_get "detail" d)) (
    or_else (opt_get "message" d)
      (string ("Request failed (" ++ k.to_text (number (finite (pos code))) ++ ")")))

-- What the interceptor rejects with after a reply: `{ message, status, kind: "api", data }`.
abbrev pub api_rejection : Value → ℕ → Value → Value
api_rejection message code d = object (
    field "message" message (
      field "status" (number (finite (pos code)))
        (field "kind" (string "api") (field "data" d end))))

request_failed : (s : String) → str_eq ("Request failed (" ++ s) "" ≡ false
request_failed s = elim (Bool-cases (str_eq ("Request failed (" ++ s) "")) [
  | inl e ↦ absurd (
      cons-ne-nil "R" ("equest failed (" ++ s)
        (sym (cons-append "R" "equest failed (" s) ∙ (eq_iff ("Request failed (" ++ s) "").0 e))
  | inr e ↦ e
]

-- A value of the kinds that `detail_message` gives, and its message.
or_else_text :
    (v w : Value)
    → ((s : String) × (v ≡ string s)) ⊎ (v ≡ undefined)
    → ((s : String) × (w ≡ string s) × (str_eq s "" ≡ false))
    → (s : String) × (or_else v w ≡ string s) × (str_eq s "" ≡ false)
or_else_text v w (inr e) h = rw e h
or_else_text v w (inl (s, e)) h = rw e (elim (Bool-cases (str_eq s "")) [
  | inl empty ↦ rw empty h
  | inr full ↦ rw full (s, refl, full)
])

detail_message_text :
    (k : Render) (d : Value)
    → ((s : String) × (detail_message k d ≡ string s)) ⊎ (detail_message k d ≡ undefined)
detail_message_text k (array ds) = inl (join_details k ds, refl)
detail_message_text k (string s) = inl (s, refl)
detail_message_text k _ = inr refl

own_message :
    (v : Value) (f : String)
    → (truthy v ≡ false) ⊎ ((t : String) × (v ≡ string t))
    → str_eq f "" ≡ false
    → (s : String) × (or_else v (string f) ≡ string s) × (str_eq s "" ≡ false)
own_message v f (inl e) h = rw e (f, refl, h)
own_message v f (inr (t, e)) h = or_else_text v (string f) (inl (t, e)) (f, refl, h)

-- The message of a rejected request is a nonempty text, so that it can be shown, whatever the reply
-- holds, provided its own `message` is absent, falsy or a text.
pub api_message_text :
    (k : Render) (code : ℕ) (d : Value)
    → (truthy (opt_get "message" d) ≡ false) ⊎ ((t : String) × (opt_get "message" d ≡ string t))
    → (s : String) × (api_message k code d ≡ string s) × (str_eq s "" ≡ false)
unfolding api_message
api_message_text k code d h =
    or_else_text _ _ (detail_message_text k (opt_get "detail" d))
      (own_message _ _ h (request_failed _))
