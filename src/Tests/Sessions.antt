-- ===== src/Tests/Sessions.antt =====
-- The session at concrete replies.
use algorithmic_trading_simu.Prelude.{◌≡◌, refl, true, false, List, [], ◌∷◌, ◌++◌, map}
use algorithmic_trading_simu.Js.{Value, undefined, object, string, end, field, lookup}
use algorithmic_trading_simu.Auth.{
  initial_state, replied, failed, Event, logins, demo_logins, hydrates, logouts, fetches, expelled,
  run, step, partialize,
}
use algorithmic_trading_simu.Auth.Session.{IsCoherent, run-IsCoherent, run-hydrated}
use algorithmic_trading_simu.Auth.Persist.{retoken_event, partialize-retoken}

abbrev signed_in : Value
signed_in = object (
    field "access_token" (string "t1")
      (field "user" (object (field "name" (string "Ada") end)) end))

abbrev session : List Event
session = logins (replied signed_in) ∷ fetches (replied (object end)) ∷ []

run-IsCoherent_example :
    IsCoherent
      (run initial_state (session ++ expelled ∷ hydrates false false (replied signed_in) ∷ []))
unfolding lookup
run-IsCoherent_example =
    run-IsCoherent (session ++ expelled ∷ hydrates false false (replied signed_in) ∷ [])
      (refl, (tt, (tt, (refl, tt))))

run-hydrated_example :
    (run initial_state (
      session
      ++ (demo_logins (replied signed_in) ∷ []
          ++ hydrates false false (failed undefined)
            ∷ logouts (failed undefined)
            ∷ []))).has_hydrated
    ≡ true
unfolding step
run-hydrated_example =
    run-hydrated (failed undefined) session (demo_logins (replied signed_in) ∷ [])
      (logouts (failed undefined) ∷ []) initial_state

partialize-retoken_example :
    partialize (run initial_state (map (retoken_event "t2") session))
    ≡ partialize (run initial_state session)
partialize-retoken_example = partialize-retoken "t2" session initial_state
