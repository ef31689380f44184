-- ===== src/Tests/Inquiries.antt =====
-- The research pages at concrete inputs.
use algorithmic_trading_simu.Prelude.{◌≡◌, ◌++◌, false, refl, none, [], ◌∷◌, arith}
use algorithmic_trading_simu.Js.{Value, Number, nan, string}
use algorithmic_trading_simu.Auth.{replied, failed}
use algorithmic_trading_simu.Research.Debounced.{edits, wakes, answers, mount, wake, edit, run}
use algorithmic_trading_simu.Research.Debounced.Bursts.{burst-sends_once, final_form}
use algorithmic_trading_simu.Research.Debounced.Overtaking.{overtaken_answer}
use algorithmic_trading_simu.Research.Debounced.Surveys.{vol_surface, predictor}
use algorithmic_trading_simu.Research.{whole, set}

-- No text is a number, and a percentage of hundredths of hundredths.
abbrev no_text : Value → Number
no_text v = nan

abbrev same : Number → Number
same n = n

burst-sends_once_example :
    let p = mount (vol_surface no_text same) 0 in
    let es = edits 1100 "spot" (whole 102) ∷ wakes 1300 ∷ answers 0 (failed (string "late")) ∷ [] in
    let q =
      run
        (vol_surface no_text same)
        (edit (vol_surface no_text same) 1000 "spot" (whole 101) p)
        es in
    let last = final_form (set "spot" (whole 101) p.form) es in
    (q.fetch.sent ≡ [])
    × ((wake (vol_surface no_text same) 1360 q).fetch.sent
        ≡ (vol_surface no_text same).params last ∷ [])
    × (wake (vol_surface no_text same) 1361 (wake (vol_surface no_text same) 1360 q)
        ≡ wake (vol_surface no_text same) 1360 q)
unfolding mount
burst-sends_once_example =
    burst-sends_once (vol_surface no_text same) 1000 1360 1361 "spot" (whole 101)
      (edits 1100 "spot" (whole 102) ∷ wakes 1300 ∷ answers 0 (failed (string "late")) ∷ [])
      (mount (vol_surface no_text same) 0) refl (omega arith)

overtaken_answer_example :
    let p = mount predictor 0 in
    let first = set "years" (whole 2) p.form in
    let second = set "years" (whole 3) first in
    let f = run predictor p (
      edits 100 "years" (whole 2)
      ∷ wakes 500
      ∷ edits 600 "years" (whole 3)
      ∷ wakes 1000
      ∷ answers 1 (replied (string "three"))
      ∷ []) in
    let g = run predictor f (answers 0 (replied (string "two")) ∷ []) in
    (f.fetch.sent ≡ ([] ++ first ∷ []) ++ second ∷ [])
    × (f.fetch.result ≡ string "three")
    × (f.fetch.loading ≡ false)
    × (g.fetch.result ≡ string "two")
    × (g.fetch.loading ≡ false)
    × (g.form ≡ second)
    × (g.due ≡ none)
unfolding mount
overtaken_answer_example =
    overtaken_answer predictor 100 600 0 1 "years" "years" (whole 2) (whole 3)
      (replied (string "three")) (replied (string "two")) (mount predictor 0) (omega arith)
