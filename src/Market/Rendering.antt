-- ===== src/Market/Rendering.antt =====
-- The render loop of useMarket.
use algorithmic_trading_simu.Prelude.{
  ℕ, suc, ◌+◌, ◌≤◌, ◌<◌, ◌≡◌, refl, Bool, List, [], ◌∷◌, length, take, map, arith, length-take-le,
}
use algorithmic_trading_simu.Js.{Fields}
use algorithmic_trading_simu.Market.{Hook, max_symbols, sort_in, sort, render_tick}

length-sort_in :
    (before : Fields → Fields → Bool) (q : Fields) (rs : List Fields)
    → length (sort_in before q rs) ≡ suc (length rs)
unfolding sort_in
length-sort_in before q [] = refl
length-sort_in before q (r ∷ rs) = ground (arith, length-sort_in before q rs)

length-sort :
    (before : Fields → Fields → Bool) (qs : List Fields) → length (sort before qs) ≡ length qs
unfolding sort
length-sort before [] = refl
length-sort before (q ∷ qs) =
    ground (arith, length-sort_in before q (sort before qs), length-sort before qs)

-- One firing of the render interval shows at most 200 quotes if at most 200 were shown before, and
-- leaves the buffer alone. A firing within 100 milliseconds of it, if it was not itself too early,
-- changes nothing.
render_tick-throttled :
    (before : Fields → Fields → Bool) (now next : ℕ) (h : Hook)
    → length h.shown ≤ 200
    → h.last_update + 100 ≤ now
    → next < now + 100
    → let once = render_tick before now h in
      (length once.shown ≤ 200) × (once.buffer ≡ h.buffer) × (render_tick before next once ≡ once)
unfolding render_tick
render_tick-throttled before now next h few due soon = ground (
  arith,
  length-sort before (take max_symbols (map (λ e. e.1) h.buffer)),
  length-take-le max_symbols (map (λ e. e.1) h.buffer),
)
