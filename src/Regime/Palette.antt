-- ===== src/Regime/Palette.antt =====
-- pages/MarketRegime.jsx: the palette of the regimes with its texts, and the card that opens for one. An
-- icon is given by its component's name.
use algorithmic_trading_simu.Prelude.{
  ◌≡◌, refl, Bool, true, false, ◌&&◌, Option, none, some, String, str_eq, List, [], ◌∷◌,
  if◌then◌else◌,
}

pub record Info : Type 0 where
  pub what : String
  pub characteristics : List String
  pub detection : String
  pub strategy : String
  pub risk : String

pub record Entry : Type 0 where
  pub color : String
  pub light : String
  pub icon : String
  pub tagline : String
  pub info : Info

abbrev pub bull : Entry
bull = record {
  color = "#10d98a";
  light = "#5eead4";
  icon = "TrendingUp";
  tagline = "Sustained uptrend";
  info = record {
    what =
        "A Bull regime is a persistent upward drift in price where demand outweighs supply. Higher highs and higher lows form, and dips are bought.";
    characteristics =
        "Fast EMA trades above slow EMA (positive trend strength)"
        ∷ "Momentum (RSI) holds above 50 — buyers in control"
        ∷ "Volatility is typically moderate and orderly" ∷ "Pullbacks are shallow and short-lived"
        ∷ [];
    detection =
        "K-Means clusters bars in standardized [trend, volatility, momentum] space. The cluster with the highest mean trend strength is labelled Bull.";
    strategy =
        "Trend-following and long-biased exposure; add on pullbacks, trail stops, let winners run.";
    risk =
        "Complacency near tops; sharp mean-reversion when the trend exhausts. Watch for momentum divergence.";
  };
}

abbrev pub sideways : Entry
sideways = record {
  color = "#fbbf24";
  light = "#fde68a";
  icon = "Minus";
  tagline = "Range-bound chop";
  info = record {
    what =
        "A Sideways (range) regime is a balance between buyers and sellers. Price oscillates within a band with no durable directional edge.";
    characteristics =
        "Trend strength near zero (EMAs intertwined)"
        ∷ "RSI hovers around 50 — no momentum conviction" ∷ "Support/resistance hold repeatedly"
        ∷ "Breakouts often fail and revert" ∷ [];
    detection =
        "The middle cluster by mean trend strength is labelled Sideways — neither strongly positive nor negative.";
    strategy =
        "Mean-reversion: fade band extremes, sell strength / buy weakness; keep tight targets.";
    risk = "False breakouts and whipsaws; a real regime change can begin as a 'failed' range.";
  };
}

abbrev pub bear : Entry
bear = record {
  color = "#fb5d6d";
  light = "#fda4af";
  icon = "TrendingDown";
  tagline = "Sustained downtrend";
  info = record {
    what =
        "A Bear regime is a persistent decline where supply overwhelms demand. Lower highs and lower lows form, and rallies are sold.";
    characteristics =
        "Fast EMA trades below slow EMA (negative trend strength)"
        ∷ "Momentum (RSI) holds below 50 — sellers in control"
        ∷ "Volatility is usually elevated (fear, gaps)" ∷ "Counter-trend rallies are sharp but fade"
        ∷ [];
    detection = "The cluster with the lowest mean trend strength is labelled Bear.";
    strategy =
        "Defensive: reduce exposure, raise cash, or hedge/short; respect that down moves are faster than up moves.";
    risk = "Violent bear-market rallies can squeeze shorts; avoid catching falling knives.";
  };
}

-- `REGIME[name]`.
unfoldable pub regime : String → Option Entry
regime name =
    if str_eq name "Bull"
    then some bull
    else if str_eq name "Sideways"
    then some sideways
    else if str_eq name "Bear"
    then some bear
    else none

-- `ORDER`.
abbrev pub order : List String
order = "Bull" ∷ "Sideways" ∷ "Bear" ∷ []

-- `activeInfo ? REGIME[activeInfo] : null`: what the modal is open for.
unfoldable pub info_cfg : Option String → Option Entry
unfolding regime
info_cfg none = none
info_cfg (some name) = if str_eq name "" then none else regime name

-- The modal's title and tagline.
abbrev pub is_open : Option Entry → Bool
is_open none = false
is_open (some e) = true

abbrev pub all_open : List String → Bool
unfolding info_cfg
all_open [] = true
all_open (name ∷ names) = is_open (info_cfg (some name)) && all_open names

-- Every regime of the cards opens the modal.
order-opens : all_open order ≡ true
unfolding all_open
order-opens = refl
