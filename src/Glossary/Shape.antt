-- ===== src/Glossary/Shape.antt =====
-- The shape of an entry of utils/glossary.js. A field that an entry leaves out is `none`, and `[]`
-- for its points, which components/ui/InfoButton.jsx treats alike.
use algorithmic_trading_simu.Prelude.{Option, String, List}

pub record Entry : Type 0 where
  pub title : String
  pub subtitle : Option String
  pub what : String
  pub formula : Option String
  pub points : List String
  pub interpretation : Option String
