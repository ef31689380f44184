-- ===== src/Glossary/Buttons.antt =====
-- Every info button that the pages place is shown, with something to read.
use algorithmic_trading_simu.Prelude.{
  ◌≡◌, refl, Bool, true, false, not, ◌&&◌, ◌||◌, Option, none, some, String, str_eq, eq_iff, List,
  [], ◌∷◌, arith, Bool-cases, sym, inl, inr,
}
use algorithmic_trading_simu.Glossary.{
  glossary, entry_of, sections, Panel, info_button, text_section, points_section,
}
use algorithmic_trading_simu.Glossary.Placements.{placed_keys}

-- A panel with a title and a part.
abbrev pub readable : Option Panel → Bool
readable none = false
readable (some p) = not (str_eq p.title "") && elim p.body [ [] ↦ false | _ ↦ true ]

abbrev pub holds : String → List String → Bool
holds k [] = false
holds k (j ∷ js) = str_eq j k || holds k js

abbrev all_of : (String → Bool) → List String → Bool
all_of p [] = true
all_of p (k ∷ ks) = p k && all_of p ks

all_of-holds :
    (p : String → Bool) (k : String) (ks : List String)
    → all_of p ks ≡ true
    → holds k ks ≡ true
    → p k ≡ true
all_of-holds p k [] a h = ground arith
all_of-holds p k (j ∷ js) a h = elim (Bool-cases (str_eq j k)) [
  | inl e ↦ rw (sym ((eq_iff j k).0 e)) (ground arith)
  | inr e ↦ all_of-holds p k js (ground arith) (ground arith)
]

abbrev is_readable : String → Bool
is_readable k = readable (info_button (entry_of k glossary) true)

placed_readable : all_of is_readable placed_keys ≡ true
unfolding entry_of info_button sections text_section points_section
placed_readable = refl

-- Every key that a page gives to an info button is one of the glossary's, so that the button is
-- shown, and its modal has a title and at least one part.
info_button-readable :
    (k : String)
    → holds k placed_keys ≡ true
    → readable (info_button (entry_of k glossary) true) ≡ true
info_button-readable k h = all_of-holds is_readable k placed_keys placed_readable h
