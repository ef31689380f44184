-- ===== src/SignIn/Typewriter.antt =====
-- components/auth/AuthScene.jsx, `useTypewriter`: the text that types itself beside the sign-in forms.
-- A text has one unit for each character.
pub mod Cycle
use algorithmic_trading_simu.Prelude.{
  ℕ, zero, suc, ◌-◌, ◌%◌, Bool, true, false, String, List, [], ◌∷◌, if◌then◌else◌, leb, length,
}
use algorithmic_trading_simu.SignIn.{text_length}

pub data Phase : Type 0 where
  typing hold erase : Phase

-- The variables of the effect, the text, and the delay of the next tick.
pub record Typewriter : Type 0 where
  pub i : ℕ
  pub pos : ℕ
  pub phase : Phase
  pub text : String
  pub delay : ℕ

abbrev pub start : Typewriter
start = record { i = 0; pos = 0; phase = typing; text = ""; delay = 500 }

abbrev pub nth : ℕ → List String → String
nth i [] = ""
nth zero (w ∷ ws) = w
nth (suc i) (w ∷ ws) = nth i ws

-- `w.slice(0, n)`.
unfoldable pub slice : ℕ → String → String
slice zero w = ""
slice (suc n) String.[] = ""
slice (suc n) (String.◌∷◌ c w) = String.◌∷◌ c (slice n w)

-- `tick`, with the word at hand. A text is erased from a position above 0 on.
unfoldable pub tick_word : String → Typewriter → Typewriter
unfolding slice text_length
tick_word w s = elim s.phase [
  | typing ↦
      let typed = record s { pos = suc s.pos; text = slice (suc s.pos) w } in
      if leb (text_length w) (suc s.pos)
      then record typed { phase = hold; delay = 1500 }
      else record typed { delay = 55 }
  | hold ↦ record s { phase = erase; delay = 0 }
  | erase ↦
      let erased = record s { pos = s.pos - 1; text = slice (s.pos - 1) w } in
      if leb (s.pos - 1) 0
      then record erased { phase = typing; i = suc s.i; delay = 260 }
      else record erased { delay = 28 }
]

-- `words[i % words.length]`, for words that are not empty as a list.
unfoldable pub tick : List String → Typewriter → Typewriter
unfolding tick_word
tick words s = tick_word (nth (s.i % length words) words) s

abbrev pub ticks : List String → ℕ → Typewriter → Typewriter
ticks words zero s = s
ticks words (suc n) s = ticks words n (tick words s)
