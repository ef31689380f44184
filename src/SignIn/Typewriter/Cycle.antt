-- ===== src/SignIn/Typewriter/Cycle.antt =====
-- The typewriter writes every word whole, and comes to the next.
use algorithmic_trading_simu.Prelude.{
  ℕ, zero, suc, ◌+◌, ◌-◌, ◌%◌, ◌≤◌, max, ◌≡◌, refl, ap, ◌∙◌, String, List, length, arith,
}
use algorithmic_trading_simu.SignIn.{text_length}
use algorithmic_trading_simu.SignIn.Typewriter.{
  Phase, typing, hold, erase, Typewriter, nth, slice, tick_word, tick, ticks,
}

slice-whole : (n : ℕ) (w : String) → text_length w ≤ n → slice n w ≡ w
unfolding slice text_length
slice-whole zero String.[] h = refl
slice-whole zero (String.◌∷◌ c w) h = absurd (omega (arith, h))
slice-whole (suc n) String.[] h = refl
slice-whole (suc n) (String.◌∷◌ c w) h =
    ap (λ v. String.◌∷◌ c v) (slice-whole n w (omega (arith, h)))

-- The ticks that a word is typed in: one for the empty word.
abbrev pub strokes : String → ℕ
strokes w = max 1 (text_length w)

module _ (words : List String) (i : ℕ) where
  abbrev word : String
  word = nth (i % length words) words

  abbrev writing : Phase → ℕ → String → ℕ → Typewriter
  writing phase pos text delay = record {
    i = i;
    pos = pos;
    phase = phase;
    text = text;
    delay = delay;
  }

  last_stroke :
      (pos delay : ℕ) (text : String)
      → pos + 1 ≡ strokes word
      → tick words (writing typing pos text delay) ≡ writing hold (strokes word) word 1500
  unfolding tick tick_word
  last_stroke pos delay text h = ground (arith, h, slice-whole (suc pos) word (omega (arith, h)))

  earlier_stroke :
      (k pos delay : ℕ) (text : String)
      → pos + suc (suc k) ≡ strokes word
      → tick words (writing typing pos text delay)
        ≡ writing typing (suc pos) (slice (suc pos) word) 55
  unfolding tick tick_word
  earlier_stroke k pos delay text h = ground (arith, h)

  typed :
      (k pos delay : ℕ) (text : String)
      → pos + suc k ≡ strokes word
      → ticks words (suc k) (writing typing pos text delay) ≡ writing hold (strokes word) word 1500
  typed zero pos delay text h = last_stroke pos delay text h
  typed (suc k) pos delay text h =
      ap (ticks words (suc k)) (earlier_stroke k pos delay text h)
      ∙ typed k (suc pos) 55 (slice (suc pos) word) (omega (arith, h))

  earlier_erasure :
      (k delay : ℕ) (text : String)
      → tick words (writing erase (suc (suc k)) text delay)
        ≡ writing erase (suc k) (slice (suc k) word) 28
  unfolding tick tick_word
  earlier_erasure k delay text = ground arith

  next_word : Typewriter
  next_word = record { i = suc i; pos = 0; phase = typing; text = ""; delay = 260 }

  erased :
      (k delay : ℕ) (text : String)
      → ticks words (suc k) (writing erase (suc k) text delay) ≡ next_word
  unfolding tick tick_word slice next_word
  erased zero delay text = refl
  erased (suc k) delay text =
      ap (ticks words (suc k)) (earlier_erasure k delay text) ∙ erased k 28 (slice (suc k) word)

  held : (n k : ℕ) → n ≡ suc k → ticks words (suc n) (writing hold n word 1500) ≡ next_word
  unfolding tick tick_word
  held n k h = ap (λ m. ticks words m (writing erase m word 0)) h ∙ erased k 0 word

  ticks-add : (m n : ℕ) (s : Typewriter) → ticks words (m + n) s ≡ ticks words n (ticks words m s)
  ticks-add zero n s = let same : 0 + n ≡ n = omega arith in ap (λ k. ticks words k s) same
  ticks-add (suc m) n s =
      let same : suc m + n ≡ suc (m + n) = omega arith in
      ap (λ k. ticks words k s) same ∙ ticks-add m n (tick words s)

  -- From the start of a word on, the word stands there whole after as many ticks as it has
  -- characters, one for an empty word, and stays for 1500 milliseconds; and after as many ticks and
  -- one more it is erased and the next word starts.
  word_cycle :
      (delay : ℕ) (text : String)
      → let n = strokes (nth (i % length words) words) in
        let s : Typewriter = record {
          i = i;
          pos = 0;
          phase = typing;
          text = text;
          delay = delay;
        } in
        (ticks words n s ≡ record {
          i = i;
          pos = n;
          phase = hold;
          text = nth (i % length words) words;
          delay = 1500;
        })
        × (ticks words (n + suc n) s
            ≡ record { i = suc i; pos = 0; phase = typing; text = ""; delay = 260 })
  unfolding next_word
  word_cycle delay text =
      let n = strokes word in
      let k = n - 1 in
      let full : n ≡ suc k = omega arith in
      let whole =
        ap (λ m. ticks words m (writing typing 0 text delay)) full
        ∙ typed k 0 delay text (omega arith) in
      (
        whole,
        ticks-add n (suc n) (writing typing 0 text delay)
            ∙ ap (ticks words (suc n)) whole
            ∙ held n k full,
      )
