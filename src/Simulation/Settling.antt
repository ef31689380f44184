-- ===== src/Simulation/Settling.antt =====
-- The animation comes to an end.
use algorithmic_trading_simu.Prelude.{
  ℕ, zero, suc, ◌+◌, ◌-◌, ◌≤◌, ◌<◌, ◌≡◌, refl, ap, ◌∙◌, ◌⊎◌, true, false, Option, none, some, List,
  [], ◌∷◌, length, min, if◌then◌else◌, ltb, ◌==◌, arith, Bool-cases, inl, inr,
}
use algorithmic_trading_simu.Prelude.Int.{ℤ, pos, ◌+ℤ◌, ◌-ℤ◌, ◌*ℤ◌}
use algorithmic_trading_simu.Simulation.{
  duration, Props, ready, finished, landed, Viz, n_paths, scale, estimate_at, ticks, render_frame,
  begin, tick_at, tick, resize, Event, frame, resizes, step, run, domain, scan_paths, widen, lower,
  upper, margin,
}

finished_at_end : (n i : ℕ) → i < n → finished n duration i ≡ true
unfolding finished
finished_at_end n i l = ground arith

landed_at_end : (n i : ℕ) → i ≤ n → landed n duration i ≡ i
unfolding landed
landed_at_end n zero l = refl
landed_at_end n (suc i) l = ground (arith, landed_at_end n i, finished_at_end n i)

no_wobble : (c : ℤ) (s z : ℕ) → z ≡ 0 → pos s +ℤ c *ℤ pos z ≡ pos s
unfolding ◌+ℤ◌ ◌*ℤ◌
no_wobble c s z h = ground arith

module _ (k : ℕ) (cosine : ℕ → ℕ → ℤ) (p : Props) where
  abbrev price_at : ℕ → ℤ
  price_at = estimate_at k cosine p

  abbrev n : ℕ
  n = n_paths k cosine p

  -- What is shown is what was last rendered, if anything was.
  Shown : Viz → Type 0
  Shown v =
      (v.last_stat ≡ none)
      ⊎ ((v.last_stat ≡ some (v.completed, price_at v.completed))
          × (v.estimate ≡ price_at v.completed))

  abbrev show : ℕ → Viz → Viz
  show done v = record v {
    last_stat = some (done, price_at done);
    completed = done;
    estimate = price_at done;
  }

  still :
      (v : Viz) (done : ℕ)
      → v.last_stat ≡ some (v.completed, price_at v.completed)
      → v.estimate ≡ price_at v.completed
      → done ≡ v.completed
      → v ≡ show done v
  still v done a b c = (ground (arith, a, b, c))

  unmoved :
      (o : Option (ℕ × ℤ)) (c done : ℕ) (x y : ℤ)
      → ticks k cosine p o done x ≡ false
      → o ≡ some (c, y)
      → done ≡ c
  unmoved o c done x y h e = (ground (arith, e))

  render_frame-show :
      (u : ℕ) (v : Viz) → Shown v → render_frame k cosine p u v ≡ show (landed n u n) v
  unfolding render_frame Shown
  render_frame-show u v h =
      let done = landed n u n in
      elim (Bool-cases (ticks k cosine p v.last_stat done (price_at done))) [
        | inl e ↦ rw (e) refl
        | inr e ↦ rw (e) (elim h [
          | inl new ↦ absurd (ground (arith, e, new))
          | inr (stat, est) ↦
              still v done stat est
                (unmoved v.last_stat v.completed done (price_at done) (price_at v.completed) e stat)
        ])
      ]

  -- Frames are still requested, in a run that began at t.
  record Waiting (t : ℕ) (v : Viz) : Type 0 where
    pub shown : Shown v
    pub due : v.frame_due ≡ true
    pub since : v.begun ≡ some t

  record Settled (v : Viz) : Type 0 where
    pub stopped : v.running ≡ false
    pub no_frame : v.frame_due ≡ false
    pub all_landed : v.completed ≡ n
    pub last : v.last_stat ≡ some (v.completed, price_at v.completed)
    pub final : v.estimate ≡ price_at v.completed
    pub at_end : v.progress ≡ duration

  Going : ℕ → Viz → Type 0
  Going t v = Waiting t v ⊎ Settled v

  tick_at-Waiting :
      (t u : ℕ) (v : Viz)
      → Shown v
      → v.begun ≡ some t
      → ltb u duration ≡ true
      → Waiting t (tick_at k cosine p u v)
  unfolding tick_at Shown
  tick_at-Waiting t u v h b e =
      rw (e, render_frame-show u v h) (record { shown = inr (refl, refl); due = refl; since = b })

  tick_at-Settled :
      (u : ℕ) (v : Viz)
      → Shown v
      → v.progress ≡ duration
      → ltb u duration ≡ false
      → Settled (tick_at k cosine p u v)
  unfolding tick_at Shown
  tick_at-Settled u v h q e =
      rw
        (
          e,
          render_frame-show u v h,
          render_frame-show duration (show (landed n u n) v) (inr (refl, refl)),
          landed_at_end n n (omega arith),
        )
        (record {
          stopped = refl;
          no_frame = refl;
          all_landed = refl;
          last = refl;
          final = refl;
          at_end = q;
        })

  tick_due :
      (t ts : ℕ) (v : Viz)
      → v.frame_due ≡ true
      → v.begun ≡ some t
      → let u = min (ts - t) duration in
        tick k cosine p ts v ≡ tick_at k cosine p u (record v { begun = some t; progress = u })
  unfolding tick
  tick_due t ts v d b = rw (d, b) refl

  tick-Waiting :
      (t ts : ℕ) (v : Viz)
      → Waiting t v
      → ltb (min (ts - t) duration) duration ≡ true
      → Waiting t (tick k cosine p ts v)
  unfolding Shown
  tick-Waiting t ts v w e =
      let u = min (ts - t) duration in
      rw (tick_due t ts v w.due w.since)
        (tick_at-Waiting t u (record v { begun = some t; progress = u }) w.shown refl e)

  tick-Settled :
      (t ts : ℕ) (v : Viz)
      → Waiting t v
      → ltb (min (ts - t) duration) duration ≡ false
      → Settled (tick k cosine p ts v)
  unfolding Shown
  tick-Settled t ts v w e =
      let u = min (ts - t) duration in
      rw (tick_due t ts v w.due w.since) (
        tick_at-Settled u (record v { begun = some t; progress = u }) w.shown (ground (arith, e)) e)

  tick_stays : (ts : ℕ) (v : Viz) → Settled v → tick k cosine p ts v ≡ v
  unfolding tick
  tick_stays ts v s = rw (s.no_frame) refl

  resize-Waiting : (t : ℕ) (v : Viz) → Waiting t v → Waiting t (resize k cosine p v)
  unfolding resize Shown
  resize-Waiting t v w =
      rw (render_frame-show (if v.progress == 0 then duration else v.progress) v w.shown)
        (record { shown = inr (refl, refl); due = w.due; since = w.since })

  landed_done : (q : ℕ) → q ≡ duration → landed n (if q == 0 then duration else q) n ≡ n
  landed_done q e = rw (e) (landed_at_end n n (omega arith))

  resize-Settled : (v : Viz) → Settled v → Settled (resize k cosine p v)
  unfolding resize Shown
  resize-Settled v s =
      rw
        (
          render_frame-show (if v.progress == 0 then duration else v.progress) v
              (inr (s.last, s.final)),
          landed_done v.progress s.at_end,
        )
        (record {
          stopped = s.stopped;
          no_frame = s.no_frame;
          all_landed = refl;
          last = refl;
          final = refl;
          at_end = s.at_end;
        })

  step-Settled : (v : Viz) (e : Event) → Settled v → Settled (step k cosine p v e)
  unfolding step
  step-Settled v (frame ts) s = rw (tick_stays ts v s) s
  step-Settled v resizes s = resize-Settled v s

  run-Settled : (es : List Event) (v : Viz) → Settled v → Settled (run k cosine p v es)
  run-Settled [] v s = s
  run-Settled (e ∷ es) v s = run-Settled es (step k cosine p v e) (step-Settled v e s)

  step-Going : (t : ℕ) (v : Viz) (e : Event) → Going t v → Going t (step k cosine p v e)
  unfolding step Going
  step-Going t v e (inr s) = inr (step-Settled v e s)
  step-Going t v resizes (inl w) = inl (resize-Waiting t v w)
  step-Going t v (frame ts) (inl w) = elim (Bool-cases (ltb (min (ts - t) duration) duration)) [
    | inl early ↦ inl (tick-Waiting t ts v w early)
    | inr late ↦ inr (tick-Settled t ts v w late)
  ]

  run-Going : (t : ℕ) (es : List Event) (v : Viz) → Going t v → Going t (run k cosine p v es)
  run-Going t [] v g = g
  run-Going t (e ∷ es) v g = run-Going t es (step k cosine p v e) (step-Going t v e g)

  late_frame :
      (t ts : ℕ) (v : Viz) → t + duration ≤ ts → Going t v → Settled (step k cosine p v (frame ts))
  unfolding step Going
  late_frame t ts v l (inr s) = step-Settled v (frame ts) s
  late_frame t ts v l (inl w) = tick-Settled t ts v w (ground arith)

  widen-some : (b : Option (ℤ × ℤ)) (v : ℤ) → (d : ℤ × ℤ) × (widen b v ≡ some d)
  widen-some none v = ((v, v), refl)
  widen-some (some (lo, hi)) v = ((lower lo v, upper hi v), refl)

  has_domain : ready p ≡ true → (d : ℤ × ℤ) × (domain p ≡ some d)
  unfolding domain
  has_domain r =
      let ((lo, hi), e) = widen-some (scan_paths p.paths none) p.strike in
      ((lo *ℤ pos 25 -ℤ margin lo hi, hi *ℤ pos 25 +ℤ margin lo hi), rw (r, e) refl)

  abbrev opened : Viz
  opened = record {
    running = true;
    completed = 0;
    estimate = pos 0;
    last_stat = none;
    begun = none;
    progress = 0;
    frame_due = true;
  }

  begin-opened : (v : Viz) → ready p ≡ true → begin k cosine p v ≡ opened
  unfolding begin
  begin-opened v r = let (d, e) = has_domain r in rw (e, begin) refl

  first_frame :
      (t : ℕ) (v : Viz)
      → ready p ≡ true
      → Waiting t (step k cosine p (begin k cosine p v) (frame t))
  unfolding step tick Shown
  first_frame t v r =
      let u = min (t - t) duration in
      rw (begin-opened v r) (
        tick_at-Waiting t u (record opened { begun = some t; progress = u }) (inl refl) refl
          (ground arith))

  final_price : ready p ≡ true → price_at n ≡ p.mc_price *ℤ pos (scale k cosine p)
  unfolding estimate_at ready
  final_price r =
      let some_path : (n == 0) ≡ false = ground (arith, r) in
      rw (some_path) (
        ap (λ x. p.mc_price *ℤ x) (no_wobble (cosine n n) (scale k cosine p) (n - n) (omega arith)))

  -- A run of the animation comes to an end: once it began and its first frame came at t, whatever
  -- frames and changes of size come, a frame at t + 7600 milliseconds or later, if not an earlier one,
  -- stops it; then and ever after it is not running, requests no frame, has counted every path, and
  -- shows the price itself as the estimate.
  pub run-settles :
      (v : Viz) (t ts : ℕ) (es ds : List Event)
      → ready p ≡ true
      → t + duration ≤ ts
      → let w =
          run k cosine p
            (step k cosine p
              (run k cosine p (step k cosine p (begin k cosine p v) (frame t)) es)
              (frame ts))
            ds in
        (w.running ≡ false)
        × (w.frame_due ≡ false)
        × (w.completed ≡ length p.paths)
        × (w.estimate ≡ p.mc_price *ℤ pos (scale k cosine p))
  unfolding Going
  run-settles v t ts es ds r l =
      let going =
        run-Going t es (step k cosine p (begin k cosine p v) (frame t)) (inl (first_frame t v r)) in
      let s =
        run-Settled ds
          (step k cosine p (run k cosine p (step k cosine p (begin k cosine p v) (frame t)) es)
            (frame ts))
          (late_frame t ts (run k cosine p (step k cosine p (begin k cosine p v) (frame t)) es) l
            going) in
      (s.stopped, s.no_frame, s.all_landed, s.final ∙ ap price_at s.all_landed ∙ final_price r)
