-- ===== src/Surface/Turning.antt =====
-- One loop at a time, and the bounds of the pitch.
use algorithmic_trading_simu.Prelude.{
  ℕ, suc, ◌≡◌, ◌⊎◌, refl, ap, Bool, true, false, ◌&&◌, Option, none, some, List, [], ◌∷◌,
  if◌then◌else◌, arith, Bool-cases, inl, inr,
}
use algorithmic_trading_simu.Prelude.Int.{ℤ, pos, negsuc, ltb_ℤ, ◌+ℤ◌, ◌-ℤ◌, ◌*ℤ◌}
use algorithmic_trading_simu.Surface.{
  View, mounted, max_ℤ, min_ℤ, lowest, highest, is_none, without, cancel, request, start, loop,
  set_spin, set_surface, on_down, on_move, on_up, Event, downs, moves, ups, spins, surfaces, frame,
  is_due, step, run,
}

-- No frame is to come, or the last one that was requested.
abbrev pub Single : View → Type 0
Single v = (v.frames ≡ []) ⊎ (v.frames ≡ v.raf ∷ [])

cancel-none : (v : View) → Single v → (cancel v).frames ≡ []
unfolding cancel without
cancel-none v (inl e) = ground (arith, e)
cancel-none v (inr e) = ground (arith, e)

request-Single : (v : View) → v.frames ≡ [] → Single (request v)
unfolding request
request-Single v e = inr (ap (λ fs. suc v.handles ∷ fs) e)

start-Single : (v : View) → Single v → Single (start v)
unfolding start
start-Single v h = request-Single (cancel v) (cancel-none v h)

clamped :
    (a : ℤ)
    → (ltb_ℤ (max_ℤ lowest (min_ℤ highest a)) lowest ≡ false)
      × (ltb_ℤ highest (max_ℤ lowest (min_ℤ highest a)) ≡ false)
clamped (pos n) = ground arith
clamped (negsuc n) = ground arith

record Inv (v : View) : Type 0 where
  single : Single v
  -- A surface that turns by itself and is not dragged has a frame to come.
  alive : v.spin && is_none v.drag ≡ true → v.frames ≡ v.raf ∷ []
  low : ltb_ℤ v.pitch lowest ≡ false
  high : ltb_ℤ highest v.pitch ≡ false

start-Inv :
    (v : View)
    → Single v
    → ltb_ℤ v.pitch lowest ≡ false
    → ltb_ℤ highest v.pitch ≡ false
    → Inv (start v)
unfolding start request
start-Inv v s l h =
    let one = ap (λ fs. suc v.handles ∷ fs) (cancel-none v s) in
    record { single = inr one; alive = λ on. one; low = l; high = h }

cancel-Inv :
    (v : View)
    → Single v
    → v.spin && is_none v.drag ≡ false
    → ltb_ℤ v.pitch lowest ≡ false
    → ltb_ℤ highest v.pitch ≡ false
    → Inv (cancel v)
unfolding cancel
cancel-Inv v s off l h = record {
  single = inl (cancel-none v s);
  alive = λ on. absurd (ground (arith, on, off));
  low = l;
  high = h;
}

set_spin-Inv : (on : Bool) (v : View) → Inv v → Inv (set_spin on v)
unfolding set_spin
set_spin-Inv true v i = start-Inv (record v { spin = true }) i.single i.low i.high
set_spin-Inv false v i = record {
  single = i.single;
  alive = λ on. absurd (ground (arith, on));
  low = i.low;
  high = i.high;
}

if-Inv :
    (b : Bool) (v w : View) → (b ≡ true → Inv v) → (b ≡ false → Inv w) → Inv (if b then v else w)
if-Inv true v w f g = f refl
if-Inv false v w f g = g refl

set_surface-Inv :
    (v : View)
    → Single v
    → ltb_ℤ v.pitch lowest ≡ false
    → ltb_ℤ highest v.pitch ≡ false
    → Inv (set_surface v)
unfolding set_surface cancel
set_surface-Inv v s l h =
    if-Inv v.spin (start (cancel v)) (cancel v)
      (λ e. start-Inv (cancel v) (inl (cancel-none v s)) l h)
      (λ e. cancel-Inv v s (ground (arith, e)) l h)

on_up-Inv : (v : View) → Inv v → Inv (on_up v)
unfolding on_up
on_up-Inv v i =
    if-Inv v.spin (start (record v { drag = none })) (record v { drag = none })
      (λ e. start-Inv (record v { drag = none }) i.single i.low i.high)
      (λ e. record {
        single = i.single;
        alive = λ on. absurd (ground (arith, on, e));
        low = i.low;
        high = i.high;
      })

on_down-Inv : (x y : ℤ) (v : View) → Inv v → Inv (on_down x y v)
unfolding on_down
on_down-Inv x y v i =
    cancel-Inv (record v { drag = some (x, y) }) i.single (ground arith) i.low i.high

on_move-Inv : (x y : ℤ) (v : View) → Inv v → Inv (on_move x y v)
unfolding on_move
on_move-Inv x y v i = moved v.drag refl
  where
    moved :
        (d : Option (ℤ × ℤ))
        → v.drag ≡ d
        → Inv (elim d [
          | none ↦ v
          | some from ↦ record v {
            yaw = v.yaw +ℤ (x -ℤ from.0) *ℤ pos 20;
            pitch = max_ℤ lowest (min_ℤ highest (v.pitch +ℤ (y -ℤ from.1) *ℤ pos 16));
            drag = some (x, y);
          }
        ])
    moved none e = i
    moved (some from) e =
        let (l, h) = clamped (v.pitch +ℤ (y -ℤ from.1) *ℤ pos 16) in
        record { single = i.single; alive = λ on. absurd (ground (arith, on)); low = l; high = h }

-- The frame that is due is the only one.
gone : (n : ℕ) (v : View) → Single v → is_due n v.frames ≡ true → without n v.frames ≡ []
unfolding without
gone n v (inl e) h = ground (arith, e, h)
gone n v (inr e) h = ground (arith, e, h)

loop-Inv : (n : ℕ) (v : View) → Inv v → is_due n v.frames ≡ true → Inv (loop n v)
unfolding loop request
loop-Inv n v i h =
    let none_left = gone n v i.single h in
    let one = ap (λ fs. suc v.handles ∷ fs) none_left in
    if-Inv (v.spin && is_none v.drag)
      (request (record v { frames = without n v.frames; yaw = v.yaw +ℤ pos 7 }))
      (record v { frames = without n v.frames })
      (λ e. record { single = inr one; alive = λ on. one; low = i.low; high = i.high })
      (λ e. record {
        single = inl none_left;
        alive = λ on. absurd (ground (arith, on, e));
        low = i.low;
        high = i.high;
      })

step-Inv : (v : View) (e : Event) → Inv v → Inv (step v e)
unfolding step
step-Inv v (downs x y) i = on_down-Inv x y v i
step-Inv v (moves x y) i = on_move-Inv x y v i
step-Inv v ups i = on_up-Inv v i
step-Inv v (spins on) i = set_spin-Inv on v i
step-Inv v surfaces i = set_surface-Inv v i.single i.low i.high
step-Inv v (frame n) i = if-Inv (is_due n v.frames) (loop n v) v (loop-Inv n v i) (λ e. i)

run-Inv : (es : List Event) (v : View) → Inv v → Inv (run v es)
run-Inv [] v i = i
run-Inv (e ∷ es) v i = run-Inv es (step v e) (step-Inv v e i)

first-Single :
    (auto_rotate : Bool)
    → let v = set_spin auto_rotate (mounted auto_rotate) in
      Single v × (ltb_ℤ v.pitch lowest ≡ false) × (ltb_ℤ highest v.pitch ≡ false)
unfolding set_spin start request cancel
first-Single true = (start-Single (mounted true) (inl refl), refl, refl)
first-Single false = (inl refl, refl, refl)

-- However the surface is dragged, set spinning and given other data, and whichever of its frames
-- come: at most one frame is to come, and one is while it spins and is not dragged; and the pitch
-- stays between -1.45 and -0.05.
pub run-turns :
    (auto_rotate : Bool) (es : List Event)
    → let v = run (set_surface (set_spin auto_rotate (mounted auto_rotate))) es in
      Single v
      × ((v.spin && is_none v.drag ≡ false) ⊎ (v.frames ≡ v.raf ∷ []))
      × (ltb_ℤ v.pitch lowest ≡ false)
      × (ltb_ℤ highest v.pitch ≡ false)
run-turns auto_rotate es =
    let first = set_spin auto_rotate (mounted auto_rotate) in
    let (s, l, h) = first-Single auto_rotate in
    let v = run (set_surface first) es in
    let i = run-Inv es (set_surface first) (set_surface-Inv first s l h) in
    (
      i.single,
      elim (Bool-cases (v.spin && is_none v.drag)) [ inl e ↦ inr (i.alive e) | inr e ↦ inl e ],
      i.low,
      i.high,
    )
