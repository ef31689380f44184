-- ===== src/Surface.antt =====
-- components/ui/VolSurface3D.jsx: the turning of the surface. Angles count 0.0005 radians and pointer
-- positions are whole pixels. The browser's frames that are still to come are part of the state, with
-- the handles that requestAnimationFrame gave them, which count from 1; cancelling a handle without
-- a frame does nothing.
pub mod Turning
use algorithmic_trading_simu.Prelude.{
  ℕ, suc, ◌==◌, Bool, true, false, not, ◌&&◌, Option, none, some, List, [], ◌∷◌, if◌then◌else◌,
}
use algorithmic_trading_simu.Prelude.Int.{ℤ, pos, negsuc, ◌+ℤ◌, ◌-ℤ◌, ◌*ℤ◌, ltb_ℤ}

pub record View : Type 0 where
  pub yaw : ℤ
  pub pitch : ℤ
  pub drag : Option (ℤ × ℤ)
  pub spin : Bool
  pub raf : ℕ
  pub frames : List ℕ
  pub handles : ℕ

abbrev pub mounted : Bool → View
mounted auto_rotate = record {
  yaw = negsuc 1359;
  pitch = negsuc 1919;
  drag = none;
  spin = auto_rotate;
  raf = 0;
  frames = [];
  handles = 0;
}

-- `Math.max(a, b)` and `Math.min(a, b)`.
abbrev pub max_ℤ : ℤ → ℤ → ℤ
max_ℤ a b = if ltb_ℤ a b then b else a

abbrev pub min_ℤ : ℤ → ℤ → ℤ
min_ℤ a b = if ltb_ℤ b a then b else a

abbrev pub lowest : ℤ
lowest = negsuc 2899

abbrev pub highest : ℤ
highest = negsuc 99

abbrev pub is_none : Option (ℤ × ℤ) → Bool
is_none none = true
is_none (some p) = false

unfoldable pub without : ℕ → List ℕ → List ℕ
without n [] = []
without n (m ∷ ms) = let rest = without n ms in if m == n then rest else m ∷ rest

-- `cancelAnimationFrame(raf.current)`.
unfoldable pub cancel : View → View
unfolding without
cancel v = record v { frames = without v.raf v.frames }

-- `raf.current = requestAnimationFrame(loop)`.
unfoldable pub request : View → View
request v = record v {
  raf = suc v.handles;
  frames = suc v.handles ∷ v.frames;
  handles = suc v.handles;
}

unfoldable pub start : View → View
unfolding cancel request
start v = request (cancel v)

-- `loop`, called for the frame of that handle.
unfoldable pub loop : ℕ → View → View
unfolding request without
loop n v =
    let gone = record v { frames = without n v.frames } in
    if v.spin && is_none v.drag then request (record gone { yaw = v.yaw +ℤ pos 7 }) else gone

-- The effect of `autoRotate`.
unfoldable pub set_spin : Bool → View → View
unfolding start
set_spin auto_rotate v =
    let set = record v { spin = auto_rotate } in if auto_rotate then start set else set

-- The effect of the surface: its cleanup, and then itself.
unfoldable pub set_surface : View → View
unfolding start cancel
set_surface v = if v.spin then start (cancel v) else cancel v

unfoldable pub on_down : ℤ → ℤ → View → View
unfolding cancel
on_down x y v = cancel (record v { drag = some (x, y) })

unfoldable pub on_move : ℤ → ℤ → View → View
on_move x y v = elim v.drag [
  | none ↦ v
  | some from ↦ record v {
    yaw = v.yaw +ℤ (x -ℤ from.0) *ℤ pos 20;
    pitch = max_ℤ lowest (min_ℤ highest (v.pitch +ℤ (y -ℤ from.1) *ℤ pos 16));
    drag = some (x, y);
  }
]

unfoldable pub on_up : View → View
unfolding start
on_up v = let up = record v { drag = none } in if v.spin then start up else up

pub data Event : Type 0 where
  downs moves : ℤ → ℤ → Event
  ups : Event
  spins : Bool → Event
  surfaces : Event
  frame : ℕ → Event

abbrev pub is_due : ℕ → List ℕ → Bool
is_due n [] = false
is_due n (m ∷ ms) = if m == n then true else is_due n ms

unfoldable pub step : View → Event → View
unfolding on_down on_move on_up set_spin set_surface loop
step v (downs x y) = on_down x y v
step v (moves x y) = on_move x y v
step v ups = on_up v
step v (spins on) = set_spin on v
step v surfaces = set_surface v
step v (frame n) = if is_due n v.frames then loop n v else v

abbrev pub run : View → List Event → View
run v [] = v
run v (e ∷ es) = run (step v e) es
