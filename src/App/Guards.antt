-- ===== src/App/Guards.antt =====
-- The guards of the routes.
use algorithmic_trading_simu.Prelude.{
  ◌≡◌, refl, ◌⊎◌, inl, inr, Bool, true, false, Option, none, some, String, str_eq, List, [], ◌∷◌,
  arith, Bool-cases,
}
use algorithmic_trading_simu.Auth.{AuthState}
use algorithmic_trading_simu.App.{
  Page, navigate, page, protected_route, public_only_route, table_get, public_routes, shell_routes,
  render, login_page, dashboard, meta, title,
}

render-root : (s : AuthState) → render s "/" ≡ protected_route s (page dashboard)
unfolding render
render-root s = refl

render-login : (s : AuthState) → render s "/login" ≡ public_only_route s (page login_page)
unfolding render
render-login s = refl

-- A page is reached, at once or after one redirect.
abbrev pub Settles : AuthState → String → Type 0
Settles s p =
    ((pg : Page) × (render s p ≡ page pg))
    ⊎ ((q : String) × (pg : Page) × (render s p ≡ navigate q) × (render s q ≡ page pg))

home :
    (s : AuthState)
    → s.has_hydrated ≡ true
    → s.is_authenticated ≡ true
    → render s "/" ≡ page dashboard
unfolding render
home s h a = ground arith

sign_in :
    (s : AuthState)
    → s.has_hydrated ≡ true
    → s.is_authenticated ≡ false
    → render s "/login" ≡ page login_page
unfolding render
sign_in s h a = ground arith

render-Settles_cases :
    (s : AuthState) (p : String)
    → s.has_hydrated ≡ true
    → (a : Bool) → s.is_authenticated ≡ a
    → (x y : Option Page) → table_get p public_routes ≡ x
    → table_get p shell_routes ≡ y
    → Settles s p
unfolding render
render-Settles_cases s p h true a (some pg) y ex ey = inr ("/", dashboard, ground arith, home s h a)
render-Settles_cases s p h false a (some pg) y ex ey = inl (pg, ground arith)
render-Settles_cases s p h true a none (some pg) ex ey = inl (pg, ground arith)
render-Settles_cases s p h false a none (some pg) ex ey =
    inr ("/login", login_page, ground arith, sign_in s h a)
render-Settles_cases s p h true a none none ex ey = inr ("/", dashboard, ground arith, home s h a)
render-Settles_cases s p h false a none none ex ey =
    inr ("/login", login_page, ground arith, sign_in s h a)

-- Once the store is hydrated there is no redirect loop: every path, known or not, renders a page
-- at once or after exactly one redirect.
pub render-Settles : (s : AuthState) (p : String) → s.has_hydrated ≡ true → Settles s p
render-Settles s p h =
    render-Settles_cases s p h s.is_authenticated refl (table_get p public_routes)
      (table_get p shell_routes) refl refl

-- The pages of the shell.
abbrev pub is_shell : Page → Bool
is_shell Page.login_page = false
is_shell Page.register_page = false
is_shell _ = true

-- Every entry of a table is, or is not, a page of the shell.
abbrev AllShell : Bool → List (String × Page) → Type 0
AllShell b [] = Unit {0}
AllShell b ((q, pg) ∷ rest) = (is_shell pg ≡ b) × AllShell b rest

table_get-is_shell :
    (b : Bool) (p : String) (t : List (String × Page)) (pg : Page)
    → AllShell b t
    → table_get p t ≡ some pg
    → is_shell pg ≡ b
unfolding table_get
table_get-is_shell b p [] pg h e = cc
table_get-is_shell b p ((q, x) ∷ rest) pg (h, hs) e =
    ground (arith, table_get-is_shell b p rest pg hs)

public_pages : (p : String) (pg : Page) → table_get p public_routes ≡ some pg → is_shell pg ≡ false
public_pages p pg e = table_get-is_shell false p public_routes pg (ground arith) e

shell_pages : (p : String) (pg : Page) → table_get p shell_routes ≡ some pg → is_shell pg ≡ true
shell_pages p pg e = table_get-is_shell true p shell_routes pg (ground arith) e

-- A page of the shell is rendered only to an authenticated user of a hydrated store, and the login
-- and register pages only to a user of a hydrated store who is not authenticated.
pub render_guarded :
    (s : AuthState) (p : String) (pg : Page)
    → render s p ≡ page pg
    → (s.has_hydrated ≡ true) × (s.is_authenticated ≡ is_shell pg)
unfolding render
render_guarded s p pg e = go (table_get p public_routes) (table_get p shell_routes) refl refl
  where
    go :
        (x y : Option Page)
        → table_get p public_routes ≡ x
        → table_get p shell_routes ≡ y
        → (s.has_hydrated ≡ true) × (s.is_authenticated ≡ is_shell pg)
    go (some q) y ex ey = ground (arith, public_pages p q ex)
    go none (some q) ex ey = ground (arith, shell_pages p q ey)
    go none none ex ey = ground arith

-- Two tables with the same keys in the same order.
abbrev SameKeys {ℓ κ} : {A : Type ℓ} {B : Type κ} → List (String × A) → List (String × B) → Type 0
SameKeys [] [] = Unit {0}
SameKeys ((p, a) ∷ s) ((q, b) ∷ t) = (p ≡ q) × SameKeys s t
SameKeys _ _ = ⊥

table_get-SameKeys {ℓ κ} :
    {A : Type ℓ} {B : Type κ} (k : String) (s : List (String × A)) (t : List (String × B)) (a : A)
    → SameKeys s t
    → table_get k s ≡ some a
    → (b : B) × (table_get k t ≡ some b)
unfolding table_get
table_get-SameKeys k [] [] a h e = absurd (cc)
table_get-SameKeys k [] (_ ∷ _) a h e = elim h [ ]
table_get-SameKeys k (_ ∷ _) [] a h e = elim h [ ]
table_get-SameKeys k ((p, x) ∷ s) ((q, y) ∷ t) a (h, hs) e = elim (Bool-cases (str_eq p k)) [
  | inl hit ↦ (y, rw (← h, hit))
  | inr miss ↦ let (b, r) = table_get-SameKeys k s t a hs (rw miss at e) in (b, rw (← h, miss) r)
]

keys_agree : SameKeys shell_routes meta
keys_agree = ground arith

-- Every page of the shell that a path renders has a title of its own in the header's table: the
-- fallback title is for no page.
render-titled :
    (s : AuthState) (p : String) (pg : Page)
    → render s p ≡ page pg
    → is_shell pg ≡ true
    → (t : String) × (table_get p meta ≡ some t) × (title p ≡ t)
unfolding render title
render-titled s p pg e h = go (table_get p public_routes) (table_get p shell_routes) refl refl
  where
    go :
        (x y : Option Page)
        → table_get p public_routes ≡ x
        → table_get p shell_routes ≡ y
        → (t : String) × (table_get p meta ≡ some t) × (title p ≡ t)
    go (some q) y ex ey = absurd (ground (arith, public_pages p q ex))
    go none (some q) ex ey =
        let (t, r) = table_get-SameKeys p shell_routes meta q keys_agree ey in (t, r, rw (r, title))
    go none none ex ey = absurd (ground arith)
