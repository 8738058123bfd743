-- ===== src/Group/Exits.antt =====
-- How the goroutines of a group ended, and lists of goroutines: main.go and pkg/routing/bootstrap.go.
use spegel.Base.{
  ◌+◌, ◌≡◌, ◌↔◌, refl, sym, ◌∙◌, ap, Bool, true, false, ◌||◌, Option, none, some, List, [], ◌∷◌,
  ◌++◌, All, length, length-append, Error, arith,
}
use spegel.Group.{
  or_else, server_closed, serve_error, Exit, server_exit, call_exit, serve_result, result_of,
  Goroutine, serve, shutdown, draining, router_run, router_close, state_track,
}

abbrev pub IsClean : Exit → Type 0
IsClean (server_exit x) = x ≡ server_closed
IsClean (call_exit r) = r ≡ none

abbrev pub first_error : List Exit → Option Error
first_error [] = none
first_error (x ∷ xs) = or_else (result_of x) (first_error xs)

abbrev pub is_error : Option Error → Bool
is_error none = false
is_error (some e) = true

pub no_error : (o : Option Error) → is_error o ≡ false → o ≡ none
no_error none h = refl
no_error (some e) h = cc

pub or_true : (b : Bool) {c : Bool} → c ≡ true → (b || c) ≡ true
or_true true h = refl
or_true false h = h

or_else_assoc : (a b c : Option Error) → or_else (or_else a b) c ≡ or_else a (or_else b c)
or_else_assoc none b c = refl
or_else_assoc (some e) b c = refl

or_else-none : (a : Option Error) → or_else a none ≡ a
or_else-none none = refl
or_else-none (some e) = refl

pub first_error-append :
    (xs : List Exit) (x : Exit)
    → first_error (xs ++ x ∷ []) ≡ or_else (first_error xs) (result_of x)
first_error-append [] x = or_else-none (result_of x)
first_error-append (y ∷ xs) x =
    ap (or_else (result_of y)) (first_error-append xs x)
    ∙ sym (or_else_assoc (result_of y) (first_error xs) (result_of x))

clean : (x : Exit) → (result_of x ≡ none) ↔ IsClean x
unfolding serve_result result_of
clean (server_exit server_closed) = (λ h. refl, λ h. refl)
clean (server_exit (serve_error e)) = (λ h. cc, λ h. cc)
clean (call_exit r) = (λ h. h, λ h. h)

or_else-eq-none : (a b : Option Error) → or_else a b ≡ none → (a ≡ none) × (b ≡ none)
or_else-eq-none none b h = (refl, h)
or_else-eq-none (some e) b h = cc

pub all_clean : (xs : List Exit) → first_error xs ≡ none → All IsClean xs
all_clean [] h = tt
all_clean (x ∷ xs) h =
    let (here, later) = or_else-eq-none (result_of x) (first_error xs) h in
    ((clean x).0 here, all_clean xs later)

pub first_error-clean : (xs : List Exit) → All IsClean xs → first_error xs ≡ none
first_error-clean [] h = refl
first_error-clean (x ∷ xs) (h, hs) = rw ((clean x).1 h) (first_error-clean xs hs)

module _ {Server : Type 0} where
  abbrev pub is_serve : Goroutine Server → Bool
  is_serve (serve s) = true
  is_serve (shutdown s) = false
  is_serve (draining s) = false
  is_serve router_run = false
  is_serve router_close = false
  is_serve state_track = false

  abbrev pub serves : List (Goroutine Server) → Bool
  serves [] = false
  serves (g ∷ gs) = is_serve g || serves gs

  pub serves-split :
      (before after : List (Goroutine Server)) (g : Goroutine Server)
      → serves (before ++ g ∷ after) ≡ is_serve g || serves (before ++ after)
  serves-split [] after g = refl
  serves-split (b ∷ before) after g = ground (arith, serves-split before after g)

  pub length-split :
      (before after : List (Goroutine Server)) (g : Goroutine Server)
      → length (before ++ g ∷ after) ≡ 1 + length (before ++ after)
  length-split before after g =
      omega (arith, length-append before (g ∷ after), length-append before after)
