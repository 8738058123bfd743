-- ===== src/Channel/Ending.antt =====
-- The merge of internal/channel/channel.go comes to its end.
use spegel.Base.{
  ℕ, ◌+◌, ◌*◌, ◌≡◌, ◌⊎◌, inl, inr, refl, ap, length, Bool, true, false, Option, none, some, List,
  [], ◌∷◌, ◌++◌, arith,
}
use spegel.Channel.{Output, Move, receive, send, finish, Merge, AllFinished, Step, move, close}

module _ {ℓ} {A : Type ℓ} where
  -- The steps that a goroutine has left.
  abbrev pub steps_of : Output A → ℕ
  steps_of o = elim o.finished [
    | true ↦ 0
    | false ↦ 1 + 2 * length o.pending + elim o.hand [ none ↦ 0 | some n ↦ 1 ]
  ]

  abbrev pub steps_of_all : List (Output A) → ℕ
  steps_of_all [] = 0
  steps_of_all (o ∷ os) = steps_of o + steps_of_all os

  -- The steps that a merge has left: those of its goroutines, and the closing.
  abbrev pub steps_left : Merge A → ℕ
  steps_left st = steps_of_all st.outputs + elim st.closed [ true ↦ 0 | false ↦ 1 ]

  Move-steps_of : {o p : Output A} {e : List A} → Move o e p → steps_of o ≡ 1 + steps_of p
  Move-steps_of (receive n c) = omega arith
  Move-steps_of (send n c) = omega arith
  Move-steps_of finish = refl

  Move-steps_of_all :
      (before after : List (Output A)) (o p : Output A)
      → steps_of o ≡ 1 + steps_of p
      → steps_of_all (before ++ o ∷ after) ≡ 1 + steps_of_all (before ++ p ∷ after)
  Move-steps_of_all [] after o p e = omega (arith, e)
  Move-steps_of_all (b ∷ before) after o p e = omega (arith, Move-steps_of_all before after o p e)

  AllFinished-steps_of_all : (os : List (Output A)) → AllFinished os → steps_of_all os ≡ 0
  AllFinished-steps_of_all [] f = refl
  AllFinished-steps_of_all (o ∷ os) (f, fs) = rw f (omega (arith, AllFinished-steps_of_all os fs))

  -- Whichever step is taken, one less is left, so that a merge ends.
  pub Step-steps_left : {s t : Merge A} → Step s t → steps_left s ≡ 1 + steps_left t
  Step-steps_left (move before after o p e out m) =
      omega (arith, Move-steps_of_all before after o p (Move-steps_of m))
  Step-steps_left (close os out f) = omega (arith, AllFinished-steps_of_all os f)

  abbrev Movable : Output A → Type ℓ
  Movable o = (p : Output A) × (e : List A) × Move o e p

  finished-or-Movable :
      (c : List A) (h : Option A) (f : Bool)
      → (f ≡ true) ⊎ Movable (record { pending = c; hand = h; finished = f })
  finished-or-Movable c h true = inl refl
  finished-or-Movable c (some n) false = inr (_, _, send n c)
  finished-or-Movable [] none false = inr (_, _, finish)
  finished-or-Movable (n ∷ c) none false = inr (_, _, receive n c)

  -- A goroutine that can go on, and where it stands.
  abbrev SomeMovable : List (Output A) → Type ℓ
  SomeMovable os =
      (before after : List (Output A)) × (o : Output A) × (os ≡ before ++ o ∷ after) × Movable o

  AllFinished-or-SomeMovable : (os : List (Output A)) → AllFinished os ⊎ SomeMovable os
  AllFinished-or-SomeMovable [] = inl tt
  AllFinished-or-SomeMovable (o ∷ os) = elim (finished-or-Movable o.pending o.hand o.finished) [
    | inr m ↦ inr ([], os, o, refl, m)
    | inl f ↦ elim (AllFinished-or-SomeMovable os) [
      | inl fs ↦ inl (f, fs)
      | inr (before, after, p, split, m) ↦ inr (o ∷ before, after, p, ap (λ r. o ∷ r) split, m)
    ]
  ]

  -- As long as the merged channel is not closed, and what is sent to it is received, some goroutine
  -- can take a step.
  pub open-Step :
      (os : List (Output A)) (out : List A)
      → (t : Merge A) × Step (record { outputs = os; out = out; closed = false }) t
  open-Step os out = elim (AllFinished-or-SomeMovable os) [
    | inl f ↦ (_, close os out f)
    | inr (before, after, o, split, (p, e, m)) ↦ rw split (_, move before after o p e out m)
  ]
