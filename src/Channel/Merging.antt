-- ===== src/Channel/Merging.antt =====
-- What comes out of the merge of internal/channel/channel.go.
use mathlib.Core.List.{append_assoc, append-nil}
use mathlib.Core.Logic.{Lift}
use spegel.Base.{◌≡◌, ◌∙◌, refl, ap, sym, subst, true, Option, none, some, List, [], ◌∷◌, ◌++◌, map}
use spegel.Channel.{
  Output, output, Move, receive, send, finish, Merge, AllFinished, Step, move, close, Reach, start,
  next,
}

-- A list that is put together from others, each of which grows at its end: an interleaving.
pub data Interleaving {ℓ} {A : Type ℓ} : List (List A) → List A → Type ℓ where
  nothing : (cs : List (List A)) → Interleaving (map (λ (c : List A). []) cs) []
  more :
      (before after : List (List A)) (c sent out : List A)
      → Interleaving (before ++ c ∷ after) out
      → Interleaving (before ++ (c ++ sent) ∷ after) (out ++ sent)

module _ {ℓ} {A : Type ℓ} where
  -- What a goroutine has still to send.
  abbrev pub held : Option A → List A
  held none = []
  held (some n) = n ∷ []

  record Tracks (c : List A) (o : Output A) (sent : List A) : Type ℓ where
    whole : sent ++ (held o.hand ++ o.pending) ≡ c
    over : o.finished ≡ true → held o.hand ++ o.pending ≡ []

  -- What each goroutine sent, and has to send, is what its channel yields.
  abbrev AllTrack : List (List A) → List (Output A) → List (List A) → Type ℓ
  AllTrack [] [] [] = Unit
  AllTrack (c ∷ cs) (o ∷ os) (s ∷ ss) = Tracks c o s × AllTrack cs os ss
  AllTrack _ _ _ = Lift {0, ℓ} ⊥

  start-AllTrack : (cs : List (List A)) → AllTrack cs (map output cs) (map (λ (c : List A). []) cs)
  start-AllTrack [] = tt
  start-AllTrack (c ∷ cs) = (record { whole = refl; over = λ e. cc }, start-AllTrack cs)

  Move-Tracks :
      {o p : Output A} {e : List A} (c sent : List A)
      → Move o e p
      → Tracks c o sent
      → Tracks c p (sent ++ e)
  Move-Tracks c sent (receive n rest) t = record {
    whole = ap (λ x. x ++ n ∷ rest) (append-nil sent) ∙ t.whole;
    over = λ e. cc;
  }
  Move-Tracks c sent (send n rest) t = record {
    whole = append_assoc sent (n ∷ []) rest ∙ t.whole;
    over = λ e. cc;
  }
  Move-Tracks c sent finish t = record {
    whole = append-nil (sent ++ []) ∙ t.whole;
    over = λ e. refl;
  }

  -- A step of one goroutine, among the others.
  Move-AllTrack :
      (cs : List (List A)) (before after : List (Output A)) (o p : Output A) (e : List A)
      → (ss : List (List A)) → Move o e p
      → AllTrack cs (before ++ o ∷ after) ss
      → (left : List (List A)) × (s : List A) × (right : List (List A)) × (ss ≡ left ++ s ∷ right)
        × AllTrack cs (before ++ p ∷ after) (left ++ (s ++ e) ∷ right)
  Move-AllTrack [] [] after o p e ss m t = absurd t.lower
  Move-AllTrack [] (b ∷ before) after o p e ss m t = absurd t.lower
  Move-AllTrack (c ∷ cs) [] after o p e [] m t = absurd t.lower
  Move-AllTrack (c ∷ cs) (b ∷ before) after o p e [] m t = absurd t.lower
  Move-AllTrack (c ∷ cs) [] after o p e (s ∷ ss) m (here, rest) =
      ([], s, ss, refl, (Move-Tracks c s m here, rest))
  Move-AllTrack (c ∷ cs) (b ∷ before) after o p e (s ∷ ss) m (here, rest) =
      let (left, x, right, split, tracks) = Move-AllTrack cs before after o p e ss m rest in
      (s ∷ left, x, right, ap (λ r. s ∷ r) split, (here, tracks))

  -- The invariant of a run.
  record Good (cs : List (List A)) (st : Merge A) : Type ℓ where
    sent : List (List A)
    tracks : AllTrack cs st.outputs sent
    woven : Interleaving sent st.out
    waited : st.closed ≡ true → AllFinished st.outputs

  Step-Good : {cs : List (List A)} {s t : Merge A} → Step s t → Good cs s → Good cs t
  Step-Good {cs} (move before after o p e out m) g =
      let (left, s, right, split, tracks) = Move-AllTrack cs before after o p e g.sent m g.tracks in
      record {
        sent = left ++ (s ++ e) ∷ right;
        tracks = tracks;
        woven = more left right s e out (subst (λ ss. Interleaving ss out) split g.woven);
        waited = λ c. cc;
      }
  Step-Good (close os out f) g = record {
    sent = g.sent;
    tracks = g.tracks;
    woven = g.woven;
    waited = λ c. f;
  }

  Reach-Good : {cs : List (List A)} {st : Merge A} → Reach cs st → Good cs st
  Reach-Good {cs} start = record {
    sent = map (λ (c : List A). []) cs;
    tracks = start-AllTrack cs;
    woven = nothing cs;
    waited = λ e. cc;
  }
  Reach-Good (next r st) = Step-Good st (Reach-Good r)

  finished-sent :
      (cs : List (List A)) (os : List (Output A)) (ss : List (List A))
      → AllTrack cs os ss
      → AllFinished os
      → ss ≡ cs
  finished-sent [] [] [] t f = refl
  finished-sent [] [] (s ∷ ss) t f = absurd t.lower
  finished-sent [] (o ∷ os) ss t f = absurd t.lower
  finished-sent (c ∷ cs) [] ss t f = absurd t.lower
  finished-sent (c ∷ cs) (o ∷ os) [] t f = absurd t.lower
  finished-sent (c ∷ cs) (o ∷ os) (s ∷ ss) (here, rest) (f, fs) =
      rw (finished-sent cs os ss rest fs)
        (ap (λ x. x ∷ cs) (sym (append-nil s) ∙ (rw (here.over f) at here.whole)))

  -- Whatever the order of the steps: once the merged channel is closed, what was received from it is
  -- an interleaving of what the channels yield, each of them whole and in its order.
  pub Reach-Interleaving :
      (cs : List (List A)) (st : Merge A) → Reach cs st → st.closed ≡ true → Interleaving cs st.out
  Reach-Interleaving cs st r c =
      let g = Reach-Good r in
      subst (λ ss. Interleaving ss st.out)
        (finished-sent cs st.outputs g.sent g.tracks (g.waited c)) g.woven
