-- ===== src/Routing/Bootstrap/Leaders.antt =====
-- Which leader `Get` of pkg/routing/bootstrap.go reads.
use mathlib.Core.List.{not-mem-nil, Mem, mem-cons_self, mem-cons_of_mem}
use spegel.Base.{
  ◌≡◌, ◌≢◌, ◌⊎◌, inl, inr, refl, sym, subst, Str, All, All-append, All-split, All-imp, false,
  Option, List, [], ◌∷◌, ◌++◌,
}
use spegel.Routing.Bootstrap.{
  Callback, testing, closing, locking, Getter, waiting, passed, read, Leader, new_bootstrapper, Act,
  is_closed, not_closed, close, close_closed, set_id, still, Look, pass, look, Step, report,
  report_unknown, get, act, see, Reach, start, next,
}

-- No identity, or one of those that were reported.
abbrev pub Known : List Str → Str → Type 0
Known reported i = (i ≡ []) ⊎ Mem i reported

abbrev identity : Callback → Str
identity (testing i) = i
identity (closing i) = i
identity (locking i) = i

abbrev IsReported : List Str → Callback → Type 0
IsReported reported c = Mem (identity c) reported

-- What a call of `Get` got is known.
abbrev pub ReadsKnown : List Str → Getter → Type 0
ReadsKnown reported waiting = Unit
ReadsKnown reported passed = Unit
ReadsKnown reported (read i) = Known reported i

-- A call of `Get` that is still waiting.
abbrev pub IsWaiting : Getter → Type 0
IsWaiting waiting = Unit
IsWaiting passed = ⊥
IsWaiting (read i) = ⊥

record Good (b : Leader) : Type 0 where
  id : Known b.reported b.id
  callbacks : All (IsReported b.reported) b.callbacks
  pub getters : All (ReadsKnown b.reported) b.getters
  unreported : b.reported ≡ [] → (b.init_closed ≡ false) × All IsWaiting b.getters

Known-cons : (i j : Str) (reported : List Str) → Known reported j → Known (i ∷ reported) j
Known-cons i j reported (inl e) = inl e
Known-cons i j reported (inr m) = inr (mem-cons_of_mem i m)

ReadsKnown-cons :
    (i : Str) (reported : List Str) (g : Getter)
    → ReadsKnown reported g
    → ReadsKnown (i ∷ reported) g
ReadsKnown-cons i reported waiting k = tt
ReadsKnown-cons i reported passed k = tt
ReadsKnown-cons i reported (read j) k = Known-cons i j reported k

-- An element of a list is replaced by others.
All-replace {ℓ κ} :
    {A : Type ℓ} (P : A → Type κ) (before after bs : List A) (a : A)
    → All P (before ++ a ∷ after)
    → (P a → All P bs)
    → All P (before ++ (bs ++ after))
All-replace P before after bs a g f =
    let (l, r) = All-split P before (a ∷ after) g in
    All-append P before (bs ++ after) l (All-append P bs after (f r.0) r.1)

Mem-ne : {i : Str} {reported : List Str} → Mem i reported → reported ≡ [] → ⊥
Mem-ne {i} m e = not-mem-nil (subst (Mem i) e m)

-- A call of `OnNewLeader` whose identity was reported goes on, and the others stay.
Act-Good :
    (b t : Leader) (c : Callback) (rest : Option Callback) (before after : List Callback)
    → Act b c t rest
    → Mem (identity c) b.reported
    → All (IsReported b.reported) before
    → All (IsReported b.reported) after
    → Good b
    → Good (record t { callbacks = before ++ (still rest ++ after) })
Act-Good b t c rest before after (is_closed i e) m l r g = record {
  id = g.id;
  callbacks = All-append (IsReported b.reported) before _ l (m, r);
  getters = g.getters;
  unreported = g.unreported;
}
Act-Good b t c rest before after (not_closed i e) m l r g = record {
  id = g.id;
  callbacks = All-append (IsReported b.reported) before _ l (m, r);
  getters = g.getters;
  unreported = g.unreported;
}
Act-Good b t c rest before after (close i e) m l r g = record {
  id = g.id;
  callbacks = All-append (IsReported b.reported) before _ l (m, r);
  getters = g.getters;
  unreported = λ n. absurd (Mem-ne m n);
}
Act-Good b t c rest before after (close_closed i e) m l r g = record {
  id = g.id;
  callbacks = All-append (IsReported b.reported) before _ l r;
  getters = g.getters;
  unreported = λ n. absurd (Mem-ne m n);
}
Act-Good b t c rest before after (set_id i) m l r g = record {
  id = inr m;
  callbacks = All-append (IsReported b.reported) before _ l r;
  getters = g.getters;
  unreported = λ n. absurd (Mem-ne m n);
}

Look-ReadsKnown :
    (b : Leader) (g h : Getter) → Look b g h → Known b.reported b.id → ReadsKnown b.reported h
Look-ReadsKnown b g h (pass e) k = tt
Look-ReadsKnown b g h look k = k

-- As long as the channel is open, a call of `Get` that waits does nothing.
Look-open : (b : Leader) (g h : Getter) → Look b g h → b.init_closed ≡ false → IsWaiting g → ⊥
Look-open b g h (pass e) o w = cc
Look-open b g h look o w = w

Step-Good : {unknown : Str} {b c : Leader} → Step unknown b c → Good b → Good c
Step-Good (report b i ne) g = record {
  id = Known-cons i b.id b.reported g.id;
  callbacks = (mem-cons_self, All-imp _ _ b.callbacks (λ c m. mem-cons_of_mem i m) g.callbacks);
  getters = All-imp _ _ b.getters (ReadsKnown-cons i b.reported) g.getters;
  unreported = λ e. cc;
}
Step-Good (report_unknown b) g = g
Step-Good (get b) g = record {
  id = g.id;
  callbacks = g.callbacks;
  getters = (tt, g.getters);
  unreported = λ e. let (o, w) = g.unreported e in (o, (tt, w));
}
Step-Good (act b t before after c rest e a) g =
    let (l, mr) =
      All-split (IsReported b.reported) before (c ∷ after)
        (subst (All (IsReported b.reported)) e g.callbacks) in
    Act-Good b t c rest before after a mr.0 l mr.1 g
Step-Good (see b before after x y e l) g = record {
  id = g.id;
  callbacks = g.callbacks;
  getters =
      All-replace (ReadsKnown b.reported) before after (y ∷ []) x
        (subst (All (ReadsKnown b.reported)) e g.getters) (λ k. (Look-ReadsKnown b x y l g.id, tt));
  unreported = λ n.
      let (o, w) = g.unreported n in
      absurd (
        Look-open b x y l o
          (All-split IsWaiting before (x ∷ after) (subst (All IsWaiting) e w)).1.0);
}

new_bootstrapper-Good : Good new_bootstrapper
new_bootstrapper-Good = record {
  id = inl refl;
  callbacks = tt;
  getters = tt;
  unreported = λ e. (refl, tt);
}

Reach-Good : {unknown : Str} {b : Leader} → Reach unknown b → Good b
Reach-Good start = new_bootstrapper-Good
Reach-Good (next r s) = Step-Good s (Reach-Good r)

Act-reported :
    {b t : Leader} {c : Callback} {rest : Option Callback}
    → Act b c t rest
    → t.reported ≡ b.reported
Act-reported (is_closed i e) = refl
Act-reported (not_closed i e) = refl
Act-reported (close i e) = refl
Act-reported (close_closed i e) = refl
Act-reported (set_id i) = refl

Step-reported :
    {unknown : Str} {b c : Leader}
    → Step unknown b c
    → All (λ i. i ≢ unknown) b.reported
    → All (λ i. i ≢ unknown) c.reported
Step-reported (report b i ne) a = (ne, a)
Step-reported (report_unknown b) a = a
Step-reported (get b) a = a
Step-reported {unknown} (act b t before after c rest e m) a =
    subst (All (λ i. i ≢ unknown)) (sym (Act-reported m)) a
Step-reported (see b before after x y e l) a = a

Reach-reported : {unknown : Str} {b : Leader} → Reach unknown b → All (λ i. i ≢ unknown) b.reported
Reach-reported start = tt
Reach-reported (next r s) = Step-reported s (Reach-reported r)

-- Whatever the order of the steps: an identity that `Get` read is empty or one of those that were
-- reported to `OnNewLeader`, and none of them the unknown leader; as long as none was reported, every
-- call of `Get` still waits.
pub Reach-ReadsKnown :
    (unknown : Str) (b : Leader)
    → Reach unknown b
    → All (ReadsKnown b.reported) b.getters
      × All (λ i. i ≢ unknown) b.reported
      × (b.reported ≡ [] → All IsWaiting b.getters)
Reach-ReadsKnown unknown b r =
    let g = Reach-Good r in (g.getters, Reach-reported r, λ e. (g.unreported e).1)
