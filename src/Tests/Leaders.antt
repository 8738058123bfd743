-- ===== src/Tests/Leaders.antt =====
-- The theorems on leaders of pkg/routing/bootstrap.go at runs with one or two leaders.
use spegel.Base.{◌≡◌, ◌≢◌, refl, Str, ascii, All, true, false, [], ◌∷◌}
use spegel.Routing.Bootstrap.{
  testing, closing, locking, waiting, passed, read, Leader, new_bootstrapper, not_closed, close,
  set_id, pass, look, report, get, act, see, Reach, start, next,
}
use spegel.Routing.Bootstrap.Leaders.{ReadsKnown, IsWaiting, Reach-ReadsKnown}
use spegel.Routing.Bootstrap.Overlaps.{Reach-empty_id, Reach-panicked}

abbrev leader : Str
leader = ascii "leader"

abbrev known : Leader
known = record {
  init_closed = true;
  id = leader;
  callbacks = [];
  getters = read leader ∷ [];
  panicked = false;
  reported = leader ∷ [];
}

leader-ne : leader ≢ []
leader-ne e = cc

-- The leader is reported before `Get` looks.
leader_known : Reach [] known
leader_known =
    let r0 = next (next start (get new_bootstrapper)) (report _ leader leader-ne) in
    let r1 = next r0 (act _ _ [] [] (testing leader) _ refl (not_closed leader refl)) in
    let r2 = next r1 (act _ _ [] [] (closing leader) _ refl (close leader refl)) in
    let r3 = next r2 (act _ _ [] [] (locking leader) _ refl (set_id leader)) in
    let r4 = next r3 (see _ [] [] waiting passed refl (pass refl)) in
    next r4 (see _ [] [] passed (read leader) refl look)

Reach-ReadsKnown_example :
    All (ReadsKnown (leader ∷ [])) (read leader ∷ [])
    × All (λ i. i ≢ []) (leader ∷ [])
    × (leader ∷ [] ≡ [] → All IsWaiting (read leader ∷ []))
Reach-ReadsKnown_example = Reach-ReadsKnown [] known leader_known

Reach-empty_id_example :
    (b : Leader) × Reach [] b × (b.reported ≡ leader ∷ []) × (b.getters ≡ read [] ∷ [])
Reach-empty_id_example = Reach-empty_id [] leader leader-ne

Reach-panicked_example : (b : Leader) × Reach [] b × (b.panicked ≡ true)
Reach-panicked_example = Reach-panicked [] leader (ascii "other") leader-ne (λ e. cc)
