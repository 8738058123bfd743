-- ===== src/Routing/Bootstrap/Overlaps.antt =====
-- Orders of the calls on a leader that go wrong: pkg/routing/bootstrap.go.
use spegel.Base.{◌≡◌, ◌≢◌, refl, Str, true, [], ◌∷◌}
use spegel.Routing.Bootstrap.{
  testing, closing, locking, waiting, passed, read, Leader, new_bootstrapper, not_closed, close,
  close_closed, pass, look, report, get, act, see, Reach, start, next,
}

-- The first leader that is reported may be missed: for every identity but the unknown one there is an
-- order of the steps in which only this leader was reported, and a call of `Get` returned with the
-- empty identity, since the channel is closed before the identity is set.
pub Reach-empty_id :
    (unknown i : Str)
    → i ≢ unknown
    → (b : Leader) × Reach unknown b × (b.reported ≡ i ∷ []) × (b.getters ≡ read [] ∷ [])
Reach-empty_id unknown i ne =
    let r0 = next (next start (get new_bootstrapper)) (report _ i ne) in
    let r1 = next r0 (act _ _ [] [] (testing i) _ refl (not_closed i refl)) in
    let r2 = next r1 (act _ _ [] [] (closing i) _ refl (close i refl)) in
    let r3 = next r2 (see _ [] [] waiting passed refl (pass refl)) in
    let r4 = next r3 (see _ [] [] passed (read []) refl look) in (_, r4, refl, refl)

-- Two calls of `OnNewLeader` that overlap, with any identities but the unknown one, may both find the
-- channel open, and the second to close it panics.
pub Reach-panicked :
    (unknown i j : Str)
    → i ≢ unknown
    → j ≢ unknown
    → (b : Leader) × Reach unknown b × (b.panicked ≡ true)
Reach-panicked unknown i j ni nj =
    let r0 = next (next start (report new_bootstrapper i ni)) (report _ j nj) in
    let r1 = next r0 (act _ _ [] (testing i ∷ []) (testing j) _ refl (not_closed j refl)) in
    let r2 = next r1 (act _ _ (closing j ∷ []) [] (testing i) _ refl (not_closed i refl)) in
    let r3 = next r2 (act _ _ [] (closing i ∷ []) (closing j) _ refl (close j refl)) in
    let r4 = next r3 (act _ _ (locking j ∷ []) [] (closing i) _ refl (close_closed i refl)) in
    (_, r4, refl)
