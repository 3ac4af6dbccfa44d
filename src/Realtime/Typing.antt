-- ===== src/Realtime/Typing.antt =====
-- How many typing events of a user pass in one window.
use pookie_chat.Prelude.{
  ltb, leb, ==_refl, Bool-cases, length, All, ℕ, ◌+◌, ◌-◌, ◌≤◌, min, ◌≡◌, refl, ap, ◌∙◌, inl, inr,
  false, none, some, List, [], ◌∷◌, arith,
}
use pookie_chat.Realtime.{typing_window_ms, typing_max_per_window, allow_typing, one_if, Registry}

-- The number of events that pass, of those at the given instants.
pub passed : ℕ → List ℕ → Registry → ℕ
passed user [] r = 0
passed user (now ∷ later) r =
    one_if (allow_typing user now r).0 + passed user later (allow_typing user now r).1

passed_in :
    (user start n : ℕ) (times : List ℕ) (r : Registry)
    → r.typing_windows user ≡ some (record { count = n; window_start = start })
    → n ≤ 30
    → All (λ t. t ≤ start + 10000) times
    → passed user times r ≡ min (length times) (30 - n)
unfolding passed allow_typing
passed_in user start n [] r e few near = omega arith
passed_in user start n (now ∷ later) r e few near =
    let inside : ltb typing_window_ms (now - start) ≡ false = ground (arith, near.0) in
    elim (Bool-cases (leb typing_max_per_window n)) [
      | inl full ↦
          rw (e, inside, full)
            (ap (λ k. 0 + k) (passed_in user start n later _ (rw (==_refl user) refl) few near.1)
              ∙ ground arith)
      | inr free ↦
          rw (e, inside, free)
            (ap (λ k. 1 + k)
                (passed_in user start (n + 1) later _ (rw (==_refl user) refl) (ground arith)
                  near.1)
              ∙ ground arith)
    ]

-- Of the typing events of a user that fall into one window, at whatever instants, the first thirty
-- pass and the others do not.
passed_window :
    (user start : ℕ) (later : List ℕ) (r : Registry)
    → r.typing_windows user ≡ none
    → All (λ t. t ≤ start + 10000) later
    → passed user (start ∷ later) r ≡ min (length later + 1) 30
unfolding passed allow_typing
passed_window user start later r e near = rw e (
    ap (λ k. 1 + k) (passed_in user start 1 later _ (rw (==_refl user) refl) (omega arith) near)
    ∙ ground arith)
