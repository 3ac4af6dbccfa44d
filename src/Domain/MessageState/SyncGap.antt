-- ===== src/Domain/MessageState/SyncGap.antt =====
-- messageState.ts: what `computeSyncGap` returns.
use pookie_chat.Prelude.{
  ltb, Bool-cases, keep, ℕ, ◌≤◌, ◌≡◌, refl, subst, inl, inr, List, [], ◌∷◌, arith,
}
use pookie_chat.Domain.MessageState.{insert_by, sort_by, compute_sync_gap}
use mathlib.Core.List.{Perm, filter}
use native.Mathlib.Decide.{dec_lt}
use mathlib.Core.List.Perm

module _ {ℓ} {A : Type ℓ} (number : A → ℕ) where
  abbrev pub IsAscending : List A → Type 0
  IsAscending [] = Unit
  IsAscending (a ∷ []) = Unit
  IsAscending (a ∷ b ∷ l) = (number a ≤ number b) × IsAscending (b ∷ l)

  insert_by-perm : (a : A) (l : List A) → Perm (insert_by number a l) (a ∷ l)
  unfolding insert_by
  insert_by-perm a [] = Perm.refl (a ∷ [])
  insert_by-perm a (b ∷ l) = elim (Bool-cases (ltb (number b) (number a))) [
    | inl later ↦ rw later (Perm.trans (Perm.cons b (insert_by-perm a l)) (Perm.swap a b l))
    | inr here ↦ rw here (Perm.refl (a ∷ b ∷ l))
  ]

  pub sort_by-perm : (l : List A) → Perm (sort_by number l) l
  unfolding sort_by
  sort_by-perm [] = Perm.refl []
  sort_by-perm (a ∷ l) =
      Perm.trans (insert_by-perm a (sort_by number l)) (Perm.cons a (sort_by-perm l))

  insert_by-IsAscending : (a : A) (l : List A) → IsAscending l → IsAscending (insert_by number a l)
  unfolding insert_by
  insert_by-IsAscending a [] h = tt
  insert_by-IsAscending a (b ∷ []) h = ground arith
  insert_by-IsAscending a (b ∷ c ∷ l) h = ground (arith, insert_by-IsAscending a (c ∷ l) h.1)

  sort_by-IsAscending : (l : List A) → IsAscending (sort_by number l)
  unfolding sort_by
  sort_by-IsAscending [] = tt
  sort_by-IsAscending (a ∷ l) = insert_by-IsAscending a (sort_by number l) (sort_by-IsAscending l)

  keep-filter :
      (n : ℕ) (l : List A) → keep (λ m. ltb n (number m)) l ≡ filter (λ m. dec_lt n (number m)) l
  unfolding keep
  keep-filter n [] = refl
  keep-filter n (a ∷ l) = ground (arith, keep-filter n l)

  -- A client that has seen everything up to a number gets exactly the messages above it, each as
  -- often as the server holds it, in ascending order.
  sync_gap_complete :
      (seen : ℕ) (l : List A)
      → IsAscending (compute_sync_gap number seen l)
        × Perm (compute_sync_gap number seen l) (filter (λ m. dec_lt seen (number m)) l)
  unfolding compute_sync_gap
  sync_gap_complete seen l = (
    sort_by-IsAscending (keep (λ m. ltb seen (number m)) l),
    subst (Perm _) (keep-filter seen l) (sort_by-perm (keep (λ m. ltb seen (number m)) l)),
  )
