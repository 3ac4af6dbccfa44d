-- ===== src/Realtime/Live/Sets.antt =====
-- connection-registry.service.ts: its sets of sockets, when a connection comes and goes.
use pookie_chat.Prelude.{
  ◌==◌, ==_iff, ==_refl, Bool-cases, length, keep, any, count, All, All-mono, ℕ, ◌≡◌, refl, sym, ap,
  ◌∙◌, inl, inr, Bool, true, false, List, [], ◌∷◌, ◌++◌, arith,
}
use pookie_chat.Realtime.{put, add_socket, remove_socket}
use pookie_chat.Realtime.Live.{has_socket, sockets_of, disconnect, Connection}

module _ (p : Connection → Bool) where
  any-sockets :
      (socket : ℕ) (live : List Connection)
      → any (has_socket socket) live ≡ false
      → any (λ s. s == socket) (sockets_of p live) ≡ false
  unfolding any keep
  any-sockets socket [] h = refl
  any-sockets socket (c ∷ live) h = ground (arith, any-sockets socket live)

  sockets-append_in :
      (c : Connection) (live : List Connection)
      → p c ≡ true
      → sockets_of p (live ++ c ∷ []) ≡ sockets_of p live ++ c.socket ∷ []
  unfolding keep
  sockets-append_in c [] h = ground arith
  sockets-append_in c (x ∷ live) h = ground (arith, sockets-append_in c live)

  sockets-append_out :
      (c : Connection) (live : List Connection)
      → p c ≡ false
      → sockets_of p (live ++ c ∷ []) ≡ sockets_of p live
  unfolding keep
  sockets-append_out c [] h = ground arith
  sockets-append_out c (x ∷ live) h = ground (arith, sockets-append_out c live)

  pub length-sockets : (live : List Connection) → length (sockets_of p live) ≡ count p live
  unfolding keep count
  length-sockets [] = refl
  length-sockets (c ∷ live) = ground (arith, length-sockets live)

  remove-sockets :
      (socket : ℕ) (live : List Connection)
      → remove_socket socket (sockets_of p live) ≡ sockets_of p (disconnect socket live)
  unfolding remove_socket keep
  remove-sockets socket [] = refl
  remove-sockets socket (c ∷ live) = ground (arith, remove-sockets socket live)

  -- Nothing is taken away where the socket is not among them.
  sockets-disconnect_out :
      (socket : ℕ) (live : List Connection)
      → All (λ c. has_socket socket c ≡ true → p c ≡ false) live
      → sockets_of p (disconnect socket live) ≡ sockets_of p live
  unfolding keep
  sockets-disconnect_out socket [] h = refl
  sockets-disconnect_out socket (c ∷ live) (h, hs) =
      ground (arith, h, sockets-disconnect_out socket live hs)

pub disconnect_missing :
    (socket : ℕ) (live : List Connection)
    → any (has_socket socket) live ≡ false
    → disconnect socket live ≡ live
unfolding keep any
disconnect_missing socket [] h = refl
disconnect_missing socket (c ∷ live) h = ground (arith, disconnect_missing socket live)

-- The sets of one kind, by user or by device.
abbrev pub ShowsBy : (Connection → ℕ) → List Connection → (ℕ → List ℕ) → Type 0
ShowsBy key live sets = (k : ℕ) → sets k ≡ sockets_of (λ c. key c == k) live

module _ (key : Connection → ℕ) (live : List Connection) (sets : ℕ → List ℕ) (c : Connection)
    (s : ShowsBy key live sets) where
  pub ShowsBy-added :
      any (has_socket c.socket) live ≡ false
      → ShowsBy key (live ++ c ∷ []) (put (key c) (add_socket c.socket (sets (key c))) sets)
  unfolding add_socket
  ShowsBy-added fresh k = elim (Bool-cases (k == key c)) [
    | inl same ↦
        rw (same, s (key c), any-sockets (λ x. key x == key c) c.socket live fresh)
          (sym (sockets-append_in (λ x. key x == key c) c live (==_refl (key c)))
            ∙ ap (λ n. sockets_of (λ x. key x == n) (live ++ c ∷ []))
                (sym ((==_iff k (key c)).0 same)))
    | inr other ↦ rw other (s k ∙ sym (sockets-append_out (λ x. key x == k) c live (ground arith)))
  ]

  pub ShowsBy-removed :
      All (λ x. has_socket c.socket x ≡ true → c ≡ x) live
      → ShowsBy key
          (disconnect c.socket live)
          (put (key c) (remove_socket c.socket (sets (key c))) sets)
  ShowsBy-removed only k = elim (Bool-cases (k == key c)) [
    | inl same ↦
        rw (same, s (key c))
          (remove-sockets (λ x. key x == key c) c.socket live
            ∙ ap (λ n. sockets_of (λ x. key x == n) (disconnect c.socket live))
                (sym ((==_iff k (key c)).0 same)))
    | inr other ↦ rw other (
        s k
        ∙ sym (
            sockets-disconnect_out (λ x. key x == k) c.socket live
              (All-mono (λ x. has_socket c.socket x ≡ true → c ≡ x)
                (λ x. has_socket c.socket x ≡ true → (key x == k) ≡ false)
                (λ x one at. rw (sym (one at)) (ground arith)) live only)))
  ]
