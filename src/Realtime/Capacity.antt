-- ===== src/Realtime/Capacity.antt =====
-- The sockets of a user, after any history of the registry.
use pookie_chat.Prelude.{
  leb, ◌==◌, Bool-cases, length, keep, any, length-append, All, All-append, All-keep, ℕ, ◌≤◌, ◌<◌,
  ◌≡◌, refl, sym, subst, ◌≢◌, inl, inr, Bool, true, false, not, List, [], ◌∷◌, ◌++◌, arith,
}
use pookie_chat.Realtime.{
  put, add_socket, remove_socket, register, unregister, allow_typing, push_to_user, push_to_device,
  push_to_users, disconnect_device, disconnect_user, Registry,
}

pub data Call : Type 0 where
  registers unregisters : (user device socket : ℕ) → Call
  types : (user now : ℕ) → Call
  pushes : (users : List ℕ) (event : ℕ) → Call
  pushes_to_device : (device event : ℕ) → Call
  closes_device : (device : ℕ) → Call
  closes_user : (user : ℕ) → Call

pub call : Call → Registry → Registry
call (registers user device socket) r = (register user device socket r).1
call (unregisters user device socket) r = unregister user device socket r
call (types user now) r = (allow_typing user now r).1
call (pushes users event) r = (push_to_users users event r).1
call (pushes_to_device device event) r = (push_to_device device event r).1
call (closes_device device) r = disconnect_device device r
call (closes_user user) r = disconnect_user user r

pub call_all : List Call → Registry → Registry
call_all [] r = r
call_all (x ∷ xs) r = call_all xs (call x r)

abbrev pub IsUnique : List ℕ → Type 0
IsUnique [] = Unit {0}
IsUnique (s ∷ ss) = All (λ k. k ≢ s) ss × IsUnique ss

-- At most eight sockets, each once.
abbrev pub IsCapped : (ℕ → List ℕ) → Type 0
IsCapped f = (user : ℕ) → (length (f user) ≤ 8) × IsUnique (f user)

added-IsUnique :
    (socket : ℕ) (ss : List ℕ)
    → any (λ s. s == socket) ss ≡ false
    → IsUnique ss
    → IsUnique (ss ++ socket ∷ [])
unfolding any
added-IsUnique socket [] h u = (tt, tt)
added-IsUnique socket (s ∷ ss) h (apart, u) = (
  All-append (λ (k : ℕ). k ≢ s) ss (socket ∷ []) apart ((λ e. ground arith), tt),
  added-IsUnique socket ss (ground arith) u,
)

kept-IsUnique : (p : ℕ → Bool) (ss : List ℕ) → IsUnique ss → IsUnique (keep p ss)
unfolding keep
kept-IsUnique p [] u = tt
kept-IsUnique p (s ∷ ss) (apart, u) = elim (Bool-cases (p s)) [
  | inl fits ↦ rw fits (All-keep (λ (k : ℕ). k ≢ s) p ss apart, kept-IsUnique p ss u)
  | inr off ↦ rw off (kept-IsUnique p ss u)
]

length-keep_le : (p : ℕ → Bool) (ss : List ℕ) → length (keep p ss) ≤ length ss
unfolding keep
length-keep_le p [] = omega arith
length-keep_le p (s ∷ ss) = ground (arith, length-keep_le p ss)

put-IsCapped :
    (user : ℕ) (ss : List ℕ) (f : ℕ → List ℕ)
    → IsCapped f
    → (length ss ≤ 8) × IsUnique ss
    → IsCapped (put user ss f)
put-IsCapped user ss f v h k = elim (Bool-cases (k == user)) [
  | inl same ↦ rw same h
  | inr other ↦ rw other (v k)
]

registered :
    (socket : ℕ) (ss : List ℕ)
    → length ss < 8
    → IsUnique ss
    → (length (add_socket socket ss) ≤ 8) × IsUnique (add_socket socket ss)
unfolding add_socket
registered socket ss space u = elim (Bool-cases (any (λ s. s == socket) ss)) [
  | inl there ↦ rw there (omega arith, u)
  | inr new ↦
      rw new (rw (length-append ss (socket ∷ [])) (omega arith), added-IsUnique socket ss new u)
]

pushed-same :
    (users : List ℕ) (event : ℕ) (r : Registry)
    → (push_to_users users event r).1.connections ≡ r.connections
unfolding push_to_users push_to_user
pushed-same [] event r = refl
pushed-same (user ∷ users) event r = pushed-same users event (push_to_user user event r).1

full_register :
    (user device socket : ℕ) (r : Registry)
    → leb 8 (length (r.connections user)) ≡ true
    → register user device socket r ≡ (false, r)
unfolding register
full_register user device socket r full = rw full refl

free_register :
    (user device socket : ℕ) (r : Registry)
    → leb 8 (length (r.connections user)) ≡ false
    → (register user device socket r).1.connections
      ≡ put user (add_socket socket (r.connections user)) r.connections
unfolding register
free_register user device socket r space = rw space refl

register-IsCapped :
    (user device socket : ℕ) (r : Registry)
    → IsCapped r.connections
    → IsCapped (register user device socket r).1.connections
register-IsCapped user device socket r v = elim (Bool-cases (leb 8 (length (r.connections user)))) [
  | inl full ↦
      subst (λ (q : Bool × Registry). IsCapped q.1.connections)
        (sym (full_register user device socket r full)) v
  | inr space ↦ subst IsCapped (sym (free_register user device socket r space)) (
      put-IsCapped user (add_socket socket (r.connections user)) r.connections v
        (registered socket (r.connections user) (ground arith) (v user).1))
]

call-IsCapped : (x : Call) (r : Registry) → IsCapped r.connections → IsCapped (call x r).connections
unfolding call unregister remove_socket allow_typing push_to_device disconnect_device
    disconnect_user
call-IsCapped (registers user device socket) r v = register-IsCapped user device socket r v
call-IsCapped (unregisters user device socket) r v =
    put-IsCapped user (keep (λ s. not (s == socket)) (r.connections user)) r.connections v (
      omega (arith, length-keep_le (λ s. not (s == socket)) (r.connections user), (v user).0),
      kept-IsUnique (λ s. not (s == socket)) (r.connections user) (v user).1,
    )
call-IsCapped (types user now) r v = v
call-IsCapped (pushes users event) r v = rw (pushed-same users event r) v
call-IsCapped (pushes_to_device device event) r v = v
call-IsCapped (closes_device device) r v = v
call-IsCapped (closes_user user) r v = v

-- Whatever the registry is called to do, no user has more than eight sockets in it, and none twice,
-- if that was so before.
pub call_all-IsCapped :
    (xs : List Call) (r : Registry) → IsCapped r.connections → IsCapped (call_all xs r).connections
unfolding call_all
call_all-IsCapped [] r v = v
call_all-IsCapped (x ∷ xs) r v = call_all-IsCapped xs (call x r) (call-IsCapped x r v)
