-- ===== src/Server/Reason.antt =====
-- Rules to follow a request step by step: each hands on what its test has decided.
use pookie_chat.Prelude.{if◌then◌else◌, ◌≡◌, refl, Bool, true, false, Option, none, some}
use pookie_chat.Server.{
  M, bind, require, or_throw, roll_back, transaction, Exception, Result, ok, err,
}

module _ {S B : Type 0} (P : Result B × S → Type 0) where
  pub at_require :
      (b : Bool) (e : Exception) (k : Unit {0} → M S B) (s : S)
      → P (err e, s)
      → (b ≡ true → P (k tt s))
      → P (bind (require b e s) k)
  at_require true e k s stop go = go refl
  at_require false e k s stop go = stop

  pub at_or_throw :
      {A : Type 0} (o : Option A) (e : Exception) (k : A → M S B) (s : S)
      → P (err e, s)
      → ((a : A) → o ≡ some a → P (k a s))
      → P (bind (or_throw o e s) k)
  at_or_throw none e k s stop go = stop
  at_or_throw (some a) e k s stop go = go a refl

  pub at_if :
      (b : Bool) (x y : M S B) (s : S)
      → (b ≡ true → P (x s))
      → (b ≡ false → P (y s))
      → P ((if b then x else y) s)
  at_if true x y s then_true then_false = then_true refl
  at_if false x y s then_true then_false = then_false refl

  -- A transaction, and what follows it: what its body leaves is looked at in `roll_back`.
  pub at_transaction :
      {A : Type 0} (m : M S A) (k : A → M S B) (s : S)
      → P (bind (roll_back s (m s)) k)
      → P (bind (transaction m s) k)
  at_transaction m k s h = h

  -- What a request does in two parts, by what holds between them.
  pub at_bind :
      {A : Type 0} (Q : Result A × S → Type 0) (q : Result A × S) (k : A → M S B)
      → Q q
      → ((e : Exception) (s : S) → Q (err e, s) → P (err e, s))
      → ((a : A) (s : S) → Q (ok a, s) → P (k a s))
      → P (bind q k)
  at_bind Q (ok a, s) k h stop go = go a s h
  at_bind Q (err e, s) k h stop go = stop e s h

module _ {S : Type 0} (P : Result (Unit {0}) × S → Type 0) where
  -- A test with nothing after it.
  pub at_guard :
      (b : Bool) (e : Exception) (s : S)
      → P (err e, s)
      → (b ≡ true → P (ok tt, s))
      → P (require b e s)
  at_guard true e s stop go = go refl
  at_guard false e s stop go = stop
