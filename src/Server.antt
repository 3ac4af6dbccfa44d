-- ===== src/Server.antt =====
-- How a request of the server runs: it reads and writes the database, and returns or throws. A
-- NestJS exception, the unique violation of Prisma (P2002) and any other error are values.
pub mod Rows
pub mod Database
pub mod Reason
use pookie_chat.Prelude.{String, Bool, true, false, Option, none, some}

pub data Exception : Type 0 where
  bad_request unauthorized forbidden not_found conflict : String → Exception
  unique_violation internal : Exception
  -- An `UnauthorizedException` with a message and `requiresTurnstile`.
  challenge : String → Bool → Exception

pub data Result {ℓ} (A : Type ℓ) : Type ℓ where
  ok : A → Result A
  err : Exception → Result A

-- The state is kept where a request throws: what it wrote before stays written.
abbrev pub M : Type 0 → Type 0 → Type 0
M S A = S → Result A × S

abbrev pub bind : {S A B : Type 0} → Result A × S → (A → M S B) → Result B × S
bind (ok a, s) f = f a s
bind (err e, s) f = (err e, s)

infixl 5 ◌>>=◌ ◌>>◌
abbrev pub ◌>>=◌ : {S A B : Type 0} → M S A → (A → M S B) → M S B
◌>>=◌ m f s = bind (m s) f

abbrev pub ◌>>◌ : {S A B : Type 0} → M S A → M S B → M S B
◌>>◌ m k s = bind (m s) (λ _. k)

abbrev pub pure : {S A : Type 0} → A → M S A
pure a s = (ok a, s)

abbrev pub throw : {S A : Type 0} → Exception → M S A
throw e s = (err e, s)

abbrev pub get : {S : Type 0} → M S S
get s = (ok s, s)

abbrev pub modify : {S : Type 0} → (S → S) → M S (Unit {0})
modify f s = (ok tt, f s)

-- `if (!test) throw e`
abbrev pub require : {S : Type 0} → Bool → Exception → M S (Unit {0})
require true e s = (ok tt, s)
require false e s = (err e, s)

-- `if (!value) throw e`
abbrev pub or_throw : {S A : Type 0} → Option A → Exception → M S A
or_throw none e s = (err e, s)
or_throw (some a) e s = (ok a, s)

abbrev pub roll_back : {S A : Type 0} → S → Result A × S → Result A × S
roll_back before (ok a, s) = (ok a, s)
roll_back before (err e, s) = (err e, before)

-- `$transaction`: an exception undoes what was written.
abbrev pub transaction : {S A : Type 0} → M S A → M S A
transaction m s = roll_back s (m s)

abbrev pub on_violation : {S A : Type 0} → (Unit {0} → M S A) → Result A × S → Result A × S
on_violation handler (err unique_violation, s) = handler tt s
on_violation handler (ok a, s) = (ok a, s)
on_violation handler (err e, s) = (err e, s)

-- `try { m } catch (err) { if (err is P2002) handler; else throw err }`
abbrev pub catch_violation : {S A : Type 0} → M S A → (Unit {0} → M S A) → M S A
catch_violation m handler s = on_violation handler (m s)
