-- ===== src/Gmail/Session.antt =====
-- A method of a Gmail executor: it reads what was sent so far and the label identities that the object
-- remembers, and returns a value or an error with what it left behind. What was sent stays sent.
use inboxlume.Base.{Bool, String, List, ◌∷◌, Option, some, ok, raise, Result, Error, if◌then◌else◌}
use inboxlume.Gmail.Json.{JsonFields}

pub data Request : Type 0 where
  get_request : String → Request
  post_request : String → JsonFields → Request

pub record Session (C : Type 0) : Type 0 where
  pub sent : List Request  -- newest first
  pub cache : Option C

abbrev pub Action : Type 0 → Type 0 → Type 0
Action C A = Session C → Result A × Session C

module _ {C A : Type 0} where
  abbrev pub pure : A → Action C A
  pure a s = (ok a, s)

  abbrev pub fail : Error → Action C A
  fail e s = (raise e, s)

  abbrev pub lift : Result A → Action C A
  lift r s = (r, s)

infixl 5 ◌>>=◌ ◌>>◌
abbrev pub ◌>>=◌ : {C A B : Type 0} → Action C A → (A → Action C B) → Action C B
◌>>=◌ m f s = let (r, s') = m s in elim r [ ok a ↦ f a s' | raise e ↦ (raise e, s') ]

abbrev pub ◌>>◌ : {C B : Type 0} → Action C (Unit {0}) → Action C B → Action C B
m >> k = m >>= λ _. k

module _ {C : Type 0} where
  -- `if not test: raise ...`
  abbrev pub check : Bool → Error → Action C (Unit {0})
  check test e s = (if test then ok tt else raise e, s)

  abbrev pub remembered : Action C (Option C)
  remembered s = (ok s.cache, s)

  abbrev pub remember : C → Action C (Unit {0})
  remember c s = (ok tt, record s { cache = some c })

  abbrev pub sent_so_far : Action C (List Request)
  sent_so_far s = (ok s.sent, s)

  abbrev pub send : Request → Action C (Unit {0})
  send r s = (ok tt, record s { sent = r ∷ s.sent })
