-- ===== src/Prelude/Outcome.antt =====
-- What a C++ member function does to an object: it returns a value, or throws. Either way the object
-- is left in some state, so an exception keeps the writes that were made before the throw.

pub data Outcome (E S A : Type 0) : Type 0 where
  done : A → S → Outcome E S A
  throws : E → S → Outcome E S A

infixl 5 ◌>>=◌
abbrev pub ◌>>=◌ : {E S A B : Type 0} → Outcome E S A → (A × S → Outcome E S B) → Outcome E S B
done a s >>= f = f (a, s)
throws e s >>= f = throws e s

-- The state that the call leaves behind.
abbrev pub state_of : {E S A : Type 0} → Outcome E S A → S
state_of (done a s) = s
state_of (throws e s) = s
