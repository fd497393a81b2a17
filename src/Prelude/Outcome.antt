-- ===== src/Prelude/Outcome.antt =====
-- `Result`, as an operation returns it, and the end of a run that may panic.
use stellartrace.Prelude.{List, [], ◌∷◌}

pub data Result (A E : Type 0) : Type 0 where
  ok : A → Result A E
  fail : E → Result A E

-- The end of a run on fuel: a value, a panic, or no fuel left.
pub data Run (A : Type 0) : Type 0 where
  done : A → Run A
  panicked : Run A
  unfinished : Run A

infixl 5 ◌>>=◌
abbrev pub ◌>>=◌ : {A B : Type 0} → Run A → (A → Run B) → Run B
done a >>= f = f a
panicked >>= f = panicked
unfinished >>= f = unfinished

-- `iter().map(f).collect()`, of an `f` that may panic
unfoldable pub run_all : {A B : Type 0} → (A → Run B) → List A → Run (List B)
run_all f [] = done []
run_all f (x ∷ xs) = do y ← f x; ys ← run_all f xs; done (y ∷ ys)

-- The run ends, in a value or a panic.
abbrev pub Ends : {A : Type 0} → Run A → Type 0
Ends (done a) = Unit {0}
Ends panicked = Unit {0}
Ends unfinished = ⊥

-- The run ends in a value that satisfies `P`.
abbrev pub Returns : {A : Type 0} → (A → Type 0) → Run A → Type 0
Returns P (done a) = P a
Returns P panicked = ⊥
Returns P unfinished = ⊥

pub Ends-bind :
    {A B : Type 0} (r : Run A) (f : A → Run B) → Ends r → ((a : A) → Ends (f a)) → Ends (r >>= f)
Ends-bind (done a) f h k = k a
Ends-bind panicked f h k = tt
Ends-bind unfinished f h k = h

pub Returns-bind :
    {A B : Type 0} (P : A → Type 0) (Q : B → Type 0) (r : Run A) (f : A → Run B)
    → Returns P r
    → ((a : A) → P a → Returns Q (f a))
    → Returns Q (r >>= f)
Returns-bind P Q (done a) f h k = k a h
Returns-bind P Q panicked f h k = absurd h
Returns-bind P Q unfinished f h k = absurd h

pub Returns-mono :
    {A : Type 0} (P Q : A → Type 0) (r : Run A) → ((a : A) → P a → Q a) → Returns P r → Returns Q r
Returns-mono P Q (done a) f h = f a h
Returns-mono P Q panicked f h = absurd h
Returns-mono P Q unfinished f h = absurd h

-- If the run ends in a value, that satisfies `P`.
abbrev pub Ensures : {A : Type 0} → (A → Type 0) → Run A → Type 0
Ensures P (done a) = P a
Ensures P panicked = Unit {0}
Ensures P unfinished = Unit {0}

pub Ensures-bind :
    {A B : Type 0} (P : A → Type 0) (Q : B → Type 0) (r : Run A) (f : A → Run B)
    → Ensures P r
    → ((a : A) → P a → Ensures Q (f a))
    → Ensures Q (r >>= f)
Ensures-bind P Q (done a) f h k = k a h
Ensures-bind P Q panicked f h k = tt
Ensures-bind P Q unfinished f h k = tt

pub Ensures-mono :
    {A : Type 0} (P Q : A → Type 0) (r : Run A) → Ensures P r → ((a : A) → P a → Q a) → Ensures Q r
Ensures-mono P Q (done a) h k = k a h
Ensures-mono P Q panicked h k = tt
Ensures-mono P Q unfinished h k = tt

pub Ensures-trivial : {A : Type 0} (P : A → Type 0) (r : Run A) → ((a : A) → P a) → Ensures P r
Ensures-trivial P (done a) h = h a
Ensures-trivial P panicked h = tt
Ensures-trivial P unfinished h = tt
