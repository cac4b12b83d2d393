-- ===== src/Prelude/Action.antt =====
-- Methods of an object `P`: a method returns its outcome beside the object that it leaves behind, which
-- after an exception is the object as it was at the `raise`.
use distributed_vector_db.Prelude.Outcome.{Outcome, ok, raise}

abbrev pub Act : Type 0 → Type 0 → Type 0
Act P A = P → Outcome A × P

abbrev pub continue : {P A B : Type 0} → Outcome A → (A → Act P B) → Act P B
continue (ok a) f p = f a p
continue (raise x) f p = (raise x, p)

infixl 5 ◌>>=◌ ◌>>◌
abbrev pub ◌>>=◌ : {P A B : Type 0} → Act P A → (A → Act P B) → Act P B
◌>>=◌ m f p = let (o, p') = m p in continue o f p'

abbrev pub ◌>>◌ : {P B : Type 0} → Act P (Unit {0}) → Act P B → Act P B
m >> k = m >>= λ _. k

abbrev pub pure : {P A : Type 0} → A → Act P A
pure a p = (ok a, p)

abbrev pub gets : {P A : Type 0} → (P → A) → Act P A
gets f p = (ok (f p), p)

abbrev pub modify : {P : Type 0} → (P → P) → Act P (Unit {0})
modify f p = (ok tt, f p)

-- A step that reads the object and may raise.
abbrev pub attempt : {P A : Type 0} → (P → Outcome A) → Act P A
attempt f p = (f p, p)
