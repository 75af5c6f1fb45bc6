-- ===== src/Prelude/Keeping.antt =====
-- Properties of the state that a handler keeps, whatever it answers.
use mathlib.Core.Bool.{Bool}
use social_network_micro_ser.Prelude.Results.{Outcome, ok, fail, Action, ◌>>=◌, ◌>>◌, guard, lift}

module _ {S E : Type 0} (P : S → Type 0) where
  abbrev pub Kept : {A : Type 0} → Action S E A → Type 0
  Kept m = (s : S) → P s → P (m s).1

  bind-Kept_at :
      {A B : Type 0} (o : Outcome E A) (s : S) (f : A → Action S E B)
      → ((a : A) → Kept (f a))
      → P s
      → P ((lift o >>= f) s).1
  bind-Kept_at (ok a) s f k p = k a s p
  bind-Kept_at (fail e) s f k p = p

  pub bind-Kept :
      {A B : Type 0} (m : Action S E A) (f : A → Action S E B)
      → Kept m
      → ((a : A) → Kept (f a))
      → Kept (m >>= f)
  bind-Kept m f keeps k s p = bind-Kept_at (m s).0 (m s).1 f k (keeps s p)

  pub then-Kept :
      {A B : Type 0} (m : Action S E A) (k : Action S E B) → Kept m → Kept k → Kept (m >> k)
  then-Kept m k keeps keeps' = bind-Kept m (λ _. k) keeps (λ _. keeps')

  pub guard-Kept :
      {B : Type 0} (b : Bool) (e : E) (k : Action S E B) → Kept k → Kept (guard b e >> k)
  guard-Kept b e k keeps = then-Kept (guard b e) k (λ s p. p) keeps
