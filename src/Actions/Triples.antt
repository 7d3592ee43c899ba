-- ===== src/Actions/Triples.antt =====
-- Preconditions and postconditions of actions, with one rule for each way to build an action.
use openvpn_docker.Prelude.{◌≡◌, refl, Bool, true, false, if◌then◌else◌, Result, ok, err}
use openvpn_docker.Actions.{Act, pure, fail, gets, modify, ◌>>=◌, ◌>>◌, next_act, lift}

-- What a finished run owes: `Q` of its value if it succeeds, and `X` if it fails.
abbrev pub Post : {S E A : Type 0} → (A → S → Type 0) → (S → Type 0) → Result E A × S → Type 0
Post Q X (ok a, s) = Q a s
Post Q X (err e, s) = X s

-- From a state with `P`, a success leaves `Q` and a failure leaves `X`.
pub record Ensures {S E A : Type 0} (P : S → Type 0) (m : Act S E A) (Q : A → S → Type 0)
    (X : S → Type 0) : Type 0 where
  pub at : (s : S) → P s → Post Q X (m s)

module _ {S E : Type 0} {X : S → Type 0} where
  pub Ensures-pure :
      {A : Type 0} {P : S → Type 0} (a : A) (Q : A → S → Type 0)
      → ((s : S) → P s → Q a s)
      → Ensures {E = E} P (pure a) Q X
  unfolding pure
  Ensures-pure a Q h = record { at = h }

  pub Ensures-fail :
      {A : Type 0} {P : S → Type 0} (e : E) (Q : A → S → Type 0)
      → ((s : S) → P s → X s)
      → Ensures P (fail e) Q X
  unfolding fail
  Ensures-fail e Q h = record { at = h }

  pub Ensures-modify :
      {P : S → Type 0} (f : S → S) (Q : Unit {0} → S → Type 0)
      → ((s : S) → P s → Q tt (f s))
      → Ensures {E = E} P (modify f) Q X
  unfolding modify
  Ensures-modify f Q h = record { at = h }

  next-Post :
      {A B : Type 0} (r : Result E A × S) (f : A → Act S E B) {M : A → S → Type 0}
      {Q : B → S → Type 0}
      → Post M X r
      → ((a : A) → Ensures (M a) (f a) Q X)
      → Post Q X (next_act r.0 f r.1)
  next-Post (ok a, s) f h k = (k a).at s h
  next-Post (err e, s) f h k = h

  pub Ensures-bind :
      {A B : Type 0} {P : S → Type 0} {m : Act S E A} {f : A → Act S E B} (M : A → S → Type 0)
      {Q : B → S → Type 0}
      → Ensures P m M X
      → ((a : A) → Ensures (M a) (f a) Q X)
      → Ensures P (m >>= f) Q X
  unfolding ◌>>=◌
  Ensures-bind {m} {f} M h k = record { at = λ s p. next-Post (m s) f (h.at s p) k }

  pub Ensures-seq :
      {B : Type 0} {P : S → Type 0} {m : Act S E (Unit {0})} {n : Act S E B} (M : S → Type 0)
      {Q : B → S → Type 0}
      → Ensures P m (λ _. M) X
      → Ensures M n Q X
      → Ensures P (m >> n) Q X
  unfolding ◌>>◌
  Ensures-seq M h k = record { at = (Ensures-bind (λ _. M) h (λ _. k)).at }

  -- The state is at hand for the choice of the rule.
  pub Ensures-gets :
      {A B : Type 0} {P : S → Type 0} (g : S → A) {f : A → Act S E B} {Q : B → S → Type 0}
      → ((a : A) → Ensures (λ s. P s × (g s ≡ a)) (f a) Q X)
      → Ensures P (gets g >>= f) Q X
  unfolding gets ◌>>=◌
  Ensures-gets g k = record { at = λ s p. (k (g s)).at s (p, refl) }

  pub Ensures-weaken :
      {A : Type 0} {P P' : S → Type 0} {m : Act S E A} {Q : A → S → Type 0}
      → ((s : S) → P' s → P s)
      → Ensures P m Q X
      → Ensures P' m Q X
  Ensures-weaken w h = record { at = λ s p. h.at s (w s p) }

  pub Ensures-if :
      {A : Type 0} {P : S → Type 0} (b : Bool) {m n : Act S E A} {Q : A → S → Type 0}
      → (b ≡ true → Ensures P m Q X)
      → (b ≡ false → Ensures P n Q X)
      → Ensures P (if b then m else n) Q X
  Ensures-if true h k = h refl
  Ensures-if false h k = k refl

  pub Ensures-lift :
      {A B : Type 0} {P : S → Type 0} (r : Result E A) {f : A → Act S E B} {Q : B → S → Type 0}
      → ((a : A) → r ≡ ok a → Ensures P (f a) Q X)
      → ((e : E) → r ≡ err e → (s : S) → P s → X s)
      → Ensures P (lift r >>= f) Q X
  unfolding lift ◌>>=◌
  Ensures-lift (ok a) h k = record { at = λ s p. (h a refl).at s p }
  Ensures-lift (err e) h k = record { at = λ s p. k e refl s p }

  pub Ensures-return :
      {A : Type 0} {P : S → Type 0} (r : Result E A) {Q : A → S → Type 0}
      → ((a : A) → r ≡ ok a → (s : S) → P s → Q a s)
      → ((s : S) → P s → X s)
      → Ensures P (lift r) Q X
  unfolding lift
  Ensures-return (ok a) h k = record { at = h a refl }
  Ensures-return (err e) h k = record { at = k }

  pub Ensures-conclude :
      {A : Type 0} {P : S → Type 0} {m : Act S E A} {Q Q' : A → S → Type 0}
      → Ensures P m Q X
      → ((a : A) (s : S) → Q a s → Q' a s)
      → Ensures P m Q' X
  Ensures-conclude {m} h k = record { at = λ s p. concluded (m s) (h.at s p) k }
    where
      concluded :
          {A : Type 0} {Q Q' : A → S → Type 0} (r : Result E A × S)
          → Post Q X r
          → ((a : A) (s : S) → Q a s → Q' a s)
          → Post Q' X r
      concluded (ok a, s) q k = k a s q
      concluded (err e, s) q k = q

  -- A fact that the precondition gives, for the choice of the rule.
  pub Ensures-fact :
      {A F : Type 0} {P : S → Type 0} {m : Act S E A} {Q : A → S → Type 0}
      → ((s : S) → P s → F)
      → (F → Ensures P m Q X)
      → Ensures P m Q X
  Ensures-fact f k = record { at = λ s p. (k (f s p)).at s p }

module _ {S E : Type 0} {X X' : S → Type 0} where
  pub Ensures-relax :
      {A : Type 0} {P : S → Type 0} {Q : A → S → Type 0} {m : Act S E A}
      → ((s : S) → X s → X' s)
      → Ensures P m Q X
      → Ensures P m Q X'
  Ensures-relax {Q} {m} f h = record { at = λ s p. relaxed Q (m s) (h.at s p) f }
    where
      relaxed :
          {A : Type 0} (Q : A → S → Type 0) (r : Result E A × S)
          → Post Q X r
          → ((s : S) → X s → X' s)
          → Post Q X' r
      relaxed Q (ok a, s) q f = q
      relaxed Q (err e, s) q f = f s q
