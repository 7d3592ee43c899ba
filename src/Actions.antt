-- ===== src/Actions.antt =====
-- Code that changes a state and may fail, where a failure leaves the state as it is by then: methods
-- with a pointer receiver that return an `error`.
pub mod Triples
use openvpn_docker.Prelude.{Bool, true, false, Result, ok, err}

abbrev pub Act : Type 0 → Type 0 → Type 0 → Type 0
Act S E A = S → Result E A × S

module _ {S E : Type 0} where
  abbrev pub next_act : {A B : Type 0} → Result E A → (A → Act S E B) → Act S E B
  next_act (ok a) f s = f a s
  next_act (err e) f s = (err e, s)

  unfoldable pub pure : {A : Type 0} → A → Act S E A
  pure a s = (ok a, s)

  unfoldable pub fail : {A : Type 0} → E → Act S E A
  fail e s = (err e, s)

  unfoldable pub lift : {A : Type 0} → Result E A → Act S E A
  lift r s = (r, s)

  unfoldable pub gets : {A : Type 0} → (S → A) → Act S E A
  gets f s = (ok (f s), s)

  unfoldable pub modify : (S → S) → Act S E (Unit {0})
  modify f s = (ok tt, f s)

  infixl 5 ◌>>=◌ ◌>>◌
  unfoldable pub ◌>>=◌ : {A B : Type 0} → Act S E A → (A → Act S E B) → Act S E B
  ◌>>=◌ m f s = let (r, s') = m s in next_act r f s'

  unfoldable pub ◌>>◌ : {B : Type 0} → Act S E (Unit {0}) → Act S E B → Act S E B
  unfolding ◌>>=◌
  m >> n = m >>= λ _. n
