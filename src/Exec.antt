-- ===== src/Exec.antt =====
-- Handlers: code that changes the state of the plugin and ends in an outcome. What was written
-- before an error or a panic stays written.
use vault_plugin_aead.Prelude.{Outcome, ok, err, panic, Error, ◌≡◌, ◌≢◌, refl, ap, ◌∙◌}
use vault_plugin_aead.Prelude.{◌>>=◌ as bind}

abbrev pub Exec {ℓ} : Type ℓ → Type 0 → Type ℓ
Exec S A = S → Outcome A × S

-- if err != nil { panic(err) }
abbrev pub panic_on : {A : Type 0} → Outcome A → Outcome A
panic_on (ok a) = ok a
panic_on (err e) = panic
panic_on panic = panic

module _ {ℓ} {S : Type ℓ} {A : Type 0} where
  abbrev pub pure : A → Exec S A
  pure a s = (ok a, s)

  abbrev pub raise : Error → Exec S A
  raise e s = (err e, s)

  abbrev pub crash : Exec S A
  crash s = (panic, s)

  abbrev pub lift : Outcome A → Exec S A
  lift o s = (o, s)

  abbrev pub gets : (S → A) → Exec S A
  gets f s = (ok (f s), s)

  abbrev pub or_panic : Exec S A → Exec S A
  or_panic m s = (panic_on (m s).0, (m s).1)

module _ {ℓ} {S : Type ℓ} {A B : Type 0} where
  abbrev pub continue : Outcome A → (A → Exec S B) → Exec S B
  continue (ok a) f s = f a s
  continue (err e) f s = (err e, s)
  continue panic f s = (panic, s)

  infixl 5 ◌>>=◌ ◌>>◌
  abbrev pub ◌>>=◌ : Exec S A → (A → Exec S B) → Exec S B
  ◌>>=◌ m f s = continue (m s).0 f (m s).1

  abbrev pub ◌>>◌ : Exec S A → Exec S B → Exec S B
  m >> n = m >>= λ _. n

abbrev pub modify {ℓ} : {S : Type ℓ} → (S → S) → Exec S (Unit {0})
modify f s = (ok tt, f s)

pub err-ne-ok : {A : Type 0} {e : Error} {a : A} → err e ≢ ok a
err-ne-ok h = cc

pub panic-ne-ok : {A : Type 0} {a : A} → ◌≢◌ {A = Outcome A} panic (ok a)
panic-ne-ok h = cc

-- Inversion of a bind that succeeds.
module _ {ℓ} {S : Type ℓ} {A B : Type 0} where
  continue-eq-ok :
      (o : Outcome A) (f : A → Exec S B) (s : S) {b : B} {s' : S}
      → continue o f s ≡ (ok b, s')
      → (a : A) × (o ≡ ok a) × (f a s ≡ (ok b, s'))
  continue-eq-ok (ok a) f s h = (a, refl, h)
  continue-eq-ok (err e) f s {b} h = absurd (err-ne-ok (ap (λ r. r.0) h))
  continue-eq-ok panic f s h = absurd (panic-ne-ok (ap (λ r. r.0) h))

  pub bind-eq-ok :
      (m : Exec S A) (f : A → Exec S B) (s : S) {b : B} {s' : S}
      → (m >>= f) s ≡ (ok b, s')
      → (a : A) × ((m s).0 ≡ ok a) × (f a (m s).1 ≡ (ok b, s'))
  bind-eq-ok m f s h = continue-eq-ok (m s).0 f (m s).1 h

-- A bind whose rest leaves the state alone is a bind of outcomes.
module _ {ℓ} {S : Type ℓ} {A B : Type 0} where
  pub continue_still :
      (o : Outcome A) (f : A → Exec S B) (g : A → Outcome B) (s : S)
      → ((a : A) → f a s ≡ (g a, s))
      → continue o f s ≡ (bind o g, s)
  continue_still (ok a) f g s h = h a
  continue_still (err e) f g s h = refl
  continue_still panic f g s h = refl

  pub bind_still :
      (m : Exec S A) (o : Outcome A) (f : A → Exec S B) (g : A → Outcome B) (s : S)
      → m s ≡ (o, s)
      → ((a : A) → f a s ≡ (g a, s))
      → (m >>= f) s ≡ (bind o g, s)
  bind_still m o f g s e h = ap (λ r. continue r.0 f r.1) e ∙ continue_still o f g s h
