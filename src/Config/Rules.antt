-- ===== src/Config/Rules.antt =====
-- config_loader.py: rules for chains of validators, of which each may refuse.
use mcp_mux_2_0_dev.Base.{
  ◌≡◌, false≢true, refl, ap, subst, Option, none, some, Bool, true, false, is_some,
}
use mcp_mux_2_0_dev.Config.Fields.{◌>>=◌, accept, map_some}

-- what a validator that succeeds has computed
pub bind_some {ℓ κ} :
    {A : Type ℓ} {B : Type κ} (m : Option A) (next : A → Option B) {b : B}
    → (m >>= next) ≡ some b
    → (a : A) × (m ≡ some a) × (next a ≡ some b)
bind_some none next e = cc
bind_some (some a) next e = (a, refl, e)

pub accept-some {ℓ} :
    {A : Type ℓ} (test : Bool) {a b : A} → accept test a ≡ some b → (test ≡ true) × (a ≡ b)
accept-some true e = (refl, cc)
accept-some false e = cc

pub map_some-some {ℓ κ} :
    {A : Type ℓ} {B : Type κ} (f : A → B) (o : Option A) {b : B}
    → map_some f o ≡ some b
    → (a : A) × (o ≡ some a) × (f a ≡ b)
map_some-some f none e = cc
map_some-some f (some a) e = (a, refl, cc)

pub never {ℓ κ} : {A : Type ℓ} {B : Type κ} {a : A} → none ≡ some a → B
never e = absurd (false≢true (ap is_some e))

-- what a validator returns, if it returns, has a property
pub record Ensures {ℓ κ} {A : Type ℓ} (P : A → Type κ) (o : Option A) : Type (ℓ ⊔ κ) where
  pub returned : (a : A) → o ≡ some a → P a

module _ {ℓ κ μ} {A : Type ℓ} {B : Type κ} {P : B → Type μ} where
  pub after :
      (m : Option A) {next : A → Option B}
      → ((a : A) → m ≡ some a → Ensures P (next a))
      → Ensures P (m >>= next)
  after none h = record { returned = λ b e. never e }
  after (some a) h = h a refl

pub if_accepted {ℓ κ} :
    {A : Type ℓ} {P : A → Type κ} (test : Bool) (a : A) → P a → Ensures P (accept test a)
if_accepted {P} test a h = record {
  returned = λ b e. let (ok, same) = accept-some test e in subst P same h;
}

pub returns {ℓ κ} : {A : Type ℓ} {P : A → Type κ} (a : A) → P a → Ensures P (some a)
returns {P} a h = record { returned = λ b e. let same : a ≡ b = cc in subst P same h }
