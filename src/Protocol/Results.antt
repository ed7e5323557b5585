-- ===== src/Protocol/Results.antt =====
-- Results of protocol.py taken apart: what a successful chain of checks has checked, and what an
-- error carries.
use mcp_mux_2_0_dev.Base.{
  String, ◌≡◌, refl, subst, ◌⊎◌, inl, Option, none, some, Bool, true, false, arith, if◌then◌else◌,
}
use mcp_mux_2_0_dev.Protocol.{
  ErrorCode, uncaught_value_error, Reason, RequestId, ProtocolRequestError, Result, ok, err, ◌>>=◌,
  ◌>>◌, require, or_fail, Headers, header, non_empty, required_header, validate_ascii_header,
}

-- Each rule hands the rest of a chain what the step before it has found.
module _ {ℓ κ μ} {A : Type ℓ} {B : Type κ} {P : Type μ} {b : B} where
  pub or_fail-bind :
      (o : Option A) (c : ErrorCode) (r : Reason) (id : Option RequestId) (f : A → Result B)
      → (or_fail o c r id >>= f) ≡ ok b
      → ((a : A) → o ≡ some a → f a ≡ ok b → P)
      → P
  or_fail-bind none c r id f h k = cc
  or_fail-bind (some a) c r id f h k = k a refl h

  pub bind-eq-ok :
      (m : Result A) (f : A → Result B)
      → (m >>= f) ≡ ok b
      → ((a : A) → m ≡ ok a → f a ≡ ok b → P)
      → P
  bind-eq-ok (ok a) f h k = k a refl h
  bind-eq-ok (err e) f h k = cc

non_empty-eq-some : (o : Option String) {v : String} → non_empty o ≡ some v → o ≡ some v
non_empty-eq-some none h = h
non_empty-eq-some (some w) h = ground arith

module _ {κ μ} {B : Type κ} {P : Type μ} {b : B} where
  pub require-bind :
      (t : Bool) (c : ErrorCode) (r : Reason) (id : Option RequestId) (k : Result B)
      → (require t c r id >> k) ≡ ok b
      → (t ≡ true → k ≡ ok b → P)
      → P
  require-bind true c r id k h f = f refl h
  require-bind false c r id k h f = cc

  pub required_header-bind :
      (headers : Headers) (name : String) (id : Option RequestId) (f : String → Result B)
      → (required_header headers name id >>= f) ≡ ok b
      → ((v : String) → header headers name ≡ some v → f v ≡ ok b → P)
      → P
  unfolding required_header
  required_header-bind headers name id f h k =
      or_fail-bind (non_empty (header headers name)) _ _ _ f h
        λ v found rest. k v (non_empty-eq-some (header headers name) found) rest

pub require-eq-ok :
    (t : Bool) (c : ErrorCode) (r : Reason) (id : Option RequestId) {u : Unit {0}}
    → require t c r id ≡ ok u
    → t ≡ true
require-eq-ok true c r id h = refl
require-eq-ok false c r id h = cc

-- an error answers the request with this id, and is a client error, or one that nothing catches
abbrev Answers {ℓ} : {A : Type ℓ} → Option RequestId → Result A → Type 0
Answers id (ok a) = Unit {0}
Answers id (err e) = (e.request_id ≡ id) × ((e.status_code ≡ 400) ⊎ (e.code ≡ uncaught_value_error))

pub record Tagged {ℓ} {A : Type ℓ} (id : Option RequestId) (r : Result A) : Type 0 where
  pub answers : Answers id r

module _ {ℓ} {A : Type ℓ} {id : Option RequestId} where
  pub Tagged-ok : (a : A) → Tagged id (ok a)
  Tagged-ok a = record { answers = tt }

  pub Tagged-or_fail : (o : Option A) (c : ErrorCode) (r : Reason) → Tagged id (or_fail o c r id)
  Tagged-or_fail none c r = record { answers = (refl, inl refl) }
  Tagged-or_fail (some a) c r = record { answers = tt }

  pub Tagged-err :
      (r : Result A) (e : ProtocolRequestError)
      → Tagged id r
      → r ≡ err e
      → (e.request_id ≡ id) × ((e.status_code ≡ 400) ⊎ (e.code ≡ uncaught_value_error))
  Tagged-err (ok a) e t h = cc
  Tagged-err (err d) e t h =
      let same : d ≡ e = cc in subst (λ x. Answers {ℓ} {A = A} id (err x)) same t.answers

module _ {id : Option RequestId} where
  pub Tagged-require : (t : Bool) (c : ErrorCode) (r : Reason) → Tagged id (require t c r id)
  Tagged-require true c r = record { answers = tt }
  Tagged-require false c r = record { answers = (refl, inl refl) }

  pub Tagged-required_header :
      (headers : Headers) (name : String) → Tagged id (required_header headers name id)
  unfolding required_header
  Tagged-required_header headers name = Tagged-or_fail _ _ _

  pub Tagged-validate_ascii_header :
      (value name : String) → Tagged id (validate_ascii_header value name id)
  unfolding validate_ascii_header
  Tagged-validate_ascii_header value name = Tagged-require _ _ _

module _ {ℓ} {A : Type ℓ} {id : Option RequestId} where
  pub Tagged-if :
      (t : Bool) (m n : Result A) → Tagged id m → Tagged id n → Tagged id (if t then m else n)
  Tagged-if true m n hm hn = hm
  Tagged-if false m n hm hn = hn

module _ {ℓ κ} {A : Type ℓ} {B : Type κ} {id : Option RequestId} where
  pub Tagged-bind :
      (m : Result A) (f : A → Result B)
      → Tagged id m
      → ((a : A) → Tagged id (f a))
      → Tagged id (m >>= f)
  Tagged-bind (ok a) f t k = k a
  Tagged-bind (err e) f t k = record { answers = t.answers }

pub ruleset tagged_rules = (
  Tagged-ok, Tagged-or_fail, Tagged-require, Tagged-required_header, Tagged-validate_ascii_header,
  Tagged-if, Tagged-bind,
)
