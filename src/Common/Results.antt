-- ===== src/Common/Results.antt =====
-- `Result<A, E>` with `?` as bind.
use mathlib.Core.Path.{◌≡◌, refl, subst}
use mathlib.Core.Logic.{◌⊎◌, inl, inr}
use mathlib.Core.Option.{Option, none, some}
use mathlib.Core.List.{List, [], ◌∷◌}
use mathlib.Core.Bool.{Bool, true, false}
use superquery_node.Common.Lists.{All}

pub data Result {ℓ κ} (E : Type κ) (A : Type ℓ) : Type (ℓ ⊔ κ) where
  err : E → Result E A
  ok : A → Result E A

module _ {κ} {E : Type κ} where
  -- An early return of `error` unless the test holds.
  abbrev pub ensure : Bool → E → Result E (Unit {0})
  ensure false error = err error
  ensure true error = ok tt

  infixl 5 ◌>>=◌ ◌>>◌
  abbrev pub ◌>>=◌ {ℓ μ} : {A : Type ℓ} {B : Type μ} → Result E A → (A → Result E B) → Result E B
  err error >>= next = err error
  ok value >>= next = next value

  abbrev pub ◌>>◌ {μ} : {B : Type μ} → Result E (Unit {0}) → Result E B → Result E B
  first >> second = first >>= λ _. second

  -- `ok_or`
  abbrev pub ok_or {ℓ} : {A : Type ℓ} → E → Option A → Result E A
  ok_or error none = err error
  ok_or error (some value) = ok value

  -- `map_err`
  abbrev pub map_err {ℓ ν} : {F : Type ν} {A : Type ℓ} → (E → F) → Result E A → Result F A
  map_err f (ok value) = ok value
  map_err f (err error) = err (f error)

  -- `collect::<Result<Vec<_>>>` of a fallible map: the first error wins.
  abbrev pub map_m {ℓ μ} : {A : Type ℓ} {B : Type μ} → (A → Result E B) → List A → Result E (List B)
  map_m f [] = ok []
  map_m f (x ∷ xs) = f x >>= λ y. map_m f xs >>= λ ys. ok (y ∷ ys)

  pub Result-cases {ℓ} :
      {A : Type ℓ} (r : Result E A)
      → ((value : A) × (r ≡ ok value)) ⊎ ((error : E) × (r ≡ err error))
  Result-cases (err error) = inr (error, refl)
  Result-cases (ok value) = inl (value, refl)

  -- A chain that succeeds has a first step that does.
  pub >>=-eq-ok {ℓ μ} :
      {A : Type ℓ} {B : Type μ} (step : Result E A) (next : A → Result E B) {result : B}
      → step >>= next ≡ ok result
      → (value : A) × (step ≡ ok value) × (next value ≡ ok result)
  >>=-eq-ok (err error) next e = cc
  >>=-eq-ok (ok value) next e = (value, refl, e)

  pub ok-injective {ℓ} : {A : Type ℓ} {x y : A} → ◌≡◌ {A = Result E A} (ok x) (ok y) → x ≡ y
  ok-injective e = cc

  pub ok_or-eq-ok {ℓ} :
      {A : Type ℓ} (error : E) (o : Option A) {value : A}
      → ok_or error o ≡ ok value
      → o ≡ some value
  ok_or-eq-ok error none e = cc
  ok_or-eq-ok error (some a) e = cc

  pub ensure-eq-ok : (test : Bool) (error : E) {u : Unit} → ensure test error ≡ ok u → test ≡ true
  ensure-eq-ok true error e = refl
  ensure-eq-ok false error e = cc

  -- What each step of a fallible map yields.
  pub map_m-All {ℓ μ ν} :
      {A : Type ℓ} {B : Type μ} (P : B → Type ν) (f : A → Result E B) (xs : List A) {ys : List B}
      → ((a : A) (b : B) → f a ≡ ok b → P b)
      → map_m f xs ≡ ok ys
      → All P ys
  map_m-All P f [] {ys} each e = subst (λ r. All P r) (ok-injective e) tt
  map_m-All P f (x ∷ xs) {ys} each e =
      let (y, here, next) = >>=-eq-ok (f x) _ e in
      let (rest, there, last) = >>=-eq-ok (map_m f xs) _ next in
      subst (λ r. All P r) (ok-injective last) (each x y here, map_m-All P f xs each there)

  abbrev pub IsOk {ℓ} : {A : Type ℓ} → Result E A → Type (ℓ ⊔ κ)
  IsOk {A} r = (value : A) × (r ≡ ok value)

  pub ok-IsOk {ℓ} : {A : Type ℓ} (value : A) → IsOk {A = A} (ok value)
  ok-IsOk value = (value, refl)

  pub >>=-IsOk {ℓ μ} :
      {A : Type ℓ} {B : Type μ} (step : Result E A) (next : A → Result E B)
      → IsOk step
      → ((value : A) → IsOk (next value))
      → IsOk (step >>= next)
  >>=-IsOk (err error) next (value, e) then_ok = cc
  >>=-IsOk (ok value) next first then_ok = then_ok value
