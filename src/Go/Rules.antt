-- ===== src/Go/Rules.antt =====
-- Rules for methods, one for each way to build one: what they keep of the state at every outcome,
-- and what they ensure when they succeed.
use turtles_etcd_restore.Base.{String, ◌≡◌, refl, Bool, true, false, if◌then◌else◌}
use mathlib.Core.Path.{subst}
use turtles_etcd_restore.Go.Outcome.{
  M, Outcome, ok, err, panic, Error, Reply, done, fail, answered, wrapped, continue, pure, raise,
  lift, call, on_err, ◌>>=◌,
}

-- From a state with `P`, `m` leaves one with `Q`, whether it succeeds or not.
pub record Leaves {S A : Type 0} (P : S → Type 0) (m : M S A) (Q : S → Type 0) : Type 0 where
  pub at : (s : S) → P s → Q (m s).1

abbrev pub Keeps : {S A : Type 0} → (S → Type 0) → M S A → Type 0
Keeps P m = Leaves P m P

-- From a state with `P`, a success of `m` ensures `Q` of its result and of the state after it.
pub record Ensures {S A : Type 0} (P : S → Type 0) (m : M S A) (Q : A → S → Type 0) : Type 0 where
  pub at : (s : S) → P s → (a : A) → (m s).0 ≡ ok a → Q a (m s).1

module _ {S A : Type 0} {P : S → Type 0} where
  pub Keeps-pure : (a : A) → Keeps P (pure a)
  unfolding pure
  Keeps-pure a = record { at = λ s h. h }

  pub Keeps-raise : (e : Error) → Keeps P (raise {A = A} e)
  unfolding raise
  Keeps-raise e = record { at = λ s h. h }

  pub Keeps-lift : (r : Outcome A) → Keeps P (lift r)
  unfolding lift
  Keeps-lift r = record { at = λ s h. h }

  pub Keeps-call : (f : S → Reply A × S) → ((s : S) → P s → P (f s).1) → Keeps P (call f)
  unfolding call
  Keeps-call f k = record { at = k }

  pub Leaves-call :
      {Q : S → Type 0} (f : S → Reply A × S) → ((s : S) → P s → Q (f s).1) → Leaves P (call f) Q
  unfolding call
  Leaves-call f k = record { at = k }

  pub Keeps-on_err :
      {Q : S → Type 0} (message : String) (m : M S A) → Leaves P m Q → Leaves P (on_err message m) Q
  unfolding on_err
  Keeps-on_err message m k = record { at = k.at }

  pub Keeps-if : (b : Bool) (m n : M S A) → Keeps P m → Keeps P n → Keeps P (if b then m else n)
  Keeps-if true m n k l = k
  Keeps-if false m n k l = l

  -- A branch, with the equation of its test.
  pub Keeps-cases :
      (b : Bool) (m n : M S A)
      → (b ≡ true → Keeps P m)
      → (b ≡ false → Keeps P n)
      → Keeps P (if b then m else n)
  Keeps-cases true m n k l = k refl
  Keeps-cases false m n k l = l refl

module _ {S A B : Type 0} {P : S → Type 0} where
  Keeps-on : (r : Outcome A) (f : A → M S B) → ((a : A) → Keeps P (f a)) → Keeps P (continue r f)
  Keeps-on (ok a) f k = k a
  Keeps-on (err e) f k = record { at = λ s h. h }
  Keeps-on panic f k = record { at = λ s h. h }

  pub Keeps-bind :
      (m : M S A) (f : A → M S B) → Keeps P m → ((a : A) → Keeps P (f a)) → Keeps P (m >>= f)
  unfolding ◌>>=◌
  Keeps-bind m f k l = record { at = λ s h. (Keeps-on (m s).0 f l).at (m s).1 (k.at s h) }

pub ruleset keeps_rules = (Keeps-pure, Keeps-raise, Keeps-lift, Keeps-on_err, Keeps-bind, Keeps-if)

pub wrapped-eq_ok {ℓ} :
    {A : Type ℓ} (message : String) (r : Outcome A) {a : A} → wrapped message r ≡ ok a → r ≡ ok a
wrapped-eq_ok message (ok a) h = h
wrapped-eq_ok message (err e) h = cc
wrapped-eq_ok message panic h = cc

pub answered-eq_ok {ℓ} : {A : Type ℓ} (r : Reply A) {a : A} → answered r ≡ ok a → r ≡ done a
answered-eq_ok (done a) h = cc
answered-eq_ok (fail e) h = cc

module _ {S A : Type 0} {P : S → Type 0} {Q : A → S → Type 0} where
  pub Ensures-pure : (a : A) → ((s : S) → P s → Q a s) → Ensures P (pure a) Q
  unfolding pure
  Ensures-pure a k = record { at = λ s h b e. subst (λ x. Q x s) (cc) (k s h) }

  pub Ensures-raise : (e : Error) → Ensures P (raise {A = A} e) Q
  unfolding raise
  Ensures-raise e = record { at = λ s h b r. cc }

  pub Ensures-lift :
      (r : Outcome A) → ((a : A) → r ≡ ok a → (s : S) → P s → Q a s) → Ensures P (lift r) Q
  unfolding lift
  Ensures-lift r k = record { at = λ s h b e. k b e s h }

  pub Ensures-call :
      (f : S → Reply A × S)
      → ((s : S) → P s → (a : A) → (f s).0 ≡ done a → Q a (f s).1)
      → Ensures P (call f) Q
  unfolding call
  Ensures-call f k = record { at = λ s h b e. k s h b (answered-eq_ok (f s).0 e) }

  pub Ensures-on_err :
      (message : String) (m : M S A) → Ensures P m Q → Ensures P (on_err message m) Q
  unfolding on_err
  Ensures-on_err message m k = record {
    at = λ s h b e. k.at s h b (wrapped-eq_ok message (m s).0 e);
  }

  -- A branch, with the equation of its test.
  pub Ensures-if :
      (b : Bool) (m n : M S A)
      → (b ≡ true → Ensures P m Q)
      → (b ≡ false → Ensures P n Q)
      → Ensures P (if b then m else n) Q
  Ensures-if true m n k l = k refl
  Ensures-if false m n k l = l refl

module _ {S A B : Type 0} {R : A → S → Type 0} {Q : B → S → Type 0} where
  ensures_on :
      (r : Outcome A) (f : A → M S B) (s : S)
      → ((a : A) → Ensures (R a) (f a) Q)
      → ((a : A) → r ≡ ok a → R a s)
      → (b : B) → (continue r f s).0 ≡ ok b
      → Q b (continue r f s).1
  ensures_on (ok a) f s k h b e = (k a).at s (h a refl) b e
  ensures_on (err x) f s k h b e = cc
  ensures_on panic f s k h b e = cc

  pub Ensures-bind :
      {P : S → Type 0} (m : M S A) (f : A → M S B)
      → Ensures P m R
      → ((a : A) → Ensures (R a) (f a) Q)
      → Ensures P (m >>= f) Q
  unfolding ◌>>=◌
  Ensures-bind m f k l = record { at = λ s h b e. ensures_on (m s).0 f (m s).1 l (k.at s h) b e }

module _ {S A B : Type 0} {Q : S → Type 0} {R : A → S → Type 0} where
  leaves_after :
      (r : Outcome A) (f : A → M S B) (s : S)
      → Q s
      → ((a : A) → r ≡ ok a → R a s)
      → ((a : A) → Leaves (λ t. R a t × Q t) (f a) Q)
      → Q (continue r f s).1
  leaves_after (ok a) f s h k l = (l a).at s (k a refl, h)
  leaves_after (err e) f s h k l = h
  leaves_after panic f s h k l = h

  -- A step that ensures what the next one needs.
  pub Leaves-bind :
      {P : S → Type 0} (m : M S A) (f : A → M S B)
      → Leaves P m Q
      → Ensures P m R
      → ((a : A) → Leaves (λ s. R a s × Q s) (f a) Q)
      → Leaves P (m >>= f) Q
  unfolding ◌>>=◌
  Leaves-bind m f k e l = record {
    at = λ s h. leaves_after (m s).0 f (m s).1 (k.at s h) (e.at s h) l;
  }

module _ {S A : Type 0} {P P' Q : S → Type 0} where
  pub Leaves-of : {m : M S A} → ((s : S) → P' s → P s) → Leaves P m Q → Leaves P' m Q
  Leaves-of weaker k = record { at = λ s h. k.at s (weaker s h) }

module _ {S A : Type 0} {P : S → Type 0} {Q Q' : A → S → Type 0} where
  pub Ensures-of : {m : M S A} → ((a : A) (s : S) → Q a s → Q' a s) → Ensures P m Q → Ensures P m Q'
  Ensures-of weaker k = record { at = λ s h a e. weaker a _ (k.at s h a e) }
