-- ===== src/Manager/Rules.antt =====
-- Rules for processes: what a process keeps however it ends, and what it ensures where it goes on.
use turtles_etcd_restore.Base.{◌≡◌, refl, sym, String}
use mathlib.Core.Path.{subst}
use turtles_etcd_restore.Go.Outcome.{
  M, Outcome, ok, err, panic, pure, on_err, continue, ◌>>=◌ as ◌and_then◌,
}
use turtles_etcd_restore.Go.Rules.{Leaves, Ensures}
use turtles_etcd_restore.Manager.Framework.{
  Process, Run, goes_on, exits, or_exit, or_panic, after, exit_on_err, must, return, ◌>>=◌,
}

-- From a state with `P`, `m` leaves one with `Q`, however it ends, and ensures `R` where it goes on.
pub record Runs {S A : Type 0} (P : S → Type 0) (m : Process S A) (Q : S → Type 0)
    (R : A → S → Type 0) : Type 0 where
  pub leaves : (s : S) → P s → Q (m s).1
  pub ensures : (s : S) → P s → (a : A) → (m s).0 ≡ goes_on a → R a (m s).1

or_exit-eq_goes_on : {A : Type 0} (r : Outcome A) {a : A} → or_exit r ≡ goes_on a → r ≡ ok a
or_exit-eq_goes_on (ok a) h = cc
or_exit-eq_goes_on (err e) h = cc
or_exit-eq_goes_on panic h = cc

or_panic-eq_goes_on : {A : Type 0} (r : Outcome A) {a : A} → or_panic r ≡ goes_on a → r ≡ ok a
or_panic-eq_goes_on (ok a) h = cc
or_panic-eq_goes_on (err e) h = cc
or_panic-eq_goes_on panic h = cc

module _ {S A : Type 0} {P Q : S → Type 0} where
  pub Runs-return : (a : A) → ((s : S) → P s → Q s) → Runs P (return a) Q (λ b s. P s)
  unfolding return
  Runs-return a k = record { leaves = k; ensures = λ s h b e. h }

  pub Runs-exit_on_err :
      {R : A → S → Type 0} (m : M S A) → Leaves P m Q → Ensures P m R → Runs P (exit_on_err m) Q R
  unfolding exit_on_err
  Runs-exit_on_err m k l = record {
    leaves = k.at;
    ensures = λ s h a e. l.at s h a (or_exit-eq_goes_on (m s).0 e);
  }

  pub Runs-must :
      {R : A → S → Type 0} (m : M S A) → Leaves P m Q → Ensures P m R → Runs P (must m) Q R
  unfolding must
  Runs-must m k l = record {
    leaves = k.at;
    ensures = λ s h a e. l.at s h a (or_panic-eq_goes_on (m s).0 e);
  }

module _ {S A B : Type 0} {Q : S → Type 0} {R : A → S → Type 0} {T : B → S → Type 0} where
  leaves_after :
      (r : Run A) (g : A → Process S B) (s : S)
      → Q s
      → ((a : A) → r ≡ goes_on a → R a s)
      → ((a : A) → Runs (R a) (g a) Q T)
      → Q (after r g s).1
  leaves_after (goes_on a) g s h k l = (l a).leaves s (k a refl)
  leaves_after (exits code) g s h k l = h

  ensures_after :
      (r : Run A) (g : A → Process S B) (s : S)
      → ((a : A) → r ≡ goes_on a → R a s)
      → ((a : A) → Runs (R a) (g a) Q T)
      → (b : B) → (after r g s).0 ≡ goes_on b
      → T b (after r g s).1
  ensures_after (goes_on a) g s k l b e = (l a).ensures s (k a refl) b e
  ensures_after (exits code) g s k l b e = cc

  pub Runs-bind :
      {P : S → Type 0} (m : Process S A) (g : A → Process S B)
      → Runs P m Q R
      → ((a : A) → Runs (R a) (g a) Q T)
      → Runs P (m >>= g) Q T
  unfolding ◌>>=◌
  Runs-bind m g k l = record {
    leaves = λ s h. leaves_after (m s).0 g (m s).1 (k.leaves s h) (k.ensures s h) l;
    ensures = λ s h b e. ensures_after (m s).0 g (m s).1 (k.ensures s h) l b e;
  }

-- From every state `m` goes on.
abbrev pub Goes : {S A : Type 0} → Process S A → Type 0
Goes {S} {A} m = (s : S) → (a : A) × ((m s).0 ≡ goes_on a)

-- From every state `m` ends in `r`.
abbrev pub Ends : {S A : Type 0} → Process S A → Run A → Type 0
Ends {S} m r = (s : S) → (m s).0 ≡ r

-- From every state the call `m` succeeds.
abbrev pub Succeeds : {S A : Type 0} → M S A → Type 0
Succeeds {S} {A} m = (s : S) → (a : A) × ((m s).0 ≡ ok a)

module _ {S A : Type 0} where
  pub Succeeds-pure : (a : A) → Succeeds (pure {S = S} a)
  unfolding pure
  Succeeds-pure a s = (a, refl)

  pub Succeeds-on_err : (message : String) (m : M S A) → Succeeds m → Succeeds (on_err message m)
  unfolding on_err
  Succeeds-on_err message m k s = let (a, e) = k s in (a, cc)

  pub Goes-exit_on_err : (m : M S A) → Succeeds m → Goes (exit_on_err m)
  unfolding exit_on_err
  Goes-exit_on_err m k s = let (a, e) = k s in (a, cc)

  pub Goes-return : (a : A) → Goes (return {S = S} a)
  unfolding return
  Goes-return a s = (a, refl)

  pub Goes-must : (m : M S A) → Succeeds m → Goes (must m)
  unfolding must
  Goes-must m k s = let (a, e) = k s in (a, cc)

module _ {S A B : Type 0} where
  pub Ends-bind :
      {r : Run B} (m : Process S A) (g : A → Process S B)
      → Goes m
      → ((a : A) → Ends (g a) r)
      → Ends (m >>= g) r
  unfolding ◌>>=◌
  Ends-bind {r} m g k l s =
      let (a, e) = k s in subst (λ x. (after x g (m s).1).0 ≡ r) (sym e) (l a (m s).1)

  pub Goes-bind :
      (m : Process S A) (g : A → Process S B) → Goes m → ((a : A) → Goes (g a)) → Goes (m >>= g)
  unfolding ◌>>=◌
  Goes-bind m g k l s =
      let (a, e) = k s in
      subst (λ x. (b : B) × ((after x g (m s).1).0 ≡ goes_on b)) (sym e) (l a (m s).1)

  pub Succeeds-bind :
      (m : M S A) (g : A → M S B)
      → Succeeds m
      → ((a : A) → Succeeds (g a))
      → Succeeds (m and_then g)
  unfolding ◌and_then◌
  Succeeds-bind m g k l s =
      let (a, e) = k s in
      subst (λ x. (b : B) × ((continue x g (m s).1).0 ≡ ok b)) (sym e) (l a (m s).1)
