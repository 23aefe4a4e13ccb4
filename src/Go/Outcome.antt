-- ===== src/Go/Outcome.antt =====
-- What a Go function that may fail comes back with, and methods that work on a state. A nil
-- dereference or a write to a nil map is a panic, which no handler in the program recovers from.
use turtles_etcd_restore.Base.{String, Option, none, some, Bool, true, false}

-- The errors of the API client that the code tells apart, by `apierrors.IsNotFound` and
-- `apierrors.IsAlreadyExists`.
pub data ApiError : Type 0 where
  not_found already_exists conflict : ApiError
  other : String → ApiError

-- `fmt.Errorf` with `%w` is `wrap`, without it `text`; `errorutils.NewAggregate` is `aggregate`;
-- `apierrors.NewBadRequest` is `bad_request`, with the errors whose text ends its message.
mutual
  pub data Error : Type 0 where
    api : ApiError → Error
    text : String → Error
    wrap : String → Error → Error
    aggregate : Errors → Error
    bad_request : String → Errors → Error

  pub data Errors : Type 0 where
    nil : Errors
    cons : Error → Errors → Errors

pub data Outcome {ℓ} (A : Type ℓ) : Type ℓ where
  ok : A → Outcome A
  err : Error → Outcome A
  panic : Outcome A

-- What a call of the API client answers.
pub data Reply {ℓ} (A : Type ℓ) : Type ℓ where
  done : A → Reply A
  fail : ApiError → Reply A

-- `apierrors.IsNotFound`
abbrev pub is_not_found : ApiError → Bool
is_not_found not_found = true
is_not_found _ = false

-- `apierrors.IsAlreadyExists`
abbrev pub is_already_exists : ApiError → Bool
is_already_exists already_exists = true
is_already_exists _ = false

-- A method on the state `S`. What was written before an error stays written.
abbrev pub M : Type 0 → Type 0 → Type 0
M S A = S → Outcome A × S

abbrev pub answered {ℓ} : {A : Type ℓ} → Reply A → Outcome A
answered (done a) = ok a
answered (fail e) = err (api e)

abbrev pub wrapped {ℓ} : {A : Type ℓ} → String → Outcome A → Outcome A
wrapped message (ok a) = ok a
wrapped message (err e) = err (wrap message e)
wrapped message panic = panic

module _ {S A : Type 0} where
  unfoldable pub pure : A → M S A
  pure a s = (ok a, s)

  unfoldable pub raise : Error → M S A
  raise e s = (err e, s)

  unfoldable pub lift : Outcome A → M S A
  lift r s = (r, s)

  -- A call of the client whose error is handed on.
  unfoldable pub call : (S → Reply A × S) → M S A
  call f s = let (r, s') = f s in (answered r, s')

  -- `if err != nil { return fmt.Errorf("message: %w", err) }`
  unfoldable pub on_err : String → M S A → M S A
  on_err message m s = let (r, s') = m s in (wrapped message r, s')

module _ {S A B : Type 0} where
  abbrev pub continue : Outcome A → (A → M S B) → M S B
  continue (ok a) f s = f a s
  continue (err e) f s = (err e, s)
  continue panic f s = (panic, s)

  infixl 5 ◌>>=◌ ◌>>◌
  -- Opening this opens `pure`, `raise`, `lift`, `call` and `on_err` too.
  unfoldable pub ◌>>=◌ : M S A → (A → M S B) → M S B
  unfolding pure raise lift call on_err
  ◌>>=◌ m f s = let (r, s') = m s in continue r f s'

  abbrev pub ◌>>◌ : M S A → M S B → M S B
  m >> k = m >>= λ _. k

-- `*p`, which panics where `p` is nil.
abbrev pub deref {ℓ} : {A : Type ℓ} → Option A → Outcome A
deref none = panic
deref (some a) = ok a
