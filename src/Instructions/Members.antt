-- ===== src/Instructions/Members.antt =====
-- The members of an instruction's JSON object, and that their texts are told apart.
use turtles_etcd_restore.Base.{
  ℕ, arith, some, String, ◌≡◌, ◌≢◌, refl, sym, ap, ◌∙◌, List, [], ◌∷◌, ◌++◌,
}
use mathlib.Core.List.{append_assoc}
use turtles_etcd_restore.Go.Bytes.{Bytes, bytes}
use turtles_etcd_restore.Instructions.Json.{quoted, separated, each, member, array}
use turtles_etcd_restore.Instructions.RoundTrip.{unquote, unquote-quoted, codes-inj}

-- A text that is printed by `f`, followed by any other, is printed of one thing only.
abbrev pub Readable {ℓ} : {A : Type ℓ} → (A → Bytes) → Type ℓ
Readable {A} f = (a b : A) (xs ys : Bytes) → f a ++ xs ≡ f b ++ ys → (a ≡ b) × (xs ≡ ys)

-- No text that `f` prints begins with a closing bracket.
abbrev pub Opens {ℓ} : {A : Type ℓ} → ℕ → (A → Bytes) → Type ℓ
Opens {A} close f = (a : A) (xs ys : Bytes) → f a ++ xs ≢ close ∷ ys

abbrev head_or : Bytes → ℕ
head_or [] = 0
head_or (x ∷ xs) = x

abbrev rest_of : Bytes → Bytes
rest_of [] = []
rest_of (x ∷ xs) = xs

module _ {A : Type 0} (f : A → Bytes) (close : ℕ) (read : Readable f) (opens : Opens close f)
    (comma : b',' ≢ close) where
  -- A list that a closing bracket follows.
  pub separated-Readable :
      (more bs : List A) (xs ys : Bytes)
      → separated (each f more) ++ (close ∷ xs) ≡ separated (each f bs) ++ (close ∷ ys)
      → (more ≡ bs) × (xs ≡ ys)
  unfolding separated
  separated-Readable [] [] xs ys e = (refl, ap rest_of e)
  separated-Readable [] (b ∷ []) xs ys e = absurd (opens b _ _ (sym e))
  separated-Readable [] (b ∷ b' ∷ bs) xs ys e =
      absurd (opens b _ _ (sym (e ∙ append_assoc (f b) _ _)))
  separated-Readable (a ∷ []) [] xs ys e = absurd (opens a _ _ e)
  separated-Readable (a ∷ a' ∷ more) [] xs ys e =
      absurd (opens a _ _ (sym (append_assoc (f a) _ _) ∙ e))
  separated-Readable (a ∷ []) (b ∷ []) xs ys e = let (p, q) = read a b _ _ e in (cc p, ap rest_of q)
  separated-Readable (a ∷ []) (b ∷ b' ∷ bs) xs ys e =
      let (p, q) = read a b _ _ (e ∙ append_assoc (f b) _ _) in absurd (comma (ap head_or (sym q)))
  separated-Readable (a ∷ a' ∷ more) (b ∷ []) xs ys e =
      let (p, q) = read a b _ _ (sym (append_assoc (f a) _ _) ∙ e) in absurd (comma (ap head_or q))
  separated-Readable (a ∷ a' ∷ more) (b ∷ b' ∷ bs) xs ys e =
      let (p, q) = read a b _ _ (sym (append_assoc (f a) _ _) ∙ e ∙ append_assoc (f b) _ _) in
      let (r, t) = separated-Readable (a' ∷ more) (b' ∷ bs) xs ys (ap rest_of q) in (cc (p, r), t)

some-inj : {A B : Type 0} {p q : A × B} → some p ≡ some q → (p.0 ≡ q.0) × (p.1 ≡ q.1)
some-inj e = (cc e, cc e)

pub quoted-Readable : Readable quoted
quoted-Readable a b xs ys e =
    let (p, q) =
      some-inj (sym (unquote-quoted a xs) ∙ ap (λ l. unquote l) e ∙ unquote-quoted b ys) in
    (codes-inj a b p, q)

quoted-Opens : Opens b']' quoted
unfolding quoted
quoted-Opens a xs ys e = absurd (omega (arith, ap head_or e))

array-Readable : Readable (λ (l : List String). array (each quoted l))
unfolding array
array-Readable a b xs ys e =
    let split =
      λ (l : List String) (zs : Bytes). append_assoc (separated (each quoted l)) (b']' ∷ []) zs in
    separated-Readable quoted b']' quoted-Readable quoted-Opens (λ h. absurd (omega (arith, h))) a b
      xs ys (sym (split a xs) ∙ ap rest_of e ∙ split b ys)

-- What the members of the object of an instruction hold.
pub data Payload : Type 0 where
  text : String → Payload
  texts : List String → Payload
  yes : Payload

unfoldable pub payload_json : Payload → Bytes
unfolding quoted array bytes
payload_json (text s) = quoted s
payload_json (texts l) = array (each quoted l)
payload_json yes = bytes "true"

payload-Readable : Readable payload_json
unfolding payload_json
payload-Readable (text s) (text t) xs ys e =
    let (p, q) = quoted-Readable s t xs ys e in (ap text p, q)
payload-Readable (texts s) (texts t) xs ys e =
    let (p, q) = array-Readable s t xs ys e in (ap texts p, q)
payload-Readable yes yes xs ys e = (refl, ap (λ l. rest_of (rest_of (rest_of (rest_of l)))) e)
payload-Readable (text s) (texts t) xs ys e = absurd (omega (arith, ap head_or e))
payload-Readable (text s) yes xs ys e = absurd (omega (arith, ap head_or e))
payload-Readable (texts s) (text t) xs ys e = absurd (omega (arith, ap head_or e))
payload-Readable (texts s) yes xs ys e = absurd (omega (arith, ap head_or e))
payload-Readable yes (text t) xs ys e = absurd (omega (arith, ap head_or e))
payload-Readable yes (texts t) xs ys e = absurd (omega (arith, ap head_or e))

pub record Member : Type 0 where
  pub tag : String
  pub payload : Payload

abbrev pub member_json : Member → Bytes
member_json m = member m.tag (payload_json m.payload)

member-Readable : Readable member_json
unfolding member
member-Readable a b xs ys e =
    let split =
      λ (m : Member) (zs : Bytes). append_assoc (quoted m.tag) (b':' ∷ payload_json m.payload) zs in
    let (p, q) = quoted-Readable a.tag b.tag _ _ (sym (split a xs) ∙ e ∙ split b ys) in
    let (r, t) = payload-Readable a.payload b.payload xs ys (ap rest_of q) in
    (λ i. record { tag = p i; payload = r i }, t)

member-Opens : Opens b'}' member_json
unfolding member quoted
member-Opens a xs ys e = absurd (omega (arith, ap head_or e))

-- The members of an object, up to its closing bracket.
pub members-Readable :
    (l k : List Member) (xs ys : Bytes)
    → separated (each member_json l) ++ (b'}' ∷ xs) ≡ separated (each member_json k) ++ (b'}' ∷ ys)
    → (l ≡ k) × (xs ≡ ys)
members-Readable =
    separated-Readable member_json b'}' member-Readable member-Opens
      (λ h. absurd (omega (arith, h)))
