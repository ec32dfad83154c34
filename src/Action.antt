-- ===== src/Action.antt =====
-- Set-up code with early returns: a step changes the state and returns a value, or fails (`return false`,
-- an abort) with the state as far as it came. The state holds what the process asked of the kernel and
-- of the libraries, the latest call first; what they answer is the environment's.
use mathlib.Core.Bool.{Bool, true, false}
use mathlib.Core.Path.{◌≡◌, refl, ap}
use mathlib.Core.Option.{Option, none, some, some-injective, none-ne-some}
use abtrda.Prelude.{if◌then◌else◌}

abbrev pub Action : Type 0 → Type 0 → Type 0
Action S A = S → Option A × S

-- What follows a step that ended so.
abbrev pub follow : {S A B : Type 0} → (A → Action S B) → Option A × S → Option B × S
follow f (some a, t) = f a t
follow f (none, t) = (none, t)

pub follow-some :
    {S A B : Type 0} (f : A → Action S B) (r : Option A × S) (a : A)
    → r.0 ≡ some a
    → follow f r ≡ f a r.1
follow-some f (some b, t) a e = ap (λ x. f x t) (some-injective _ _ e)
follow-some f (none, t) a e = absurd (none-ne-some a e)

infixl 5 ◌>>=◌ ◌>>◌
unfoldable pub ◌>>=◌ : {S A B : Type 0} → Action S A → (A → Action S B) → Action S B
◌>>=◌ m f s = follow f (m s)

abbrev pub ◌>>◌ : {S A B : Type 0} → Action S A → Action S B → Action S B
m >> k = m >>= λ _. k

module _ {S : Type 0} where
  abbrev pub pure : {A : Type 0} → A → Action S A
  pure a s = (some a, s)

  abbrev pub fail : {A : Type 0} → Action S A
  fail s = (none, s)

  abbrev pub gets : {A : Type 0} → (S → A) → Action S A
  gets f s = (some (f s), s)

  abbrev pub modify : (S → S) → Action S (Unit {0})
  modify f s = (some tt, f s)

  abbrev pub guard : Bool → Action S (Unit {0})
  guard b = if b then pure tt else fail

  -- A step whose failure is passed over.
  abbrev pub attempt : {A : Type 0} → Action S A → Action S (Unit {0})
  attempt m s = (some tt, (m s).1)

  abbrev pub when : Bool → Action S (Unit {0}) → Action S (Unit {0})
  when b m = if b then m else pure tt

  abbrev outcome : {A : Type 0} → Option A × S → Option Bool × S
  outcome (some a, t) = (some true, t)
  outcome (none, t) = (some false, t)

  -- Whether the step succeeded.
  abbrev pub succeeds : {A : Type 0} → Action S A → Action S Bool
  succeeds m s = outcome (m s)

-- What an action keeps, whichever way it ends.
pub record Keeps {S : Type 0} (P : S → Type 0) {A : Type 0} (m : Action S A) : Type 0 where
  pub kept : (s : S) → P s → P (m s).1

module _ {S : Type 0} (P : S → Type 0) where
  Keeps-follow :
      {A B : Type 0} (f : A → Action S B)
      → ((a : A) → Keeps P (f a))
      → (r : Option A × S) → P r.1
      → P (follow f r).1
  Keeps-follow f k (some a, t) p = (k a).kept t p
  Keeps-follow f k (none, t) p = p

  pub Keeps-bind :
      {A B : Type 0} {m : Action S A} {f : A → Action S B}
      → Keeps P m
      → ((a : A) → Keeps P (f a))
      → Keeps P (m >>= f)
  unfolding ◌>>=◌
  Keeps-bind {m = m} {f = f} h k = record { kept = λ s p. Keeps-follow f k (m s) (h.kept s p) }

  pub Keeps-pure : {A : Type 0} (a : A) → Keeps P (pure a)
  Keeps-pure a = record { kept = λ s p. p }

  pub Keeps-if :
      {A : Type 0} (b : Bool) {m k : Action S A}
      → Keeps P m
      → Keeps P k
      → Keeps P (if b then m else k)
  Keeps-if true h j = h
  Keeps-if false h j = j

-- What holds when an action succeeds.
pub record Gives {S : Type 0} (P : S → Type 0) {A : Type 0} (m : Action S A) (Q : S → Type 0)
    : Type 0 where
  pub given : (s : S) → P s → (a : A) → (m s).0 ≡ some a → Q (m s).1

pub Gives-kept :
    {S : Type 0} {P : S → Type 0} {A : Type 0} {m : Action S A} → Keeps P m → Gives P m P
Gives-kept h = record { given = λ s p a e. h.kept s p }

module _ {S : Type 0} {P Q : S → Type 0} where
  Gives-follow :
      {A B : Type 0} (f : A → Action S B)
      → ((a : A) → Gives P (f a) Q)
      → (r : Option A × S) → ((a : A) → r.0 ≡ some a → P r.1)
      → (b : B) → (follow f r).0 ≡ some b
      → Q (follow f r).1
  Gives-follow f k (some a, t) p b e = (k a).given t (p a refl) b e
  Gives-follow f k (none, t) p b e = absurd (none-ne-some b e)

pub Gives-bind :
    {S : Type 0} {P R Q : S → Type 0} {A B : Type 0} {m : Action S A} {f : A → Action S B}
    → Gives P m R
    → ((a : A) → Gives R (f a) Q)
    → Gives P (m >>= f) Q
unfolding ◌>>=◌
Gives-bind {m = m} {f = f} h k = record {
  given = λ s p b e. Gives-follow f k (m s) (h.given s p) b e;
}

Gives-value :
    {S : Type 0} {Q : S → Type 0} {A B : Type 0} (R : A → S → Type 0) (f : A → Action S B)
    → ((a : A) → Gives (R a) (f a) Q)
    → (r : Option A × S) → ((a : A) → r.0 ≡ some a → R a r.1)
    → (b : B) → (follow f r).0 ≡ some b
    → Q (follow f r).1
Gives-value R f k (some a, t) p b e = (k a).given t (p a refl) b e
Gives-value R f k (none, t) p b e = absurd (none-ne-some b e)

-- What follows may depend on the value.
pub Gives-each :
    {S : Type 0} {P Q : S → Type 0} {A B : Type 0} (R : A → S → Type 0) {m : Action S A}
    {f : A → Action S B}
    → ((s : S) → P s → (a : A) → (m s).0 ≡ some a → R a (m s).1)
    → ((a : A) → Gives (R a) (f a) Q)
    → Gives P (m >>= f) Q
unfolding ◌>>=◌
Gives-each R {m = m} {f = f} h k = record { given = λ s p b e. Gives-value R f k (m s) (h s p) b e }

-- An action that never fails.
pub record Succeeds {S : Type 0} {A : Type 0} (m : Action S A) : Type 0 where
  pub value : (s : S) → (a : A) × ((m s).0 ≡ some a)

module _ {S : Type 0} where
  Succeeds-follow :
      {A B : Type 0} (f : A → Action S B)
      → ((a : A) → Succeeds (f a))
      → (r : Option A × S) → (a : A) × (r.0 ≡ some a)
      → (b : B) × ((follow f r).0 ≡ some b)
  Succeeds-follow f k (some a, t) q = (k a).value t
  Succeeds-follow f k (none, t) q = absurd (none-ne-some q.0 q.1)

  pub Succeeds-bind :
      {A B : Type 0} {m : Action S A} {f : A → Action S B}
      → Succeeds m
      → ((a : A) → Succeeds (f a))
      → Succeeds (m >>= f)
  unfolding ◌>>=◌
  Succeeds-bind {m = m} {f = f} h k = record { value = λ s. Succeeds-follow f k (m s) (h.value s) }

  pub Succeeds-if :
      {A : Type 0} (b : Bool) {m k : Action S A}
      → Succeeds m
      → Succeeds k
      → Succeeds (if b then m else k)
  Succeeds-if true h j = h
  Succeeds-if false h j = j

  pub Succeeds-value :
      {A : Type 0} (f : S → A) (g : S → S) → Succeeds {S = S} (λ s. (some (f s), g s))
  Succeeds-value f g = record { value = λ s. (f s, refl) }

module _ {S : Type 0} {A : Type 0} {m : Action S A} where
  pub Gives-weaken : {P R Q : S → Type 0} → ((s : S) → P s → R s) → Gives R m Q → Gives P m Q
  Gives-weaken l h = record { given = λ s p a e. h.given s (l s p) a e }

  pub Gives-then : {P R Q : S → Type 0} → ((s : S) → R s → Q s) → Gives P m R → Gives P m Q
  Gives-then l h = record { given = λ s p a e. l _ (h.given s p a e) }
