-- ===== src/Effect/Post.antt =====
-- What holds of the outcome of an action, where it has one; and what an action keeps between the
-- state before it and the state after it, with a rule for each way to build an action.
use skc_library.Base.{
  Bool, true, false, Option, none, some, List, [], ◌∷◌, ◌≡◌, refl, subst, if◌then◌else◌,
}
use skc_library.Types.{GError, Error}
use skc_library.Effect.{Effect, pure, fault, gets, modify, set_error, raise, own_error, ◌>>=◌}

module _ {S A : Type 0} where
  -- `bad` is what is claimed of a fault: `Unit` allows it, `⊥` rules it out.
  unfoldable pub Post : Type 0 → (A → GError → S → Type 0) → Option (A × GError × S) → Type 0
  Post bad P none = bad
  Post bad P (some (x, e, a)) = P x e a

  pub Post_apply :
      (bad : Type 0) (P : A → GError → S → Type 0) (r : Option (A × GError × S)) {x : A}
      {e : GError} {a : S}
      → Post bad P r
      → r ≡ some (x, e, a)
      → P x e a
  unfolding Post
  Post_apply bad P r h eq = subst (Post bad P) eq h

module _ {S A : Type 0} where
  -- An outcome that is no fault is there.
  pub Post-ends :
      (bad : Type 0) (P : A → GError → S → Type 0) (r : Option (A × GError × S))
      → (bad → ⊥)
      → Post bad P r
      → (x : A) × (e : GError) × (a : S) × (r ≡ some (x, e, a)) × P x e a
  unfolding Post
  Post-ends bad P none f h = absurd (f h)
  Post-ends bad P (some (x, e, a)) f h = (x, e, a, refl, h)

  pub Post-weaken :
      (bad bad' : Type 0) (P Q : A → GError → S → Type 0) (r : Option (A × GError × S))
      → (bad → bad')
      → ((x : A) (e : GError) (a : S) → P x e a → Q x e a)
      → Post bad P r
      → Post bad' Q r
  unfolding Post
  Post-weaken bad bad' P Q none f g h = f h
  Post-weaken bad bad' P Q (some (x, e, a)) f g h = g x e a h

  pub Post-both :
      (bad : Type 0) (P Q : A → GError → S → Type 0) (r : Option (A × GError × S))
      → Post bad P r
      → Post bad Q r
      → Post bad (λ x e a. P x e a × Q x e a) r
  unfolding Post
  Post-both bad P Q none h k = h
  Post-both bad P Q (some (x, e, a)) h k = (h, k)

  -- Nothing is claimed.
  pub Post-any : (r : Option (A × GError × S)) → Post (Unit {0}) (λ _ _ _. Unit {0}) r
  unfolding Post
  Post-any none = tt
  Post-any (some (x, e, a)) = tt

  -- A test of which each outcome may be used.
  pub Post-if :
      (bad : Type 0) (P : A → GError → S → Type 0) (t : Bool) (m n : Effect S A) (e : GError)
      (a : S)
      → (t ≡ true → Post bad P (m e a))
      → (t ≡ false → Post bad P (n e a))
      → Post bad P ((if t then m else n) e a)
  Post-if bad P true m n e a h k = h refl
  Post-if bad P false m n e a h k = k refl

  -- A case on an option, either of which may be used.
  pub Post-option :
      {X : Type 0} (bad : Type 0) (P : A → GError → S → Type 0) (o : Option X) (m : Effect S A)
      (f : X → Effect S A) (e : GError) (a : S)
      → (o ≡ none → Post bad P (m e a))
      → ((x : X) → o ≡ some x → Post bad P (f x e a))
      → Post bad P ((elim o as (λ _. Effect S A) [ none ↦ m | some x ↦ f x ]) e a)
  Post-option bad P none m f e a h k = h refl
  Post-option bad P (some x) m f e a h k = k x refl

module _ {S A B : Type 0} where
  -- What holds after one action and then another.
  pub Post-bind :
      (bad : Type 0) (P : A → GError → S → Type 0) (Q : B → GError → S → Type 0) (m : Effect S A)
      (f : A → Effect S B) (e : GError) (a : S)
      → Post bad P (m e a)
      → ((x : A) (e' : GError) (b : S) → P x e' b → Post bad Q (f x e' b))
      → Post bad Q ((m >>= f) e a)
  unfolding ◌>>=◌ Post
  Post-bind bad P Q m f e a h k = go (m e a) h
    where
      go :
          (r : Option (A × GError × S))
          → Post bad P r
          → Post bad Q (elim r [ none ↦ none | some (x, e', b) ↦ f x e' b ])
      go none h = h
      go (some (x, e', b)) h = k x e' b h

module _ {S A B : Type 0} where
  -- One step of a run whose first action is known.
  pub bind_step :
      (m : Effect S A) (f : A → Effect S B) {x : A} {e e' : GError} {a b : S}
      → m e a ≡ some (x, e', b)
      → (m >>= f) e a ≡ f x e' b
  unfolding ◌>>=◌
  bind_step m f h = rw (◌>>=◌, h) refl

module _ {S A : Type 0} where
  -- The state and the error after a run; those given for a fault.
  abbrev pub state_after : S → Option (A × GError × S) → S
  state_after s none = s
  state_after s (some (x, e, a)) = a

  abbrev pub error_after : GError → Option (A × GError × S) → GError
  error_after d none = d
  error_after d (some (x, e, a)) = e

-- A relation between states that may be chained.
pub record Frame {S : Type 0} (R : S → S → Type 0) : Type 0 where
  pub same : (a : S) → R a a
  pub chain : (a b c : S) → R a b → R b c → R a c

module _ {S : Type 0} where
  pub record Keeps {A : Type 0} (bad : Type 0) (R : S → S → Type 0) (m : Effect S A) : Type 0 where
    pub at : (e : GError) (a : S) → Post bad (λ _ _ b. R a b) (m e a)

module _ {S : Type 0} {R : S → S → Type 0} {bad : Type 0} (F : Frame R) where
  pub Keeps-pure : {A : Type 0} (x : A) → Keeps bad R (pure x)
  unfolding pure Post
  Keeps-pure x = record { at = λ e a. F.same a }

  pub Keeps-gets : {A : Type 0} (f : S → A) → Keeps bad R (gets f)
  unfolding gets Post
  Keeps-gets f = record { at = λ e a. F.same a }

  pub Keeps-modify : (f : S → S) → ((a : S) → R a (f a)) → Keeps bad R (modify f)
  unfolding modify Post
  Keeps-modify f h = record { at = λ e a. h a }

  pub Keeps-set_error : (x : Error) → Keeps bad R (set_error x)
  unfolding set_error Post
  Keeps-set_error x = record { at = λ e a. F.same a }

  pub Keeps-raise : (x : Error) → Keeps bad R (raise x)
  unfolding raise Post
  Keeps-raise x = record { at = λ e a. F.same a }

  pub Keeps-if :
      {A : Type 0} (b : Bool) (m n : Effect S A)
      → Keeps bad R m
      → Keeps bad R n
      → Keeps bad R (if b then m else n)
  Keeps-if true m n km kn = km
  Keeps-if false m n km kn = kn

  pub Keeps-option :
      {X A : Type 0} (o : Option X) (m : Effect S A) (f : X → Effect S A)
      → Keeps bad R m
      → ((x : X) → Keeps bad R (f x))
      → Keeps bad R (elim o [ none ↦ m | some x ↦ f x ])
  Keeps-option none m f km kf = km
  Keeps-option (some x) m f km kf = kf x

  pub Keeps-list :
      {X A : Type 0} (l : List X) (m : Effect S A) (f : X → List X → Effect S A)
      → Keeps bad R m
      → ((x : X) (r : List X) → Keeps bad R (f x r))
      → Keeps bad R (elim l [ [] ↦ m | x ∷ r ↦ f x r ])
  Keeps-list [] m f km kf = km
  Keeps-list (x ∷ r) m f km kf = kf x r

  pub Keeps-bind :
      {A B : Type 0} (m : Effect S A) (f : A → Effect S B)
      → Keeps bad R m
      → ((x : A) → Keeps bad R (f x))
      → Keeps bad R (m >>= f)
  unfolding ◌>>=◌ Post
  Keeps-bind {A} {B} m f km kf = record { at = λ e a. go e a (m e a) (km.at e a) }
    where
      go :
          (e : GError) (a : S) (r : Option (A × GError × S))
          → Post bad (λ _ _ b. R a b) r
          → Post bad (λ _ _ b. R a b) (elim r [ none ↦ none | some (x, e', a') ↦ f x e' a' ])
      go e a none h = h
      go e a (some (x, e', b)) h = next (f x e' b) ((kf x).at e' b)
        where
          next :
              (r : Option (B × GError × S))
              → Post bad (λ _ _ c. R b c) r
              → Post bad (λ _ _ c. R a c) r
          next none k = k
          next (some (y, e'', c)) k = F.chain a b c h k

  pub Keeps-own_error : {A : Type 0} (m : Effect S A) → Keeps bad R m → Keeps bad R (own_error m)
  unfolding own_error Post
  Keeps-own_error {A} m km = record { at = λ e a. go e a (m none a) (km.at none a) }
    where
      go :
          (e : GError) (a : S) (r : Option (A × GError × S))
          → Post bad (λ _ _ b. R a b) r
          → Post {A = A × GError} bad
              (λ _ _ b. R a b)
              (elim r [ none ↦ none | some (x, e', a') ↦ some ((x, e'), e, a') ])
      go e a none h = h
      go e a (some (x, e', b)) h = h

module _ {S : Type 0} {R : S → S → Type 0} {bad : Type 0} (F : Frame R) where
  -- A first action from one state, and then actions that keep the relation.
  pub Post-then :
      {A B : Type 0} (m : Effect S A) (f : A → Effect S B) (e : GError) (a : S)
      → Post bad (λ _ _ b. R a b) (m e a)
      → ((x : A) → Keeps bad R (f x))
      → Post bad (λ _ _ b. R a b) ((m >>= f) e a)
  Post-then m f e a h k =
      Post-bind bad (λ _ _ b. R a b) (λ _ _ b. R a b) m f e a h
        λ x e' b r.
          Post-weaken bad bad (λ _ _ c. R b c) (λ _ _ c. R a c) (f x e' b) (λ z. z)
            (λ _ _ c t. F.chain a b c r t) ((k x).at e' b)

module _ {S : Type 0} {R : S → S → Type 0} (F : Frame R) where
  pub Keeps-fault : {A : Type 0} → Keeps (Unit {0}) R (fault {A = A})
  unfolding fault Post
  Keeps-fault = record { at = λ e a. tt }

pub ruleset keeps_rules = (
  Keeps-pure, Keeps-gets, Keeps-modify, Keeps-set_error, Keeps-raise, Keeps-if, Keeps-option,
  Keeps-bind, Keeps-own_error,
)
