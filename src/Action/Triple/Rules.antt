-- ===== src/Action/Triple/Rules.antt =====
-- Rules for what a call establishes: `Q` of its result and state if it returns, and the invariant `I`
-- of the state if it raises.
use quickpaybet.Prelude.{Bool, true, false, ◌≡◌, refl, Option, none, some}
use mathlib.Core.Path.{subst, sym}
use quickpaybet.Models.Database.{Database}
use quickpaybet.Action.{
  Action, Done, Error, Result, ok, err, pure, raise, gets, or_raise, atomic, raise_if, modify,
  ◌>>=◌,
}

abbrev pub Ends :
    {A : Type 0} → (Database → Type 0) → (A → Database → Type 0) → Result A × Database → Type 0
Ends I Q (ok a, s) = Q a s
Ends I Q (err e, s) = I s

pub record Triple {A : Type 0} (I P : Database → Type 0) (m : Action A) (Q : A → Database → Type 0)
    : Type 0 where
  pub run : (s : Database) → P s → Ends I Q (m s)

module _ {A : Type 0} {I P : Database → Type 0} where
  pub pure-Triple : (a : A) → Triple I P (pure a) (λ _. P)
  unfolding pure
  pure-Triple a = record { run = λ s h. h }

  -- A result that has the postcondition as it stands.
  pub returns-Triple :
      {Q : A → Database → Type 0} (a : A) → ((s : Database) → P s → Q a s) → Triple I P (pure a) Q
  unfolding pure
  returns-Triple a k = record { run = k }

  pub gets-Triple : (f : Database → A) → Triple I P (gets f) (λ a s. P s × (f s ≡ a))
  unfolding gets
  gets-Triple f = record { run = λ s h. (h, refl) }

  pub raise-Triple :
      {Q : A → Database → Type 0} (e : Error)
      → ((s : Database) → P s → I s)
      → Triple I P (raise e) Q
  unfolding raise
  raise-Triple e k = record { run = k }

  pub or_raise-Triple :
      (o : Option A) (e : Error)
      → ((s : Database) → P s → I s)
      → Triple I P (or_raise o e) (λ a s. P s × (o ≡ some a))
  unfolding or_raise
  or_raise-Triple none e k = record { run = k }
  or_raise-Triple (some a) e k = record { run = λ s h. (h, refl) }

module _ {I P : Database → Type 0} where
  pub raise_if-Triple :
      (c : Bool) (e : Error)
      → ((s : Database) → P s → I s)
      → Triple I P (raise_if c e) (λ _ s. P s × (c ≡ false))
  unfolding raise_if
  raise_if-Triple true e k = record { run = k }
  raise_if-Triple false e k = record { run = λ s h. (h, refl) }

  pub modify-Triple :
      {Q : Database → Type 0} (f : Database → Database)
      → ((s : Database) → P s → Q (f s))
      → Triple I P (modify f) (λ _. Q)
  unfolding modify
  modify-Triple f k = record { run = k }

-- How a run ends, through the branches of the operations below.
module _ {A B : Type 0} (I : Database → Type 0) where
  bind-Ends :
      (Q : A → Database → Type 0) (R : B → Database → Type 0) (r : Result A × Database)
      (f : A → Action B)
      → Ends I Q r
      → ((a : A) → Triple I (Q a) (f a) R)
      → Ends I R (let (a, s) = r in elim a [ ok a ↦ f a s | err e ↦ (err e, s) ])
  bind-Ends Q R (ok a, s) f h k = (k a).run s h
  bind-Ends Q R (err e, s) f h k = h

module _ {A : Type 0} (I : Database → Type 0) (Q : A → Database → Type 0) where
  atomic-Ends :
      (s : Database) (r : Result A × Database)
      → I s
      → Ends I Q r
      → Ends I Q (let (a, s') = r in elim a [ ok a ↦ (ok a, s') | err e ↦ (err e, s) ])
  atomic-Ends s (ok a, s') i h = h
  atomic-Ends s (err e, s') i h = i

  after-Ends :
      (R : A → Database → Type 0) (r : Result A × Database)
      → ((a : A) (s : Database) → Q a s → R a s)
      → Ends I Q r
      → Ends I R r
  after-Ends R (ok a, s) k h = k a s h
  after-Ends R (err e, s) k h = h

relax-Ends :
    {A : Type 0} (J I : Database → Type 0) (Q : A → Database → Type 0) (r : Result A × Database)
    → ((s : Database) → J s → I s)
    → Ends J Q r
    → Ends I Q r
relax-Ends J I Q (ok a, s) k h = h
relax-Ends J I Q (err e, s) k h = k s h

undone-Ends :
    {A : Type 0} (J I : Database → Type 0) (Q : A → Database → Type 0) (s : Database)
    (r : Result A × Database)
    → I s
    → Ends J Q r
    → Ends I Q (let (a, s') = r in elim a [ ok a ↦ (ok a, s') | err e ↦ (err e, s) ])
undone-Ends J I Q s (ok a, s') i h = h
undone-Ends J I Q s (err e, s') i h = i

module _ {A B : Type 0} {I P : Database → Type 0} where
  pub bind-Triple :
      {Q : A → Database → Type 0} {R : B → Database → Type 0} {m : Action A} {f : A → Action B}
      → Triple I P m Q
      → ((a : A) → Triple I (Q a) (f a) R)
      → Triple I P (m >>= f) R
  unfolding ◌>>=◌
  bind-Triple {Q} {R} {m} {f} h k = record { run = λ s p. bind-Ends I Q R (m s) f (h.run s p) k }

module _ {A : Type 0} {I P : Database → Type 0} {Q : A → Database → Type 0} where
  pub atomic-Triple :
      {m : Action A} → ((s : Database) → P s → I s) → Triple I P m Q → Triple I P (atomic m) Q
  unfolding atomic
  atomic-Triple {m} k h = record { run = λ s p. atomic-Ends I Q s (m s) (k s p) (h.run s p) }

  -- Whatever a block has done when it raises is undone.
  pub undone-Triple :
      {J : Database → Type 0} {m : Action A}
      → ((s : Database) → P s → I s)
      → Triple J P m Q
      → Triple I P (atomic m) Q
  unfolding atomic
  undone-Triple {J} {m} k h = record { run = λ s p. undone-Ends J I Q s (m s) (k s p) (h.run s p) }

  -- Less said of a call that raises.
  pub relax :
      {J : Database → Type 0} {m : Action A}
      → ((s : Database) → J s → I s)
      → Triple J P m Q
      → Triple I P m Q
  relax {J} {m} k h = record { run = λ s p. relax-Ends J I Q (m s) k (h.run s p) }

  -- A weaker precondition, and a stronger postcondition.
  pub before :
      {P' : Database → Type 0} {m : Action A}
      → ((s : Database) → P' s → P s)
      → Triple I P m Q
      → Triple I P' m Q
  before k h = record { run = λ s p. h.run s (k s p) }

  pub after :
      {R : A → Database → Type 0} {m : Action A}
      → ((a : A) (s : Database) → Q a s → R a s)
      → Triple I P m Q
      → Triple I P m R
  after {R} {m = m} k h = record { run = λ s p. after-Ends I Q R (m s) k (h.run s p) }

  -- A fact of the precondition that does not speak of the state.
  pub given : {F : Type 0} {m : Action A} → (F → Triple I P m Q) → Triple I (λ s. P s × F) m Q
  given k = record { run = λ s h. (k h.1).run s h.0 }

both-Ends :
    {A : Type 0} (I J : Database → Type 0) (Q R : A → Database → Type 0) (r : Result A × Database)
    → Ends I Q r
    → Ends J R r
    → Ends I (λ a s. Q a s × R a s) r
both-Ends I J Q R (ok a, s) h k = (h, k)
both-Ends I J Q R (err e, s) h k = h

-- Two things that a call establishes at once.
pub both :
    {A : Type 0} {I J P P' : Database → Type 0} {Q R : A → Database → Type 0} {m : Action A}
    → Triple I P m Q
    → Triple J P' m R
    → Triple I (λ s. P s × P' s) m (λ a s. Q a s × R a s)
both {I = I} {J = J} {Q = Q} {R = R} {m = m} h k = record {
  run = λ s p. both-Ends I J Q R (m s) (h.run s p.0) (k.run s p.1);
}

Ends-done :
    (I : Database → Type 0) (Q : Done → Database → Type 0) (r : Result Done × Database)
    → Ends I Q r
    → r.0 ≡ ok tt
    → Q tt r.1
Ends-done I Q (ok a, s) h e = h
Ends-done I Q (err x, s) h e = cc

-- What is known of a call that returned.
pub when_done :
    {I P : Database → Type 0} {Q : Done → Database → Type 0} {m : Action Done}
    → Triple I P m Q
    → (s : Database) → P s
    → (m s).0 ≡ ok tt
    → Q tt (m s).1
when_done {I} {P} {Q} {m} h s p e = Ends-done I Q (m s) (h.run s p) e

-- A row that is read in the state `s`, which is still there, or an error.
module _ {A B : Type 0} {I : Database → Type 0} (s : Database) where
  pub read_then-Triple :
      {R : B → Database → Type 0} (f : Database → Option A) (e : Error) (k : A → Action B)
      → I s
      → ((a : A) → f s ≡ some a → Triple I (λ t. t ≡ s) (k a) R)
      → Triple I (λ t. t ≡ s) (gets f >>= λ o. or_raise o e >>= k) R
  unfolding gets ◌>>=◌
  read_then-Triple {R} f e k i h = record {
    run = λ t same. rw same (
        (bind-Triple {P = λ t. t ≡ s} (or_raise-Triple {P = λ t. t ≡ s} (f s) e (λ t x. rw x i))
            (λ a. given (h a))).run
          s refl);
  }

  pub read-Triple :
      {R : B → Database → Type 0} (f : Database → A) (k : A → Action B)
      → Triple I (λ t. t ≡ s) (k (f s)) R
      → Triple I (λ t. t ≡ s) (gets f >>= k) R
  unfolding gets ◌>>=◌
  read-Triple {R} f k h = record { run = λ t same. rw same (h.run s refl) }

-- A call that does not return.
pub raised-Ends :
    {A : Type 0} (I : Database → Type 0) (r : Result A × Database)
    → Ends I (λ _ _. ⊥) r
    → ((e : Error) × (r.0 ≡ err e)) × I r.1
raised-Ends I (ok a, t) h = absurd h
raised-Ends I (err e, t) h = ((e, refl), h)

-- What is known of a call that returned `a`.
pub answered :
    {A : Type 0} (I : Database → Type 0) (Q : A → Database → Type 0) (r : Result A × Database)
    (a : A)
    → Ends I Q r
    → r.0 ≡ ok a
    → Q a r.1
answered I Q (ok x, t) a h e = subst (λ y. Q y t) (cc e) h
answered I Q (err x, t) a h e = cc

-- A step whose result is known and that leaves the state alone.
pub known-Triple :
    {A B : Type 0} {I P : Database → Type 0} {R : B → Database → Type 0} (m : Action A)
    (k : A → Action B) (a : A)
    → ((t : Database) → P t → m t ≡ (ok a, t))
    → Triple I P (k a) R
    → Triple I P (m >>= k) R
unfolding ◌>>=◌
known-Triple {I = I} {R = R} m k a runs h = record {
  run = λ t p.
      subst (λ r. Ends I R (let (x, t') = r in elim x [ ok y ↦ k y t' | err e ↦ (err e, t') ]))
        (sym (runs t p)) (h.run t p);
}

-- A call that cannot raise.
abbrev pub Never : Database → Type 0
Never s = ⊥

Never-returns :
    (Q : Done → Database → Type 0) (r : Result Done × Database) → Ends Never Q r → r.0 ≡ ok tt
Never-returns Q (ok a, t) h = refl
Never-returns Q (err e, t) h = absurd h

pub returns_done :
    {P : Database → Type 0} {Q : Done → Database → Type 0} {m : Action Done}
    → Triple Never P m Q
    → (s : Database) → P s
    → (m s).0 ≡ ok tt
returns_done {P} {Q} {m} h s p = Never-returns Q (m s) (h.run s p)

total_atomic-Ends :
    {A : Type 0} (Q : A → Database → Type 0) (s : Database) (r : Result A × Database)
    → Ends Never Q r
    → Ends Never Q (let (a, s') = r in elim a [ ok a ↦ (ok a, s') | err e ↦ (err e, s) ])
total_atomic-Ends Q s (ok a, t) h = h
total_atomic-Ends Q s (err e, t) h = h

-- A block that cannot raise undoes nothing.
pub total_atomic-Triple :
    {A : Type 0} {P : Database → Type 0} {Q : A → Database → Type 0} {m : Action A}
    → Triple Never P m Q
    → Triple Never P (atomic m) Q
unfolding atomic
total_atomic-Triple {A} {P} {Q} {m} h = record {
  run = λ s p. total_atomic-Ends Q s (m s) (h.run s p);
}
