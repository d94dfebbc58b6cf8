-- ===== src/Action/Triple/Invariants.antt =====
-- Invariants that a call keeps, and what it leaves however it ends.
use quickpaybet.Prelude.{Bool, true, false, Option, if◌then◌else◌}
use quickpaybet.Models.Database.{Database}
use quickpaybet.Action.{
  Action, Error, Result, ok, err, pure, raise, gets, or_raise, atomic, raise_if, modify, ◌>>=◌,
}
use quickpaybet.Action.Triple.Rules.{
  Triple, Ends, bind-Triple, atomic-Triple, after, pure-Triple, gets-Triple, raise-Triple,
  or_raise-Triple, raise_if-Triple, modify-Triple,
}

-- An invariant that a call keeps, however it ends.
abbrev pub Keeps : {A : Type 0} → (Database → Type 0) → Action A → Type 0
Keeps I m = Triple I I m (λ _. I)

forget-Ends :
    {A : Type 0} (P I : Database → Type 0) (r : Result A × Database)
    → ((s : Database) → P s → I s)
    → Ends P (λ _. P) r
    → Ends I (λ _. P) r
forget-Ends P I (ok a, s) k h = h
forget-Ends P I (err e, s) k h = k s h

-- An invariant that is kept, with less said of a call that raises.
pub forget :
    {A : Type 0} {P I : Database → Type 0} {m : Action A}
    → ((s : Database) → P s → I s)
    → Keeps P m
    → Triple I P m (λ _. P)
forget {P = P} {I = I} {m = m} k h = record { run = λ s p. forget-Ends P I (m s) k (h.run s p) }

Ends-kept :
    {A : Type 0} (I : Database → Type 0) (r : Result A × Database) → Ends I (λ _. I) r → I r.1
Ends-kept I (ok a, s) h = h
Ends-kept I (err e, s) h = h

pub kept :
    {A : Type 0} {I : Database → Type 0} {m : Action A}
    → Keeps I m
    → (s : Database) → I s
    → I (m s).1
kept {I = I} {m = m} k s h = Ends-kept I (m s) (k.run s h)

-- The rules for a plain invariant.
module _ {I : Database → Type 0} {A : Type 0} where
  pub Keeps-pure : (a : A) → Keeps I (pure a)
  Keeps-pure a = pure-Triple a

  pub Keeps-raise : (e : Error) → Keeps I (raise {A = A} e)
  Keeps-raise e = raise-Triple e (λ s h. h)

  pub Keeps-gets : (f : Database → A) → Keeps I (gets f)
  Keeps-gets f = after (λ a s h. h.0) (gets-Triple f)

  pub Keeps-or_raise : (o : Option A) (e : Error) → Keeps I (or_raise o e)
  Keeps-or_raise o e = after (λ a s h. h.0) (or_raise-Triple o e (λ s h. h))

  pub Keeps-atomic : (m : Action A) → Keeps I m → Keeps I (atomic m)
  Keeps-atomic m h = atomic-Triple (λ s i. i) h

  pub Keeps-if : (b : Bool) (m n : Action A) → Keeps I m → Keeps I n → Keeps I (if b then m else n)
  Keeps-if true m n hm hn = hm
  Keeps-if false m n hm hn = hn

module _ {I : Database → Type 0} where
  pub Keeps-raise_if : (c : Bool) (e : Error) → Keeps I (raise_if c e)
  Keeps-raise_if c e = after (λ a s h. h.0) (raise_if-Triple c e (λ s h. h))

  pub Keeps-modify :
      (f : Database → Database) → ((s : Database) → I s → I (f s)) → Keeps I (modify f)
  Keeps-modify f h = modify-Triple f h

module _ {I : Database → Type 0} {A B : Type 0} where
  pub Keeps-bind :
      (m : Action A) (f : A → Action B) → Keeps I m → ((a : A) → Keeps I (f a)) → Keeps I (m >>= f)
  Keeps-bind m f hm hf = bind-Triple hm hf

pub ruleset keeps_rules = (
  Keeps-pure, Keeps-raise, Keeps-gets, Keeps-or_raise, Keeps-atomic, Keeps-if, Keeps-raise_if,
  Keeps-bind,
)

-- A fact of the state that a call leaves, however it ends.
pub left :
    {A : Type 0} {I P : Database → Type 0} {m : Action A}
    → Triple I P m (λ _. I)
    → (s : Database) → P s
    → I (m s).1
left {I = I} {m = m} h s p = Ends-kept I (m s) (h.run s p)
