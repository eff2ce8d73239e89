-- ===== src/Prelude/Exec.antt =====
-- Python code that changes a state and may raise: what was written before a raise stays written.
-- An exception is kept as the name of its class and its text, `str(e)`.
use Prim.Native.String.{String}
use mathlib.Core.Path.{◌≡◌, refl}
use mathlib.Core.Bool.{Bool, true, false}
use mathlib.Core.Option.{Option, none, some}
use tantor_v.Prelude.Tests.{if◌then◌else◌}

pub record Failure : Type 0 where
  pub class_name : String
  pub text : String

pub data Result (A : Type 0) : Type 0 where
  ok : A → Result A
  raised : Failure → Result A

abbrev pub Exec : Type 0 → Type 0 → Type 0
Exec S A = S → Result A × S

module _ {S A : Type 0} where
  unfoldable pub pure : A → Exec S A
  pure a s = (ok a, s)

  unfoldable pub raise : Failure → Exec S A
  raise e s = (raised e, s)

  unfoldable pub gets : (S → A) → Exec S A
  gets f s = (ok (f s), s)

unfoldable pub modify : {S : Type 0} → (S → S) → Exec S (Unit {0})
modify f s = (ok tt, f s)

module _ {S A B : Type 0} where
  abbrev pub continue : (A → Exec S B) → Result A → Exec S B
  continue f (ok a) s = f a s
  continue f (raised e) s = (raised e, s)

  infixl 10 ◌>>=◌ ◌>>◌
  unfoldable pub ◌>>=◌ : Exec S A → (A → Exec S B) → Exec S B
  ◌>>=◌ m f s = let (r, s') = m s in continue f r s'

  abbrev pub ◌>>◌ : Exec S A → Exec S B → Exec S B
  m >> n = m >>= λ _. n

module _ {S A : Type 0} where
  abbrev recover : (Failure → Exec S A) → Result A → Exec S A
  recover h (ok a) s = (ok a, s)
  recover h (raised e) s = h e s

  -- `try: m except Exception as e: h(e)`
  unfoldable pub try_except : Exec S A → (Failure → Exec S A) → Exec S A
  try_except m h s = let (r, s') = m s in recover h r s'

module _ {S A : Type 0} where
  -- What holds when the code returns, and what holds when it raises.
  abbrev pub Post : (A → S → Type 0) → (S → Type 0) → Result A × S → Type 0
  Post R E (ok a, s) = R a s
  Post R E (raised e, s) = E s

  -- From a state with `P` the code returns with `R` or raises with `E`.
  pub record Triple (P : S → Type 0) (m : Exec S A) (R : A → S → Type 0) (E : S → Type 0)
      : Type 0 where
    pub at : (s : S) → P s → Post R E (m s)

module _ {S A : Type 0} {P : S → Type 0} {R : A → S → Type 0} {E : S → Type 0} where
  pub Triple-pure : (a : A) → ((s : S) → P s → R a s) → Triple P (pure a) R E
  unfolding pure
  Triple-pure a f = record { at = f }

  pub Triple-raise : (e : Failure) → ((s : S) → P s → E s) → Triple P (raise {A = A} e) R E
  unfolding raise
  Triple-raise e f = record { at = f }

  pub Triple-before :
      {P' : S → Type 0} {m : Exec S A} → ((s : S) → P' s → P s) → Triple P m R E → Triple P' m R E
  Triple-before f t = record { at = λ s p. t.at s (f s p) }

  pub Triple-if :
      (b : Bool) (m n : Exec S A)
      → (b ≡ true → Triple P m R E)
      → (b ≡ false → Triple P n R E)
      → Triple P (if b then m else n) R E
  Triple-if true m n tm tn = tm refl
  Triple-if false m n tm tn = tn refl

  -- The same where the test does not matter.
  pub Triple-either :
      (b : Bool) (m n : Exec S A)
      → Triple P m R E
      → Triple P n R E
      → Triple P (if b then m else n) R E
  Triple-either true m n tm tn = tm
  Triple-either false m n tm tn = tn

module _ {S A : Type 0} {R R' : A → S → Type 0} {E E' : S → Type 0} where
  Post-weaken :
      ((a : A) (s : S) → R a s → R' a s)
      → ((s : S) → E s → E' s)
      → (x : Result A × S) → Post R E x
      → Post R' E' x
  Post-weaken f g (ok a, s) h = f a s h
  Post-weaken f g (raised e, s) h = g s h

  pub Triple-after :
      {P : S → Type 0} (m : Exec S A)
      → ((a : A) (s : S) → R a s → R' a s)
      → ((s : S) → E s → E' s)
      → Triple P m R E
      → Triple P m R' E'
  Triple-after m f g t = record { at = λ s p. Post-weaken f g (m s) (t.at s p) }

module _ {S A B : Type 0} {R : A → S → Type 0} {R' : B → S → Type 0} {E : S → Type 0} where
  continue_lem :
      (f : A → Exec S B)
      → ((a : A) → Triple (R a) (f a) R' E)
      → (x : Result A × S) → Post R E x
      → Post R' E (continue f x.0 x.1)
  continue_lem f t (ok a, s) h = (t a).at s h
  continue_lem f t (raised e, s) h = h

  pub Triple-bind :
      {P : S → Type 0} (m : Exec S A) (f : A → Exec S B)
      → Triple P m R E
      → ((a : A) → Triple (R a) (f a) R' E)
      → Triple P (m >>= f) R' E
  unfolding ◌>>=◌
  Triple-bind m f tm tf = record { at = λ s p. continue_lem f tf (m s) (tm.at s p) }

module _ {S A : Type 0} {R : A → S → Type 0} {E E' : S → Type 0} where
  recover_lem :
      (h : Failure → Exec S A)
      → ((e : Failure) → Triple E (h e) R E')
      → (x : Result A × S) → Post R E x
      → Post R E' (recover h x.0 x.1)
  recover_lem h t (ok a, s) p = p
  recover_lem h t (raised e, s) p = (t e).at s p

  pub Triple-try :
      {P : S → Type 0} (m : Exec S A) (h : Failure → Exec S A)
      → Triple P m R E
      → ((e : Failure) → Triple E (h e) R E')
      → Triple P (try_except m h) R E'
  unfolding try_except
  Triple-try m h tm th = record { at = λ s p. recover_lem h th (m s) (tm.at s p) }

pub Triple-modify :
    {S : Type 0} {P : S → Type 0} {R : Unit {0} → S → Type 0} {E : S → Type 0} (f : S → S)
    → ((s : S) → P s → R tt (f s))
    → Triple P (modify f) R E
unfolding modify
Triple-modify f h = record { at = h }

pub Triple-gets :
    {S A : Type 0} {P : S → Type 0} {R : A → S → Type 0} {E : S → Type 0} (f : S → A)
    → ((s : S) → P s → R (f s) s)
    → Triple P (gets f) R E
unfolding gets
Triple-gets f h = record { at = h }

pub Post-both :
    {S A : Type 0} (Q E : S → Type 0) (r : Result A) (s : S) → Q s → E s → Post (λ _. Q) E (r, s)
Post-both Q E (ok a) s q e = q
Post-both Q E (raised m) s q e = e

module _ {S A F : Type 0} {P : S → Type 0} {R : A → S → Type 0} {E : S → Type 0} where
  -- A fact that does not depend on the state.
  pub Triple-fact : {m : Exec S A} → (F → Triple P m R E) → Triple (λ s. F × P s) m R E
  Triple-fact t = record { at = λ s h. (t h.0).at s h.1 }

module _ {S A : Type 0} {P Q : S → Type 0} {R : A → S → Type 0} {E : S → Type 0} where
  -- The same without a value.
  pub Triple-then :
      {m : Exec S (Unit {0})} {n : Exec S A}
      → Triple P m (λ _. Q) E
      → Triple Q n R E
      → Triple P (m >> n) R E
  Triple-then tm tn = Triple-bind _ _ tm (λ _. tn)

-- Nothing is claimed.
pub Triple-any :
    {S A : Type 0} {P : S → Type 0} (m : Exec S A) → Triple P m (λ _ _. Unit) (λ _. Unit)
Triple-any m = record { at = λ s p. nothing (m s) }
  where
    nothing : {S A : Type 0} (x : Result A × S) → Post (λ _ _. Unit) (λ _. Unit) x
    nothing (ok a, s) = tt
    nothing (raised e, s) = tt

module _ {S A F : Type 0} {P : S → Type 0} {R : A → S → Type 0} {E : S → Type 0} where
  -- Code that asks first whether something was found.
  pub Triple-option :
      (o : Option F) (n : Exec S A) (k : F → Exec S A)
      → (o ≡ none → Triple P n R E)
      → ((f : F) → o ≡ some f → Triple P (k f) R E)
      → Triple P (elim o [ none ↦ n | some f ↦ k f ]) R E
  Triple-option none n k tn tk = tn refl
  Triple-option (some f) n k tn tk = tk f refl
