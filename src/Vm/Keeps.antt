-- ===== src/Vm/Keeps.antt =====
-- Invariants of actions: what holds of the machine before holds after, whether the action returns or
-- raises. One rule for each way to build an action.
use quin_lang.Prelude.{Bool, Option, Result, err, false, if◌then◌else◌, none, ok, some, true, ℤ}
use quin_lang.Vm.Machine.{
  Exec, Fault, Vm, forbid, gets, lift, modify, operand, pure, raise, refuse, require, resume, ◌>>=◌,
}
use quin_lang.Vm.Heap.{Heap}
use quin_lang.Vm.Store.{peek}

pub record Keeps {W A : Type 0} (P : Vm W → Type 0) (m : Exec W A) : Type 0 where
  pub at : (vm : Vm W) → P vm → P (m vm).1

module _ {W A : Type 0} {P : Vm W → Type 0} where
  pub Keeps-pure : (a : A) → Keeps P (pure a)
  unfolding pure
  Keeps-pure a = record { at = λ vm h. h }

  pub Keeps-raise : (e : Fault) → Keeps P (raise {A = A} e)
  unfolding raise
  Keeps-raise e = record { at = λ vm h. h }

  pub Keeps-lift : (r : Result Fault A) → Keeps P (lift r)
  unfolding lift
  Keeps-lift r = record { at = λ vm h. h }

  pub Keeps-gets : (f : Vm W → A) → Keeps P (gets f)
  unfolding gets
  Keeps-gets f = record { at = λ vm h. h }

  pub Keeps-peek : (f : Heap → Result Fault A) → Keeps P (peek f)
  unfolding peek
  Keeps-peek f = record { at = λ vm h. h }

  pub Keeps-if : (b : Bool) (m n : Exec W A) → Keeps P m → Keeps P n → Keeps P (if b then m else n)
  Keeps-if true m n km kn = km
  Keeps-if false m n km kn = kn

module _ {W : Type 0} {P : Vm W → Type 0} where
  pub Keeps-refuse : (b : Bool) (e : Fault) → Keeps P (refuse b e)
  unfolding refuse
  Keeps-refuse b e = record { at = λ vm h. h }

  pub Keeps-modify : (f : Vm W → Vm W) → ((vm : Vm W) → P vm → P (f vm)) → Keeps P (modify f)
  unfolding modify
  Keeps-modify f k = record { at = k }

  pub Keeps-operand : (arg : Option ℤ) → Keeps P (operand arg)
  unfolding operand
  Keeps-operand none = record { at = λ vm h. h }
  Keeps-operand (some n) = record { at = λ vm h. h }

module _ {W A B : Type 0} {P : Vm W → Type 0} where
  Keeps-resume :
      (r : Result Fault A) (k : A → Exec W B) (vm : Vm W)
      → ((a : A) → Keeps P (k a))
      → P vm
      → P (resume r k vm).1
  Keeps-resume (ok a) k vm h p = (h a).at vm p
  Keeps-resume (err e) k vm h p = p

  pub Keeps-bind :
      (m : Exec W A) (k : A → Exec W B) → Keeps P m → ((a : A) → Keeps P (k a)) → Keeps P (m >>= k)
  unfolding ◌>>=◌
  Keeps-bind m k km kk = record {
    at = λ vm p. let (r, vm') = m vm in Keeps-resume r k vm' kk (km.at vm p);
  }

-- what an action that does not raise returns
abbrev pub Holds : {A : Type 0} → (A → Type 0) → Result Fault A → Type 0
Holds Q (ok a) = Q a
Holds Q (err e) = Unit

pub record Returns {W A : Type 0} (Q : A → Type 0) (m : Exec W A) : Type 0 where
  pub at : (vm : Vm W) → Holds Q (m vm).0

module _ {W A B : Type 0} {P : Vm W → Type 0} (Q : A → Type 0) where
  Keeps-resume_with :
      (r : Result Fault A) (k : A → Exec W B) (vm : Vm W)
      → Holds Q r
      → ((a : A) → Q a → Keeps P (k a))
      → P vm
      → P (resume r k vm).1
  Keeps-resume_with (ok a) k vm q h p = (h a q).at vm p
  Keeps-resume_with (err e) k vm q h p = p

  pub Keeps-bind_with :
      (m : Exec W A) (k : A → Exec W B)
      → Keeps P m
      → Returns Q m
      → ((a : A) → Q a → Keeps P (k a))
      → Keeps P (m >>= k)
  unfolding ◌>>=◌
  Keeps-bind_with m k km q kk = record {
    at = λ vm p. let (r, vm') = m vm in Keeps-resume_with r k vm' (q.at vm) kk (km.at vm p);
  }

Holds-mono :
    {A : Type 0} {Q R : A → Type 0}
    → ((a : A) → R a → Q a)
    → (r : Result Fault A) → Holds R r
    → Holds Q r
Holds-mono h (ok a) q = h a q
Holds-mono h (err e) q = tt

module _ {W A : Type 0} {Q : A → Type 0} where
  pub Returns-pure : (a : A) → Q a → Returns {W = W} Q (pure a)
  unfolding pure
  Returns-pure a q = record { at = λ vm. q }

  pub Returns-mono :
      {R : A → Type 0} (m : Exec W A) → ((a : A) → R a → Q a) → Returns R m → Returns Q m
  Returns-mono m h r = record { at = λ vm. Holds-mono h (m vm).0 (r.at vm) }

Holds-both :
    {A : Type 0} (Q R : A → Type 0) (r : Result Fault A)
    → Holds Q r
    → Holds R r
    → Holds (λ (a : A). Q a × R a) r
Holds-both Q R (ok a) q h = (q, h)
Holds-both Q R (err e) q h = tt

module _ {W A : Type 0} (Q R : A → Type 0) where
  pub Returns-both : (m : Exec W A) → Returns Q m → Returns R m → Returns (λ (a : A). Q a × R a) m
  Returns-both m q h = record { at = λ vm. Holds-both Q R (m vm).0 (q.at vm) (h.at vm) }

-- a bind whose first action may return anything
module _ {W A B : Type 0} {R : B → Type 0} where
  Returns-resume_any :
      (r : Result Fault A) (k : A → Exec W B) (vm : Vm W)
      → ((a : A) → Returns R (k a))
      → Holds R (resume r k vm).0
  Returns-resume_any (ok a) k vm h = (h a).at vm
  Returns-resume_any (err e) k vm h = tt

  pub Returns-bind_any :
      (m : Exec W A) (k : A → Exec W B) → ((a : A) → Returns R (k a)) → Returns R (m >>= k)
  unfolding ◌>>=◌
  Returns-bind_any m k h = record { at = λ vm. let (r, vm') = m vm in Returns-resume_any r k vm' h }

module _ {W A B : Type 0} (Q : A → Type 0) (R : B → Type 0) where
  Returns-resume :
      (r : Result Fault A) (k : A → Exec W B) (vm : Vm W)
      → Holds Q r
      → ((a : A) → Q a → Returns R (k a))
      → Holds R (resume r k vm).0
  Returns-resume (ok a) k vm q h = (h a q).at vm
  Returns-resume (err e) k vm q h = tt

  pub Returns-bind :
      (m : Exec W A) (k : A → Exec W B)
      → Returns Q m
      → ((a : A) → Q a → Returns R (k a))
      → Returns R (m >>= k)
  unfolding ◌>>=◌
  Returns-bind m k q h = record {
    at = λ vm. let (r, vm') = m vm in Returns-resume r k vm' (q.at vm) h;
  }

-- reading a state that is known to satisfy the invariant
pub Keeps-gets_with :
    {W A B : Type 0} {P : Vm W → Type 0} (f : Vm W → A) (k : A → Exec W B)
    → ((vm : Vm W) → P vm → Keeps P (k (f vm)))
    → Keeps P (gets f >>= k)
unfolding gets ◌>>=◌
Keeps-gets_with f k h = record { at = λ vm p. (h vm p).at vm p }

module _ {W A : Type 0} {P : Vm W → Type 0} where
  pub Keeps-require : (o : Option A) (e : Fault) → Keeps P (require o e)
  unfolding require
  Keeps-require none e = record { at = λ vm h. h }
  Keeps-require (some a) e = record { at = λ vm h. h }

  pub Keeps-forbid : (o : Option A) (e : A → Fault) → Keeps P (forbid o e)
  unfolding forbid
  Keeps-forbid none e = record { at = λ vm h. h }
  Keeps-forbid (some a) e = record { at = λ vm h. h }

pub ruleset keeps_rules = (
  Keeps-pure, Keeps-raise, Keeps-lift, Keeps-gets, Keeps-peek, Keeps-if, Keeps-refuse,
  Keeps-require, Keeps-forbid, Keeps-operand, Keeps-bind,
)
