-- ===== src/Runtime/Triple.antt =====
-- Hoare triples for actions: the postcondition of a result, and that of an error.
use pay_fast_processor.Prelude.{◌≡◌, refl, subst, String, Bool, true, false, if◌then◌else◌}
use pay_fast_processor.Store.Sql.{Result, ok, err}
use pay_fast_processor.Runtime.Json.{Error}
use pay_fast_processor.Runtime.World.{World}
use pay_fast_processor.Runtime.Act.{
  Act, pure, raise, lift, wrap_error, wrapping, replace_error, replacing, continue, ◌>>=◌,
}

abbrev pub Post :
    {A : Type 0} → (A → World → Type 0) → (World → Type 0) → Result Error A → World → Type 0
Post Q E (ok a) w = Q a w
Post Q E (err e) w = E w

pub record Triple {A : Type 0} (P : World → Type 0) (m : Act A) (Q : A → World → Type 0)
    (E : World → Type 0) : Type 0 where
  pub run : (w : World) → P w → Post Q E (m w).0 (m w).1

module _ {A : Type 0} (Q : A → World → Type 0) (E : World → Type 0) where
  Post-wrap_error :
      (s : String) (r : Result Error A) (w : World) → Post Q E r w → Post Q E (wrap_error s r) w
  Post-wrap_error s (ok a) w h = h
  Post-wrap_error s (err e) w h = h

  Post-replace_error :
      (s : String) (r : Result Error A) (w : World) → Post Q E r w → Post Q E (replace_error s r) w
  Post-replace_error s (ok a) w h = h
  Post-replace_error s (err e) w h = h

  Post-weaken :
      (Q' : A → World → Type 0) (E' : World → Type 0)
      → ((a : A) (w : World) → Q a w → Q' a w)
      → ((w : World) → E w → E' w)
      → (r : Result Error A) (w : World) → Post Q E r w
      → Post Q' E' r w
  Post-weaken Q' E' q e (ok a) w h = q a w h
  Post-weaken Q' E' q e (err x) w h = e w h

  Post-continue :
      {B : Type 0} (R : B → World → Type 0) (r : Result Error A) (w : World) (f : A → Act B)
      → Post Q E r w
      → ((a : A) → Triple (Q a) (f a) R E)
      → Post R E (continue r f w).0 (continue r f w).1
  Post-continue R (ok a) w f h k = (k a).run w h
  Post-continue R (err e) w f h k = h

module _ {A : Type 0} {P : World → Type 0} {Q : A → World → Type 0} {E : World → Type 0} where
  pub Triple-pure : (a : A) → ((w : World) → P w → Q a w) → Triple P (pure a) Q E
  Triple-pure a h = record { run = h }

  pub Triple-raise : (e : Error) → ((w : World) → P w → E w) → Triple P (raise {A = A} e) Q E
  Triple-raise e h = record { run = h }

  pub Triple-wrapping : (s : String) (m : Act A) → Triple P m Q E → Triple P (wrapping s m) Q E
  unfolding wrapping
  Triple-wrapping s m t = record {
    run = λ w p. let (r, w') = m w in Post-wrap_error Q E s r w' (t.run w p);
  }

  pub Triple-replacing : (s : String) (m : Act A) → Triple P m Q E → Triple P (replacing s m) Q E
  unfolding replacing
  Triple-replacing s m t = record {
    run = λ w p. let (r, w') = m w in Post-replace_error Q E s r w' (t.run w p);
  }

  pub Triple-weaken :
      (m : Act A) {P' : World → Type 0} {Q' : A → World → Type 0} {E' : World → Type 0}
      → Triple P m Q E
      → ((w : World) → P' w → P w)
      → ((a : A) (w : World) → Q a w → Q' a w)
      → ((w : World) → E w → E' w)
      → Triple P' m Q' E'
  Triple-weaken m {Q'} {E'} t p q e = record {
    run = λ w h. let (r, w') = m w in Post-weaken Q E Q' E' q e r w' (t.run w (p w h));
  }

  pub Triple-if :
      (b : Bool) (m n : Act A)
      → (b ≡ true → Triple P m Q E)
      → (b ≡ false → Triple P n Q E)
      → Triple P (if b then m else n) Q E
  Triple-if true m n km kn = km refl
  Triple-if false m n km kn = kn refl

module _ {A B : Type 0} {P : World → Type 0} {Q : A → World → Type 0} {R : B → World → Type 0}
    {E : World → Type 0} where
  pub Triple-bind :
      (m : Act A) (f : A → Act B)
      → Triple P m Q E
      → ((a : A) → Triple (Q a) (f a) R E)
      → Triple P (m >>= f) R E
  unfolding ◌>>=◌
  Triple-bind m f t k = record {
    run = λ w p. let (r, w') = m w in Post-continue Q E R r w' f (t.run w p) k;
  }

-- A result that is computed: the rest may use what it is.
pub Triple-lift :
    {A : Type 0} {P : World → Type 0} {E : World → Type 0} (r : Result Error A)
    → ((w : World) → P w → E w)
    → Triple P (lift r) (λ a w. P w × (r ≡ ok a)) E
Triple-lift (ok a) h = record { run = λ w p. (p, refl) }
Triple-lift (err e) h = record { run = h }

-- A fact not about the world that the precondition gives.
pub Triple-because :
    {A F : Type 0} {P : World → Type 0} {Q : A → World → Type 0} {E : World → Type 0} {m : Act A}
    → ((w : World) → P w → F)
    → (F → Triple P m Q E)
    → Triple P m Q E
Triple-because f k = record { run = λ w h. (k (f w h)).run w h }

-- A fact in the precondition that is not about the world.
pub Triple-given :
    {A F : Type 0} {P : World → Type 0} {Q : A → World → Type 0} {E : World → Type 0} {m : Act A}
    → (F → Triple P m Q E)
    → Triple (λ w. P w × F) m Q E
Triple-given k = record { run = λ w h. (k h.1).run w h.0 }

pub ok-injective : {A : Type 0} {a b : A} → ◌≡◌ {A = Result Error A} (ok a) (ok b) → a ≡ b
ok-injective h = cc

-- The two readings of a postcondition, and what follows from both.
module _ {A : Type 0} (Q : A → World → Type 0) (E : World → Type 0) where
  pub Post-ok : (r : Result Error A) (w : World) {a : A} → Post Q E r w → r ≡ ok a → Q a w
  Post-ok (ok b) w {a} h same = subst (λ x. Q x w) (ok-injective same) h
  Post-ok (err e) w h same = cc

  pub Post-err : (r : Result Error A) (w : World) {e : Error} → Post Q E r w → r ≡ err e → E w
  Post-err (ok b) w h same = cc
  Post-err (err e) w h same = h

  pub Post-both :
      {C : Type 0} (r : Result Error A) (w : World)
      → Post Q E r w
      → ((a : A) → Q a w → C)
      → (E w → C)
      → C
  Post-both (ok a) w h q e = q a h
  Post-both (err x) w h q e = e h
