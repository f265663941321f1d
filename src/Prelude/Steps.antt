-- ===== src/Prelude/Steps.antt =====
-- Calls that change a state and may fail. What a call wrote before it failed stays written.
use mathlib.Core.Path.{◌≡◌, refl, ap, subst, ◌∙◌}
use adtp.Prelude.Results
use adtp.Prelude.Results.{err-ne-ok, Result, ok, err, ok_inj}

abbrev pub Steps : Type 0 → Type 0 → Type 0 → Type 0
Steps S E A = S → S × Result E A

module _ {S E A : Type 0} where
  unfoldable pub pure : A → Steps S E A
  pure a s = (s, ok a)

  -- A result that leaves the state as it is.
  unfoldable pub lift : Result E A → Steps S E A
  lift r s = (s, r)

  -- What a reading of the state says.
  unfoldable pub reading : (S → Result E A) → Steps S E A
  reading f s = (s, f s)

module _ {S E A B : Type 0} where
  continue : S × Result E A → (A → Steps S E B) → S × Result E B
  continue (s, ok a) f = f a s
  continue (s, err e) f = (s, err e)

  infixl 5 ◌>>=◌ ◌>>◌
  unfoldable pub ◌>>=◌ : Steps S E A → (A → Steps S E B) → Steps S E B
  unfolding continue
  (m >>= f) s = continue (m s) f

  abbrev pub ◌>>◌ : Steps S E A → Steps S E B → Steps S E B
  m >> n = m >>= λ _. n

  -- A sequence that succeeds is two calls that succeed.
  pub record Sequence (m : Steps S E A) (f : A → Steps S E B) (s s' : S) (b : B) : Type 0 where
    pub middle : S
    pub value : A
    pub first : m s ≡ (middle, ok value)
    pub then : f value middle ≡ (s', ok b)

  Sequence-of :
      (m : Steps S E A) (f : A → Steps S E B) (s s' : S) (b : B) (r : S × Result E A)
      → m s ≡ r
      → continue r f ≡ (s', ok b)
      → Sequence m f s s' b
  unfolding continue
  Sequence-of m f s s' b (t, ok a) q h = record { middle = t; value = a; first = q; then = h }
  Sequence-of m f s s' b (t, err e) q h = absurd (err-ne-ok (ap (λ p. p.1) h))

  pub >>=-eq-ok :
      (m : Steps S E A) (f : A → Steps S E B) {s s' : S} {b : B}
      → (m >>= f) s ≡ (s', ok b)
      → Sequence m f s s' b
  unfolding ◌>>=◌
  >>=-eq-ok m f {s = s} {s' = s'} {b = b} h = Sequence-of m f s s' b (m s) refl h

module _ {S E A : Type 0} where
  pub pure-eq-ok :
      (a : A) {s s' : S} {b : A}
      → ◌≡◌ {A = S × Result E A} (pure a s) (s', ok b)
      → (s ≡ s') × (a ≡ b)
  unfolding pure
  pure-eq-ok a h = (ap (λ p. p.0) h, ok_inj (ap (λ p. p.1) h))

  pub lift-eq-ok :
      (r : Result E A) {s s' : S} {b : A} → lift r s ≡ (s', ok b) → (s ≡ s') × (r ≡ ok b)
  unfolding lift
  lift-eq-ok r h = (ap (λ p. p.0) h, ap (λ p. p.1) h)

  pub reading-eq-ok :
      (f : S → Result E A) {s s' : S} {b : A} → reading f s ≡ (s', ok b) → (s ≡ s') × (f s ≡ ok b)
  unfolding reading
  reading-eq-ok f h = (ap (λ p. p.0) h, ap (λ p. p.1) h)

module _ {S E A B : Type 0} (m : Steps S E A) (f : A → Steps S E B) {s s' : S} where
  pub >>=-ok : {a : A} → m s ≡ (s', ok a) → (m >>= f) s ≡ f a s'
  unfolding ◌>>=◌ continue
  >>=-ok {a = a} h = ap (λ r. continue r f) h

  pub >>=-err : {e : E} → m s ≡ (s', err e) → (m >>= f) s ≡ (s', err e)
  unfolding ◌>>=◌ continue
  >>=-err h = ap (λ r. continue r f) h

-- The call ends with the result `r`, and if that is a success, in the state `s'`.
pub record Ends {S E A : Type 0} (m : Steps S E A) (s : S) (r : Result E A) (s' : S) : Type 0 where
  pub end : S
  pub runs : m s ≡ (end, r)
  pub there : (a : A) → r ≡ ok a → end ≡ s'

module _ {S E A : Type 0} (m : Steps S E A) {s s' : S} where
  pub ok-Ends : (a : A) → m s ≡ (s', ok a) → Ends m s (ok a) s'
  ok-Ends a h = record { end = s'; runs = h; there = λ _ _. refl }

module _ {S E A B : Type 0} (m : Steps S E A) (f : A → Steps S E B) (q : A → Result E B) where
  pub >>=-Ends :
      {s n s' : S} (r : Result E A)
      → Ends m s r n
      → ((a : A) → r ≡ ok a → Ends (f a) n (q a) s')
      → Ends (m >>= f) s (Results.◌>>=◌ r q) s'
  >>=-Ends (ok a) h g =
      let next = g a refl in
      record {
        end = next.end;
        runs = >>=-ok m f (h.runs ∙ ap (λ t. (t, ok a)) (h.there a refl)) ∙ next.runs;
        there = next.there;
      }
  >>=-Ends (err e) h g = record {
    end = h.end;
    runs = >>=-err m f h.runs;
    there = λ b q. absurd (err-ne-ok q);
  }

module _ {S E A B : Type 0} (m : Steps S E A) (f : A → Steps S E B) where
  -- A first call that succeeds, and then the rest.
  pub after-Ends :
      {s n s' : S} (a : A) {r : Result E B}
      → m s ≡ (n, ok a)
      → Ends (f a) n r s'
      → Ends (m >>= f) s r s'
  after-Ends a h g = record { end = g.end; runs = >>=-ok m f h ∙ g.runs; there = g.there }

pub lift-Ends : {S E A : Type 0} (r : Result E A) (s : S) → Ends (lift r) s r s
unfolding lift
lift-Ends r s = record { end = s; runs = refl; there = λ _ _. refl }

pub pure-Ends : {S E A : Type 0} (a : A) (s : S) → Ends {E = E} (pure a) s (ok a) s
unfolding pure
pure-Ends a s = record { end = s; runs = refl; there = λ _ _. refl }

pub same-Ends :
    {S E A : Type 0} (m k : Steps S E A) {s s' : S} {r : Result E A}
    → m s ≡ k s
    → Ends k s r s'
    → Ends m s r s'
same-Ends m k h g = record { end = g.end; runs = h ∙ g.runs; there = g.there }

pub equal-Ends :
    {S E A : Type 0} (m : Steps S E A) {s s' : S} {r q : Result E A}
    → r ≡ q
    → Ends m s r s'
    → Ends m s q s'
equal-Ends m {s = s} {s' = s'} h g = subst (λ x. Ends m s x s') h g
