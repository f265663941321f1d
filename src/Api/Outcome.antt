-- ===== src/Api/Outcome.antt =====
-- Early returns of a handler write a failure, so a response of success is its last one.
use adtp.Prelude.{
  ℕ, ◌≡◌, refl, sym, ap, ◌∙◌, Bool, true, false, Option, none, some, Result, ok, err, map_err,
  ok_or, fail_if, Text, List, ℤ, subst, err-ne-ok, fail_if-eq-ok,
}
use adtp.Prelude.Steps.{Steps, ◌>>=◌, pure, lift, reading, >>=-ok, >>=-err, lift-eq-ok}
use adtp.Api.Messages.{Response, decoded, failure, read_json}
use adtp.Api.Service.{Env, Daemon, Handled, written, or_respond, note, register, put_credential}
use adtp.Audit.{AuditEntry}
use adtp.Api.Handlers.{refuse_if}

abbrev pub IsFailure : Response → Type 0
IsFailure (failure status code) = Unit
IsFailure _ = ⊥

-- Whatever the state, the call's early returns are failures.
pub record OnlyFails {T : Type 0} (m : Handled T) : Type 0 where
  pub early : (d d' : Daemon) (r : Response) → m d ≡ (d', err r) → IsFailure r

moved : {r r' : Response} → r ≡ r' → IsFailure r → IsFailure r'
moved q h = subst IsFailure q h

module _ {T : Type 0} where
  err-inj : {r r' : Response} → ◌≡◌ {A = Result Response T} (err r) (err r') → r ≡ r'
  err-inj q = cc

  -- The failure of a result, whatever its cause.
  abbrev pub Answered : Result Response T → Type 0
  Answered x = (r : Response) → x ≡ err r → IsFailure r

  pub lift-OnlyFails : (x : Result Response T) → Answered x → OnlyFails (lift x)
  unfolding lift
  lift-OnlyFails x h = record { early = λ d d' r q. h r (ap (λ p. p.1) q) }

  pub reading-OnlyFails :
      (f : Daemon → Result Response T) → ((d : Daemon) → Answered (f d)) → OnlyFails (reading f)
  unfolding reading
  reading-OnlyFails f h = record { early = λ d d' r q. h d r (ap (λ p. p.1) q) }

  pub pure-OnlyFails : (t : T) → OnlyFails (pure t)
  unfolding pure
  pure-OnlyFails t = record { early = λ d d' r q. cc }

  pub map_err-Answered :
      {E : Type 0} (r : Response) (x : Result E T) → IsFailure r → Answered (map_err (λ _. r) x)
  map_err-Answered r (ok t) f r' q = cc
  map_err-Answered r (err e) f r' q = moved (err-inj q) f

  pub ok_or-Answered : (r : Response) (o : Option T) → IsFailure r → Answered (ok_or r o)
  ok_or-Answered r (some t) f r' q = cc
  ok_or-Answered r none f r' q = moved (err-inj q) f

  pub or_respond-OnlyFails :
      {E : Type 0} (r : Response) (call : Steps Daemon E T)
      → IsFailure r
      → OnlyFails (or_respond r call)
  unfolding or_respond
  or_respond-OnlyFails r call f = record {
    early = λ d d' r' q. map_err-Answered r (call d).1 f r' (ap (λ p. p.1) q);
  }

  -- A call that always succeeds.
  pub total-OnlyFails : (m : Handled T) → ((d : Daemon) → (t : T) × ((m d).1 ≡ ok t)) → OnlyFails m
  total-OnlyFails m h = record {
    early = λ d d' r q. let (t, p) = h d in absurd (err-ne-ok (sym (ap (λ x. x.1) q) ∙ p));
  }

pub fail_if-Answered :
    (test : Bool) (r : Response)
    → IsFailure r
    → (r' : Response) → fail_if test r ≡ err r'
    → IsFailure r'
fail_if-Answered true r f r' q = moved (err-inj q) f
fail_if-Answered false r f r' q = cc

module _ {S T : Type 0} (m : Handled S) (f : S → Handled T) where
  -- The two calls, with what the first one gave.
  bound :
      (d' : Daemon) (r : Response) (mid : Daemon × Result Response S) (d : Daemon)
      → OnlyFails m
      → ((s : S) → OnlyFails (f s))
      → m d ≡ mid
      → (m >>= f) d ≡ (d', err r)
      → IsFailure r
  bound d' r (n, ok s) d hm hf q h = (hf s).early n d' r (sym (>>=-ok m f q) ∙ h)
  bound d' r (n, err e) d hm hf q h =
      moved (err-inj (ap (λ x. x.1) (sym (>>=-err m f q) ∙ h))) (hm.early d n e q)

  pub >>=-OnlyFails : OnlyFails m → ((s : S) → OnlyFails (f s)) → OnlyFails (m >>= f)
  >>=-OnlyFails hm hf = record { early = λ d d' r h. bound d' r (m d) d hm hf refl h }

-- A response that is no failure is the handler's last.
pub written-ok :
    (x : Daemon × Result Response Response) {d' : Daemon} {r : Response}
    → ((e : Response) → x.1 ≡ err e → IsFailure e)
    → ¬ IsFailure r
    → written x ≡ (d', r)
    → x ≡ (d', ok r)
unfolding written
written-ok (d, ok a) h n q = ap (λ p. (p.0, ok p.1)) q
written-ok (d, err e) h n q = absurd (n (moved (ap (λ p. p.1) q) (h e refl)))

pub note-OnlyFails :
    (env : Env) (logged : ℕ → ℤ) (entry : AuditEntry) → OnlyFails (note env logged entry)
unfolding note
note-OnlyFails env logged entry = total-OnlyFails _ (λ d. (tt, refl))

pub register-OnlyFails : (cid : Text) (cids : List Text) → OnlyFails (register cid cids)
unfolding register
register-OnlyFails cid cids = total-OnlyFails _ (λ d. (tt, refl))

pub put_credential-OnlyFails : (env : Env) (raw : Text) → OnlyFails (put_credential env raw)
unfolding put_credential
put_credential-OnlyFails env raw = total-OnlyFails _ (λ d. (_, refl))

lifted :
    {T : Type 0} (t : T) (d : Daemon)
    → ◌≡◌ {A = Daemon × Result Response T} (lift (ok t) d) (d, ok t)
unfolding lift
lifted t d = refl

-- The handler of a decoded request: a response of success is the one that the rest ends with.
pub decoded-ok :
    {T : Type 0} (rest : T → Handled Response) (req : T) (d : Daemon) {d' : Daemon} {r : Response}
    → OnlyFails (rest req)
    → ¬ IsFailure r
    → written ((lift (read_json (decoded req)) >>= rest) d) ≡ (d', r)
    → rest req d ≡ (d', ok r)
unfolding read_json
decoded-ok rest req d early n h =
    written-ok (rest req d)
      (λ e q. early.early d (rest req d).0 e (ap (λ x. ((rest req d).0, x)) q)) n
      (ap written (sym (>>=-ok (lift (ok req)) rest (lifted req d))) ∙ h)

pub refuse_if-eq-ok :
    (test : Bool) (r : Response) {d d' : Daemon} {u : Unit {0}}
    → refuse_if test r d ≡ (d', ok u)
    → (d ≡ d') × (test ≡ false)
unfolding refuse_if
refuse_if-eq-ok test r h =
    let (same, q) = lift-eq-ok (fail_if test r) h in (same, fail_if-eq-ok test r q)
