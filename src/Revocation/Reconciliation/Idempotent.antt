-- ===== src/Revocation/Reconciliation/Idempotent.antt =====
-- Reconcile as a whole: what it leaves, and that a second pass repairs nothing.
use adtp.Prelude.{
  ◌≡◌, sym, ap, ap₂, subst, ◌∙◌, ◌↔◌, ◌⊎◌, inr, Bool, true, List, arith, Text, ok, length, Occurs,
  ok_inj,
}
use adtp.Prelude.Steps.{◌>>◌, pure, reading, >>=-eq-ok, pure-eq-ok, reading-eq-ok}
use adtp.Delegation.{Codecs}
use adtp.Revocation.Reconciliation.{
  ReconcileServices, ReconciliationReport, empty_report, walk_credentials, walked, noted, reconcile,
}
use adtp.Revocation.Reconciliation.Links.{KeepsLinks, Round, InBuilt}
use adtp.Revocation.Reconciliation.Walk.{failures, walk-Round, walk-still}

same_bool : (x y : Bool) → (x ≡ true) ↔ ((y ≡ true) ⊎ ⊥) → x ≡ y
same_bool x y h = ground arith

same_report :
    (x y : ReconciliationReport)
    → x.credentials_walked ≡ y.credentials_walked
    → x.repairs_applied ≡ y.repairs_applied
    → x.errors ≡ y.errors
    → x ≡ y
same_report x y p q h =
    ap₂ (λ n m. record { credentials_walked = n; repairs_applied = m; errors = x.errors }) p q
    ∙ ap (λ n. record y { errors = n }) h

module _ {S E : Type 0} (services : ReconcileServices S E) (keeps : KeepsLinks services)
    (codecs : Codecs) where
  -- The calls of a pass that returns a report.
  record Passes (s s' : S) (r : ReconciliationReport) : Type 0 where
    cids : List Text
    after : S
    lists : services.list_credentials s ≡ ok cids
    walks : walk_credentials services codecs cids (s, empty_report) ≡ (after, r)
    notes : noted services codecs r after ≡ (s', ok tt)

  walked-eq-ok :
      (cids : List Text) (s s' : S) {r : ReconciliationReport}
      → walked services codecs cids s ≡ (s', ok r)
      → walk_credentials services codecs cids (s, empty_report) ≡ (s', r)
  unfolding walked
  walked-eq-ok cids s s' h = ap₂ (λ t x. (t, x)) (ap (λ p. p.0) h) (ok_inj (ap (λ p. p.1) h))

  reconcile-Passes :
      (s s' : S) (r : ReconciliationReport)
      → reconcile services codecs s ≡ (s', ok r)
      → Passes s s' r
  unfolding reconcile
  reconcile-Passes s s' r h =
      let read = >>=-eq-ok (reading services.list_credentials) _ h in
      let walk =
        >>=-eq-ok (walked services codecs read.value) (λ x. noted services codecs x >> pure x)
          read.then in
      let note = >>=-eq-ok (noted services codecs walk.value) (λ _. pure walk.value) walk.then in
      let (still, found) = reading-eq-ok services.list_credentials read.first in
      let (end, out) = pure-eq-ok {E = E} walk.value note.then in
      record {
        cids = read.value;
        after = walk.middle;
        lists = found;
        walks =
            ap (λ t. walk_credentials services codecs read.value (t, empty_report)) still
            ∙ walked-eq-ok read.value read.middle walk.middle walk.first
            ∙ ap (λ x. (walk.middle, x)) out;
        notes =
            ap (λ x. noted services codecs x walk.middle) (sym out)
            ∙ note.first
            ∙ ap (λ t. (t, ok tt)) end;
      }

  -- What a pass leaves.
  pub record Reconciled (s s' : S) (r : ReconciliationReport) (cids : List Text) : Type 0 where
    pub lists : services.list_credentials s ≡ ok cids
    pub links :
        (a b : Text)
        → (services.contains s' a b ≡ true) ↔ (
            (services.contains s a b ≡ true)
            ⊎ (Occurs a cids × InBuilt codecs (services.get s) a b))
    pub walks : r.credentials_walked ≡ length cids
    pub fails : r.errors ≡ failures services keeps codecs (services.get s) cids
    pub same_get : services.get s' ≡ services.get s
    pub same_list : services.list_credentials s' ≡ services.list_credentials s

  Passes-Reconciled :
      (s s' : S) (r : ReconciliationReport) (p : Passes s s' r) → Reconciled s s' r p.cids
  Passes-Reconciled s s' r p =
      let round =
        subst
          (Round services (λ a b. Occurs a p.cids × InBuilt codecs (services.get s) a b)
            (failures services keeps codecs (services.get s) p.cids) (length p.cids) s empty_report)
          p.walks (walk-Round services keeps codecs p.cids s empty_report) in
      let note = keeps.appends codecs r p.notes in
      record {
        lists = p.lists;
        links = λ a b. ground (arith, round.linking.links a b, note.links a b);
        walks = round.walks ∙ omega arith;
        fails = round.errors ∙ omega arith;
        same_get = note.same_get ∙ round.linking.same_get;
        same_list = note.same_list ∙ round.linking.same_list;
      }

  -- When Reconcile returns a report, the index contains exactly the links that it had and, for each listed
  -- credential that has a chain in the store, a link to each element of the chain; the report counts all
  -- listed credentials, and as errors those that have no chain. (Register is assumed not to fail, and a note in the
  -- audit log to change neither the index nor the store, as in memory.)
  pub reconcile-Reconciled :
      (s s' : S) (r : ReconciliationReport)
      → reconcile services codecs s ≡ (s', ok r)
      → (cids : List Text) × Reconciled s s' r cids
  reconcile-Reconciled s s' r h =
      let p = reconcile-Passes s s' r h in (p.cids, Passes-Reconciled s s' r p)

  -- A second pass over a reconciled index returns the first report with no repairs, and leaves the index
  -- as it is.
  pub reconcile_idempotent :
      (s s₁ s₂ : S) (r₁ r₂ : ReconciliationReport)
      → reconcile services codecs s ≡ (s₁, ok r₁)
      → reconcile services codecs s₁ ≡ (s₂, ok r₂)
      → (r₂ ≡ record r₁ { repairs_applied = 0 })
        × ((a b : Text) → services.contains s₂ a b ≡ services.contains s₁ a b)
  reconcile_idempotent s s₁ s₂ r₁ r₂ h k =
      let p = reconcile-Passes s s₁ r₁ h in
      let q = reconcile-Passes s₁ s₂ r₂ k in
      let f = Passes-Reconciled s s₁ r₁ p in
      let g = Passes-Reconciled s₁ s₂ r₂ q in
      let cids : p.cids ≡ q.cids = ok_inj (sym f.lists ∙ sym f.same_list ∙ g.lists) in
      let complete : (a b : Text)
          → Occurs a q.cids
          → InBuilt codecs (services.get s₁) a b
          → services.contains s₁ a b ≡ true =
        λ a b o i. (f.links a b).1 (
          inr
            (subst (Occurs a) (sym cids) o, subst (λ get. InBuilt codecs get a b) f.same_get i)) in
      let (t, walk, none) = walk-still services keeps codecs q.cids s₁ empty_report complete in
      let state = ap (λ x. x.0) (sym q.walks ∙ walk) in
      let report : r₂ ≡ t = ap (λ x. x.1) (sym q.walks ∙ walk) in
      (
        same_report r₂ (record r₁ { repairs_applied = 0 })
            (g.walks ∙ ap length (sym cids) ∙ sym f.walks)
            (ap (λ x. x.repairs_applied) report ∙ none)
            (g.fails ∙ ap₂ (failures services keeps codecs) f.same_get (sym cids) ∙ sym f.fails),
        λ a b.
            same_bool (services.contains s₂ a b) (services.contains q.after a b)
              ((keeps.appends codecs r₂ q.notes).links a b)
            ∙ ap (λ x. services.contains x a b) state,
      )
