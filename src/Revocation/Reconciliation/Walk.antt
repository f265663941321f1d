-- ===== src/Revocation/Reconciliation/Walk.antt =====
-- The walk of a reconciliation, element by element and credential by credential.
use adtp.Prelude.{
  ℕ, suc, ◌+◌, ◌≡◌, refl, sym, ap, ap₂, subst, ◌∙◌, inl, inr, true, List, [], ◌∷◌, arith, Text,
  Text-eq, Bool-cases, Result, ok, err, pos, length, Occurs,
}
use adtp.Delegation.{Codecs, ProofStore, Chain, ChainErr, ChainElement, build_chain, hard_max_depth}
use adtp.Revocation.Reconciliation.{
  ReconcileServices, ReconciliationReport, count_error, counted, repair_elements, repair_chain,
  walk_credentials,
}
use adtp.Revocation.Reconciliation.Links.{
  InChain, InBuilt, built-ok, built-err, Linking, KeepsLinks, nothing, both, Round,
}

module _ {S E : Type 0} (services : ReconcileServices S E) where
  module _ (keeps : KeepsLinks services) where
    -- One element: the link is there already, or it is registered.
    record One (cid : Text) (e : ChainElement) (es : List ChainElement) (s : S)
        (r : ReconciliationReport) : Type 0 where
      after : S
      report : ReconciliationReport
      goes_on :
          repair_elements services cid (e ∷ es) (s, r)
          ≡ repair_elements services cid es (after, report)
      errors : report.errors ≡ r.errors
      walks : report.credentials_walked ≡ r.credentials_walked
      linking : Linking services (λ a b. (a ≡ cid) × (b ≡ e.cid)) s after

    repair-One :
        (cid : Text) (e : ChainElement) (es : List ChainElement) (s : S) (r : ReconciliationReport)
        → One cid e es s r
    unfolding repair_elements counted
    repair-One cid e es s r = elim (Bool-cases (services.contains s cid e.cid)) [
      | inl there ↦ record {
        after = s;
        report = r;
        goes_on = rw there refl;
        errors = refl;
        walks = refl;
        linking = nothing services _ s (λ a b n. ap₂ (services.contains s) n.0 n.1 ∙ there);
      }
      | inr missing ↦
          let (m, q, l) = keeps.registers cid (e.cid ∷ []) s in
          record {
            after = m;
            report = record r { repairs_applied = suc r.repairs_applied };
            goes_on = rw missing (rw q refl);
            errors = refl;
            walks = refl;
            linking =
                both services _ (λ _ _. ⊥) _ s m m l (nothing services _ m (λ a b n. absurd n))
                  (λ a b. ground arith);
          }
    ]

    repair_elements-Round :
        (cid : Text) (es : List ChainElement) (s : S) (r : ReconciliationReport)
        → Round services
            (λ a b. (a ≡ cid) × InChain b es)
            0
            0
            s
            r
            (repair_elements services cid es (s, r))
    unfolding repair_elements
    repair_elements-Round cid [] s r = record {
      linking = nothing services _ s (λ a b n. absurd n.1);
      errors = omega arith;
      walks = omega arith;
    }
    repair_elements-Round cid (e ∷ es) s r =
        let one = repair-One cid e es s r in
        let rest = repair_elements-Round cid es one.after one.report in
        subst (Round services (λ a b. (a ≡ cid) × InChain b (e ∷ es)) 0 0 s r) (sym one.goes_on)
          (record {
            linking =
                both services _ _ _ s one.after _ one.linking rest.linking (λ a b. ground arith);
            errors = rest.errors ∙ ap (λ n. n + 0) one.errors;
            walks = rest.walks ∙ ap (λ n. n + 0) one.walks;
          })

    module _ (codecs : Codecs) where
      -- How many of the credentials have no chain.
      failed : Result ChainErr Chain → ℕ
      failed (ok _) = 0
      failed (err _) = 1

      pub failures : ProofStore → List Text → ℕ
      unfolding failed
      failures get [] = 0
      failures get (cid ∷ cids) =
          failed (build_chain codecs get cid (pos hard_max_depth)) + failures get cids

      repair_chain-Round :
          (cid : Text) (s : S) (r : ReconciliationReport) (built : Result ChainErr Chain)
          → build_chain codecs (services.get s) cid (pos hard_max_depth) ≡ built
          → Round services
              (λ a b. (a ≡ cid) × InBuilt codecs (services.get s) a b)
              (failed built)
              0
              s
              r
              (repair_chain services cid s r built)
      unfolding repair_chain count_error failed
      repair_chain-Round cid s r (err e) q = record {
        linking =
            nothing services _ s
              (λ a b n. absurd (built-err codecs (services.get s) cid a b e q n));
        errors = omega arith;
        walks = omega arith;
      }
      repair_chain-Round cid s r (ok chain) q =
          let round = repair_elements-Round cid chain.elements s r in
          record {
            linking =
                both services _ (λ _ _. ⊥) _ s _ _ round.linking
                  (nothing services _ _ (λ a b n. absurd n))
                  (λ a b. ground (arith, built-ok codecs (services.get s) cid a b chain q));
            errors = round.errors;
            walks = round.walks;
          }

      -- The round of one credential, and then those of the others.
      walk-cons :
          (cid : Text) (cids : List Text) (s m : S) (r t : ReconciliationReport) (n : ℕ)
          (end : S × ReconciliationReport)
          → Round services
              (λ a b. (a ≡ cid) × InBuilt codecs (services.get s) a b)
              n
              0
              s
              (record r { credentials_walked = suc r.credentials_walked })
              (m, t)
          → Round services
              (λ a b. Occurs a cids × InBuilt codecs (services.get m) a b)
              (failures (services.get m) cids)
              (length cids)
              m
              t
              end
          → Round services
              (λ a b. Occurs a (cid ∷ cids) × InBuilt codecs (services.get s) a b)
              (n + failures (services.get s) cids)
              (suc (length cids))
              s
              r
              end
      walk-cons cid cids s m r t n end f g =
          let g' =
            subst
              (λ get.
                Round services (λ a b. Occurs a cids × InBuilt codecs get a b) (failures get cids)
                  (length cids) m t end)
              f.linking.same_get g in
          record {
            linking = both services _ _ _ s m _ f.linking g'.linking (λ a b. ground arith);
            errors = omega (arith, g'.errors, f.errors);
            walks = omega (arith, g'.walks, f.walks);
          }

      pub walk-Round :
          (cids : List Text) (s : S) (r : ReconciliationReport)
          → Round services
              (λ a b. Occurs a cids × InBuilt codecs (services.get s) a b)
              (failures (services.get s) cids)
              (length cids)
              s
              r
              (walk_credentials services codecs cids (s, r))
      unfolding walk_credentials failures
      walk-Round [] s r = record {
        linking = nothing services _ s (λ a b n. absurd n.0);
        errors = omega arith;
        walks = omega arith;
      }
      walk-Round (cid ∷ cids) s r =
          let built = build_chain codecs (services.get s) cid (pos hard_max_depth) in
          let r' = record r { credentials_walked = suc r.credentials_walked } in
          let first = repair_chain-Round cid s r' built refl in
          let (m, t) = repair_chain services cid s r' built in
          walk-cons cid cids s m r t (failed built) (walk_credentials services codecs cids (m, t))
            first (walk-Round cids m t)

      -- A walk that finds every link in its place changes nothing services and counts no repair.
      repair_elements-still :
          (cid : Text) (es : List ChainElement) (s : S) (r : ReconciliationReport)
          → ((b : Text) → InChain b es → services.contains s cid b ≡ true)
          → repair_elements services cid es (s, r) ≡ (s, r)
      unfolding repair_elements
      repair_elements-still cid [] s r h = refl
      repair_elements-still cid (e ∷ es) s r h =
          rw (h e.cid (inl refl)) (repair_elements-still cid es s r (λ b i. h b (inr i)))

      repair_chain-still :
          (cid : Text) (s : S) (r : ReconciliationReport) (built : Result ChainErr Chain)
          → build_chain codecs (services.get s) cid (pos hard_max_depth) ≡ built
          → ((b : Text) → InBuilt codecs (services.get s) cid b → services.contains s cid b ≡ true)
          → (t : ReconciliationReport) × (repair_chain services cid s r built ≡ (s, t))
            × (t.repairs_applied ≡ r.repairs_applied)
      unfolding repair_chain count_error
      repair_chain-still cid s r (err e) q h = (record r { errors = suc r.errors }, refl, refl)
      repair_chain-still cid s r (ok chain) q h =
          (r, repair_elements-still cid chain.elements s r (λ b i. h b (chain, q, i)), refl)

      pub walk-still :
          (cids : List Text) (s : S) (r : ReconciliationReport)
          → ((a b : Text)
              → Occurs a cids
              → InBuilt codecs (services.get s) a b
              → services.contains s a b ≡ true)
          → (t : ReconciliationReport) × (walk_credentials services codecs cids (s, r) ≡ (s, t))
            × (t.repairs_applied ≡ r.repairs_applied)
      unfolding walk_credentials
      walk-still [] s r h = (r, refl, refl)
      walk-still (cid ∷ cids) s r h =
          let (t, q, n) =
            repair_chain-still cid s (record r { credentials_walked = suc r.credentials_walked })
              (build_chain codecs (services.get s) cid (pos hard_max_depth)) refl
              (λ b i. h cid b (inl refl) i) in
          let (u, q', n') = walk-still cids s t (λ a b o i. h a b (inr o) i) in
          (u, ap (walk_credentials services codecs cids) q ∙ q', n' ∙ n)
