-- ===== src/Revocation/Reconciliation/Links.antt =====
-- What a reconciliation may add to the registration index, and what its services must keep.
use adtp.Prelude.{
  err-ne-ok, ℕ, ◌+◌, ◌≡◌, refl, sym, ap, subst, ◌∙◌, ◌↔◌, ◌⊎◌, inl, inr, true, List, [], ◌∷◌, arith,
  Text, Text-eq, ok, err, pos, Occurs, ok_inj,
}
use adtp.Delegation.{Codecs, ProofStore, Chain, ChainErr, ChainElement, build_chain, hard_max_depth}
use adtp.Revocation.Reconciliation.{ReconcileServices, ReconciliationReport, noted}

-- `cid` is the CID of an element.
abbrev pub InChain : Text → List ChainElement → Type 0
InChain cid [] = ⊥
InChain cid (e ∷ es) = (cid ≡ e.cid) ⊎ InChain cid es

-- The chain that `cid` has in the store contains `above`.
abbrev pub InBuilt : Codecs → ProofStore → Text → Text → Type 0
InBuilt codecs get cid above =
    (chain : Chain) × (build_chain codecs get cid (pos hard_max_depth) ≡ ok chain)
    × InChain above chain.elements

pub built-ok :
    (codecs : Codecs) (get : ProofStore) (cid a b : Text) (chain : Chain)
    → build_chain codecs get cid (pos hard_max_depth) ≡ ok chain
    → ((a ≡ cid) × InBuilt codecs get a b) ↔ ((a ≡ cid) × InChain b chain.elements)
built-ok codecs get cid a b chain q = (
  λ (same, (other, q', i)). (
    same,
    subst (λ c. InChain b c.elements)
        (ok_inj (sym q' ∙ ap (λ x. build_chain codecs get x (pos hard_max_depth)) same ∙ q)) i,
  ),
  λ (same, i). (same, (chain, ap (λ x. build_chain codecs get x (pos hard_max_depth)) same ∙ q, i)),
)

pub built-err :
    (codecs : Codecs) (get : ProofStore) (cid a b : Text) (e : ChainErr)
    → build_chain codecs get cid (pos hard_max_depth) ≡ err e
    → ¬ ((a ≡ cid) × InBuilt codecs get a b)
built-err codecs get cid a b e q (same, (other, q', i)) =
    err-ne-ok (sym (ap (λ x. build_chain codecs get x (pos hard_max_depth)) same ∙ q) ∙ q')

module _ {S E : Type 0} (services : ReconcileServices S E) where
  -- Exactly the links that `New` says have been added, and nothing else that the walk reads has changed.
  pub record Linking (New : Text → Text → Type 0) (s s' : S) : Type 0 where
    pub links :
        (a b : Text)
        → (services.contains s' a b ≡ true) ↔ ((services.contains s a b ≡ true) ⊎ New a b)
    pub same_get : services.get s' ≡ services.get s
    pub same_list : services.list_credentials s' ≡ services.list_credentials s

  -- Register never fails and adds what it is given; a note in the audit log changes nothing here.
  pub record KeepsLinks : Type 0 where
    pub registers :
        (cid : Text) (cs : List Text) (s : S)
        → (s' : S) × (services.register cid cs s ≡ (s', ok tt))
          × Linking (λ a b. (a ≡ cid) × Occurs b cs) s s'
    pub appends :
        (codecs : Codecs) (r : ReconciliationReport) {s s' : S}
        → noted services codecs r s ≡ (s', ok tt)
        → Linking (λ _ _. ⊥) s s'

  pub nothing :
      (New : Text → Text → Type 0) (s : S)
      → ((a b : Text) → New a b → services.contains s a b ≡ true)
      → Linking New s s
  nothing New s h = record {
    links = λ a b. (λ l. inl l, λ o. elim o [ inl l ↦ l | inr n ↦ h a b n ]);
    same_get = refl;
    same_list = refl;
  }

  pub both :
      (New₁ New₂ New : Text → Text → Type 0) (s m s' : S)
      → Linking New₁ s m
      → Linking New₂ m s'
      → ((a b : Text) → New a b ↔ (New₁ a b ⊎ New₂ a b))
      → Linking New s s'
  both New₁ New₂ New s m s' f g h = record {
    links = λ a b. ground (arith, f.links a b, g.links a b, h a b);
    same_get = g.same_get ∙ f.same_get;
    same_list = g.same_list ∙ f.same_list;
  }

  -- What a part of the walk does: the links that it adds, and how the counters move.
  pub record Round (New : Text → Text → Type 0) (failed passed : ℕ) (s : S)
      (r : ReconciliationReport) (end : S × ReconciliationReport) : Type 0 where
    pub linking : Linking New s end.0
    pub errors : end.1.errors ≡ r.errors + failed
    pub walks : end.1.credentials_walked ≡ r.credentials_walked + passed
