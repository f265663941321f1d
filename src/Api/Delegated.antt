-- ===== src/Api/Delegated.antt =====
-- What a delegation that POST /v1/delegations answers with success leaves in the daemon.
use adtp.Prelude.{
  ◌≡◌, sym, ap, subst, ◌∙◌, some, [], Text, ok, map_err, map_err-eq-ok, ok_or-eq-ok, Occurs,
}
use adtp.Prelude.Steps.{lift, reading, >>=-eq-ok, lift-eq-ok, reading-eq-ok, pure-eq-ok}
use adtp.Credential.Restrict.{RestrictBlock, DelegationParent, create_restrict_block}
use adtp.Credential.Cid.{compute_cid}
use adtp.Delegation.{Chain, build_chain}
use adtp.Identity.KeyStore
use adtp.Revocation.Registration.Links.{Linked}
use adtp.Api.Messages.{
  DelegateRequest, decoded, delegation_issued, failure, bad_request, code_denied,
}
use adtp.Api.Service.{Env, Service, Daemon, Draws, proofs, put_credential, register, note}
use adtp.Api.Handlers.{
  refuse_if, parent_ref, chain_cids, store_and_register, new_block, delegating, handle_delegate,
}
use adtp.Api.Kept.{
  index_of, proofs-same, put_credential-keeps, put_credential-stored, put_credential-addressed,
  register-links, note-keeps,
}
use adtp.Api.Outcome.{
  OnlyFails, decoded-ok, refuse_if-eq-ok, >>=-OnlyFails, lift-OnlyFails, reading-OnlyFails,
  pure-OnlyFails, fail_if-Answered, map_err-Answered, ok_or-Answered, note-OnlyFails,
  register-OnlyFails, put_credential-OnlyFails,
}

issued_inj :
    {a b a' b' : Text} → delegation_issued a b ≡ delegation_issued a' b' → (a ≡ a') × (b ≡ b')
issued_inj h = (cc, cc)

module _ (env : Env) (svc : Service) (draws : Draws) where
  -- The text is stored under its CID, and the chain of this CID is built and registered.
  pub record Registered (raw cid : Text) (d d' : Daemon) : Type 0 where
    pub addressed : compute_cid env.world.codecs.crypto.sha256 raw ≡ cid
    pub stored : proofs d' cid ≡ some raw
    pub chain : Chain
    pub built :
        build_chain env.world.codecs (proofs d') cid svc.config.verify.max_chain_depth ≡ ok chain
    pub registered : (c : Text) → Occurs c (chain_cids chain) → Linked (index_of d') cid c
    pub kept : (a b : Text) → Linked (index_of d) a b → Linked (index_of d') a b

  store_and_register-Registered :
      (raw cid : Text) (d d' : Daemon)
      → store_and_register env svc draws raw d ≡ (d', ok cid)
      → Registered raw cid d d'
  unfolding store_and_register
  store_and_register-Registered raw cid d d' h =
      let put = >>=-eq-ok (put_credential env raw) _ h in
      let read = >>=-eq-ok (reading _) _ put.then in
      let (same, built) = reading-eq-ok _ read.first in
      let set = >>=-eq-ok (register put.value (chain_cids read.value)) _ read.then in
      let noted = >>=-eq-ok (note env draws.logged _) _ set.then in
      let (end, named) = pure-eq-ok put.value noted.then in
      let (creds, links) = register-links put.value (chain_cids read.value) _ _ set.first in
      let (creds', index') = note-keeps env draws.logged _ _ _ noted.first in
      let index : index_of set.middle ≡ index_of d' = index' ∙ ap index_of end in
      let start : index_of d ≡ index_of read.middle =
        put_credential-keeps env raw put.value d put.middle put.first ∙ ap index_of same in
      let texts : put.middle.store.credentials ≡ d'.store.credentials =
        ap (λ t. t.store.credentials) same ∙ creds ∙ creds' ∙ ap (λ t. t.store.credentials) end in
      let depth = svc.config.verify.max_chain_depth in
      let under = put_credential-stored env raw put.value d put.middle put.first in
      record {
        addressed = put_credential-addressed env raw put.value d put.middle put.first ∙ named;
        stored =
            ap (λ s. s cid) (sym (proofs-same put.middle d' texts))
            ∙ ap (proofs put.middle) (sym named)
            ∙ under;
        chain = read.value;
        built =
            ap (λ c. build_chain env.world.codecs (proofs d') c depth) (sym named)
            ∙ ap (λ s. build_chain env.world.codecs s put.value depth)
                (sym (proofs-same put.middle d' texts))
            ∙ map_err-eq-ok (λ _. bad_request) _ built;
        registered = λ c o.
            subst (λ i. Linked i cid c) index
              (subst (λ a. Linked (index_of set.middle) a c) named ((links cid c).1 o));
        kept = λ a b l.
            subst (λ i. Linked i a b) index ((links a b).0 (subst (λ i. Linked i a b) start l));
      }

  -- The block and its parent, before the block is stored.
  pub record Issued (req : DelegateRequest) (raw : Text) (d : Daemon) : Type 0 where
    pub parent_raw : Text
    pub parent : DelegationParent
    pub delegator : Text
    pub key : Text
    pub block : RestrictBlock
    pub found : proofs d req.parent_cid ≡ some parent_raw
    pub derived : parent_ref env.world.codecs parent_raw req.parent_cid ≡ some (parent, delegator)
    pub held : KeyStore.load d.keys delegator ≡ ok key
    pub made :
        create_restrict_block env.world.codecs.crypto env.world.codecs.blocks parent
          req.audience_did req.depth_left req.caveats key
        ≡ ok (block, raw)

  new_block-Issued :
      (req : DelegateRequest) (parent_raw raw : Text) (d d' : Daemon)
      → proofs d req.parent_cid ≡ some parent_raw
      → new_block env svc draws req parent_raw d ≡ (d', ok raw)
      → (d ≡ d') × Issued req raw d
  unfolding new_block
  new_block-Issued req parent_raw raw d d' found h =
      let derived = >>=-eq-ok (lift _) _ h in
      let (s0, p0) = lift-eq-ok _ derived.first in
      let held = >>=-eq-ok (reading _) _ derived.then in
      let (s1, p1) = reading-eq-ok _ held.first in
      let made = >>=-eq-ok (lift _) _ held.then in
      let (s2, p2) = lift-eq-ok _ made.first in
      let (end, named) = pure-eq-ok _ made.then in
      (
        s0 ∙ s1 ∙ s2 ∙ end,
        record {
          parent_raw = parent_raw;
          parent = derived.value.0;
          delegator = derived.value.1;
          key = held.value;
          block = made.value.0;
          found = found;
          derived = ok_or-eq-ok (failure 400 code_denied) _ p0;
          held =
              map_err-eq-ok (λ _. failure 403 code_denied) _
                (ap
                    (λ t.
                      map_err (λ _. failure 403 code_denied) (KeyStore.load t.keys derived.value.1))
                    s0
                  ∙ p1);
          made = map_err-eq-ok (λ _. bad_request) _ p2 ∙ ap (λ x. ok (made.value.0, x)) named;
        },
      )

  store_and_register-OnlyFails : (raw : Text) → OnlyFails (store_and_register env svc draws raw)
  unfolding store_and_register
  store_and_register-OnlyFails raw = >>=-OnlyFails _ _ (put_credential-OnlyFails env raw) (λ cid.
      >>=-OnlyFails _ _ (reading-OnlyFails _ (λ d. map_err-Answered bad_request _ tt)) (λ chain.
        >>=-OnlyFails _ _ (register-OnlyFails cid (chain_cids chain))
          (λ _. >>=-OnlyFails _ _ (note-OnlyFails env draws.logged _) (λ _. pure-OnlyFails cid))))

  new_block-OnlyFails :
      (req : DelegateRequest) (raw : Text) → OnlyFails (new_block env svc draws req raw)
  unfolding new_block
  new_block-OnlyFails req raw =
      >>=-OnlyFails _ _ (lift-OnlyFails _ (ok_or-Answered (failure 400 code_denied) _ tt))
        (λ parent.
          >>=-OnlyFails _ _
            (reading-OnlyFails _ (λ d. map_err-Answered (failure 403 code_denied) _ tt))
            (λ key.
              >>=-OnlyFails _ _ (lift-OnlyFails _ (map_err-Answered bad_request _ tt))
                (λ made. pure-OnlyFails _)))

  delegating-OnlyFails : (req : DelegateRequest) → OnlyFails (delegating env svc draws req)
  unfolding delegating refuse_if
  delegating-OnlyFails req =
      >>=-OnlyFails _ _ (lift-OnlyFails _ (fail_if-Answered _ bad_request tt)) (λ _.
        >>=-OnlyFails _ _ (reading-OnlyFails _ (λ d. ok_or-Answered (failure 404 []) _ tt))
          (λ parent_raw. >>=-OnlyFails _ _ (new_block-OnlyFails req parent_raw) (λ raw.
            >>=-OnlyFails _ _ (store_and_register-OnlyFails raw) (λ cid. pure-OnlyFails _))))

  pub handle_delegate-Issued :
      (req : DelegateRequest) (d d' : Daemon) (cid shown : Text)
      → handle_delegate env svc draws (decoded req) d ≡ (d', delegation_issued cid shown)
      → (raw : Text) × (shown ≡ env.world.codecs.crypto.b64_encode raw)
        × Issued req raw d
        × Registered raw cid d d'
  unfolding handle_delegate delegating
  handle_delegate-Issued req d d' cid shown h =
      let ended =
        decoded-ok (delegating env svc draws) req d (delegating-OnlyFails req) (λ f. absurd f) h in
      let named = >>=-eq-ok (refuse_if _ bad_request) _ ended in
      let (s0, _) = refuse_if-eq-ok _ bad_request named.first in
      let parent = >>=-eq-ok (reading _) _ named.then in
      let (s1, p1) = reading-eq-ok _ parent.first in
      let block = >>=-eq-ok (new_block env svc draws req parent.value) _ parent.then in
      let (s2, issued) =
        new_block-Issued req parent.value block.value parent.middle block.middle
          (ap (λ t. proofs t req.parent_cid) (sym s1) ∙ ok_or-eq-ok (failure 404 []) _ p1)
          block.first in
      let set = >>=-eq-ok (store_and_register env svc draws block.value) _ block.then in
      let (end, answer) = pure-eq-ok _ set.then in
      let start : d ≡ parent.middle = s0 ∙ s1 in
      let stored : store_and_register env svc draws block.value d ≡ (d', ok set.value) =
        ap (store_and_register env svc draws block.value) (start ∙ s2)
        ∙ set.first
        ∙ ap (λ t. (t, ok set.value)) end in
      (
        block.value,
        sym (issued_inj answer).1,
        subst (Issued req block.value) (sym start) issued,
        store_and_register-Registered block.value cid d d'
            (stored ∙ ap (λ c. (d', ok c)) (issued_inj answer).0),
      )
