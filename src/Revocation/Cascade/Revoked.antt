-- ===== src/Revocation/Cascade/Revoked.antt =====
-- What GetStatus says after a cascade, for services that keep a revocation cache and a registration index.
use adtp.Prelude.{
  ℕ, ◌≡◌, ◌≢◌, refl, sym, subst, ◌∙◌, Option, some, Text, Text-eq, ok, ok_inj, ℤ, lookup, Occurs,
}
use adtp.Signing.{Crypto}
use adtp.Revocation.Authority.{RevocationStatus, compromised, cascade, reinstated}
use adtp.Revocation.Entry.{RevocationEntry, EntryCodec}
use adtp.Revocation.Cache.{MemoryRevocationCache, get_status, get_status-same, get_status-stands}
use adtp.Revocation.Registration.{MemoryRegistrationIndex}
use adtp.Revocation.Registration
use adtp.Revocation.Registration.Links.{Linked, find_descendants_iff}
use adtp.Revocation.Cascade.{Services, CascadeReport, execute_cascade}
use adtp.Revocation.Cascade.Posted.{KeepsEntries}
use adtp.Revocation.Cascade.Complete.{execute_cascade-Cascaded}

compromised_stands : {a : RevocationStatus} → a ≡ compromised → a ≢ reinstated
compromised_stands p q = cc

cascade_stands : {a : RevocationStatus} → a ≡ cascade → a ≢ reinstated
cascade_stands p q = cc

-- From the cache `old` to the cache `new`, with the chains that the index knows.
pub record Revoked (cid : Text) (index : MemoryRegistrationIndex) (old new : MemoryRevocationCache)
    : Type 0 where
  pub origin : (e : RevocationEntry) × (get_status new cid ≡ some e) × (e.status ≡ compromised)
  pub descendants :
      (d : Text)
      → Linked index d cid
      → d ≢ cid
      → (e : RevocationEntry) × (get_status new d ≡ some e) × (e.status ≡ cascade)
  pub others : (k : Text) → k ≢ cid → ¬ Linked index k cid → get_status new k ≡ get_status old k

module _ {S : Type 0} (services : Services S) (cache : S → MemoryRevocationCache)
    (index : S → MemoryRegistrationIndex) where
  abbrev pub entry_of : S → Text → Option RevocationEntry
  entry_of s key = lookup key (cache s).entries

  -- The entries are the cache's, and the descendants are the index's.
  pub execute_cascade-revokes :
      KeepsEntries services entry_of
      → ((s : S) (cid : Text)
          → services.find_descendants s cid ≡ ok (Registration.find_descendants (index s) cid))
      → (crypto : Crypto) (codec : EntryCodec) (clock : ℕ → ℤ) (cid key : Text) (s s' : S)
        (report : CascadeReport)
      → execute_cascade services crypto codec clock cid key s ≡ (s', ok report)
      → Revoked cid (index s) (cache s) (cache s')
  execute_cascade-revokes keeps finds crypto codec clock cid key s s' report h =
      let (ds, r) =
        execute_cascade-Cascaded services entry_of keeps crypto codec clock cid key s s' report h in
      let found : Registration.find_descendants (index s) cid ≡ ds =
        ok_inj (sym (finds s cid) ∙ r.finds) in
      let linked : (d : Text) → Occurs d ds → Linked (index s) d cid × (d ≢ cid) =
        λ d o. (find_descendants_iff (index s) cid d).0 (subst (Occurs d) (sym found) o) in
      let (at, has) = r.primary (λ o. (linked cid o).1 refl) in
      record {
        origin = (
          report.primary_entry,
          get_status-stands (cache s') cid report.primary_entry at (compromised_stands has),
          has,
        );
        descendants = λ d l n.
            let (e, q, c) =
              r.found d
                (subst (Occurs d) found ((find_descendants_iff (index s) cid d).1 (l, n))) in
            (e, get_status-stands (cache s') d e q (cascade_stands c), c);
        others = λ k n u.
            get_status-same (cache s') (cache s) k (r.others k n (λ o. u ((linked k o).0)));
      }
