-- ===== src/Identity/KeyStore/Mapped.antt =====
-- The key store is a map from DIDs to keys: whatever is called, what it answers is what a function says
-- that is updated at one DID by each successful Store and Delete.
use adtp.Credential.Capability.{is_empty}
use adtp.Signing.{private_key_size}
use adtp.Identity.KeyStore.{
  MemoryKeyStore, KeyStoreErr, key_not_found, empty_did, invalid_private_key, new_memory_key_store,
  store, load, delete, delete_found, list,
}
use adtp.Prelude.{
  ◌≡◌, refl, sym, ap, subst, ◌∙◌, ◌↔◌, Option, none, some, List, [], ◌∷◌, Text, Text-eq, ℕ-eq, ◌==◌,
  if◌then◌else◌, Result, ok, err, ok_or, length, lookup, lookup-insert, lookup-remove, keys,
  keys_iff, text_ltb, Occurs, Occurs-sort_by, Ascending, sort_by-Ascending, text-IsOrder,
  Bool-cases, inl, inr,
}

pub data Call : Type 0 where
  storing : Text → Text → Call
  deleting : Text → Call

-- The code.
unfoldable pub perform : MemoryKeyStore → Call → MemoryKeyStore × Result KeyStoreErr Unit
unfolding store delete
perform s (storing did priv) = store s did priv
perform s (deleting did) = delete s did

unfoldable pub perform_all : MemoryKeyStore → List Call → MemoryKeyStore
unfolding perform
perform_all s [] = s
perform_all s (c ∷ cs) = perform_all ((perform s c).0) cs

-- What the interface promises: a map, with a key of the right size for each DID that has one.
abbrev pub KeyMap : Type 0
KeyMap = Text → Option Text

at : Text → Option Text → KeyMap → KeyMap
at did key m d = if did == d then key else m d

deleted : KeyMap → Text → Option Text → KeyMap × Result KeyStoreErr Unit
unfolding at
deleted m did none = (m, err key_not_found)
deleted m did (some key) = (at did none m, ok tt)

unfoldable pub promised : KeyMap → Call → KeyMap × Result KeyStoreErr Unit
unfolding at is_empty deleted
promised m (storing did priv) =
    if is_empty did
    then (m, err empty_did)
    else if length priv == private_key_size
    then (at did (some priv) m, ok tt)
    else (m, err invalid_private_key)
promised m (deleting did) = deleted m did (m did)

unfoldable pub promised_all : KeyMap → List Call → KeyMap
unfolding promised
promised_all m [] = m
promised_all m (c ∷ cs) = promised_all ((promised m c).0) cs

-- The store holds the map.
abbrev pub Holds : MemoryKeyStore → KeyMap → Type 0
Holds s m = (did : Text) → lookup did s ≡ m did

delete_found-deleted :
    (s : MemoryKeyStore) (m : KeyMap) (did : Text) (o : Option Text)
    → Holds s m
    → Holds ((delete_found s did o).0) ((deleted m did o).0)
      × ((delete_found s did o).1 ≡ (deleted m did o).1)
unfolding delete_found deleted at
delete_found-deleted s m did none h = (h, refl)
delete_found-deleted s m did (some key) h =
    (λ d. lookup-remove did d s ∙ ap (λ o. if did == d then none else o) (h d), refl)

perform-promised :
    (s : MemoryKeyStore) (m : KeyMap) (c : Call)
    → Holds s m
    → Holds ((perform s c).0) ((promised m c).0) × ((perform s c).1 ≡ (promised m c).1)
unfolding perform store delete promised at
perform-promised s m (storing did priv) h = elim (Bool-cases (is_empty did)) [
  | inl e ↦ rw e (h, refl)
  | inr e ↦ elim (Bool-cases (length priv == private_key_size)) [
    | inl n ↦ rw e (
        rw n (
          λ d. lookup-insert did d priv s ∙ ap (λ o. if did == d then some priv else o) (h d),
          refl,
        ))
    | inr n ↦ rw e (rw n (h, refl))
  ]
]
perform-promised s m (deleting did) h =
    subst
      (λ o.
        Holds ((delete s did).0) ((deleted m did o).0) × ((delete s did).1 ≡ (deleted m did o).1))
      (h did) (delete_found-deleted s m did (lookup did s) h)

all-promised :
    (s : MemoryKeyStore) (m : KeyMap) (cs : List Call)
    → Holds s m
    → Holds (perform_all s cs) (promised_all m cs)
unfolding perform_all promised_all
all-promised s m [] h = h
all-promised s m (c ∷ cs) h =
    all-promised ((perform s c).0) ((promised m c).0) cs ((perform-promised s m c h).0)

empty : (did : Text) → lookup did new_memory_key_store ≡ none
unfolding lookup
empty did = refl

listed :
    {In There : Type 0} {o p : Option Text}
    → In ↔ There
    → There ↔ ((key : Text) × (o ≡ some key))
    → o ≡ p
    → In ↔ ((key : Text) × (p ≡ some key))
listed f g q = (λ i. let (key, e) = g.0 (f.0 i) in (key, sym q ∙ e), λ h. f.1 (g.1 (h.0, q ∙ h.1)))

-- What a store answers, by a map.
pub record Answers (s : MemoryKeyStore) (m : KeyMap) : Type 0 where
  pub loads : (did : Text) → load s did ≡ ok_or key_not_found (m did)
  pub performs : (c : Call) → (perform s c).1 ≡ (promised m c).1
  pub lists : (did : Text) → Occurs did (list s) ↔ ((key : Text) × (m did ≡ some key))
  pub sorted : Ascending text_ltb (list s)

-- After any calls on a new store, Load, Store, Delete and List answer as the map does that these calls
-- promise: Load finds the last key stored and not deleted since, and List gives exactly the DIDs that have
-- one, in ascending order.
pub perform_all-Answers :
    (cs : List Call) → Answers (perform_all new_memory_key_store cs) (promised_all (λ did. none) cs)
unfolding load list
perform_all-Answers cs =
    let s = perform_all new_memory_key_store cs in
    let m = promised_all (λ did. none) cs in
    let holds : Holds s m = all-promised new_memory_key_store (λ did. none) cs (λ did. empty did) in
    record {
      loads = λ did. ap (ok_or key_not_found) (holds did);
      performs = λ c. (perform-promised s m c holds).1;
      lists = λ did. listed (Occurs-sort_by text_ltb did (keys s)) (keys_iff did s) (holds did);
      sorted = sort_by-Ascending text_ltb text-IsOrder (keys s);
    }
