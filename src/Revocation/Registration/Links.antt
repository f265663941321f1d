-- ===== src/Revocation/Registration/Links.antt =====
-- What the registration index finds is what was registered.
use adtp.Revocation.Registration.{
  MemoryRegistrationIndex, set_or_empty, set_of, add_to, register, except, find_descendants,
  contains_link, contains-add_to, link_of,
}
use adtp.Prelude.{
  true, List, [], ◌∷◌, Text, Text-eq, ◌==◌, if◌then◌else◌, contains, insert, text_ltb, ◌≡◌, ◌≢◌,
  ◌↔◌, ◌⊎◌, arith, eq_iff, Occurs, contains_iff, lookup-insert, Occurs-sort_by, Ascending,
  sort_by-Ascending, text-IsOrder,
}

-- The chain of `credential` contains `above`.
abbrev pub Linked : MemoryRegistrationIndex → Text → Text → Type 0
Linked index credential above = contains_link index credential above ≡ true

set_of-insert :
    (index : MemoryRegistrationIndex) (c : Text) (set : List Text) (b : Text)
    → set_of (insert c set index) b ≡ (if c == b then set else set_of index b)
unfolding set_of set_or_empty
set_of-insert index c set b = ground (arith, lookup-insert c b set index)

contains-set_of :
    (index : MemoryRegistrationIndex) (cred c a b : Text)
    → (contains (set_of (insert c (add_to cred (set_of index c)) index) b) a ≡ true)
      ↔ ((contains (set_of index b) a ≡ true) ⊎ ((a ≡ cred) × (b ≡ c)))
contains-set_of index cred c a b =
    rw (set_of-insert index c (add_to cred (set_of index c)) b)
      (ground (arith, eq_iff c b, eq_iff cred a, contains-add_to a cred (set_of index c)))

insert_link :
    (index : MemoryRegistrationIndex) (cred c a b : Text)
    → Linked (insert c (add_to cred (set_of index c)) index) a b
      ↔ (Linked index a b ⊎ ((a ≡ cred) × (b ≡ c)))
insert_link index cred c a b =
    rw (link_of (insert c (add_to cred (set_of index c)) index) a b)
      (rw (link_of index a b) (contains-set_of index cred c a b))

pub register_iff :
    (index : MemoryRegistrationIndex) (cred : Text) (cs : List Text) (a b : Text)
    → Linked (register index cred cs) a b ↔ (Linked index a b ⊎ ((a ≡ cred) × Occurs b cs))
unfolding register
register_iff index cred [] a b = ground arith
register_iff index cred (c ∷ cs) a b = ground (
  arith,
  register_iff (insert c (add_to cred (set_of index c)) index) cred cs a b,
  insert_link index cred c a b,
)

except_iff : (d cid : Text) (cs : List Text) → Occurs d (except cid cs) ↔ (Occurs d cs × (d ≢ cid))
unfolding except
except_iff d cid [] = ground arith
except_iff d cid (c ∷ cs) = ground (arith, except_iff d cid cs, eq_iff c cid)

pub find_descendants_iff :
    (index : MemoryRegistrationIndex) (cid d : Text)
    → Occurs d (find_descendants index cid) ↔ (Linked index d cid × (d ≢ cid))
unfolding find_descendants
find_descendants_iff index cid d = ground (
  arith,
  Occurs-sort_by text_ltb d (except cid (set_of index cid)),
  except_iff d cid (set_of index cid),
  link_of index d cid,
  contains_iff (set_of index cid) d,
)

-- After a registration FindDescendants gives, in ascending order, exactly the credentials that it gave
-- before and the registered one, if the CID asked for is in its chain and is not its own.
find_descendants-register :
    (index : MemoryRegistrationIndex) (cred : Text) (cs : List Text) (cid : Text)
    → Ascending text_ltb (find_descendants (register index cred cs) cid)
      × ((d : Text)
          → Occurs d (find_descendants (register index cred cs) cid)
            ↔ (Occurs d (find_descendants index cid) ⊎ ((d ≡ cred) × (d ≢ cid) × Occurs cid cs)))
unfolding find_descendants
find_descendants-register index cred cs cid = (
  sort_by-Ascending text_ltb text-IsOrder (except cid (set_of (register index cred cs) cid)),
  λ d. ground (
    arith,
    find_descendants_iff (register index cred cs) cid d,
    find_descendants_iff index cid d,
    register_iff index cred cs d cid,
  ),
)
