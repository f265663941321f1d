-- ===== src/Revocation/Registration.antt =====
-- internal/revocation/cascade.go and reconciliation.go: the in-memory registration index, which says
-- in whose chain a credential stands. A nil map is an empty one; the lock makes each call one step.
pub mod Links
use adtp.Prelude.{
  Bool, true, false, ◌||◌, Option, none, some, List, [], ◌∷◌, Text, Text-eq, ◌==◌, if◌then◌else◌,
  contains, lookup, insert, sort_by, text_ltb, ◌≡◌, refl, ◌↔◌, ◌⊎◌, inl, inr, arith, eq_iff, Occurs,
  contains_iff, lookup-insert, Occurs-sort_by,
}

abbrev pub MemoryRegistrationIndex : Type 0
MemoryRegistrationIndex = List (Text × List Text)

abbrev pub new_memory_registration_index : MemoryRegistrationIndex
new_memory_registration_index = []

set_or_empty : Option (List Text) → List Text
set_or_empty none = []
set_or_empty (some set) = set

-- index[c], empty where there is none.
set_of : MemoryRegistrationIndex → Text → List Text
unfolding lookup set_or_empty
set_of index c = set_or_empty (lookup c index)

add_to : Text → List Text → List Text
unfolding contains
add_to x set = if contains set x then set else x ∷ set

-- Register
unfoldable pub register : MemoryRegistrationIndex → Text → List Text → MemoryRegistrationIndex
unfolding insert set_of add_to
register index credential_cid [] = index
register index credential_cid (c ∷ cs) =
    register (insert c (add_to credential_cid (set_of index c)) index) credential_cid cs

except : Text → List Text → List Text
except cid [] = []
except cid (c ∷ cs) = let rest = except cid cs in if c == cid then rest else c ∷ rest

-- FindDescendants
unfoldable pub find_descendants : MemoryRegistrationIndex → Text → List Text
unfolding sort_by text_ltb except set_of
find_descendants index cid = sort_by text_ltb (except cid (set_of index cid))

-- Contains
unfoldable pub contains_link : MemoryRegistrationIndex → Text → Text → Bool
unfolding lookup contains
contains_link index credential_cid chain_cid = elim (lookup chain_cid index) [
  | none ↦ false
  | some set ↦ contains set credential_cid
]

contains-add_to :
    (a x : Text) (set : List Text) → contains (add_to x set) a ≡ ((x == a) || contains set a)
unfolding add_to contains
contains-add_to a x set = ground (arith, eq_iff x a, contains_iff set a, contains_iff set x)

link_of :
    (index : MemoryRegistrationIndex) (a b : Text)
    → contains_link index a b ≡ contains (set_of index b) a
unfolding contains_link set_of set_or_empty contains
link_of index a b = ground arith
