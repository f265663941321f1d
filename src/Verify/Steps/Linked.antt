-- ===== src/Verify/Steps/Linked.antt =====
-- What step 2 decides, and what a linked chain implies for validity windows and delegation depths.
use adtp.Prelude.{
  ℕ, suc, ◌+◌, ◌≡◌, ◌↔◌, inl, inr, subst, Bool, true, false, Option, none, some, List, [], ◌∷◌,
  arith, Text-eq, eq_iff, Occurs, Result, ok, err, ◌>>◌, fail_if, ℤ, pos, ◌≤ℤ◌, ◌<ℤ◌, length,
}
use adtp.Delegation.{Credential, token, block, ChainElement, Chain}
use adtp.Verify.Elements.{
  Step, elem_iss, elem_aud, elem_exp, elem_nbf, elem_parent_cid, credential_depth,
  elem_delegable_depth, each_hop,
}
use adtp.Verify.Steps.{
  below_parent, depth_bounds, depth_hop, linkage_hop, step2_linkage, token_hop, step7_attenuation,
}

-- `d` is below the depth that the parent may delegate, if it says one.
abbrev pub Below : ℤ → Option ℤ → Type 0
Below d none = Unit
Below d (some parent) = d <ℤ parent

abbrev pub Deep : Credential → Option ℤ → Type 0
Deep (token u) parent = Unit
Deep (block b) parent = (pos 0 ≤ℤ b.dl) × Below b.dl parent

-- A child that its parent's holder issued, within the parent's window and below its depth.
abbrev pub Hop : ChainElement → ChainElement → Type 0
Hop child parent =
    (elem_iss child ≡ elem_aud parent)
    × (elem_parent_cid child ≡ parent.cid)
    × (elem_exp child ≤ℤ elem_exp parent)
    × (elem_nbf parent ≤ℤ elem_nbf child)
    × Deep child.credential (elem_delegable_depth parent)

abbrev pub Hops : (ChainElement → ChainElement → Type 0) → List ChainElement → Type 0
Hops R [] = Unit
Hops R (e ∷ []) = Unit
Hops R (e ∷ p ∷ es) = R e p × Hops R (p ∷ es)

pub fail_if_iff :
    {E : Type 0} (b : Bool) (e : E) (rest : Result E Unit)
    → ((fail_if b e >> rest) ≡ ok tt) ↔ ((b ≡ false) × (rest ≡ ok tt))
fail_if_iff true e rest = ground arith
fail_if_iff false e rest = ground arith

then_iff : (m rest : Step) → ((m >> rest) ≡ ok tt) ↔ ((m ≡ ok tt) × (rest ≡ ok tt))
then_iff (ok u) rest = ground arith
then_iff (err e) rest = ground arith

each_hop_iff :
    (f : ChainElement → ChainElement → Step) (R : ChainElement → ChainElement → Type 0)
    → ((c p : ChainElement) → (f c p ≡ ok tt) ↔ R c p)
    → (es : List ChainElement) → (each_hop f es ≡ ok tt) ↔ Hops R es
unfolding each_hop
each_hop_iff f R h [] = ground arith
each_hop_iff f R h (e ∷ []) = ground arith
each_hop_iff f R h (e ∷ p ∷ es) =
    ground (arith, then_iff (f e p) (each_hop f (p ∷ es)), h e p, each_hop_iff f R h (p ∷ es))

depth_bounds_iff : (c : Credential) (d : Option ℤ) → (depth_bounds c d ≡ ok tt) ↔ Deep c d
unfolding depth_bounds below_parent
depth_bounds_iff (token u) d = ground arith
depth_bounds_iff (block b) none = ground arith
depth_bounds_iff (block b) (some d) = ground arith

linkage_hop_iff : (c p : ChainElement) → (linkage_hop c p ≡ ok tt) ↔ Hop c p
unfolding linkage_hop depth_hop
linkage_hop_iff c p = ground (
  arith,
  eq_iff (elem_iss c) (elem_aud p),
  eq_iff (elem_parent_cid c) p.cid,
  depth_bounds_iff c.credential (elem_delegable_depth p),
)

-- Step 2 passes exactly if every child was issued by its parent's audience, names the parent's CID,
-- is valid only within the parent's window and, for a block, has a depth that is not negative and is
-- below the one its parent may delegate, if the parent says one.
pub step2_linkage_iff : (chain : Chain) → (step2_linkage chain ≡ ok tt) ↔ Hops Hop chain.elements
unfolding step2_linkage
step2_linkage_iff chain = each_hop_iff linkage_hop Hop linkage_hop_iff chain.elements

-- The window of each element lies within the window of `root`.
abbrev Within : ChainElement → ChainElement → Type 0
Within root e = (elem_exp e ≤ℤ elem_exp root) × (elem_nbf root ≤ℤ elem_nbf e)

linked_window_from :
    (e root : ChainElement) (rest : List ChainElement)
    → Hops Hop (e ∷ rest)
    → Occurs root (e ∷ rest)
    → Within root e
linked_window_from e root [] h (inl q) = rw q (ground arith)
linked_window_from e root [] h (inr o) = elim o [ ]
linked_window_from e root (p ∷ rest) h (inl q) = rw q (ground arith)
linked_window_from e root (p ∷ rest) ((i, c, x, n, d), h) (inr o) =
    let (a, b) = linked_window_from p root rest h o in (ground arith, ground arith)

-- In a chain that passes step 2, the leaf's validity window lies within that of every ancestor.
linked_window :
    (chain : Chain) (leaf ancestor : ChainElement) (rest : List ChainElement)
    → chain.elements ≡ leaf ∷ rest
    → Occurs ancestor chain.elements
    → step2_linkage chain ≡ ok tt
    → Within ancestor leaf
linked_window chain leaf ancestor rest q o h =
    linked_window_from leaf ancestor rest (subst (Hops Hop) q ((step2_linkage_iff chain).0 h))
      (subst (Occurs ancestor) q o)

-- A child that is a block.
abbrev pub IsBlock : Credential → Type 0
IsBlock (token u) = ⊥
IsBlock (block b) = Unit

abbrev pub last_element : ChainElement → List ChainElement → ChainElement
last_element e [] = e
last_element e (p ∷ es) = last_element p es

-- At least `n` levels may follow.
abbrev pub AtLeast : ℕ → Option ℤ → Type 0
AtLeast n none = Unit
AtLeast n (some d) = pos n ≤ℤ d

hop_depth :
    (n : ℕ) (c : Credential) (o : Option ℤ)
    → IsBlock c
    → Deep c o
    → AtLeast n (credential_depth c)
    → AtLeast (suc n) o
unfolding credential_depth
hop_depth n (token u) o i d a = elim i [ ]
hop_depth n (block b) none i d a = tt
hop_depth n (block b) (some p) i d a = ground arith

linked_depth_from :
    (e : ChainElement) (es : List ChainElement) (n : ℕ)
    → Hops Hop (e ∷ es)
    → Hops (λ c p. IsBlock c.credential) (e ∷ es)
    → AtLeast n (elem_delegable_depth e)
    → AtLeast (n + length es) (elem_delegable_depth (last_element e es))
unfolding elem_delegable_depth
linked_depth_from e [] n h b a = subst (λ k. AtLeast k (elem_delegable_depth e)) (omega arith) a
linked_depth_from e (p ∷ es) n ((i, c, x, m, deep), h) (ib, b) a =
    subst (λ k. AtLeast k (elem_delegable_depth (last_element p es))) (omega arith)
      (linked_depth_from p es (suc n) h b
        (hop_depth n e.credential (elem_delegable_depth p) ib deep a))

Deep-zero : (c : Credential) (o : Option ℤ) → IsBlock c → Deep c o → AtLeast 0 (credential_depth c)
unfolding credential_depth
Deep-zero (token u) o i h = elim i [ ]
Deep-zero (block b) o i h = h.0

token_hop_iff : (c p : ChainElement) → (token_hop c p ≡ ok tt) ↔ IsBlock c.credential
unfolding token_hop
token_hop_iff c p = elim c.credential [ token u ↦ ground arith | block b ↦ ground arith ]

linked_depth_of :
    (e p : ChainElement) (es : List ChainElement)
    → Hops Hop (e ∷ p ∷ es)
    → Hops (λ c p. IsBlock c.credential) (e ∷ p ∷ es)
    → AtLeast (length (p ∷ es)) (elem_delegable_depth (last_element e (p ∷ es)))
unfolding elem_delegable_depth
linked_depth_of e p es h b =
    let ((i, c, x, m, deep), _) = h in
    subst (λ k. AtLeast k (elem_delegable_depth (last_element e (p ∷ es)))) (omega arith)
      (linked_depth_from e (p ∷ es) 0 h b
        (Deep-zero e.credential (elem_delegable_depth p) b.0 deep))

-- A chain of two elements or more that passes steps 2 and 7 has no more hops than its root's
-- delegation depth, if the root says one.
pub linked_depth :
    (chain : Chain) (e p : ChainElement) (es : List ChainElement)
    → chain.elements ≡ e ∷ p ∷ es
    → step2_linkage chain ≡ ok tt
    → step7_attenuation chain ≡ ok tt
    → AtLeast (length (p ∷ es)) (elem_delegable_depth (last_element e (p ∷ es)))
unfolding step7_attenuation
linked_depth chain e p es q h2 h7 =
    linked_depth_of e p es (subst (Hops Hop) q ((step2_linkage_iff chain).0 h2)) (
      subst (Hops (λ c p. IsBlock c.credential)) q
        ((each_hop_iff token_hop _ token_hop_iff chain.elements).0 h7))
