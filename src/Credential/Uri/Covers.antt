-- ===== src/Credential/Uri/Covers.antt =====
-- What URICovers decides, and that coverage composes along a chain of patterns.
use adtp.Prelude.{
  ◌≡◌, refl, ◌≢◌, ◌↔◌, ◌⊎◌, inl, inr, sym, subst, ◌∙◌, true, false, List, [], ◌∷◌, arith, Text,
  Text-eq, codes, ◌==◌, eq_iff, Result, ok, err, split_on, Bool-cases,
}
use adtp.Credential.Uri.{
  UriErr, UriParts, canonicalize_uri, split_canonical_uri, segment_covers, segments_cover,
  parts_cover, splits_cover, canonical_covers, results_cover, uri_covers,
}

abbrev star : Text
star = codes "*"

-- A wildcard segment stands for one segment that is not empty, any other for itself.
pub data SegmentMatches (p c : Text) : Type 0 where
  wildcard : p ≡ star → c ≢ [] → SegmentMatches p c
  itself : p ≢ star → p ≡ c → SegmentMatches p c

-- Segment by segment, and equally many.
abbrev pub SegmentsMatch : List Text → List Text → Type 0
SegmentsMatch [] [] = Unit
SegmentsMatch (p ∷ ps) (c ∷ cs) = SegmentMatches p c × SegmentsMatch ps cs
SegmentsMatch _ _ = ⊥

pub record PartsMatch (p c : UriParts) : Type 0 where
  pub same_scheme : p.scheme ≡ c.scheme
  pub same_authority : p.authority ≡ c.authority
  pub segments : SegmentsMatch (split_on b'/' p.path) (split_on b'/' c.path)

-- Two canonical URIs: equal, or matching part by part.
abbrev pub Matches : Text → Text → Type 0
Matches p c =
    (p ≡ c)
    ⊎ ((pp : UriParts) × (cp : UriParts) × (split_canonical_uri p ≡ ok pp)
        × (split_canonical_uri c ≡ ok cp)
        × PartsMatch pp cp)

segment_covers_iff : (p c : Text) → (segment_covers p c ≡ true) ↔ SegmentMatches p c
unfolding segment_covers
segment_covers_iff p c = (
  λ h. elim (Bool-cases (p == star)) [
    | inl e ↦ wildcard ((eq_iff p star).0 e) (λ z. ground (arith, eq_iff c []))
    | inr e ↦ itself (λ q. ground (arith, eq_iff p star)) (ground (arith, eq_iff p c))
  ],
  λ m. elim m [
    | wildcard e n ↦ ground (arith, eq_iff p star, eq_iff c [])
    | itself n e ↦ ground (arith, eq_iff p star, eq_iff p c)
  ],
)

segments_cover_iff : (ps cs : List Text) → (segments_cover ps cs ≡ true) ↔ SegmentsMatch ps cs
unfolding segments_cover
segments_cover_iff [] [] = (λ _. tt, λ _. refl)
segments_cover_iff [] (c ∷ cs) = (λ h. cc, λ h. absurd h)
segments_cover_iff (p ∷ ps) [] = (λ h. cc, λ h. absurd h)
segments_cover_iff (p ∷ ps) (c ∷ cs) = (
  λ h. ((segment_covers_iff p c).0 (ground arith), (segments_cover_iff ps cs).0 (ground arith)),
  λ m. ground (arith, (segment_covers_iff p c).1 m.0, (segments_cover_iff ps cs).1 m.1),
)

parts_cover_iff : (p c : UriParts) → (parts_cover p c ≡ true) ↔ PartsMatch p c
unfolding parts_cover
parts_cover_iff p c = (
  λ h. record {
    same_scheme = ground (arith, eq_iff p.scheme c.scheme);
    same_authority = ground (arith, eq_iff p.authority c.authority);
    segments = (segments_cover_iff (split_on b'/' p.path) (split_on b'/' c.path)).0 (ground arith);
  },
  λ m. ground (
    arith,
    eq_iff p.scheme c.scheme,
    eq_iff p.authority c.authority,
    (segments_cover_iff (split_on b'/' p.path) (split_on b'/' c.path)).1 m.segments,
  ),
)

abbrev SplitsMatch : Result UriErr UriParts → Result UriErr UriParts → Type 0
SplitsMatch rp rc =
    (pp : UriParts) × (cp : UriParts) × (rp ≡ ok pp) × (rc ≡ ok cp) × PartsMatch pp cp

splits_cover_iff :
    (rp rc : Result UriErr UriParts) → (splits_cover rp rc ≡ true) ↔ SplitsMatch rp rc
unfolding splits_cover
splits_cover_iff (err e) rc = (λ h. cc, λ (pp, cp, a, b, m). cc)
splits_cover_iff (ok pp) (err e) = (λ h. cc, λ (pp, cp, a, b, m). cc)
splits_cover_iff (ok pp) (ok cp) = (
  λ h. (pp, cp, refl, refl, (parts_cover_iff pp cp).0 h),
  λ (p, c, a, b, m). ground (arith, (parts_cover_iff p c).1 m),
)

canonical_covers_iff : (p c : Text) → (canonical_covers p c ≡ true) ↔ Matches p c
unfolding canonical_covers
canonical_covers_iff p c = (
  λ h. elim (Bool-cases (p == c)) [
    | inl e ↦ inl ((eq_iff p c).0 e)
    | inr e ↦
        inr ((splits_cover_iff (split_canonical_uri p) (split_canonical_uri c)).0 (ground arith))
  ],
  λ m. elim m [
    | inl e ↦ ground (arith, eq_iff p c)
    | inr q ↦ ground (arith, (splits_cover_iff (split_canonical_uri p) (split_canonical_uri c)).1 q)
  ],
)

abbrev Canonical : Result UriErr Text → Result UriErr Text → Type 0
Canonical rp rc = (p : Text) × (c : Text) × (rp ≡ ok p) × (rc ≡ ok c) × Matches p c

results_cover_iff : (rp rc : Result UriErr Text) → (results_cover rp rc ≡ true) ↔ Canonical rp rc
unfolding results_cover
results_cover_iff (err e) rc = (λ h. cc, λ (p, c, a, b, m). cc)
results_cover_iff (ok p) (err e) = (λ h. cc, λ (q, c, a, b, m). cc)
results_cover_iff (ok p) (ok c) = (
  λ h. (p, c, refl, refl, (canonical_covers_iff p c).0 h),
  λ (q, d, a, b, m). ground (arith, (canonical_covers_iff q d).1 m),
)

-- URICovers holds exactly when both URIs canonicalize, and the canonical forms are equal or have
-- the same scheme and authority and equally many segments that match one by one, a `*` of the
-- parent standing for one segment that is not empty (so a path does not cover the longer paths below it).
pub uri_covers_iff :
    (parent child : Text)
    → (uri_covers parent child ≡ true) ↔ (
        (p : Text) × (c : Text) × (canonicalize_uri parent ≡ ok p)
        × (canonicalize_uri child ≡ ok c)
        × Matches p c)
unfolding uri_covers
uri_covers_iff parent child = results_cover_iff (canonicalize_uri parent) (canonicalize_uri child)

-- A URI that does not canonicalize covers nothing and is covered by nothing.
uri_covers_fails_closed :
    (u v : Text) {e : UriErr}
    → canonicalize_uri u ≡ err e
    → (uri_covers u v ≡ false) × (uri_covers v u ≡ false)
unfolding uri_covers results_cover
uri_covers_fails_closed u v h = ground arith

SegmentMatches-trans : {p q r : Text} → SegmentMatches p q → SegmentMatches q r → SegmentMatches p r
SegmentMatches-trans (wildcard e n) (wildcard e' n') = wildcard e n'
SegmentMatches-trans {p} {q} {r} (wildcard e n) (itself n' e') = wildcard e (λ z. n (e' ∙ z))
SegmentMatches-trans (itself n e) (wildcard e' n') = absurd (n (e ∙ e'))
SegmentMatches-trans (itself n e) (itself n' e') = itself n (e ∙ e')

SegmentsMatch-trans :
    (ps qs rs : List Text) → SegmentsMatch ps qs → SegmentsMatch qs rs → SegmentsMatch ps rs
SegmentsMatch-trans [] [] [] a b = tt
SegmentsMatch-trans [] [] (r ∷ rs) a b = b
SegmentsMatch-trans [] (q ∷ qs) rs a b = absurd a
SegmentsMatch-trans (p ∷ ps) [] rs a b = absurd a
SegmentsMatch-trans (p ∷ ps) (q ∷ qs) [] a b = b
SegmentsMatch-trans (p ∷ ps) (q ∷ qs) (r ∷ rs) a b =
    (SegmentMatches-trans a.0 b.0, SegmentsMatch-trans ps qs rs a.1 b.1)

PartsMatch-trans : (p q r : UriParts) → PartsMatch p q → PartsMatch q r → PartsMatch p r
PartsMatch-trans p q r a b = record {
  same_scheme = a.same_scheme ∙ b.same_scheme;
  same_authority = a.same_authority ∙ b.same_authority;
  segments = SegmentsMatch-trans _ _ _ a.segments b.segments;
}

ok-injective : {p q : UriParts} → ◌≡◌ {A = Result UriErr UriParts} (ok p) (ok q) → p ≡ q
ok-injective h = cc

Matches-trans : (p q r : Text) → Matches p q → Matches q r → Matches p r
Matches-trans p q r (inl e) b = subst (λ t. Matches t r) (sym e) b
Matches-trans p q r (inr m) (inl e) = subst (λ t. Matches p t) e (inr m)
Matches-trans p q r (inr (pp, qp, ep, eq, m)) (inr (qp', rp, eq', er, m')) = inr (
  pp,
  rp,
  ep,
  er,
  PartsMatch-trans pp qp rp m (subst (λ t. PartsMatch t rp) (ok-injective (sym eq' ∙ eq)) m'),
)

-- Coverage is transitive: a resource that satisfies a narrower pattern satisfies every pattern that
-- covers it.
pub uri_covers_trans :
    (u v w : Text) → uri_covers u v ≡ true → uri_covers v w ≡ true → uri_covers u w ≡ true
uri_covers_trans u v w h k =
    let (p, q, ep, eq, m) = (uri_covers_iff u v).0 h in
    let (q', r, eq', er, m') = (uri_covers_iff v w).0 k in
    (uri_covers_iff u w).1 (p, r, ep, er, Matches-trans p q r m (subst (λ t. Matches t r) (cc) m'))
