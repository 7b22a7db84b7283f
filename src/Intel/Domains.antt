-- ===== src/Intel/Domains.antt =====
-- Names under listed domains (api/src/intel/match.ts, `matchDomain`).
use network_monitoring.Base.{
  ℕ, zero, suc, ◌+◌, ◌<◌, ◌≡◌, ◌≢◌, refl, ap, true, false, none, some, List, [], ◌∷◌, arith,
  nat_beq, Option-cases, inl, inr, length, drop, nat_eq, list_eq, Str, codes, is_some,
}
use network_monitoring.Intel.Indicators.{
  IndicatorSet, IndicatorMatch, Meta, domain, match_labels, match_domain, exact_match,
}
use network_monitoring.Intel.Names.{normalize_domain, drop_last_dot}
use network_monitoring.Js.Strings.{trim, trim_start, trim_end, lower}
use network_monitoring.Js.Map
use network_monitoring.Js.Text.{split, join}

-- The match names the parent that is left of the labels after the first `depth`, of two labels at
-- least, which is a listed domain.
pub record IsParentMatch (labels : List Str) (observed : Str) (set : IndicatorSet)
    (found : IndicatorMatch) : Type 0 where
  pub depth : ℕ
  pub two_left : depth + 1 < length labels
  pub meta : Meta
  pub listed : Map.get (join (codes ".") (drop depth labels)) set.domains ≡ some meta
  pub described : found ≡ exact_match domain observed (join (codes ".") (drop depth labels)) meta

normalize_domain_empty : normalize_domain [] ≡ none
unfolding normalize_domain trim trim_start trim_end lower drop_last_dot
normalize_domain_empty = refl

-- The empty text is no domain.
normalize_domain-some :
    (name : Str) {normalized : Str}
    → normalize_domain name ≡ some normalized
    → nat_beq (length name) 0 ≡ false
unfolding normalize_domain
normalize_domain-some [] e = cc (e, normalize_domain_empty)
normalize_domain-some (c ∷ name) e = ground arith

match_labels-IsParentMatch :
    (observed : Str) (labels : List Str) (set : IndicatorSet) {found : IndicatorMatch}
    → match_labels observed labels set ≡ some found
    → IsParentMatch labels observed set found
unfolding match_labels
match_labels-IsParentMatch observed [] set e = cc
match_labels-IsParentMatch observed (label ∷ []) set e = cc
match_labels-IsParentMatch observed (label ∷ next ∷ rest) set e =
    elim (Option-cases (Map.get (join (codes ".") (label ∷ next ∷ rest)) set.domains)) [
      | inl none_here ↦
          let deeper =
            match_labels-IsParentMatch observed (next ∷ rest) set
              (rw (none_here, match_labels) at e) in
          record {
            depth = suc deeper.depth;
            two_left = omega (arith, deeper.two_left);
            meta = deeper.meta;
            listed = deeper.listed;
            described = deeper.described;
          }
      | inr (meta, here) ↦ record {
        depth = 0;
        two_left = omega arith;
        meta = meta;
        listed = here;
        described = ground (arith, (rw (here, match_labels) at e));
      }
    ]

match_labels-listed :
    (observed : Str) (labels : List Str) (set : IndicatorSet) (depth : ℕ) {meta : Meta}
    → depth + 1 < length labels
    → Map.get (join (codes ".") (drop depth labels)) set.domains ≡ some meta
    → is_some (match_labels observed labels set) ≡ true
unfolding match_labels
match_labels-listed observed [] set depth h e = elim h [ ]
match_labels-listed observed (label ∷ []) set depth h e = absurd (omega (arith, h))
match_labels-listed observed (label ∷ next ∷ rest) set zero h e = rw (e, match_labels) refl
match_labels-listed observed (label ∷ next ∷ rest) set (suc depth) h e =
    elim (Option-cases (Map.get (join (codes ".") (label ∷ next ∷ rest)) set.domains)) [
      | inl none_here ↦
          rw (none_here, match_labels)
            (match_labels-listed observed (next ∷ rest) set depth (omega arith) e)
      | inr (meta, here) ↦ rw (here, match_labels) refl
    ]

-- A match is a listed domain that is the name or one of its parents of two labels or more.
pub match_domain-IsParentMatch :
    (name normalized : Str) (set : IndicatorSet) (found : IndicatorMatch)
    → normalize_domain name ≡ some normalized
    → match_domain name set ≡ some found
    → IsParentMatch (split b'.' normalized) normalized set found
unfolding match_domain
match_domain-IsParentMatch name normalized set found e m =
    match_labels-IsParentMatch normalized (split b'.' normalized) set (ground (arith, e, m))

-- A name matches if it or a parent of it of two labels or more is a listed domain.
pub match_domain-listed :
    (name normalized : Str) (set : IndicatorSet) (depth : ℕ) (meta : Meta)
    → normalize_domain name ≡ some normalized
    → depth + 1 < length (split b'.' normalized)
    → Map.get (join (codes ".") (drop depth (split b'.' normalized))) set.domains ≡ some meta
    → is_some (match_domain name set) ≡ true
unfolding match_domain
match_domain-listed name normalized set depth meta e h listed = ground (
  arith,
  e,
  normalize_domain-some name e,
  match_labels-listed normalized (split b'.' normalized) set depth h listed,
)

unnormalized :
    (name : Str) (set : IndicatorSet) (found : IndicatorMatch)
    → normalize_domain name ≡ none
    → match_domain name set ≢ some found
unfolding match_domain
unnormalized name set found nothing = ground (arith, nothing)

-- A name matches as a domain only.
pub match_domain-kind :
    (name : Str) (set : IndicatorSet) (found : IndicatorMatch)
    → match_domain name set ≡ some found
    → found.kind ≡ domain
match_domain-kind name set found m = elim (Option-cases (normalize_domain name)) [
  | inl nothing ↦ absurd (unnormalized name set found nothing m)
  | inr (normalized, e) ↦
      ap (λ f. f.kind) (match_domain-IsParentMatch name normalized set found e m).described
]
