-- ===== src/Flow/Templates/Keys.antt =====
-- The keys of the template cache, and the forgetting of an exporter (api/src/flow/templates.ts).
use network_monitoring.Base.{
  ◌≡◌, ◌≢◌, refl, ap, sym, ◌∙◌, true, none, List, [], ◌∷◌, ◌++◌, arith, Str, All, nat_eq, list_eq,
  Bool-cases, inl, inr, if◌then◌else◌, list_beq_iff, subst, ◌==◌,
}
use mathlib.Core.Bool.{false≢true}
use network_monitoring.Js.Decimal.{IsDigit}
use network_monitoring.Js.Text.{to_string}
use network_monitoring.Js.Map
use network_monitoring.Flow.Fields.{Template}
use network_monitoring.Flow.Templates.{
  TemplateKey, TemplateCache, cache_key, get, starts_with, forget_from, forget_exporter,
}

-- No separator in an exporter's address.
abbrev pub NoBar : Str → Type 0
NoBar = All (λ c. c ≢ b'|')

digits-NoBar : (s : Str) → All IsDigit s → NoBar s
digits-NoBar [] h = tt
digits-NoBar (c ∷ s) h = (omega arith, digits-NoBar s h.1)

-- A text is split in one way at its first bar.
split_at_bar :
    (s s' r r' : Str) → NoBar s → NoBar s' → s ++ b'|' ∷ r ≡ s' ++ b'|' ∷ r' → (s ≡ s') × (r ≡ r')
split_at_bar [] [] r r' h h' e = (refl, ground arith)
split_at_bar [] (c ∷ s') r r' h h' e = absurd (h'.0 (ground arith))
split_at_bar (c ∷ s) [] r r' h h' e = absurd (h.0 (ground arith))
split_at_bar (c ∷ s) (c' ∷ s') r r' h h' e = ground (arith, split_at_bar s s' r r' h.1 h'.1)

starts_with-append : (prefix s : Str) → starts_with prefix (prefix ++ s) ≡ true
unfolding starts_with
starts_with-append [] s = refl
starts_with-append (p ∷ prefix) s = ground (arith, starts_with-append prefix s)

starts_with-rest : (prefix s : Str) → starts_with prefix s ≡ true → (r : Str) × (s ≡ prefix ++ r)
unfolding starts_with
starts_with-rest [] s h = (s, refl)
starts_with-rest (p ∷ prefix) [] h = cc
starts_with-rest (p ∷ prefix) (c ∷ s) h =
    let (r, e) = starts_with-rest prefix s (ground arith) in (r, ground arith)

get-forget_from :
    (prefix id : Str) (entries : List (Str × Template))
    → Map.get id (forget_from prefix entries).0
      ≡ (if starts_with prefix id then none else Map.get id entries)
unfolding forget_from Map.get
get-forget_from prefix id [] = ground arith
get-forget_from prefix id ((j, t) ∷ rest) =
    ground (arith, get-forget_from prefix id rest, list_beq_iff j id)

bar_after : (s r : Str) → (s ++ b'|' ∷ []) ++ r ≡ s ++ b'|' ∷ r
bar_after [] r = refl
bar_after (c ∷ s) r = ap (λ t. c ∷ t) (bar_after s r)

starts_with-own :
    (key : TemplateKey) → starts_with (key.exporter ++ b'|' ∷ []) (cache_key key) ≡ true
unfolding cache_key
starts_with-own key =
    rw
      (← bar_after key.exporter
        (to_string 10 key.observation_domain ++ b'|' ∷ to_string 10 key.template_id))
      (starts_with-append (key.exporter ++ b'|' ∷ []) _)

starts_with-exporter :
    (exporter : Str) (key : TemplateKey)
    → NoBar exporter
    → NoBar key.exporter
    → starts_with (exporter ++ b'|' ∷ []) (cache_key key) ≡ true
    → key.exporter ≡ exporter
unfolding cache_key
starts_with-exporter exporter key h k e =
    let (r, split) = starts_with-rest _ _ e in
    (split_at_bar key.exporter exporter _ r k h (split ∙ bar_after exporter r)).0

module _ (exporter : Str) (key : TemplateKey) (cache : TemplateCache) where
  forget_own : key.exporter ≡ exporter → get key (forget_exporter exporter cache).0 ≡ none
  unfolding forget_exporter get
  forget_own same =
      get-forget_from (exporter ++ b'|' ∷ []) (cache_key key) cache.templates
      ∙ rw (
          subst (λ e. starts_with (e ++ b'|' ∷ []) (cache_key key) ≡ true) same
            (starts_with-own key))

  forget_foreign :
      NoBar exporter
      → NoBar key.exporter
      → key.exporter ≢ exporter
      → get key (forget_exporter exporter cache).0 ≡ get key cache
  unfolding forget_exporter get
  forget_foreign h k other =
      get-forget_from (exporter ++ b'|' ∷ []) (cache_key key) cache.templates
      ∙ elim (Bool-cases (starts_with (exporter ++ b'|' ∷ []) (cache_key key))) [
        | inl own ↦ absurd (other (starts_with-exporter exporter key h k own))
        | inr foreign ↦ rw foreign
      ]

-- Forgetting an exporter drops every template of that exporter, and the templates of the others read
-- as before; addresses hold no bar.
pub get-forget_exporter :
    (exporter : Str) (key : TemplateKey) (cache : TemplateCache)
    → NoBar exporter
    → NoBar key.exporter
    → get key (forget_exporter exporter cache).0
      ≡ (if key.exporter == exporter then none else get key cache)
get-forget_exporter exporter key cache h k = elim (Bool-cases (key.exporter == exporter)) [
  | inl same ↦ rw same (forget_own exporter key cache ((list_beq_iff _ _).0 same))
  | inr other ↦ rw other (
      forget_foreign exporter key cache h k
        λ e. false≢true (sym other ∙ (list_beq_iff key.exporter exporter).1 e))
]
