-- ===== src/Flow/Templates.antt =====
-- The template cache (api/src/flow/templates.ts): a map in insertion order, bounded by evicting the
-- oldest entry.
pub mod Bounds
pub mod Keys
use network_monitoring.Base.{
  ℕ, ◌+◌, ◌-◌, Bool, true, false, not, ◌&&◌, Option, List, [], ◌∷◌, ◌++◌, ltb, leb, nat_beq,
  if◌then◌else◌, length, Str, codes, nat_eq, list_eq,
}
use network_monitoring.Js.Evicting
use network_monitoring.Js.Map
use network_monitoring.Js.Text.{to_string}
use network_monitoring.Flow.Fields.{Template}

abbrev pub default_max_templates : ℕ
default_max_templates = 4096

pub record TemplateKey : Type 0 where
  pub exporter : Str
  pub observation_domain : ℕ
  pub template_id : ℕ

unfoldable pub cache_key : TemplateKey → Str
cache_key key =
    key.exporter
    ++ (codes "|"
        ++ (to_string 10 key.observation_domain ++ (codes "|" ++ to_string 10 key.template_id)))

pub record TemplateCache : Type 0 where
  pub max_templates : ℕ
  pub templates : List (Str × Template)
  pub evictions : ℕ

unfoldable pub new_cache : ℕ → TemplateCache
new_cache max_templates = record { max_templates = max_templates; templates = []; evictions = 0 }

unfoldable pub get : TemplateKey → TemplateCache → Option Template
get key cache = Map.get (cache_key key) cache.templates

unfoldable pub evicts : TemplateKey → TemplateCache → Bool
unfolding Evicting.is_full_for
evicts key cache =
    Evicting.is_full_for cache.max_templates (cache_key key) cache.templates
    && ltb 0 (length cache.templates)

unfoldable pub set : TemplateKey → Template → TemplateCache → TemplateCache
unfolding evicts Evicting.insert
set key template cache = record cache {
  templates = Evicting.insert cache.max_templates (cache_key key) template cache.templates;
  evictions = if evicts key cache then cache.evictions + 1 else cache.evictions;
}

unfoldable pub starts_with : Str → Str → Bool
starts_with [] s = true
starts_with (p ∷ prefix) [] = false
starts_with (p ∷ prefix) (c ∷ s) = nat_beq p c && starts_with prefix s

-- The loop of `forgetExporter`: the entries that stay, and how many went.
unfoldable pub forget_from : Str → List (Str × Template) → List (Str × Template) × ℕ
forget_from prefix [] = ([], 0)
forget_from prefix ((id, template) ∷ rest) =
    let (kept, removed) = forget_from prefix rest in
    if starts_with prefix id then (kept, removed + 1) else ((id, template) ∷ kept, removed)

unfoldable pub forget_exporter : Str → TemplateCache → TemplateCache × ℕ
unfolding forget_from
forget_exporter exporter cache =
    let (kept, removed) = forget_from (exporter ++ codes "|") cache.templates in
    (record cache { templates = kept }, removed)

unfoldable pub size : TemplateCache → ℕ
size cache = length cache.templates

unfoldable pub reset : TemplateCache → TemplateCache
reset cache = record cache { templates = []; evictions = 0 }
