-- ===== src/Flow/Templates/Bounds.antt =====
-- The bound of the template cache, and eviction (api/src/flow/templates.ts).
use network_monitoring.Base.{
  ◌≤◌, ◌≡◌, ◌≢◌, ◌∙◌, none, some, List, ◌∷◌, length, Str, beq-false_of_ne, nat_eq, list_eq, false,
  true,
}
use network_monitoring.Js.Evicting
use network_monitoring.Flow.Fields.{Template}
use network_monitoring.Flow.Templates.{TemplateKey, TemplateCache, cache_key, get, set}

-- A cache within its bound, which allows at least one template.
pub record IsBounded (cache : TemplateCache) : Type 0 where
  pub some_room : 1 ≤ cache.max_templates
  pub bounded : length cache.templates ≤ cache.max_templates

-- Storing a template keeps the cache within its bound, whatever a datagram defines.
pub set-IsBounded :
    (key : TemplateKey) (template : Template) (cache : TemplateCache)
    → IsBounded cache
    → IsBounded (set key template cache)
unfolding set
set-IsBounded key template cache h = record {
  some_room = h.some_room;
  bounded =
      Evicting.length-insert cache.max_templates (cache_key key) template cache.templates
        h.some_room h.bounded;
}

-- Where the cache has room, or the key is stored already, the other keys read what they read before.
pub get-set_room :
    (key other : TemplateKey) (template : Template) (cache : TemplateCache)
    → Evicting.is_full_for cache.max_templates (cache_key key) cache.templates ≡ false
    → cache_key key ≢ cache_key other
    → get other (set key template cache) ≡ get other cache
unfolding get set
get-set_room key other template cache room distinct =
    Evicting.get-insert_room cache.max_templates (cache_key key) (cache_key other) template
      cache.templates room
    ∙ rw (beq-false_of_ne (cache_key key) (cache_key other) distinct)

get-set_kept :
    (key other : TemplateKey) (template old : Template) (oldest : Str)
    (rest : List (Str × Template)) (cache : TemplateCache)
    → cache.templates ≡ (oldest, old) ∷ rest
    → Evicting.is_full_for cache.max_templates (cache_key key) cache.templates ≡ true
    → oldest ≢ cache_key other
    → cache_key key ≢ cache_key other
    → get other (set key template cache) ≡ get other cache
unfolding get set
get-set_kept key other template old oldest rest cache e full kept distinct =
    Evicting.get-insert_kept cache.max_templates (cache_key key) (cache_key other) oldest template
      old rest cache.templates e full (beq-false_of_ne oldest (cache_key other) kept)
      (beq-false_of_ne (cache_key key) (cache_key other) distinct)

-- A full cache that stores a template under a new key holds that template, has lost the oldest, and
-- reads every other key as before.
pub get-set_full :
    (key evicted other : TemplateKey) (template old : Template) (rest : List (Str × Template))
    (cache : TemplateCache)
    → cache.templates ≡ (cache_key evicted, old) ∷ rest
    → Evicting.is_full_for cache.max_templates (cache_key key) cache.templates ≡ true
    → cache_key evicted ≢ cache_key other
    → cache_key key ≢ cache_key other
    → (get key (set key template cache) ≡ some template)
      × (get evicted (set key template cache) ≡ none)
      × (get other (set key template cache) ≡ get other cache)
unfolding get set
get-set_full key evicted other template old rest cache e full kept distinct = (
  Evicting.get-insert_self cache.max_templates (cache_key key) template cache.templates,
  Evicting.get-insert_evicted cache.max_templates (cache_key key) (cache_key evicted) template old
      rest cache.templates e full,
  get-set_kept key other template old (cache_key evicted) rest cache e full kept distinct,
)
