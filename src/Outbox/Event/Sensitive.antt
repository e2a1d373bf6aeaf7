-- ===== src/Outbox/Event/Sensitive.antt =====
-- The check for sensitive keys against what it is meant to find: a key at any depth.
use codex_go_web_api.Prelude.{
  ℕ, ◌≡◌, refl, Bool, true, false, ◌||◌, arith, Bool-cases, inl, inr, ◌⊎◌, ◌↔◌, Text,
}
use codex_go_web_api.Prelude.Outcome.{ok}
use codex_go_web_api.Outbox.Event.{
  Json, null, bool, number, text, array, object, Items, nil, cons, Fields, end, field, value, Event,
  is_sensitive, contains_sensitive_key, items_contain, fields_contain, validate, decoded,
}

-- Where a key stands in a value: in an object, or inside a member of an object or of an array.
mutual
  pub data HasKey (k : Text) : Json → Type 0 where
    in_array : {l : Items} → InItems k l → HasKey k (array l)
    in_object : {fs : Fields} → InFields k fs → HasKey k (object fs)

  pub data InItems (k : Text) : Items → Type 0 where
    here : {v : Json} {l : Items} → HasKey k v → InItems k (cons v l)
    there : {v : Json} {l : Items} → InItems k l → InItems k (cons v l)

  pub data InFields (k : Text) : Fields → Type 0 where
    this : {v : Json} {fs : Fields} → InFields k (field k v fs)
    inside : {j : Text} {v : Json} {fs : Fields} → HasKey k v → InFields k (field j v fs)
    later : {j : Text} {v : Json} {fs : Fields} → InFields k fs → InFields k (field j v fs)

or_left : (a b : Bool) → a ≡ true → (a || b) ≡ true
or_left a b h = ground arith

or_right : (a b : Bool) → b ≡ true → (a || b) ≡ true
or_right a b h = ground arith

module _ (wide : ℕ → ℕ) where
  mutual
    unfolding contains_sensitive_key

    found :
        {k : Text} {v : Json}
        → HasKey k v
        → is_sensitive wide k ≡ true
        → contains_sensitive_key wide v ≡ true
    found (in_array h) s = found_items h s
    found (in_object h) s = found_fields h s

    found_items :
        {k : Text} {l : Items}
        → InItems k l
        → is_sensitive wide k ≡ true
        → items_contain wide l ≡ true
    found_items (here h) s = or_left _ _ (found h s)
    found_items (there h) s = or_right _ _ (found_items h s)

    found_fields :
        {k : Text} {fs : Fields}
        → InFields k fs
        → is_sensitive wide k ≡ true
        → fields_contain wide fs ≡ true
    found_fields this s = or_left _ _ s
    found_fields (inside h) s = or_right _ _ (or_left _ _ (found h s))
    found_fields (later h) s = or_right _ _ (or_right _ _ (found_fields h s))

  or_cases : (a b : Bool) → (a || b) ≡ true → (a ≡ true) ⊎ (b ≡ true)
  or_cases true b h = inl refl
  or_cases false b h = inr h

  abbrev Culprit : (Text → Type 0) → Type 0
  Culprit P = (k : Text) × (is_sensitive wide k ≡ true) × P k

  mutual
    unfolding contains_sensitive_key

    culprit : (v : Json) → contains_sensitive_key wide v ≡ true → Culprit (λ k. HasKey k v)
    culprit null h = cc
    culprit (bool b) h = cc
    culprit (number n) h = cc
    culprit (text t) h = cc
    culprit (array l) h = let (k, s, p) = culprit_items l h in (k, s, in_array p)
    culprit (object fs) h = let (k, s, p) = culprit_fields fs h in (k, s, in_object p)

    culprit_items : (l : Items) → items_contain wide l ≡ true → Culprit (λ k. InItems k l)
    culprit_items nil h = cc
    culprit_items (cons v l) h =
        elim (or_cases (contains_sensitive_key wide v) (items_contain wide l) h) [
          | inl a ↦ let (k, s, p) = culprit v a in (k, s, here p)
          | inr b ↦ let (k, s, p) = culprit_items l b in (k, s, there p)
        ]

    culprit_fields : (fs : Fields) → fields_contain wide fs ≡ true → Culprit (λ k. InFields k fs)
    culprit_fields end h = cc
    culprit_fields (field j v fs) h = elim (or_cases (is_sensitive wide j) _ h) [
      | inl s ↦ (j, s, this)
      | inr r ↦ elim (or_cases (contains_sensitive_key wide v) (fields_contain wide fs) r) [
        | inl a ↦ let (k, s, p) = culprit v a in (k, s, inside p)
        | inr b ↦ let (k, s, p) = culprit_fields fs b in (k, s, later p)
      ]
    ]

  -- The check finds a payload exactly when some object in it, at any depth, has a key that is
  -- sensitive once `_`, `-` and case are dropped.
  pub contains_sensitive_key_iff :
      (v : Json)
      → (contains_sensitive_key wide v ≡ true)
        ↔ ((k : Text) × (is_sensitive wide k ≡ true) × HasKey k v)
  contains_sensitive_key_iff v = (culprit v, λ h. found h.2 h.1)

  -- An event that passes validation, with a JSON value as its payload, has no sensitive key at any
  -- depth of what the payload decodes to, where of several members of one object with the same key
  -- the last is kept.
  pub validate-clean :
      (e : Event) (v : Json) (k : Text)
      → validate wide e ≡ ok tt
      → e.payload ≡ value v
      → HasKey k (decoded v)
      → is_sensitive wide k ≡ false
  validate-clean e v k passed at h = elim (Bool-cases (is_sensitive wide k)) [
    | inr no_key ↦ no_key
    | inl s ↦ absurd (refused e v passed at (found h s))
  ]
    where
      refused :
          (e : Event) (v : Json)
          → validate wide e ≡ ok tt
          → e.payload ≡ value v
          → contains_sensitive_key wide (decoded v) ≡ true
          → ⊥
      refused e v passed at hit = unfold validate in ground arith
