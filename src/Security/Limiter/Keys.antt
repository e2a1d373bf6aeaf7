-- ===== src/Security/Limiter/Keys.antt =====
-- The counters of different clients and route classes are different.
use codex_go_web_api.Prelude.{ℕ, ◌≡◌, refl, ap, [], ◌∷◌, ◌++◌, arith, Text}
use codex_go_web_api.Security.Limiter.{
  RouteClass, login, refresh, api, class_name, key_prefix, rate_key,
}

append-injective : (p s t : Text) → p ++ s ≡ p ++ t → s ≡ t
append-injective [] s t e = e
append-injective (c ∷ p) s t e = append-injective p s t (cc)

head : Text → ℕ
head [] = 0
head (c ∷ s) = c

named-injective :
    (c d : RouteClass) (ip other : Text)
    → class_name c ++ b':' ∷ ip ≡ class_name d ++ b':' ∷ other
    → (c ≡ d) × (ip ≡ other)
unfolding head
named-injective login login ip other e = (refl, cc)
named-injective login refresh ip other e = absurd (omega (arith, ap head e))
named-injective login api ip other e = absurd (omega (arith, ap head e))
named-injective refresh login ip other e = absurd (omega (arith, ap head e))
named-injective refresh refresh ip other e = (refl, cc)
named-injective refresh api ip other e = absurd (omega (arith, ap head e))
named-injective api login ip other e = absurd (omega (arith, ap head e))
named-injective api refresh ip other e = absurd (omega (arith, ap head e))
named-injective api api ip other e = (refl, cc)

-- Two keys of one environment are equal only for the same client and the same route class.
pub rate_key-injective :
    (environment ip other : Text) (c d : RouteClass)
    → rate_key environment ip c ≡ rate_key environment other d
    → (c ≡ d) × (ip ≡ other)
unfolding rate_key
rate_key-injective environment ip other c d e = named-injective c d ip other (
    append-injective (key_prefix environment) (class_name c ++ b':' ∷ ip)
      (class_name d ++ b':' ∷ other) e)
