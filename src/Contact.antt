-- ===== src/Contact.antt =====
-- `Contact` of dht/routing_table.go.
use text.Mathlib.Text.{◌==◌ as str_eq}
use text.Mathlib.TextEquality.{eq_iff}
use mathlib.Core.HLevel.{hedberg}
use inu.Base.{Bool-cases, inl, inr, ◌≡◌, ◌↔◌, Bool, true, ◌&&◌, String, arith}
use inu.Key.{Key, key_eq}
use inu.Key.Number.{key_eq_iff}

pub record Contact : Type 0 where
  pub id : Key
  pub address : String

-- `c == d` on structs.
unfoldable pub contact_eq : Contact → Contact → Bool
contact_eq c d = key_eq c.id d.id && str_eq c.address d.address

pub contact_eq_iff : (c d : Contact) → (contact_eq c d ≡ true) ↔ (c ≡ d)
unfolding contact_eq
contact_eq_iff c d = ground (arith, key_eq_iff c.id d.id, eq_iff c.address d.address)

Contact-discrete : Discrete Contact
Contact-discrete c d = elim (Bool-cases (contact_eq c d)) [
  | inl e ↦ yes ((contact_eq_iff c d).0 e)
  | inr e ↦ no (λ same. ground (arith, e, (contact_eq_iff c d).1 same))
]

pub Contact-set : IsSet Contact
Contact-set = hedberg Contact-discrete
