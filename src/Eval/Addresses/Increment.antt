-- ===== src/Eval/Addresses/Increment.antt =====
-- `incIP` counts.
use native.Mathlib.Nat.{mod-eq_of_lt, add-mod_right}
use inu.Base.{
  ℕ, suc, ◌+◌, ◌*◌, ◌^◌, ◌%◌, ◌<◌, ◌≡◌, refl, sym, ap, subst, ◌∙◌, Bool, true, false, [], ◌∷◌,
  length, All, ◌==◌, if◌then◌else◌, arith, Bool-cases, inl, inr,
}
use inu.Key.{set_bytes}
use inu.Key.Number.{pow_suc, set_bytes-lt}
use inu.Eval.Addresses.{Address, bump, inc_from, inc_ip}

-- What the loop leaves of the bytes: the next number, or all zeros and the carry.
pub record Next (ip : Address) (r : Address × Bool) : Type 0 where
  pub size : length r.0 ≡ length ip
  pub bytes : All (λ b. b < 256) r.0
  pub value : set_bytes r.0 + (if r.1 then 256 ^ length ip else 0) ≡ set_bytes ip + 1

bump-Next :
    (b : ℕ) (ip : Address) (r : Address × Bool) → b < 256 → Next ip r → Next (b ∷ ip) (bump b r)
unfolding set_bytes
bump-Next b ip (r, false) h n = record {
  size = ap suc n.size;
  bytes = (h, n.bytes);
  value = rw (n.size) (grind (arith, n.value));
}
bump-Next b ip (r, true) h n = elim (Bool-cases ((b + 1) % 256 == 0)) [
  | inl e ↦
      let last : b ≡ 255 = ground (arith, e, h) in
      let p = 256 ^ length ip in
      let wrapped : 0 * p + set_bytes r + 256 * p ≡ 255 * p + set_bytes ip + 1 =
        omega (arith, n.value) in
      record {
        size = ap suc n.size;
        bytes = (omega arith, n.bytes);
        value = rw (n.size, e, last) (rw (pow_suc (length ip)) wrapped);
      }
  | inr e ↦
      let more : (b + 1) % 256 ≡ b + 1 = ground (arith, e, h) in
      record {
        size = ap suc n.size;
        bytes = (omega arith, n.bytes);
        value = rw (n.size, e, more) (grind (arith, n.value));
      }
]

pub inc_from-Next : (ip : Address) → All (λ b. b < 256) ip → Next ip (inc_from ip)
unfolding inc_from set_bytes
inc_from-Next [] h = record { size = refl; bytes = tt; value = refl }
inc_from-Next (b ∷ ip) h = bump-Next b ip (inc_from ip) h.0 (inc_from-Next ip h.1)

-- `incIP` of an address gives the next number, in as many bytes, and goes from the last one to 0.
pub inc_ip-set_bytes :
    (ip : Address)
    → All (λ b. b < 256) ip
    → (set_bytes (inc_ip ip) ≡ (set_bytes ip + 1) % 256 ^ length ip)
      × (length (inc_ip ip) ≡ length ip)
      × All (λ b. b < 256) (inc_ip ip)
inc_ip-set_bytes ip h = let n = inc_from-Next ip h in (go (inc_from ip) n, n.size, n.bytes)
  where
    small : (r : Address × Bool) → Next ip r → set_bytes r.0 < 256 ^ length ip
    small r n = subst (λ l. set_bytes r.0 < 256 ^ l) n.size (set_bytes-lt r.0 n.bytes)

    go : (r : Address × Bool) → Next ip r → set_bytes r.0 ≡ (set_bytes ip + 1) % 256 ^ length ip
    go (r, true) n =
        sym (mod-eq_of_lt (small (r, true) n))
        ∙ sym (add-mod_right (set_bytes r) (256 ^ length ip))
        ∙ ap (λ m. m % 256 ^ length ip) n.value
    go (r, false) n =
        let value : set_bytes r ≡ set_bytes ip + 1 = omega (arith, n.value) in
        sym (mod-eq_of_lt (small (r, false) n)) ∙ ap (λ m. m % 256 ^ length ip) value
