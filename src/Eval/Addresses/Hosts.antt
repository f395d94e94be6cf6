-- ===== src/Eval/Addresses/Hosts.antt =====
-- The list of addresses that `AllocateIPv4` begins with.
use native.Mathlib.Nat.{mod-eq_of_lt, div-mul-le_self, lt-div-mul-add, pow-le-pow_right}
use inu.Base.{
  ℕ, zero, suc, ◌+◌, ◌*◌, ◌-◌, ◌^◌, ◌%◌, ◌/◌, ◌<◌, ◌≤◌, ◌≡◌, ◌≢◌, ◌⊎◌, refl, sym, ap, ◌∙◌, Bool,
  true, false, List, [], ◌∷◌, ◌++◌, length, length-append, All, All-append, leb, arith, Bool-cases,
  inl, inr, ok,
}
use inu.Key.{set_bytes}
use inu.Key.Number.{set_bytes-lt, key_eq_iff}
use inu.Eval.Addresses.{Address, bump, inc_from, inc_ip, mask_ip, contains, list_from, inner, hosts}
use inu.Eval.Addresses.Increment.{inc_from-Next, inc_ip-set_bytes}

abbrev IsAddress : Address → Type 0
IsAddress ip = All (λ b. b < 256) ip × (0 < length ip)

abbrev first_byte : Address → ℕ
first_byte [] = 0
first_byte (b ∷ ip) = b

-- A wrapped address begins with 0, and came from one that begins with 255.
inc_from-wrap :
    (ip : Address)
    → IsAddress ip
    → (inc_from ip).1 ≡ true
    → (first_byte ip ≡ 255) × (first_byte (inc_ip ip) ≡ 0)
unfolding inc_from
inc_from-wrap [] h e = absurd (omega (arith, h.1))
inc_from-wrap (b ∷ ip) h e = go (inc_from ip) e
  where
    go : (r : Address × Bool) → (bump b r).1 ≡ true → (b ≡ 255) × (first_byte (bump b r).0 ≡ 0)
    go (r, true) e = ground (arith, e, h.0.0)
    go (r, false) e = cc

high_bits : (k : ℕ) → k ≤ 7 → 0 < 255 / 2 ^ k * 2 ^ k
high_bits k h =
    let small : 2 ^ k ≤ 2 ^ 7 = pow-le-pow_right {n = 2} (omega arith) h in
    let near : 255 < 255 / 2 ^ k * 2 ^ k + 2 ^ k =
      lt-div-mul-add {a = 255}
        (pow-le-pow_right {n = 2} (omega arith) {i = 0} {j = k} (omega arith)) in
    omega (arith, small, near)

-- A mask of some bits tells a first byte of 255 from one of 0.
mask_ip-first :
    (bits : ℕ) (ip jp : Address)
    → 0 < bits
    → 0 < length ip
    → 0 < length jp
    → first_byte ip ≡ 255
    → first_byte jp ≡ 0
    → mask_ip bits ip ≢ mask_ip bits jp
unfolding mask_ip
mask_ip-first bits [] jp p h g e f same = absurd (omega (arith, h))
mask_ip-first bits (b ∷ ip) [] p h g e f same = absurd (omega (arith, g))
mask_ip-first bits (b ∷ ip) (c ∷ jp) p h g e f same = elim (Bool-cases (leb 8 bits)) [
  | inl long ↦ ground (arith, ap first_byte same, long, e, f)
  | inr short ↦
      let heads : b / 2 ^ (8 - bits) * 2 ^ (8 - bits) ≡ c / 2 ^ (8 - bits) * 2 ^ (8 - bits) =
        ground (arith, ap first_byte same, short) in
      let none_left : 0 / 2 ^ (8 - bits) * 2 ^ (8 - bits) ≤ 0 =
        div-mul-le_self 0 (2 ^ (8 - bits)) in
      let high = high_bits (8 - bits) (omega (arith, p)) in
      omega (
        arith,
        high,
        none_left,
        ap (λ z. z / 2 ^ (8 - bits) * 2 ^ (8 - bits)) (sym e)
            ∙ heads
            ∙ ap (λ z. z / 2 ^ (8 - bits) * 2 ^ (8 - bits)) f,
      )
]

length-mask_ip : (bits : ℕ) (ip : Address) → length (mask_ip bits ip) ≡ length ip
unfolding mask_ip
length-mask_ip bits [] = refl
length-mask_ip bits (b ∷ ip) = ap suc (length-mask_ip (bits - 8) ip)

bytes-mask_ip :
    (bits : ℕ) (ip : Address) → All (λ b. b < 256) ip → All (λ b. b < 256) (mask_ip bits ip)
unfolding mask_ip
bytes-mask_ip bits [] h = tt
bytes-mask_ip bits (b ∷ ip) h = elim (Bool-cases (leb 8 bits)) [
  | inl long ↦ rw (long) (h.0, bytes-mask_ip (bits - 8) ip h.1)
  | inr short ↦
      rw (short)
        (omega (arith, div-mul-le_self b (2 ^ (8 - bits)), h.0), bytes-mask_ip (bits - 8) ip h.1)
]

mask_ip-IsAddress : (bits : ℕ) (ip : Address) → IsAddress ip → IsAddress (mask_ip bits ip)
mask_ip-IsAddress bits ip h =
    (bytes-mask_ip bits ip h.0, omega (arith, length-mask_ip bits ip, h.1))

-- Addresses that count up from a number.
abbrev pub CountsFrom : ℕ → List Address → Type 0
CountsFrom v [] = Unit
CountsFrom v (a ∷ r) = (set_bytes a ≡ v) × CountsFrom (suc v) r

CountsFrom-snoc :
    (v : ℕ) (r : List Address) (ip : Address)
    → CountsFrom v r
    → set_bytes ip ≡ v + length r
    → CountsFrom v (r ++ (ip ∷ []))
CountsFrom-snoc v [] ip h e = (omega (arith, e), tt)
CountsFrom-snoc v (a ∷ r) ip h e = (h.0, CountsFrom-snoc (suc v) r ip h.1 (omega (arith, e)))

-- The whole network: addresses that count up from its own, up to the first one that is not in it, which
-- is an address of as many bytes.
pub record Network (bits : ℕ) (net : Address) (all : List Address) : Type 0 where
  pub counts : CountsFrom (set_bytes net) all
  pub inside : All (λ ip. contains bits net ip ≡ true) all
  pub stop : Address
  pub stop_size : length stop ≡ length net
  pub stop_bytes : All (λ b. b < 256) stop
  pub stop_outside : contains bits net stop ≡ false
  pub stop_value : set_bytes stop ≡ (set_bytes net + length all) % 256 ^ length net

module _ (bits : ℕ) (net : Address) (some_bits : 0 < bits) where
  -- The loop at an address: it is the next one of the network, or outside.
  record At (r : List Address) (ip : Address) : Type 0 where
    is_address : IsAddress ip
    size : length ip ≡ length net
    counts : CountsFrom (set_bytes net) r
    inside : All (λ ip. contains bits net ip ≡ true) r
    value : set_bytes ip ≡ (set_bytes net + length r) % 256 ^ length net
    next : (set_bytes ip ≡ set_bytes net + length r) ⊎ (contains bits net ip ≡ false)

  wrapped_outside :
      (ip : Address)
      → IsAddress ip
      → contains bits net ip ≡ true
      → (inc_from ip).1 ≡ true
      → contains bits net (inc_ip ip) ≡ false
  wrapped_outside ip h here wrapped = elim (Bool-cases (contains bits net (inc_ip ip))) [
    | inr out ↦ out
    | inl stays ↦
        let (last, first) = inc_from-wrap ip h wrapped in
        let same : mask_ip bits ip ≡ mask_ip bits (inc_ip ip) =
          (key_eq_iff (mask_ip bits ip) net).0 here
          ∙ sym ((key_eq_iff (mask_ip bits (inc_ip ip)) net).0 stays) in
        let long : 0 < length (inc_ip ip) = omega (arith, (inc_from-Next ip h.0).size, h.1) in
        absurd (mask_ip-first bits ip (inc_ip ip) some_bits h.1 long last first same)
  ]

  At-next :
      (r : List Address) (ip : Address)
      → At r ip
      → contains bits net ip ≡ true
      → At (r ++ (ip ∷ [])) (inc_ip ip)
        × ((set_bytes (inc_ip ip) ≡ suc (set_bytes ip)) ⊎ (contains bits net (inc_ip ip) ≡ false))
  At-next r ip at here = elim at.next [
    | inr out ↦ absurd (ground (arith, out, here))
    | inl exact ↦
        let next = inc_from-Next ip at.is_address.0 in
        let (counted, size, bytes) = inc_ip-set_bytes ip at.is_address.0 in
        let more : length (r ++ (ip ∷ [])) ≡ length r + 1 = length-append r (ip ∷ []) in
        let modulus : 256 ^ length ip ≡ 256 ^ length net = ap (λ n. 256 ^ n) at.size in
        let value : set_bytes (inc_ip ip)
            ≡ (set_bytes net + length (r ++ (ip ∷ []))) % 256 ^ length net =
          counted
          ∙ ap (λ n. (set_bytes ip + 1) % n) modulus
          ∙ ap (λ n. n % 256 ^ length net) (omega (arith, exact, more)) in
        let grown : (set_bytes (inc_ip ip) ≡ suc (set_bytes ip))
            ⊎ (contains bits net (inc_ip ip) ≡ false) =
          elim (Bool-cases (inc_from ip).1) [
            | inl wrapped ↦ inr (wrapped_outside ip at.is_address here wrapped)
            | inr plain ↦ inl (ground (arith, next.value, plain))
          ] in
        (
          record {
            is_address = (bytes, omega (arith, size, at.is_address.1));
            size = size ∙ at.size;
            counts = CountsFrom-snoc (set_bytes net) r ip at.counts exact;
            inside = All-append _ r (ip ∷ []) at.inside (here, tt);
            value = value;
            next = elim grown [ inl e ↦ inl (omega (arith, e, exact, more)) | inr out ↦ inr out ];
          },
          grown,
        )
  ]

  list_from_lem :
      (f : ℕ) (r : List Address) (ip : Address)
      → At r ip
      → ((256 ^ length net < set_bytes ip + f) ⊎ ((contains bits net ip ≡ false) × (0 < f)))
      → (all : List Address) × (list_from f bits net ip r ≡ ok all) × Network bits net all
  unfolding list_from
  list_from_lem zero r ip at (inl few) =
      let small = set_bytes-lt ip at.is_address.0 in
      absurd (omega (arith, few, small, ap (λ n. 256 ^ n) at.size))
  list_from_lem zero r ip at (inr none) = absurd (omega (arith, none.1))
  list_from_lem (suc f) r ip at enough = elim (Bool-cases (contains bits net ip)) [
    | inr outside ↦ (
      r,
      rw (list_from, outside) refl,
      record {
        counts = at.counts;
        inside = at.inside;
        stop = ip;
        stop_size = at.size;
        stop_bytes = at.is_address.0;
        stop_outside = outside;
        stop_value = at.value;
      },
    )
    | inl here ↦
        let (next, grown) = At-next r ip at here in
        let left : (256 ^ length net < set_bytes (inc_ip ip) + f)
            ⊎ ((contains bits net (inc_ip ip) ≡ false) × (0 < f)) =
          elim enough [
            | inr none ↦ absurd (ground (arith, none.0, here))
            | inl few ↦ elim grown [
              | inl e ↦ inl (omega (arith, few, e))
              | inr out ↦
                  let small = set_bytes-lt ip at.is_address.0 in
                  inr (out, omega (arith, few, small, ap (λ n. 256 ^ n) at.size))
            ]
          ] in
        let (all, ran, whole) = list_from_lem f (r ++ (ip ∷ [])) (inc_ip ip) next left in
        (all, rw (list_from, here) ran, whole)
  ]

pub hosts_lem :
    (fuel bits : ℕ) (ip : Address)
    → 0 < bits
    → All (λ b. b < 256) ip
    → 0 < length ip
    → 256 ^ length ip < fuel
    → (all : List Address) × Network bits (mask_ip bits ip) all × (hosts fuel bits ip ≡ inner all)
unfolding hosts
hosts_lem fuel bits ip some_bits h long enough =
    let net = mask_ip bits ip in
    let is_address = mask_ip-IsAddress bits ip (h, long) in
    let size : 256 ^ length net ≡ 256 ^ length ip = ap (λ n. 256 ^ n) (length-mask_ip bits ip) in
    let at : At bits net some_bits [] net = record {
      is_address = is_address;
      size = refl;
      counts = tt;
      inside = tt;
      value =
          sym (mod-eq_of_lt (set_bytes-lt net is_address.0))
          ∙ ap (λ n. n % 256 ^ length net) (omega arith);
      next = inl (omega arith);
    } in
    let (all, ran, whole) =
      list_from_lem bits net some_bits fuel [] net at (inl (omega (arith, enough, size))) in
    (all, whole, rw (ran) refl)
