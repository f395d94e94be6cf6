-- ===== src/Key/Distance.antt =====
-- `xor` of dht/key.go as the distance between keys.
use Prim.Native.Nat.{bit_xor}
use inu.Base.{
  ℕ, zero, suc, ◌<◌, ◌≡◌, refl, ap, ap₂, sym, ◌∙◌, Bool, true, ◌&&◌, [], ◌∷◌, length, All, ltb,
  ◌==◌, arith,
}
use inu.Key.{Key, IsKey, xor, cmp, set_bytes}
use inu.Key.Number.{Agrees, cmp-set_bytes, set_bytes-injective}

-- A test at each number below a bound, by evaluation.
test_below : (ℕ → Bool) → ℕ → Bool
test_below test zero = true
test_below test (suc bound) = test_below test bound && test bound

test_below_lem :
    (test : ℕ → Bool) (bound x : ℕ) → x < bound → test_below test bound ≡ true → test x ≡ true
unfolding test_below
test_below_lem test zero x below h = absurd (omega arith)
test_below_lem test (suc bound) x below h = ground (arith, test_below_lem test bound x)

-- The facts about two bytes that the keys need, as a test over all pairs of bytes.
abbrev byte_facts : ℕ → ℕ → Bool
byte_facts a b =
    bit_xor a (bit_xor a b) == b && (bit_xor a b == bit_xor b a && ltb (bit_xor a b) 256)

byte_table : test_below (λ a. test_below (byte_facts a) 256) 256 ≡ true
unfolding test_below
byte_table = refl

byte_facts_lem : (a b : ℕ) → a < 256 → b < 256 → byte_facts a b ≡ true
byte_facts_lem a b ha hb =
    test_below_lem (byte_facts a) 256 b hb
      (test_below_lem (λ x. test_below (byte_facts x) 256) 256 a ha byte_table)

bit_xor_lem :
    (a b : ℕ)
    → a < 256
    → b < 256
    → (bit_xor a (bit_xor a b) ≡ b) × (bit_xor a b ≡ bit_xor b a) × (bit_xor a b < 256)
bit_xor_lem a b ha hb = ground (arith, byte_facts_lem a b ha hb)

abbrev Bytes : Key → Type 0
Bytes = All (λ b. b < 256)

xor-xor_lists : (k v : Key) → length k ≡ length v → Bytes k → Bytes v → xor k (xor k v) ≡ v
unfolding xor
xor-xor_lists [] [] e hk hv = refl
xor-xor_lists [] (b ∷ v) e hk hv = absurd (omega arith)
xor-xor_lists (a ∷ k) [] e hk hv = absurd (omega arith)
xor-xor_lists (a ∷ k) (b ∷ v) e hk hv =
    ap₂ ◌∷◌ (bit_xor_lem a b hk.0 hv.0).0 (xor-xor_lists k v (omega arith) hk.1 hv.1)

xor_comm_lists : (k v : Key) → length k ≡ length v → Bytes k → Bytes v → xor k v ≡ xor v k
unfolding xor
xor_comm_lists [] [] e hk hv = refl
xor_comm_lists [] (b ∷ v) e hk hv = absurd (omega arith)
xor_comm_lists (a ∷ k) [] e hk hv = absurd (omega arith)
xor_comm_lists (a ∷ k) (b ∷ v) e hk hv =
    ap₂ ◌∷◌ (bit_xor_lem a b hk.0 hv.0).1 (xor_comm_lists k v (omega arith) hk.1 hv.1)

length-xor : (k v : Key) → length k ≡ length v → length (xor k v) ≡ length k
unfolding xor
length-xor [] v e = refl
length-xor (a ∷ k) [] e = absurd (omega arith)
length-xor (a ∷ k) (b ∷ v) e = omega (arith, length-xor k v (omega arith))

xor-Bytes : (k v : Key) → Bytes k → Bytes v → Bytes (xor k v)
unfolding xor
xor-Bytes [] v hk hv = tt
xor-Bytes (a ∷ k) [] hk hv = tt
xor-Bytes (a ∷ k) (b ∷ v) hk hv = ((bit_xor_lem a b hk.0 hv.0).2, xor-Bytes k v hk.1 hv.1)

-- The distance of two keys is a key.
pub xor-IsKey : (k v : Key) → IsKey k → IsKey v → IsKey (xor k v)
xor-IsKey k v hk hv = record {
  size = length-xor k v (hk.size ∙ sym hv.size) ∙ hk.size;
  bytes = xor-Bytes k v hk.bytes hv.bytes;
}

pub xor_comm : (k v : Key) → IsKey k → IsKey v → xor k v ≡ xor v k
xor_comm k v hk hv = xor_comm_lists k v (hk.size ∙ sym hv.size) hk.bytes hv.bytes

pub xor-xor : (k v : Key) → IsKey k → IsKey v → xor k (xor k v) ≡ v
xor-xor k v hk hv = xor-xor_lists k v (hk.size ∙ sym hv.size) hk.bytes hv.bytes

-- From one target, two keys at the same distance are the same key.
pub xor-injective : (t a b : Key) → IsKey t → IsKey a → IsKey b → xor t a ≡ xor t b → a ≡ b
xor-injective t a b ht ha hb e = sym (xor-xor t a ht ha) ∙ ap (xor t) e ∙ xor-xor t b ht hb

-- The distance as a number. All comparisons of distances in the code are comparisons of these.
unfoldable pub distance : Key → Key → ℕ
distance t k = set_bytes (xor t k)

-- The code's test on two distances is the order of their numbers.
pub cmp-distance :
    (t a b : Key)
    → IsKey t
    → IsKey a
    → IsKey b
    → Agrees (cmp (xor t a) (xor t b)) (distance t a) (distance t b)
unfolding distance
cmp-distance t a b ht ha hb =
    cmp-set_bytes (xor t a) (xor t b) (xor-IsKey t a ht ha) (xor-IsKey t b ht hb)

-- No two keys are equally far from a target, so the closest one is unique.
pub distance-injective :
    (t a b : Key) → IsKey t → IsKey a → IsKey b → distance t a ≡ distance t b → a ≡ b
unfolding distance
distance-injective t a b ht ha hb e =
    xor-injective t a b ht ha hb
      (set_bytes-injective (xor t a) (xor t b) (xor-IsKey t a ht ha) (xor-IsKey t b ht hb) e)
