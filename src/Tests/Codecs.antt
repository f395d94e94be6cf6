-- ===== src/Tests/Codecs.antt =====
-- A hash, a database and an encoding of nodes that meet what fs/ and store/ rely on.
use mathlib.Core.List.{append_assoc}
use inu.Base.{
  ℕ, zero, suc, ◌+◌, ◌*◌, ◌%◌, ◌≤◌, ◌<◌, ◌≡◌, refl, ap, ◌∙◌, List, [], ◌∷◌, ◌++◌, map, length,
  length-append, length-take, take, drop, replicate, All, All-append, Option, none, some,
  if◌then◌else◌, arith, ok, ◌>>=◌, ◌∙◌,
}
use inu.Key.{Key, key_eq}
use inu.Key.Number.{key_eq_iff}
use inu.KeyMap.{KeyMap, lookup, insert}
use inu.KeyMap.Laws.{lookup-insert}
use inu.Cid
use inu.Cid.{Bytes, Cid, Hashing, IsHashing, IsText}
use inu.Store.{Db, IsDb, IsWritable, max_block_size}
use inu.Merkle.{Link, Attributes, NodeJson, set_data, empty}
use inu.Fs.{Env, chunk_size}
use inu.Fs.Contents.{IsEnv}
use inu.Fs.{add_bytes, read_bytes, single}
use inu.Fs.Added.{Added, add_bytes_lem}
use inu.Store.{Block, put}
use inu.Store.Laws.{IsValid}
use inu.Store.Guard.{guarded, Outcome, Puts, put_block}
use inu.Fs.Nodes.{guarded_env}

unfoldable pub erase_all : Key → KeyMap Bytes → KeyMap Bytes
unfolding lookup
erase_all k [] = []
erase_all k ((j, v) ∷ m) = let rest = erase_all k m in if key_eq j k then rest else (j, v) ∷ rest

lookup-erase_all :
    (k j : Key) (m : KeyMap Bytes)
    → lookup j (erase_all k m) ≡ (if key_eq k j then none else lookup j m)
unfolding erase_all
lookup-erase_all k j [] = ground arith
lookup-erase_all k j ((i, w) ∷ m) =
    ground (arith, key_eq_iff k j, key_eq_iff i k, key_eq_iff i j, lookup-erase_all k j m)

abbrev pub table : Db (KeyMap Bytes)
table = record {
  select = λ s c. lookup c s;
  replace = λ s c bytes. some (insert c bytes s);
  erase = λ s c. some (erase_all c s);
  count = λ s. length s;
}

pub table-IsDb : IsDb table
table-IsDb = record {
  select-replace = λ s s' c j bytes e. ground (arith, e, lookup-insert c j bytes s);
  select-erase = λ s s' c j e. ground (arith, e, lookup-erase_all c j s);
}

pub table-IsWritable : IsWritable table
table-IsWritable s c bytes e = cc

-- The first 32 bytes stand for the digest, and each byte has one of 16 letters.
abbrev pub short_hash : Hashing
short_hash = record {
  sha256 = λ d. take 32 (map (λ b. b % 256) d ++ replicate 32 0);
  base32 = record { encode = λ k. map (λ b. 65 + b % 16) k ++ replicate 20 65; decode = λ s. none };
}

All-take : (P : ℕ → Type 0) (n : ℕ) (xs : List ℕ) → All P xs → All P (take n xs)
All-take P zero xs h = tt
All-take P (suc n) [] h = tt
All-take P (suc n) (x ∷ xs) h = (h.0, All-take P n xs h.1)

bytes_map : (d : Bytes) → All (λ b. b < 256) (map (λ b. b % 256) d)
bytes_map [] = tt
bytes_map (b ∷ d) = (omega arith, bytes_map d)

length-letters : (k : Bytes) → length (map (λ b. 65 + b % 16) k) ≡ length k
length-letters [] = refl
length-letters (b ∷ k) = ap suc (length-letters k)

letters-IsText : (k : Bytes) → IsText (map (λ b. 65 + b % 16) k)
letters-IsText [] = tt
letters-IsText (b ∷ k) = (omega arith, letters-IsText k)

pub short_hash-IsHashing : IsHashing short_hash
short_hash-IsHashing = record {
  length-sha256 = λ d. omega (
    arith,
    length-take 32 (map (λ b. b % 256) d ++ replicate 32 0),
    length-append (map (λ b. b % 256) d) (replicate 32 0),
  );
  sha256-bytes = λ d.
      All-take (λ b. b < 256) 32 (map (λ b. b % 256) d ++ replicate 32 0)
        (All-append (λ b. b < 256) (map (λ b. b % 256) d) (replicate 32 0) (bytes_map d)
          (omega arith));
  length-encode = λ k h e.
      omega
        (arith, length-append (map (λ b. 65 + b % 16) k) (replicate 20 65), length-letters k, e);
  encode-IsText = λ k h e.
      All-append (λ c. (50 ≤ c) × (c ≤ 90)) (map (λ b. 65 + b % 16) k) (replicate 20 65)
        (letters-IsText k) (omega arith);
}

-- Each text stands behind its length.
unfoldable pub write_links : List Link → Bytes
write_links [] = []
write_links (l ∷ ls) = (length l.name ∷ l.name) ++ ((length l.cid ∷ l.cid) ++ write_links ls)

unfoldable pub read_text : Bytes → Option (Bytes × Bytes)
read_text [] = none
read_text (n ∷ xs) = some (take n xs, drop n xs)

abbrev pub after {ℓ κ} : {A : Type ℓ} {B : Type κ} → Option A → (A → Option B) → Option B
after none f = none
after (some x) f = f x

unfoldable pub read_links : ℕ → Bytes → Option (List Link × Bytes)
unfolding read_text
read_links zero xs = some ([], xs)
read_links (suc n) xs = after (read_text xs) λ a.
    after (read_text a.1)
      λ b. after (read_links n b.1) λ c. some (record { name = a.0; cid = b.0 } ∷ c.0, c.1)

take_front : (xs ys : Bytes) → take (length xs) (xs ++ ys) ≡ xs
take_front [] ys = refl
take_front (x ∷ xs) ys = ap (◌∷◌ x) (take_front xs ys)

drop_front : (xs ys : Bytes) → drop (length xs) (xs ++ ys) ≡ ys
drop_front [] ys = refl
drop_front (x ∷ xs) ys = drop_front xs ys

read_text_lem : (t rest : Bytes) → read_text ((length t ∷ t) ++ rest) ≡ some (t, rest)
unfolding read_text
read_text_lem t rest = rw (take_front t rest, drop_front t rest) refl

read_links_step :
    (n : ℕ) (xs name ys cid zs : Bytes) (ls : List Link) (rest : Bytes)
    → read_text xs ≡ some (name, ys)
    → read_text ys ≡ some (cid, zs)
    → read_links n zs ≡ some (ls, rest)
    → read_links (suc n) xs ≡ some (record { name = name; cid = cid } ∷ ls, rest)
unfolding read_links
read_links_step n xs name ys cid zs ls rest e e' e'' = rw (e, e', e'') refl

read_links_lem :
    (ls : List Link) (rest : Bytes)
    → read_links (length ls) (write_links ls ++ rest) ≡ some (ls, rest)
unfolding read_links write_links
read_links_lem [] rest = refl
read_links_lem (l ∷ ls) rest =
    let tail = (length l.cid ∷ l.cid) ++ write_links ls in
    let e : read_text (write_links (l ∷ ls) ++ rest) ≡ some (l.name, tail ++ rest) =
      ap read_text (append_assoc (length l.name ∷ l.name) tail rest)
      ∙ read_text_lem l.name (tail ++ rest) in
    let e' : read_text (tail ++ rest) ≡ some (l.cid, write_links ls ++ rest) =
      ap read_text (append_assoc (length l.cid ∷ l.cid) (write_links ls) rest)
      ∙ read_text_lem l.cid (write_links ls ++ rest) in
    read_links_step (length ls) (write_links (l ∷ ls) ++ rest) l.name (tail ++ rest) l.cid
      (write_links ls ++ rest) ls rest e e' (read_links_lem ls rest)

abbrev pub read_attributes : Bytes → Option Attributes
read_attributes [] = none
read_attributes (n ∷ xs) = after (read_links n xs) λ c. some (record { links = c.0; content = c.1 })

abbrev pub listed : NodeJson
listed = record {
  marshal = λ a. length a.links ∷ (write_links a.links ++ a.content);
  unmarshal = read_attributes;
}

abbrev pub decode_kind : Bytes → Option ℕ
decode_kind [] = none
decode_kind (k ∷ d) = some k

abbrev pub decode_raw : Bytes → Option Bytes
decode_raw [] = none
decode_raw (k ∷ d) = some d

abbrev pub env : Env (KeyMap Bytes)
env = record {
  hashing = short_hash;
  nodes = listed;
  inodes = record { marshal_raw = λ d. 0 ∷ d; decode_kind = decode_kind; decode_raw = decode_raw };
  db = table;
}

length-write_links :
    (ls : List Link)
    → All (λ l. (l.name ≡ []) × (length l.cid ≡ 52)) ls
    → length (write_links ls) ≡ 54 * length ls
unfolding write_links
length-write_links [] h = refl
length-write_links (l ∷ ls) h = omega (
  arith,
  ap length h.0.0,
  h.0.1,
  length-append l.name ((length l.cid ∷ l.cid) ++ write_links ls),
  length-append l.cid (write_links ls),
  length-write_links ls h.1,
)

leaf_fits :
    (d : Bytes)
    → length d ≤ chunk_size
    → length (listed.marshal (set_data (0 ∷ d) empty)) ≤ max_block_size
unfolding write_links
leaf_fits d h = omega (arith, h)

pub env-IsEnv : IsEnv env
env-IsEnv = record {
  hashing = short_hash-IsHashing;
  db = table-IsDb;
  writable = table-IsWritable;
  unmarshal-marshal = λ a h. rw (read_links_lem a.links a.content) refl;
  decode_kind-raw = λ d. refl;
  decode_raw-raw = λ d. refl;
  leaf_fits = leaf_fits;
  parent_fits =
      λ ls h g. omega (arith, h, length-write_links ls g, length-append (write_links ls) []);
}

pub empty-IsValid : IsValid short_hash table []
unfolding lookup
empty-IsValid = record { named = λ c x e. cc }

add_bytes_lem_example :
    Outcome
      (add_bytes (guarded_env env) [] (7 ∷ 8 ∷ []))
      (add_bytes env [] (7 ∷ 8 ∷ []))
      (λ r. Added env env-IsEnv [] (7 ∷ 8 ∷ []) 4 r.0 r.1)
add_bytes_lem_example = add_bytes_lem env env-IsEnv [] (7 ∷ 8 ∷ []) empty-IsValid

abbrev one_block : Block
one_block = record { cid = short_hash.base32.encode (short_hash.sha256 (7 ∷ [])); content = 7 ∷ [] }

put_block_example :
    Outcome
      (put (guarded table) [] one_block)
      (put table [] one_block)
      (Puts short_hash table [] one_block)
unfolding Cid.new
put_block_example =
    put_block short_hash table table-IsDb table-IsWritable [] one_block empty-IsValid refl

-- A file of two bytes is one node, and reads as it was.
one_leaf_run : (do (n, s) ← add_bytes env [] (7 ∷ 8 ∷ []); read_bytes env 1 s n) ≡ ok (7 ∷ 8 ∷ [])
unfolding add_bytes read_bytes write_links single
one_leaf_run = refl
