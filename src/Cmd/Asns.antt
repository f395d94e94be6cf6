-- ===== src/Cmd/Asns.antt =====
-- The table of autonomous systems that cmd/inu/dht.go reads into a node's trie.
use inu.Base.{
  ℕ, zero, suc, ◌+◌, ◌≤◌, ◌≡◌, refl, ap, subst, ◌∙◌, Bool, true, false, ◌||◌, List, [], ◌∷◌, length,
  some, ok, err, panic, out_of_fuel, if◌then◌else◌, arith, ℤ, pos,
}
use inu.Http.{Text}
use inu.Asn.{TrieNode, v4, bit_at, match, new_node, insert}
use inu.Asn
use inu.Asn.Labels.{label, has_node, Spells}
use inu.Asn.Insert.{insert_lem, path_eq, is_prefix}
use inu.Asn.Match.{longest, better, match-longest}
use inu.Cmd.{System, update_asn, update_asns}

-- A line of the table that can be read: an IPv4 prefix and a number.
pub record Entry : Type 0 where
  pub buf : List ℕ
  pub bits : ℕ
  pub asn : ℤ

pub record IsLine (sys : System) (l : Text × Text) (e : Entry) : Type 0 where
  pub prefix : sys.parse_prefix l.0 ≡ some (record { addr = v4 e.buf; bits = pos e.bits })
  pub number : sys.atoi l.1 ≡ some e.asn
  pub size : length e.buf ≡ 4
  pub short : e.bits ≤ 32

-- The lines are those of the entries.
abbrev pub AreLines : System → List (Text × Text) → List Entry → Type 0
AreLines sys [] [] = Unit
AreLines sys [] (e ∷ es) = ⊥
AreLines sys (l ∷ ls) [] = ⊥
AreLines sys (l ∷ ls) (e ∷ es) = IsLine sys l e × AreLines sys ls es

abbrev bit_of : Asn.Result Bool → Bool
bit_of (ok b) = b
bit_of (err e) = false
bit_of panic = false
bit_of out_of_fuel = false

-- The bits of an address from `i` on.
unfoldable pub bits_of : List ℕ → ℕ → ℕ → List Bool
unfolding bit_at
bits_of buf i zero = []
bits_of buf i (suc n) = bit_of (bit_at buf i) ∷ bits_of buf (i + 1) n

abbrev pub path_of : Entry → List Bool
path_of e = bits_of e.buf 0 e.bits

-- The number that the table gives to a path: that of the last line for it.
unfoldable pub last_of : List Entry → List Bool → ℤ → ℤ
last_of [] q old = old
last_of (e ∷ es) q old = last_of es q (if path_eq (path_of e) q then e.asn else old)

-- Whether the path leads to a prefix of the table, or goes on to one.
unfoldable pub leads : List Entry → List Bool → Bool
leads [] q = false
leads (e ∷ es) q = is_prefix q (path_of e) || leads es q

Spells-bits_of :
    (buf : List ℕ) (i : ℕ) (p : List Bool) → Spells buf i p → p ≡ bits_of buf i (length p)
unfolding bits_of
Spells-bits_of buf i [] s = refl
Spells-bits_of buf i (b ∷ p) s = rw (s.0) (ap (◌∷◌ b) (Spells-bits_of buf (i + 1) p s.1))

-- What the loop leaves of a trie.
record Loaded (es : List Entry) (t t' : TrieNode) : Type 0 where
  labels : (q : List Bool) → label t' q ≡ last_of es q (label t q)
  nodes : (q : List Bool) → has_node t' q ≡ (leads es q || has_node t q)

update_asns_lem :
    (sys : System) (ls : List (Text × Text)) (es : List Entry) (t : TrieNode)
    → AreLines sys ls es
    → has_node t [] ≡ true
    → (t' : TrieNode) × (update_asns sys t ls ≡ ok t') × Loaded es t t'
unfolding update_asns last_of leads
update_asns_lem sys [] [] t h root = (t, refl, record { labels = λ q. refl; nodes = λ q. refl })
update_asns_lem sys [] (e ∷ es) t h root = absurd h
update_asns_lem sys (l ∷ ls) [] t h root = absurd h
update_asns_lem sys (l ∷ ls) (e ∷ es) t h root =
    let line = h.0 in
    let (p, u, long, spelled, ran, made) =
      insert_lem t e.buf e.bits e.asn root line.size line.short in
    let same : p ≡ path_of e = Spells-bits_of e.buf 0 p spelled ∙ ap (bits_of e.buf 0) long in
    let first : update_asn sys t l ≡ ok u =
      unfold update_asn in rw (line.prefix, line.number, ran) refl in
    let (t', rest, loaded) = update_asns_lem sys ls es u h.1 made.root in
    (
      t',
      rw (first) rest,
      record {
        labels = λ q.
            loaded.labels q
            ∙ ap (last_of es q) (
                made.labels q
                ∙ ap (λ (z : List Bool). if path_eq z q then e.asn else label t q) same);
        nodes = λ q.
            ground
              (arith, loaded.nodes q, made.nodes q, ap (λ (z : List Bool). is_prefix q z) same);
      },
    )

longest_ext :
    (f g : List Bool → ℤ) (q : List Bool) (best : ℤ × Bool)
    → ((p : List Bool) → f p ≡ g p)
    → longest f q best ≡ longest g q best
unfolding longest
longest_ext f g [] best h = ap (λ z. better z best) (h [])
longest_ext f g (b ∷ q) best h =
    ap (λ z. longest (λ p. f (b ∷ p)) q (better z best)) (h [])
    ∙ longest_ext (λ p. f (b ∷ p)) (λ p. g (b ∷ p)) q (better (g []) best) (λ p. h (b ∷ p))

label-new_node : (q : List Bool) → label new_node q ≡ pos 0
unfolding label
label-new_node [] = refl
label-new_node (false ∷ q) = refl
label-new_node (true ∷ q) = refl

has_node-new_node : (q : List Bool) → length q ≡ 32 → has_node new_node q ≡ false
unfolding has_node
has_node-new_node [] h = absurd (omega (arith, h))
has_node-new_node (false ∷ q) h = refl
has_node-new_node (true ∷ q) h = refl

-- What `parseNode` does with a table whose lines are all IPv4 prefixes with numbers: it loads it
-- without an error, and `Match` of an IPv4 address then gives the number of the longest prefix of the
-- table that has the address, by the last line for that prefix, where 0 counts as none; an address that
-- is a prefix of the table in all its 32 bits panics.
pub match-update_asns :
    (sys : System) (ls : List (Text × Text)) (es : List Entry) (buf : List ℕ)
    → AreLines sys ls es
    → length buf ≡ 4
    → (t : TrieNode) × (update_asns sys new_node ls ≡ ok t)
      × (match t (v4 buf) ≡ (
          if leads es (bits_of buf 0 32)
          then panic
          else ok (longest (λ q. last_of es q (pos 0)) (bits_of buf 0 32) (pos 0, false))))
match-update_asns sys ls es buf h size =
    let (t, ran, loaded) = update_asns_lem sys ls es new_node h (unfold has_node in refl) in
    let (q, long, spelled, matched) = match-longest t buf size in
    let same : q ≡ bits_of buf 0 32 = Spells-bits_of buf 0 q spelled ∙ ap (bits_of buf 0) long in
    let nodes : has_node t q ≡ leads es q =
      ground (arith, loaded.nodes q, has_node-new_node q long) in
    let labels =
      longest_ext (label t) (λ p. last_of es p (pos 0)) q (pos 0, false)
        (λ p. loaded.labels p ∙ ap (last_of es p) (label-new_node p)) in
    (
      t,
      ran,
      subst
          (λ z. match t (v4 buf) ≡ (
            if leads es z
            then panic
            else ok (longest (λ q. last_of es q (pos 0)) z (pos 0, false))))
          same (matched ∙ rw (nodes, labels) refl),
    )
