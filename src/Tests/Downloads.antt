-- ===== src/Tests/Downloads.antt =====
-- A download of one daemon from another, over an encoding of names that can be read back.
use inu.Base.{
  ℕ, zero, suc, ◌≡◌, refl, List, [], ◌∷◌, ◌++◌, Option, none, some, false, ok, err, arith,
  Option-cases, inl, inr,
}
use inu.Key.{Key, key_eq}
use inu.Key.Number.{key_eq_iff}
use inu.Key.Encoding.{marshal_b32, unmarshal_b32}
use inu.KeyMap.{KeyMap, lookup, insert}
use inu.Cid
use inu.Cid.{Bytes, Cid}
use inu.Http
use inu.Store
use inu.Store.{Block, new_block}
use inu.Store.Laws.{IsValid}
use inu.Merkle.{build, parse_block}
use inu.Fs
use inu.Fs.{Env, add_bytes, split, resolve_path, resolve_parts, read_bytes, read_leaf, find_link}
use inu.Fs.Contents.{IsEnv}
use inu.Daemon.{
  Network, next, call, add, cat, Task, start, run, fetch_node, remove_own, serve_block,
}
use inu.Daemon.Downloads.{Group, finish, turn, Reaches, stay, more}
use inu.Daemon.Downloads.Copied.{Serves}
use inu.Daemon.Downloads.Cat.{cat_downloaded, add-cat_downloaded}
use inu.Tests.Codecs.{env, env-IsEnv, table, table-IsDb, read_links, write_links, read_text}
use inu.Tests.Letters.{
  lettered, lettered-IsHashing, letters, letters-IsBase32, encode, decode, pairs, unpairs,
}

abbrev there : Env (KeyMap Bytes)
there = record env { hashing = lettered }

there-IsEnv : IsEnv there
there-IsEnv = record {
  hashing = lettered-IsHashing;
  db = env-IsEnv.db;
  writable = env-IsEnv.writable;
  unmarshal-marshal = env-IsEnv.unmarshal-marshal;
  decode_kind-raw = env-IsEnv.decode_kind-raw;
  decode_raw-raw = env-IsEnv.decode_raw-raw;
  leaf_fits = env-IsEnv.leaf_fits;
  parent_fits = env-IsEnv.parent_fits;
}

-- Two bytes in a file, and a folder that has it under the name `a`.
abbrev leaf_bytes : Bytes
leaf_bytes = 0 ∷ 0 ∷ 7 ∷ 8 ∷ []

abbrev leaf_name : Cid
leaf_name = letters.encode (lettered.sha256 leaf_bytes)

abbrev folder_bytes : Bytes
folder_bytes = 1 ∷ (write_links (record { name = 97 ∷ []; cid = leaf_name } ∷ []))

abbrev folder_name : Cid
folder_name = letters.encode (lettered.sha256 folder_bytes)

abbrev served : KeyMap Bytes
served = (folder_name, folder_bytes) ∷ (leaf_name, leaf_bytes) ∷ []

abbrev reply : Cid → Option Bytes → Http.Result Block
reply c none = err (Http.bad_code 404)
reply c (some x) = ok (record { cid = c; content = x })

-- One peer, which serves what its store has.
abbrev serving : KeyMap Bytes → Network (List Key)
serving s = record {
  find_peers = λ w k. (w, ok (record { ip = 49 ∷ []; port = 6000 } ∷ []));
  put_key = λ w k. (k ∷ w, ok tt);
  get_block = λ w p k. (w, reply (marshal_b32 letters k) (lookup (marshal_b32 letters k) s));
}

serving-Serves : (s : KeyMap Bytes) → Serves there (serving s) s
unfolding serve_block Store.get
serving-Serves s = record {
  get_block-serve = λ w w' p k b e. elim (Option-cases (lookup (marshal_b32 letters k) s)) [
    | inl free ↦ absurd (ground (arith, free, e))
    | inr (x, found) ↦ ground (arith, found, e)
  ];
}

abbrev G : Type 0
G = Group (KeyMap Bytes) (List Key)

-- The step of the foremost task.
unfoldable advance : Network (List Key) → List Task → G → G
unfolding turn
advance net [] g = g
advance net (t ∷ ts) g = turn there net [] t ts g

unfoldable steps : Network (List Key) → ℕ → G → G
unfolding advance
steps net zero g = g
steps net (suc n) g = let h = steps net n g in advance net h.tasks h

steps-Reaches : (net : Network (List Key)) (n : ℕ) (g : G) → Reaches there net [] g (steps net n g)
unfolding steps
steps-Reaches net zero g = stay
steps-Reaches net (suc n) g = let h = steps net n g in go h h.tasks refl (steps-Reaches net n g)
  where
    go :
        (h : G) (ts : List Task)
        → h.tasks ≡ ts
        → Reaches there net [] g h
        → Reaches there net [] g (advance net ts h)
    go h [] e r = r
    go h (t ∷ ts) e r = more [] ts t h r e

abbrev begun : Cid → G
begun c = record { store = []; world = []; tasks = start c ∷ []; failed = false; announced = [] }

abbrev added : KeyMap Bytes
added = (leaf_name, leaf_bytes) ∷ []

-- Eight steps copy the folder and its file.
eight_steps :
    cat there 3 (steps (serving served) 8 (begun folder_name)).store (folder_name ++ (47 ∷ 97 ∷ []))
    ≡ ok (7 ∷ 8 ∷ [])
unfolding steps advance turn finish run next call fetch_node remove_own parse_block read_links
    read_text write_links lookup insert key_eq unmarshal_b32 marshal_b32 Cid.new Store.valid
    Store.put encode decode pairs unpairs cat resolve_path resolve_parts split Fs.fetch Store.get
    read_bytes read_leaf find_link
eight_steps = refl

leaf_named : Cid.new lettered {E = Store.Error} leaf_bytes ≡ ok leaf_name
unfolding Cid.new
leaf_named = refl

folder_named : Cid.new lettered {E = Store.Error} folder_bytes ≡ ok folder_name
unfolding Cid.new write_links encode
folder_named = refl

served-IsValid : IsValid lettered table served
unfolding lookup
served-IsValid = record {
  named = λ c x e.
      ground (arith, leaf_named, folder_named, key_eq_iff folder_name c, key_eq_iff leaf_name c, e);
}

cat_downloaded_example :
    cat there 3 (steps (serving served) 8 (begun folder_name)).store (folder_name ++ (47 ∷ 97 ∷ []))
    ≡ ok (7 ∷ 8 ∷ [])
unfolding steps advance turn finish run next call fetch_node remove_own parse_block read_links
    read_text write_links lookup insert key_eq unmarshal_b32 marshal_b32 Cid.new Store.valid
    Store.put encode decode pairs unpairs cat resolve_path resolve_parts split Fs.fetch Store.get
    read_bytes read_leaf find_link
cat_downloaded_example =
    cat_downloaded there (serving served) [] served lettered-IsHashing letters-IsBase32
      served-IsValid 3 folder_name (folder_name ++ (47 ∷ 97 ∷ [])) ((97 ∷ []) ∷ []) (7 ∷ 8 ∷ [])
      (begun folder_name) (steps (serving served) 8 (begun folder_name)) table-IsDb
      (serving-Serves served) refl refl (steps-Reaches (serving served) 8 (begun folder_name)) refl
      refl refl refl

nothing-IsValid : IsValid lettered table []
unfolding lookup
nothing-IsValid = record { named = λ c x e. cc }

add-cat_downloaded_example :
    cat there 4 (steps (serving added) 4 (begun leaf_name)).store leaf_name ≡ ok (7 ∷ 8 ∷ [])
unfolding steps advance turn finish run next call fetch_node remove_own parse_block read_links
    read_text write_links lookup insert key_eq unmarshal_b32 marshal_b32 Cid.new Store.valid
    Store.put encode decode pairs unpairs add add_bytes build new_block Fs.single
add-cat_downloaded_example =
    add-cat_downloaded there (serving added) [] there-IsEnv letters-IsBase32 4 [] added (7 ∷ 8 ∷ [])
      leaf_name (begun leaf_name) (steps (serving added) 4 (begun leaf_name)) nothing-IsValid refl
      (omega arith) (serving-Serves added) refl refl
      (steps-Reaches (serving added) 4 (begun leaf_name)) refl refl
