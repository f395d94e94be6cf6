-- ===== src/Tests/Daemons.antt =====
-- Runs of the daemon over the encodings of Tests/Codecs, and the properties at inputs that meet their
-- hypotheses.
use mathlib.Core.List.{Mem, mem-cons_self, mem-cons_of_mem}
use inu.Base.{
  ◌≡◌, ◌≢◌, ◌⊎◌, Any, inl, inr, refl, ap, subst, false, List, [], ◌∷◌, ◌++◌, true, replicate, All,
  ok, panic, arith,
}
use inu.Key.{Key, key_eq}
use inu.Key.Encoding.{marshal_b32, unmarshal_b32}
use inu.KeyMap.{KeyMap, lookup, insert}
use inu.Cid
use inu.Cid.{Bytes, Cid, Hashing}
use inu.Key.Number.{key_eq_iff}
use inu.Store
use inu.Store.{Block, write_failed}
use inu.Store.Laws.{IsValid}
use inu.Merkle.{Node, Link, parse_block}
use inu.Fs.{
  Env, resolve_parts, resolve_path, dag, dag_links, split, file, folder, entry, no_entries,
  add_path, add_bytes, find_link,
}
use inu.Fs
use inu.Fs.Paths.{add_path_lem}
use inu.Fs.Folders.{AddedPath, HasNames}
use inu.Fs.Nodes.{guarded_env}
use inu.Store.Guard.{Follows}
use inu.Daemon.{
  Network, next, call, put_keys, upload, start, fetch, save, announce, run, fetch_node, remove_own,
}
use inu.Daemon.Files.{Observes, upload-announced}
use inu.Daemon.Service
use inu.Daemon.Service.{Service, Accepting, new_service, stop}
use inu.Daemon.Service.Quiet.{stop-Accepts}
use inu.Daemon.Downloads.{Group, finish, turn, Reaches, stay, more}
use inu.Daemon.Downloads.Held.{IsHonest, IsHeld}
use inu.Daemon.Downloads.Log.{Logs, IsTold}
use inu.Daemon.Downloads.Told.{IsToldName, download_complete}
use inu.Daemon.Downloads.Ordered.{download-IsHeld}
use inu.Tests.Codecs.{env, env-IsEnv, table, table-IsDb, short_hash, empty-IsValid, read_links}
use inu.Tests.Keys.{padded}

add_path_lem_example :
    let home = folder (entry (97 ∷ []) (file (7 ∷ [])) no_entries) in
    Follows
      (add_path (guarded_env env) [] (46 ∷ []) home)
      (add_path env [] (46 ∷ []) home)
      (λ x. AddedPath env env-IsEnv [] home x.0 x.1 x.2)
unfolding HasNames
add_path_lem_example =
    add_path_lem env env-IsEnv [] (46 ∷ []) (folder (entry (97 ∷ []) (file (7 ∷ [])) no_entries))
      empty-IsValid ((omega arith, tt), tt, tt)

-- Names that can be read as keys.
abbrev readable : Env (KeyMap Bytes)
readable = record env { hashing = record { sha256 = short_hash.sha256; base32 = padded } }

-- An attribute text without links: the name of its block is that of its bytes.
abbrev text_bytes : Bytes
text_bytes = 0 ∷ 5 ∷ []

abbrev key_of_bytes : Key
key_of_bytes = 0 ∷ 5 ∷ replicate 30 0

abbrev name_of_bytes : Cid
name_of_bytes = key_of_bytes ++ replicate 20 65

abbrev one_stored : KeyMap Bytes
one_stored = (name_of_bytes, text_bytes) ∷ []

abbrev block : Block
block = record { cid = name_of_bytes; content = text_bytes }

abbrev leaf : Node
leaf = record { attr = record { links = []; content = 5 ∷ [] }; block = block }

-- One peer, which has the block.
abbrev pub net : Network (List Key)
net = record {
  find_peers = λ w k. (w, ok (record { ip = 49 ∷ []; port = 6000 } ∷ []));
  put_key = λ w k. (k ∷ w, ok tt);
  get_block = λ w p k. (w, ok (record { cid = marshal_b32 padded k; content = text_bytes }));
}

name_lem : Cid.new readable.hashing {E = Store.Error} text_bytes ≡ ok name_of_bytes
unfolding Cid.new
name_lem = refl

one_stored-IsValid : IsValid readable.hashing table one_stored
unfolding lookup
one_stored-IsValid = record {
  named = λ c x e. ground (arith, name_lem, key_eq_iff name_of_bytes c, e);
}

net-Observes : Observes net (λ w. w)
net-Observes = record {
  told = λ w w' k e. subst (Mem k) (ap (λ z. z.0) e) mem-cons_self;
  keeps = λ w w' k j e m. subst (Mem j) (ap (λ z. z.0) e) (mem-cons_of_mem k m);
}

upload-announced_example : Mem key_of_bytes (key_of_bytes ∷ [])
unfolding upload put_keys next call resolve_path split dag dag_links Fs.fetch resolve_parts
    parse_block read_links lookup key_eq unmarshal_b32
upload-announced_example =
    upload-announced readable net (λ w. w) net-Observes 2 one_stored [] (key_of_bytes ∷ [])
      name_of_bytes 1 leaf leaf [] refl refl refl key_of_bytes refl

abbrev G : Type 0
G = Group (KeyMap Bytes) (List Key)

abbrev first : G
first = record {
  store = [];
  world = [];
  tasks = start name_of_bytes ∷ [];
  failed = false;
  announced = [];
}

abbrev last : G
last = record {
  store = one_stored;
  world = key_of_bytes ∷ [];
  tasks = [];
  failed = false;
  announced = (key_of_bytes, leaf) ∷ [];
}

four_steps : Reaches readable net [] first last
unfolding turn finish run next call fetch_node remove_own parse_block read_links lookup insert
    key_eq unmarshal_b32 marshal_b32 Cid.new Store.valid Store.put
four_steps =
    more [] [] (announce key_of_bytes leaf)
      (record first { store = one_stored; tasks = announce key_of_bytes leaf ∷ [] })
      (more [] [] (save key_of_bytes leaf) (record first { tasks = save key_of_bytes leaf ∷ [] })
        (more [] [] (fetch key_of_bytes) (record first { tasks = fetch key_of_bytes ∷ [] })
          (more [] [] (start name_of_bytes) first stay refl) refl)
        refl)
      refl

net-IsHonest : IsHonest readable net
net-IsHonest = record { cid-get_block = λ w w' p k b e. ground (arith, e) }

net-Logs : Logs net (λ w. w)
unfolding Any
net-Logs = record {
  tells = λ w w' k e. subst (Any (λ i. i ≡ k)) (ap (λ z. z.0) e) (inl refl);
  keeps = λ w k j a. inr a;
  only = λ w k j a. a;
  find_same = λ w k. refl;
  get_same = λ w p k. refl;
}

download_complete_example :
    IsToldName readable net [] (λ w. w) net-Logs last.world name_of_bytes
    × All
        (λ (a : Key × Node).
          IsTold readable net [] (λ w. w) net-Logs last.world a.0
          × All
              (λ (l : Link). IsToldName readable net [] (λ w. w) net-Logs last.world l.cid)
              a.1.attr.links)
        last.announced
download_complete_example =
    download_complete readable net [] (λ w. w) net-Logs name_of_bytes first last refl refl
      four_steps refl refl

key-IsTold : IsTold readable net [] (λ w. w) net-Logs last.world key_of_bytes
unfolding Any
key-IsTold = inl refl

download-IsHeld_example :
    Any (λ i. i ≡ key_of_bytes) [] ⊎ IsHeld readable net [] last.store key_of_bytes
download-IsHeld_example =
    download-IsHeld readable net [] (λ w. w) net-Logs name_of_bytes key_of_bytes first last
      table-IsDb net-IsHonest refl refl four_steps key-IsTold

-- A daemon that has begun to accept.
abbrev accepting : Service
accepting = record new_service {
  public_open = true;
  private_open = true;
  private_set = true;
  accepting = Accepting.waiting;
}

stop-Accepts_example :
    ((accepting.accepting ≢ Accepting.not_begun)
      × ((stop true true accepting).1 ≡ ok tt)
      × ((stop true true accepting).0.private_open ≡ false)
      × ((stop true true accepting).0.served ≡ 0))
    ⊎ ((accepting.accepting ≡ Accepting.not_begun) × ((stop true true accepting).1 ≡ panic))
unfolding Service.start
stop-Accepts_example =
    stop-Accepts (record new_service { public_open = true; private_open = true }) accepting
      (stop true true accepting).0 refl
      (Service.turn (record new_service { public_open = true; private_open = true }) accepting
        Service.rest refl)
      Service.rest
