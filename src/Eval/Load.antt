-- ===== src/Eval/Load.antt =====
-- What cmd/evaluate/eval.go counts of captured packets. `gopacket` is a parameter: a packet is its length
-- and, when it has an IPv4 layer, the texts of its two addresses.
pub mod Counted
use inu.Base.{
  ℕ, ◌+◌, ◌/◌, ◌%◌, ◌^◌, Bool, true, false, ◌&&◌, ◌||◌, List, [], ◌∷◌, ◌++◌, Option, none, some,
  if◌then◌else◌,
}
use inu.Key.{key_eq}
use inu.Http.{Text}

pub record Ends : Type 0 where
  pub src : Text
  pub dst : Text

pub record Packet : Type 0 where
  pub ends : Option Ends
  pub size : ℕ

-- The test of `measureLoad`: the packet goes from one address to the other.
unfoldable pub between : Text → Text → Ends → Bool
between a b e = key_eq e.src a && key_eq e.dst b || key_eq e.src b && key_eq e.dst a

abbrev pub load_of : Text → Text → Packet → Option Ends → ℕ
load_of a b p none = 0
load_of a b p (some e) = if between a b e then p.size else 0

unfoldable pub measure_load : List Packet → Text → Text → ℕ
unfolding between
measure_load [] a b = 0
measure_load (p ∷ ps) a b = load_of a b p p.ends + measure_load ps a b

-- The counters of `testChurn`: the bytes, a uint64, and the set of addresses.
pub record Traffic : Type 0 where
  pub seen : ℕ
  pub nodes : List Text

-- `nodes[ip] = struct{}{}`
unfoldable pub has : Text → List Text → Bool
has a [] = false
has a (b ∷ r) = key_eq a b || has a r

abbrev pub insert_end : Text → List Text → List Text
insert_end a r = if has a r then r else a ∷ r

-- A turn of the loop of `testChurn`: packets to the bootstrap node are left out.
abbrev pub count_ends : Text → ℕ → Option Ends → Traffic → Traffic
count_ends bootstrap size none t = t
count_ends bootstrap size (some e) t = if key_eq e.dst bootstrap then t else record {
  seen = (t.seen + size) % 2 ^ 64;
  nodes = insert_end e.dst (insert_end e.src t.nodes);
}

unfoldable pub count_packets : Text → List Packet → Traffic → Traffic
unfolding has
count_packets bootstrap [] t = t
count_packets bootstrap (p ∷ ps) t =
    count_packets bootstrap ps (count_ends bootstrap p.size p.ends t)

-- `NetemConfig`, and the rate that `Attribute` gives to go-tc, which multiplies it by 8.
pub record NetemConfig : Type 0 where
  pub latency : ℕ
  pub jitter : ℕ
  pub rate : ℕ

abbrev pub rate64 : NetemConfig → ℕ
rate64 c = c.rate / 8

pub record DlSpeedCtl : Type 0 where
  pub uploader_ip : Text
  pub downloader_ip : Text
  pub midstream_ips : List Text
  pub filesize : ℕ

pub record RoutingCtl : Type 0 where
  pub uploader_ip : Text
  pub downloader_ip : Text
  pub midstream_ip : Text
  pub filesize : ℕ
