-- ===== src/Tests/Evals.antt =====
-- The measurements at inputs that meet the hypotheses.
use inu.Base.{◌≡◌, ◌≢◌, refl, ap, subst, List, [], ◌∷◌, none, some, true, false, arith}
use inu.Key.{key_eq}
use inu.Eval.Addresses.{Address, hosts, inner, mask_ip, list_from, inc_from}
use inu.Eval.Allocator.{Allocator, new_allocator, Turns, rest, offering, receiving}
use inu.Eval.Allocator.Once.{count, count_offered}
use inu.Eval.Allocator.Hosts.{allocated_once}
use inu.Eval.Files
use inu.Eval.Files.{Files, new_files, Place, leaving, returned, cancelled, own, place_step, makes}
use inu.Eval.Files.Stuck.{cleanup_stuck}
use inu.Eval.Controller.{new_file}
use mathlib.Core.List.{Permᴰ, Mem, mem-cons_self, mem-cons_of_mem}
use inu.Http.{Text}
use inu.Eval.Load.{DlSpeedCtl}
use inu.Eval.Session.{Calls, ctl_dl_speed, connect_all, download_all, upload_file}
use inu.Eval.Session.Reached.{Tracks, Measured, ctl_dl_speed-Measured}

-- A network of four addresses of one byte, with the two in its middle to give out.
abbrev two_hosts : List Address
two_hosts = (5 ∷ []) ∷ (6 ∷ []) ∷ []

abbrev one_taken : Allocator
one_taken = record { free = (6 ∷ []) ∷ []; offered = none; taken = (5 ∷ []) ∷ [] }

offered_taken : Turns (new_allocator two_hosts) one_taken
offered_taken =
    receiving (record { free = (6 ∷ []) ∷ []; offered = some (5 ∷ []); taken = [] }) (5 ∷ [])
      (offering (new_allocator two_hosts)
        (record { free = (6 ∷ []) ∷ []; offered = some (5 ∷ []); taken = [] }) rest refl refl)
      refl

allocated_once_example :
    (count (5 ∷ []) [] ≡ 0)
    × (count (5 ∷ []) ((6 ∷ []) ∷ []) ≡ 0)
    × (count_offered (5 ∷ []) none ≡ 0)
unfolding hosts list_from inner mask_ip inc_from key_eq
allocated_once_example =
    allocated_once 257 6 (7 ∷ []) two_hosts one_taken [] [] (5 ∷ []) (omega arith) (omega arith)
      (omega arith) (omega arith) refl offered_taken refl

-- The maker has come to the deferred call of `cleanup`.
abbrev stuck : Files
stuck = record { maker = leaving; remover = Files.outside; locked = true }

cleanup_stuck_example :
    (stuck.maker ≢ returned)
    × (stuck.remover ≢ returned)
    × (stuck.maker ≡ leaving → place_step own stuck.maker stuck.locked ≡ none)
    × (stuck.remover ≡ leaving → place_step own stuck.remover stuck.locked ≡ none)
unfolding place_step
cleanup_stuck_example = cleanup_stuck stuck own (
    makes (record stuck { maker = Files.removing }) cancelled leaving true
      (makes (record stuck { maker = Files.cleaning; locked = false }) own Files.removing true
        (makes (record stuck { maker = Files.outside; locked = false }) cancelled Files.cleaning
          false
          (makes (record stuck { maker = Files.inside }) own Files.outside false
            (makes new_files own Files.inside true Files.rest refl) refl)
          refl)
        refl)
      refl)

-- A world that is who has the file.
abbrev tracked : Calls (List Text)
tracked = record {
  connect = λ w ip. (w, true);
  add_bytes = λ w ip d. (w, some (9 ∷ []));
  upload = λ w ip c. (ip ∷ w, true);
  download = λ w ip c. (ip ∷ w, true);
  request_netem = λ w. (w, some 0);
}

tracked-Tracks : Tracks tracked (λ w ip c. Mem ip w)
tracked-Tracks = record {
  uploaded = λ w v ip c e. subst (Mem ip) (ap (λ z. z.0) e) mem-cons_self;
  downloaded = λ w v ip c e. subst (Mem ip) (ap (λ z. z.0) e) mem-cons_self;
  download_keeps = λ w v ip jp c d e h. subst (Mem jp) (ap (λ z. z.0) e) (mem-cons_of_mem ip h);
}

abbrev speed : DlSpeedCtl
speed = record {
  uploader_ip = 1 ∷ [];
  downloader_ip = 2 ∷ [];
  midstream_ips = (3 ∷ []) ∷ (4 ∷ []) ∷ [];
  filesize = 5;
}

abbrev all_four : List Text
all_four = (2 ∷ []) ∷ (3 ∷ []) ∷ (4 ∷ []) ∷ (1 ∷ []) ∷ []

speed_order : Permᴰ ((4 ∷ []) ∷ (3 ∷ []) ∷ []) speed.midstream_ips
speed_order = Permᴰ.swap refl refl

ctl_dl_speed-Measured_example :
    Measured tracked (λ n. []) (λ w ip c. Mem ip w) tracked-Tracks speed all_four (9 ∷ [])
unfolding ctl_dl_speed connect_all download_all upload_file new_file
ctl_dl_speed-Measured_example =
    ctl_dl_speed-Measured tracked (λ n. []) (λ w ip c. Mem ip w) tracked-Tracks speed
      ((4 ∷ []) ∷ (3 ∷ []) ∷ []) speed_order [] all_four (9 ∷ []) refl
