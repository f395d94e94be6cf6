-- ===== src/Eval/Session.antt =====
-- `ctlDlSpeed` and `ctlRouting` of cmd/evaluate/inuctl/main.go: one daemon adds and uploads a file, and the
-- others download it by their interfaces. An error of any call is a panic.
pub mod Reached
use mathlib.Core.List.{Permᴰ}
use inu.Base.{
  ℕ, Bool, true, false, List, [], ◌∷◌, Option, none, some, if◌then◌else◌, Run, ok, err, panic,
  out_of_fuel, ◌>>=◌, ◌==◌,
}
use inu.Cid.{Bytes, Cid}
use inu.Http.{Text}
use inu.Eval.Addresses.{Result}
use inu.Eval.Load.{DlSpeedCtl, RoutingCtl}
use inu.Eval.Controller.{new_file}

-- The calls: a connection to the daemon of an address, `AddBytes`, `Upload` and `Download` of a daemon, and
-- the request to the network manager with the acknowledgement that is read.
pub record Calls (World : Type 0) : Type 0 where
  pub connect : World → Text → World × Bool
  pub add_bytes : World → Text → Bytes → World × Option Cid
  pub upload : World → Text → Cid → World × Bool
  pub download : World → Text → Cid → World × Bool
  pub request_netem : World → World × Option ℕ

-- `AckNetem`
abbrev pub ack_netem : ℕ
ack_netem = 0

-- The rest of the controller behind a call, which panics on an error.
abbrev pub after {ℓ} :
    {World : Type 0} {A : Type ℓ} → World × Bool → (World → World × Result A) → World × Result A
after (w, true) f = f w
after (w, false) f = (w, panic)

abbrev pub after_cid :
    {World : Type 0} {A : Type 0}
    → World × Option Cid
    → (World → Cid → World × Result A)
    → World × Result A
after_cid (w, none) f = (w, panic)
after_cid (w, some c) f = f w c

abbrev pub after_ack :
    {World : Type 0} {A : Type 0} → World × Option ℕ → (World → World × Result A) → World × Result A
after_ack (w, none) f = (w, panic)
after_ack (w, some a) f = if a == ack_netem then f w else (w, panic)

abbrev pub after_file :
    {World : Type 0} {A : Type 0}
    → World
    → Result Bytes
    → (Bytes → World × Result A)
    → World × Result A
after_file w (ok d) f = f d
after_file w (err e) f = (w, panic)
after_file w panic f = (w, panic)
after_file w out_of_fuel f = (w, out_of_fuel)

module _ {World : Type 0} (calls : Calls World) (read : ℕ → Bytes) where
  unfoldable pub connect_all : List Text → World → (World → World × Result Cid) → World × Result Cid
  connect_all [] w f = f w
  connect_all (ip ∷ ips) w f = after (calls.connect w ip) (λ w. connect_all ips w f)

  -- The downloads of a list of daemons, in the order in which they end.
  unfoldable pub download_all :
      Cid → List Text → World → (World → World × Result Cid) → World × Result Cid
  download_all c [] w f = f w
  download_all c (ip ∷ ips) w f = after (calls.download w ip c) (λ w. download_all c ips w f)

  unfoldable pub upload_file :
      Text → ℕ → World → (World → Cid → World × Result Cid) → World × Result Cid
  unfolding new_file
  upload_file ip size w f =
      after_file w (new_file read size)
        λ d. after_cid (calls.add_bytes w ip d) λ w c. after (calls.upload w ip c) λ w. f w c

  -- `ctlDlSpeed`, with the midstream daemons in the order in which they end; the name is what it
  -- measured.
  unfoldable pub ctl_dl_speed :
      (ctl : DlSpeedCtl) (order : List Text)
      → Permᴰ order ctl.midstream_ips
      → World
      → World × Result Cid
  unfolding connect_all download_all upload_file
  ctl_dl_speed ctl order perm w =
      connect_all (ctl.uploader_ip ∷ ctl.downloader_ip ∷ ctl.midstream_ips) w λ w.
        upload_file ctl.uploader_ip ctl.filesize w λ w c. download_all c order w λ w.
          after_ack (calls.request_netem w)
            λ w. after (calls.download w ctl.downloader_ip c) λ w. (w, ok c)

  unfoldable pub ctl_routing : RoutingCtl → World → World × Result Cid
  unfolding connect_all download_all upload_file
  ctl_routing ctl w =
      connect_all (ctl.uploader_ip ∷ ctl.downloader_ip ∷ ctl.midstream_ip ∷ []) w λ w.
        upload_file ctl.uploader_ip ctl.filesize w
          λ w c. download_all c (ctl.midstream_ip ∷ ctl.downloader_ip ∷ []) w λ w. (w, ok c)
