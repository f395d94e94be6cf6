-- ===== src/Eval/Session/Reached.antt =====
-- Who has the file when the download is measured by cmd/evaluate/inuctl/main.go ends.
use mathlib.Core.List.{Permᴰ}
use inu.Base.{
  ℕ, ◌≡◌, refl, sym, ap, subst, ◌∙◌, Bool, true, false, List, [], ◌∷◌, All, All-map, All-perm,
  Option, none, some, ok, err, panic, out_of_fuel, arith, Bool-cases, inl, inr, ◌==◌,
}
use inu.Cid.{Bytes, Cid}
use inu.Http.{Text}
use inu.Eval.Addresses.{Result}
use inu.Eval.Load.{DlSpeedCtl}
use inu.Eval.Controller.{new_file}
use inu.Eval.Session.{
  Calls, ack_netem, after, after_cid, after_ack, after_file, connect_all, download_all, upload_file,
  ctl_dl_speed,
}

-- Which daemon has which file: an upload and a download that succeed say so, and nothing is lost.
pub record Tracks {World : Type 0} (calls : Calls World) (Has : World → Text → Cid → Type 0)
    : Type 0 where
  pub uploaded : (w v : World) (ip : Text) (c : Cid) → calls.upload w ip c ≡ (v, true) → Has v ip c
  pub downloaded :
      (w v : World) (ip : Text) (c : Cid) → calls.download w ip c ≡ (v, true) → Has v ip c
  pub download_keeps :
      (w v : World) (ip jp : Text) (c d : Cid)
      → calls.download w ip c ≡ (v, true)
      → Has w jp d
      → Has v jp d

after-ok :
    {World A : Type 0} (r : World × Bool) (f : World → World × Result A) (w' : World) (x : A)
    → after r f ≡ (w', ok x)
    → (v : World) × (r ≡ (v, true)) × (f v ≡ (w', ok x))
after-ok (v, true) f w' x e = (v, refl, e)
after-ok (v, false) f w' x e = cc

after_cid-ok :
    {World A : Type 0} (r : World × Option Cid) (f : World → Cid → World × Result A) (w' : World)
    (x : A)
    → after_cid r f ≡ (w', ok x)
    → (v : World) × (c : Cid) × (r ≡ (v, some c)) × (f v c ≡ (w', ok x))
after_cid-ok (v, some c) f w' x e = (v, c, refl, e)
after_cid-ok (v, none) f w' x e = cc

after_ack-ok :
    {World A : Type 0} (r : World × Option ℕ) (f : World → World × Result A) (w' : World) (x : A)
    → after_ack r f ≡ (w', ok x)
    → (v : World) × (r ≡ (v, some ack_netem)) × (f v ≡ (w', ok x))
after_ack-ok (v, some a) f w' x e = elim (Bool-cases (a == ack_netem)) [
  | inl same ↦
      let is_ack : a ≡ ack_netem = ground (arith, same) in
      (v, ap (λ n. (v, some n)) is_ack, sym (rw (same) refl) ∙ e)
  | inr other ↦ absurd (ground (arith, other, e))
]
after_ack-ok (v, none) f w' x e = cc

after_file-ok :
    {World A : Type 0} (w : World) (r : Result Bytes) (f : Bytes → World × Result A) (w' : World)
    (x : A)
    → after_file w r f ≡ (w', ok x)
    → (d : Bytes) × (r ≡ ok d) × (f d ≡ (w', ok x))
after_file-ok w (ok d) f w' x e = (d, refl, e)
after_file-ok w (err z) f w' x e = cc
after_file-ok w panic f w' x e = cc
after_file-ok w out_of_fuel f w' x e = cc

module _ {World : Type 0} (calls : Calls World) (read : ℕ → Bytes)
    (Has : World → Text → Cid → Type 0) (law : Tracks calls Has) where
  connect_all-ok :
      (ips : List Text) (w w' : World) (f : World → World × Result Cid) (x : Cid)
      → connect_all calls read ips w f ≡ (w', ok x)
      → (v : World) × (f v ≡ (w', ok x))
  unfolding connect_all
  connect_all-ok [] w w' f x e = (w, e)
  connect_all-ok (ip ∷ ips) w w' f x e =
      let (v, _, e') = after-ok (calls.connect w ip) _ w' x e in connect_all-ok ips v w' f x e'

  download_all-ok :
      (c : Cid) (ips : List Text) (w w' : World) (f : World → World × Result Cid) (x : Cid)
      → download_all calls read c ips w f ≡ (w', ok x)
      → (v : World) × (f v ≡ (w', ok x))
        × All (λ ip. Has v ip c) ips
        × ((jp : Text) (d : Cid) → Has w jp d → Has v jp d)
  unfolding download_all
  download_all-ok c [] w w' f x e = (w, e, tt, λ jp d h. h)
  download_all-ok c (ip ∷ ips) w w' f x e =
      let (u, got, e') = after-ok (calls.download w ip c) _ w' x e in
      let (v, e'', all, keeps) = download_all-ok c ips u w' f x e' in
      (
        v,
        e'',
        (keeps ip c (law.downloaded w u ip c got), all),
        λ jp d h. keeps jp d (law.download_keeps w u ip jp c d got h),
      )

  upload_file-ok :
      (ip : Text) (size : ℕ) (w w' : World) (f : World → Cid → World × Result Cid) (x : Cid)
      → upload_file calls read ip size w f ≡ (w', ok x)
      → (v : World) × (c : Cid) × (f v c ≡ (w', ok x)) × Has v ip c
  unfolding upload_file
  upload_file-ok ip size w w' f x e =
      let (d, _, e1) = after_file-ok w (new_file read size) _ w' x e in
      let (u, c, _, e2) = after_cid-ok (calls.add_bytes w ip d) _ w' x e1 in
      let (v, sent, e3) = after-ok (calls.upload u ip c) _ w' x e2 in
      (v, c, e3, law.uploaded u v ip c sent)

  -- The measured download: the request to the network manager that is acknowledged comes right before
  -- it, and at that request the uploader and all the midstream daemons have the file.
  pub record Measured (ctl : DlSpeedCtl) (w' : World) (x : Cid) : Type 0 where
    pub settled : World
    pub changed : World
    pub at_uploader : Has settled ctl.uploader_ip x
    pub at_midstream : All (λ ip. Has settled ip x) ctl.midstream_ips
    pub acked : calls.request_netem settled ≡ (changed, some ack_netem)
    pub measured : calls.download changed ctl.downloader_ip x ≡ (w', true)

  -- A measurement of the speed that ends without a panic: its last call is a download of the file by the
  -- downloader, from a world in which the network manager has acknowledged the request that was sent when
  -- the uploader and every midstream daemon had the file, in whatever order these got it.
  pub ctl_dl_speed-Measured :
      (ctl : DlSpeedCtl) (order : List Text) (perm : Permᴰ order ctl.midstream_ips) (w w' : World)
      (x : Cid)
      → ctl_dl_speed calls read ctl order perm w ≡ (w', ok x)
      → Measured ctl w' x
  unfolding ctl_dl_speed
  ctl_dl_speed-Measured ctl order perm w w' x e =
      let (w1, e1) =
        connect_all-ok (ctl.uploader_ip ∷ ctl.downloader_ip ∷ ctl.midstream_ips) w w' _ x e in
      let (w2, c, e2, has) = upload_file-ok ctl.uploader_ip ctl.filesize w1 w' _ x e1 in
      let (w3, e3, all, keeps) = download_all-ok c order w2 w' _ x e2 in
      let (w4, acked, e4) = after_ack-ok (calls.request_netem w3) _ w' x e3 in
      let (w5, got, done) = after-ok (calls.download w4 ctl.downloader_ip c) _ w' x e4 in
      let name : c ≡ x = ground (arith, done) in
      let world : w5 ≡ w' = ap (λ z. z.0) done in
      record {
        settled = w3;
        changed = w4;
        at_uploader = subst (Has w3 ctl.uploader_ip) name (keeps ctl.uploader_ip c has);
        at_midstream =
            All-perm (λ ip. Has w3 ip x) perm
              (All-map _ _ (λ ip h. subst (Has w3 ip) name h) order all);
        acked = acked;
        measured =
            ap (calls.download w4 ctl.downloader_ip) (sym name) ∙ got ∙ ap (λ v. (v, true)) world;
      }
