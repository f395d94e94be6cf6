-- ===== src/Cmd/Peers/Asked.antt =====
-- What the commands of cmd/inu/peer.go ask a daemon, and print.
use inu.Base.{
  Bool, true, false, List, [], ◌∷◌, ◌++◌, length, Option, none, some, ok, err, panic, out_of_fuel,
}
use inu.Cid.{Bytes}
use inu.Http.{Text}
use inu.Fs.{Record}
use inu.Config.{decimal}
use inu.Api
use inu.Api.{Api, api_add_path, api_cat, api_upload, api_download}
use inu.Cmd.Peers.{Result, api_error, abs_failed, write_failed, shown}

-- `filepath.Abs`, `fmt.Printf` and the writing to the standard output.
pub record Terminal (World : Type 0) : Type 0 where
  pub abs : Text → Option Text
  pub print : World → Text → World
  pub write : World → Bytes → World × Bool

-- "added ", " item(s)\n", "uploaded ", " node(s)\n" and "download successful\n"
abbrev pub added : Text
added = 97 ∷ 100 ∷ 100 ∷ 101 ∷ 100 ∷ 32 ∷ []

abbrev pub items : Text
items = 32 ∷ 105 ∷ 116 ∷ 101 ∷ 109 ∷ 40 ∷ 115 ∷ 41 ∷ 10 ∷ []

abbrev pub uploaded : Text
uploaded = 117 ∷ 112 ∷ 108 ∷ 111 ∷ 97 ∷ 100 ∷ 101 ∷ 100 ∷ 32 ∷ []

abbrev pub node_count : Text
node_count = 32 ∷ 110 ∷ 111 ∷ 100 ∷ 101 ∷ 40 ∷ 115 ∷ 41 ∷ 10 ∷ []

abbrev pub download_done : Text
download_done =
    100
    ∷ 111
    ∷ 119
    ∷ 110
    ∷ 108
    ∷ 111
    ∷ 97
    ∷ 100
    ∷ 32
    ∷ (115 ∷ 117 ∷ 99 ∷ 99 ∷ 101 ∷ 115 ∷ 115 ∷ 102 ∷ 117 ∷ 108 ∷ 10 ∷ [])

-- What a command does with the value of a call.
abbrev pub with_value :
    {World A : Type 0}
    → World × Api.Result A
    → (World → A → World × Result (Unit {0}))
    → World × Result (Unit {0})
with_value (w, ok x) f = f w x
with_value (w, err e) f = (w, err (api_error e))
with_value (w, panic) f = (w, panic)
with_value (w, out_of_fuel) f = (w, out_of_fuel)

module _ {World : Type 0} (t : Terminal World) where
  -- The loop of `add` over the records.
  unfoldable pub print_records : Text → Text → List Record → World → World
  unfolding shown
  print_records abs arg [] w = w
  print_records abs arg (r ∷ rs) w =
      print_records abs arg rs (t.print w (r.cid ++ (32 ∷ (shown abs arg r ++ (10 ∷ [])))))

  abbrev pub add_at : Text → Option Text → World → Api World → World × Result (Unit {0})
  add_at arg none w api = (w, err abs_failed)
  add_at arg (some abs) w api = with_value (api_add_path api.client w abs) λ w rs.
      (print_records abs arg rs (t.print w (added ++ (decimal (length rs) ++ items))), ok tt)

  unfoldable pub peer_add : Text → World → Api World → World × Result (Unit {0})
  unfolding print_records api_add_path decimal
  peer_add arg w api = add_at arg (t.abs arg) w api

  abbrev pub wrote : World × Bool → World × Result (Unit {0})
  wrote (w, true) = (w, ok tt)
  wrote (w, false) = (w, err write_failed)

  unfoldable pub peer_cat : Text → World → Api World → World × Result (Unit {0})
  unfolding api_cat
  peer_cat arg w api = with_value (api_cat api.client w arg) λ w d. wrote (t.write w d)

  unfoldable pub peer_upload : Text → World → Api World → World × Result (Unit {0})
  unfolding api_upload decimal
  peer_upload arg w api =
      with_value (api_upload api.client w arg)
        λ w n. (t.print w (uploaded ++ (decimal n ++ node_count)), ok tt)

  unfoldable pub peer_download : Text → World → Api World → World × Result (Unit {0})
  unfolding api_download
  peer_download arg w api =
      with_value (api_download api.client w arg) λ w _. (t.print w download_done, ok tt)
