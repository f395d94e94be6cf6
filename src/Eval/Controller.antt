-- ===== src/Eval/Controller.antt =====
-- cmd/evaluate/inuctl/: what the controller does inside of the network. Randomness is a stream of draws.
pub mod Waits
use inu.Base.{
  ℕ, zero, suc, ◌+◌, ◌%◌, ◌/◌, ◌<◌, Bool, true, false, List, [], ◌∷◌, Option, none, some, ltb, leb,
  ◌==◌, if◌then◌else◌, Run, ok, err, panic, out_of_fuel, ◌>>=◌, replicate,
}
use inu.Key.{Key, key_eq, key_len}
use inu.Http.{Text}
use inu.Cid.{Bytes, Cid}
use inu.Eval.Addresses.{Result}

-- The three measurements, by the first argument and the number of arguments.
pub data Job : Type 0 where
  dl_speed : Text → Job
  routing churn : Job

-- "dl-speed", "routing" and "churn"
abbrev pub dl_speed_name : Text
dl_speed_name = 100 ∷ 108 ∷ 45 ∷ 115 ∷ 112 ∷ 101 ∷ 101 ∷ 100 ∷ []

abbrev pub routing_name : Text
routing_name = 114 ∷ 111 ∷ 117 ∷ 116 ∷ 105 ∷ 110 ∷ 103 ∷ []

abbrev pub churn_name : Text
churn_name = 99 ∷ 104 ∷ 117 ∷ 114 ∷ 110 ∷ []

-- `ensureNArgs` of the arguments behind the first.
abbrev pub two_args : List Text → Result Job
two_args [] = panic
two_args (addr ∷ []) = ok (dl_speed addr)
two_args (addr ∷ b ∷ args) = panic

abbrev pub one_arg : Job → List Text → Result Job
one_arg j [] = ok j
one_arg j (b ∷ args) = panic

-- The switch of `main`.
unfoldable pub job_of : List Text → Result Job
unfolding key_eq
job_of [] = panic
job_of (name ∷ args) =
    if key_eq name dl_speed_name
    then two_args args
    else if key_eq name routing_name
    then one_arg routing args
    else if key_eq name churn_name
    then one_arg churn args
    else panic

-- `g.TestConnectivity` or `inu.NewAPI` again and again: `tries i` is whether the call after `i` retries
-- succeeds. The loop of `testDlSpeed` gives up at 30 retries.
unfoldable pub connect : ℕ → (ℕ → Bool) → ℕ → Result ℕ
connect zero tries retries = out_of_fuel
connect (suc f) tries retries =
    let again = connect f tries (retries + 1) in
    if tries retries then ok retries else if leb 30 retries then panic else again

-- The loop of `newAPI`, which gives up when there were more than 30.
unfoldable pub new_api : ℕ → (ℕ → Bool) → ℕ → Result ℕ
new_api zero tries retries = out_of_fuel
new_api (suc f) tries retries =
    let again = new_api f tries (retries + 1) in
    if tries retries then ok retries else if ltb 30 retries then panic else again

-- `newFile`: `read` fills the bytes of the file.
unfoldable pub new_file : (ℕ → Bytes) → ℕ → Result Bytes
new_file read zero = panic
new_file read (suc n) = ok (read (suc n))

-- `randKey`: a byte is 1 where the draw is even, and else 0. There are as many draws as bytes.
unfoldable pub key_bytes : ℕ → (ℕ → ℕ) → ℕ → Key
key_bytes zero draws i = []
key_bytes (suc n) draws i = (if draws i % 2 == 0 then 1 else 0) ∷ key_bytes n draws (i + 1)

abbrev pub rand_key : (ℕ → ℕ) → ℕ → Key
rand_key draws i = key_bytes key_len draws i

-- The loop of `sessionTimes`, in thousandths: draws below a second are thrown away, and the rest of the
-- seconds is cut off.
unfoldable pub session_time : ℕ → (ℕ → ℕ) → ℕ → Result (ℕ × ℕ)
session_time zero draws i = out_of_fuel
session_time (suc f) draws i =
    let again = session_time f draws (i + 1) in
    if ltb (draws i) 1000 then again else ok (draws i / 1000, i + 1)
